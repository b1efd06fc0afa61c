-- ===== src/Store/Transactions.antt =====
-- What a transaction leaves: the database as it was, or what its body made of it.
use sindri.Prelude.{◌≡◌, refl, ◌⊎◌, inl, inr, Result, ok, err}
use sindri.Store.{Database, Error, Commit, committed, refused, lost, storage, transaction}

pub Result-cases {ℓ} :
    {E : Type 0} {A : Type ℓ} (r : Result E A) → ((e : E) × (r ≡ err e)) ⊎ ((a : A) × (r ≡ ok a))
Result-cases (ok a) = inr (a, refl)
Result-cases (err e) = inl (e, refl)

-- An answer after which nothing is written, or the body's result is; in the second case the caller
-- may still see an error.
abbrev pub Settled :
    {A : Type 0}
    → (Database → Result Error (A × Database))
    → Database
    → Database × Result Error A
    → Type 0
Settled {A} body db r =
    ((e : Error) × (r.1 ≡ err e) × (r.0 ≡ db))
    ⊎ ((a : A) × (body db ≡ ok (a, r.0)) × ((r.1 ≡ ok a) ⊎ ((e : Error) × (r.1 ≡ err e))))

pub transaction-Settled :
    {A : Type 0} (c : Commit) (body : Database → Result Error (A × Database)) (db : Database)
    → Settled body db (transaction c body db)
unfolding transaction
transaction-Settled committed body db = elim (Result-cases (body db)) [
  | inl (e, failed) ↦ rw (failed, transaction) (inl (e, refl, refl))
  | inr ((a, db'), done) ↦ rw (done, transaction) (inr (a, refl, inl refl))
]
transaction-Settled (refused f) body db = elim (Result-cases (body db)) [
  | inl (e, failed) ↦ rw (failed, transaction) (inl (e, refl, refl))
  | inr ((a, db'), done) ↦ rw (done, transaction) (inl (storage f, refl, refl))
]
transaction-Settled (lost f) body db = elim (Result-cases (body db)) [
  | inl (e, failed) ↦ rw (failed, transaction) (inl (e, refl, refl))
  | inr ((a, db'), done) ↦ rw (done, transaction) (inr (a, refl, inr (storage f, refl)))
]
