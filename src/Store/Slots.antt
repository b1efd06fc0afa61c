-- ===== src/Store/Slots.antt =====
-- The shape of the ownership table: every row under its own slot, every slot once.
use sindri.Prelude.{ℕ, true, List, [], ◌∷◌, ◌≡◌, ◌≢◌, subst, Table, ℕ_discrete, All, arith}
use sindri.Store.{OwnershipRow, mem_nat}

abbrev pub SlotTable : Table ℕ OwnershipRow → Type 0
SlotTable [] = Unit
SlotTable ((k, r) ∷ t) = (r.slot_id ≡ k) × All (λ e. k ≢ e.0) t × SlotTable t

pub mem_nat-All {ℓ} : (P : ℕ → Type ℓ) (k : ℕ) (xs : List ℕ) → mem_nat k xs ≡ true → All P xs → P k
mem_nat-All P k [] m a = absurd (cc)
mem_nat-All P k (x ∷ xs) m (a, rest) = elim (ℕ_discrete x k) [
  | yes e ↦ subst P e a
  | no n ↦ mem_nat-All P k xs (ground arith) rest
]

pub All-map :
    {A : Type 0} (P Q : A → Type 0) (xs : List A) → ((x : A) → P x → Q x) → All P xs → All Q xs
All-map P Q [] f a = tt
All-map P Q (x ∷ xs) f (a, rest) = (f x a, All-map P Q xs f rest)

pub All-zip :
    {A : Type 0} (P Q R : A → Type 0) (xs : List A)
    → ((x : A) → P x → Q x → R x)
    → All P xs
    → All Q xs
    → All R xs
All-zip P Q R [] f a b = tt
All-zip P Q R (x ∷ xs) f (a, as') (b, bs) = (f x a b, All-zip P Q R xs f as' bs)
