-- ===== src/Directory/Search.antt =====
-- sort.Search finds the place where its predicate turns true.
use sindri.Prelude.{
  ℕ, zero, suc, ◌+◌, ◌/◌, ◌<◌, ◌≤◌, Bool, true, false, ltb, ◌≡◌, arith, Bool-cases, inl, inr,
}
use sindri.Directory.{search}

-- The predicate is false below `i`, and true from there up to `n`.
abbrev pub TurnsAt : (ℕ → Bool) → ℕ → ℕ → Type 0
TurnsAt f n i = ((k : ℕ) → k < i → f k ≡ false) × ((k : ℕ) → i ≤ k → k < n → f k ≡ true)

pub search-TurnsAt :
    (f : ℕ → Bool) (n i fuel lo hi : ℕ)
    → TurnsAt f n i
    → lo ≤ i
    → i ≤ hi
    → hi ≤ n
    → hi ≤ lo + fuel
    → search f fuel lo hi ≡ i
unfolding search
search-TurnsAt f n i zero lo hi turns a b c d = omega arith
search-TurnsAt f n i (suc fuel) lo hi turns a b c d = elim (Bool-cases (ltb lo hi)) [
  | inr e ↦ rw (e, search) (ground arith)
  | inl e ↦
      let h = (lo + hi) / 2 in
      elim (Bool-cases (f ((lo + hi) / 2))) [
        | inl t ↦
            rw (e, t, search)
              (search-TurnsAt f n i fuel lo ((lo + hi) / 2) turns a
                (ground (arith, turns.0 ((lo + hi) / 2))) (ground arith) (ground arith))
        | inr t ↦
            rw (e, t, search)
              (search-TurnsAt f n i fuel ((lo + hi) / 2 + 1) hi turns
                (ground (arith, turns.1 ((lo + hi) / 2))) b c (ground arith))
      ]
]
