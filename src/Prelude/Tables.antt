-- ===== src/Prelude/Tables.antt =====
-- A database table, or a Go map: an association list over keys with decidable equality. A write to
-- a key that is there replaces its value, and any other goes to the end.
use mathlib.Core.Path.{◌≡◌, refl, sym, ◌∙◌, subst}
use mathlib.Core.Option.{Option, none, some}
use mathlib.Core.List.{List, [], ◌∷◌}
use mathlib.Core.Logic.{ite, if_neg}
use native.Mathlib.Omega.{arith}

abbrev pub Table : Type 0 → Type 0 → Type 0
Table K V = List (K × V)

-- What holds of both branches, each under its answer, holds of the conditional.
pub ite-either {ℓ κ} :
    {A : Type ℓ} {Q : Type 0} (P : A → Type κ) (d : Dec Q) {x y : A}
    → (Q → P x)
    → (¬ Q → P y)
    → P (ite d x y)
ite-either P (yes q) f g = f q
ite-either P (no n) f g = g n

module _ {K V : Type 0} (same : Discrete K) where
  unfoldable pub lookup : K → Table K V → Option V
  lookup k [] = none
  lookup k ((j, v) ∷ t) = ite (same j k) (some v) (lookup k t)

  unfoldable pub upsert : K → V → Table K V → Table K V
  upsert k v [] = (k, v) ∷ []
  upsert k v ((j, w) ∷ t) = ite (same j k) ((k, v) ∷ t) ((j, w) ∷ upsert k v t)

  pub lookup-upsert :
      (k j : K) (v : V) (t : Table K V)
      → lookup j (upsert k v t) ≡ ite (same k j) (some v) (lookup j t)
  unfolding lookup upsert
  lookup-upsert k j v [] = refl
  lookup-upsert k j v ((i, w) ∷ t) = ground (arith, lookup-upsert k j v t)

  -- Every key once, as in a Go map.
  abbrev pub Unique : Table K V → Type 0
  Unique [] = Unit
  Unique ((k, v) ∷ t) = (lookup k t ≡ none) × Unique t

  pub upsert-Unique : (k : K) (v : V) (t : Table K V) → Unique t → Unique (upsert k v t)
  unfolding lookup upsert
  upsert-Unique k v [] u = (refl, tt)
  upsert-Unique k v ((j, w) ∷ t) (fresh, u) =
      ite-either Unique (same j k) (λ e. (subst (λ i. lookup i t ≡ none) e fresh, u))
        (λ n. (
          lookup-upsert k j v t ∙ if_neg (same k j) (λ e. n (sym e)) _ _ ∙ fresh,
          upsert-Unique k v t u,
        ))
