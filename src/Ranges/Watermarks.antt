-- ===== src/Ranges/Watermarks.antt =====
-- How far the transaction moves the watermark of a key.
use sindri.Prelude.{
  ℕ, ◌+◌, ◌≤◌, String, Option, none, some, List, [], ◌∷◌, ok, Table, lookup, lookup-upsert,
  String_discrete, str_eq, if◌then◌else◌, ◌≡◌, refl, subst, >>=-eq-ok, arith, Bool-cases, inl, inr,
}
use sindri.Prelude.Int64.{Int64, max_int64}
use sindri.Store.{Fault, mem_text}
use sindri.Ranges.{Target, less, insert_target, sort_targets}
use sindri.Ranges.Reserve.{advance_one, advance, select_keys}

-- The reserved end of a key, 0 if it has no row.
abbrev or_zero : Option Int64 → ℕ
or_zero none = 0
or_zero (some v) = v

abbrev pub watermark : String → Table String Int64 → ℕ
watermark k t = or_zero (lookup String_discrete k t)

-- Every watermark is a non-negative int64.
abbrev pub Fits : Table String Int64 → Type 0
Fits t = (k : String) → watermark k t ≤ max_int64

-- What the targets ask for a key, together.
unfoldable pub total : String → List Target → ℕ
total k [] = 0
total k (x ∷ xs) = if str_eq x.key k then x.step + total k xs else total k xs

total-insert_target :
    (k : String) (x : Target) (xs : List Target) → total k (insert_target x xs) ≡ total k (x ∷ xs)
unfolding total insert_target
total-insert_target k x [] = refl
total-insert_target k x (y ∷ ys) = elim (Bool-cases (less y x)) [
  | inl e ↦ ground (arith, total-insert_target k x ys)
  | inr e ↦ ground arith
]

pub total-sort_targets : (k : String) (xs : List Target) → total k (sort_targets xs) ≡ total k xs
unfolding total sort_targets
total-sort_targets k [] = refl
total-sort_targets k (x ∷ xs) =
    ground (arith, total-insert_target k x (sort_targets xs), total-sort_targets k xs)

module _ (overflow : Fault) where
  advance_one-watermark :
      (key : String) (step : Int64) (o : Option Int64) (t : Table String Int64)
      {t' : Table String Int64} (k : String)
      → lookup String_discrete key t ≡ o
      → advance_one overflow key step o t ≡ ok t'
      → watermark k t' ≡ (if str_eq key k then watermark k t + step else watermark k t)
  unfolding advance_one
  advance_one-watermark key step none t k e h =
      ground (arith, lookup-upsert String_discrete key k step t)
  advance_one-watermark key step (some v) t k e h =
      ground (arith, lookup-upsert String_discrete key k (v + step) t)

  advance_one-Fits :
      (key : String) (step : Int64) (o : Option Int64) (t : Table String Int64)
      {t' : Table String Int64}
      → advance_one overflow key step o t ≡ ok t'
      → Fits t
      → Fits t'
  unfolding advance_one
  advance_one-Fits key step none t h f k =
      ground (arith, lookup-upsert String_discrete key k step t, f k)
  advance_one-Fits key step (some v) t h f k =
      ground (arith, lookup-upsert String_discrete key k (v + step) t, f k)

  pub advance-watermark :
      (xs : List Target) (t : Table String Int64) {t' : Table String Int64} (k : String)
      → advance overflow xs t ≡ ok t'
      → watermark k t' ≡ watermark k t + total k xs
  unfolding advance total
  advance-watermark [] t k h = ground arith
  advance-watermark (x ∷ xs) t {t'} k h =
      let (t1, one, rest) =
        >>=-eq-ok (advance_one overflow x.key x.step (lookup String_discrete x.key t) t) _ h in
      ground (
        arith,
        advance_one-watermark x.key x.step (lookup String_discrete x.key t) t k refl one,
        advance-watermark xs t1 k rest,
      )

  pub advance-Fits :
      (xs : List Target) (t : Table String Int64) {t' : Table String Int64}
      → advance overflow xs t ≡ ok t'
      → Fits t
      → Fits t'
  unfolding advance
  advance-Fits [] t {t'} h f = let e : t ≡ t' = ground arith in subst Fits e f
  advance-Fits (x ∷ xs) t h f =
      let (t1, one, rest) =
        >>=-eq-ok (advance_one overflow x.key x.step (lookup String_discrete x.key t) t) _ h in
      advance-Fits xs t1 rest
        (advance_one-Fits x.key x.step (lookup String_discrete x.key t) t one f)

-- The rows that are read back are those of the table, at the keys asked for.
pub lookup-select_keys :
    (keys : List String) (t : Table String Int64) (k : String)
    → lookup String_discrete k (select_keys keys t)
      ≡ (if mem_text k keys then lookup String_discrete k t else none)
unfolding select_keys lookup
lookup-select_keys keys [] k = ground arith
lookup-select_keys keys ((j, w) ∷ t) k = elim (String_discrete j k) [
  | yes e ↦
      subst
        (λ (x : String).
          lookup String_discrete x (select_keys keys ((j, w) ∷ t))
          ≡ (if mem_text x keys then lookup String_discrete x ((j, w) ∷ t) else none))
        e (ground (arith, lookup-select_keys keys t j))
  | no n ↦ ground (arith, lookup-select_keys keys t k)
]
