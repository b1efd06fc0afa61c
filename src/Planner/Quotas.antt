-- ===== src/Planner/Quotas.antt =====
-- `slotQuotas`: the shares add up to the slot space, and differ by one at most.
use native.Mathlib.Nat.{mod-lt, div-add-mod'}
use sindri.Prelude.{
  ℕ, zero, suc, ◌+◌, ◌*◌, ◌/◌, ◌%◌, ◌≤◌, ◌<◌, min, String, none, List, [], ◌∷◌, Table, lookup,
  upsert, lookup-upsert, String_discrete, ite-either, if_neg, All, length, ◌≡◌, ◌≢◌, refl, ◌∙◌,
  arith,
}
use sindri.Store.Slots.{All-zip}
use sindri.Keys.{slot_count}
use sindri.Planner.{NodeInfo, share, quotas_from, slot_quotas}

abbrev pub total : Table String ℕ → ℕ
total [] = 0
total ((k, v) ∷ t) = v + total t

total-upsert :
    (k : String) (v : ℕ) (t : Table String ℕ)
    → lookup String_discrete k t ≡ none
    → total (upsert String_discrete k v t) ≡ total t + v
unfolding lookup upsert
total-upsert k v [] h = omega arith
total-upsert k v ((j, w) ∷ t) h = ground (arith, total-upsert k v t)

-- No two nodes have one ID.
abbrev pub DistinctIds : List NodeInfo → Type 0
DistinctIds [] = Unit
DistinctIds (n ∷ ns) = All (λ m. n.id ≢ m.id) ns × DistinctIds ns

-- The sum of the shares of `n` nodes from the i-th on.
abbrev no_quotas : Table String ℕ
no_quotas = []

shares : ℕ → ℕ → ℕ → ℕ
shares count i zero = 0
shares count i (suc n) = share count i + shares count (i + 1) n

shares-sum :
    (count i n : ℕ)
    → shares count i n + min (slot_count % count) i
      ≡ n * (slot_count / count) + min (slot_count % count) (i + n)
unfolding shares
shares-sum count i zero = ground arith
shares-sum count i (suc n) = ground (arith, shares-sum count (i + 1) n)

quotas_from-total :
    (count i : ℕ) (ns : List NodeInfo) (t : Table String ℕ)
    → DistinctIds ns
    → All (λ n. lookup String_discrete n.id t ≡ none) ns
    → total (quotas_from count i ns t) ≡ total t + shares count i (length ns)
unfolding quotas_from shares
quotas_from-total count i [] t d fresh = omega arith
quotas_from-total count i (n ∷ ns) t (apart, d) (first, fresh) =
    let rest =
      quotas_from-total count (i + 1) ns (upsert String_discrete n.id (share count i) t) d (
        All-zip _ _
          (λ m. lookup String_discrete m.id (upsert String_discrete n.id (share count i) t) ≡ none)
          ns
          (λ m other gone.
            lookup-upsert String_discrete n.id m.id (share count i) t
            ∙ if_neg (String_discrete n.id m.id) other _ _
            ∙ gone)
          apart fresh) in
    omega (arith, rest, total-upsert n.id (share count i) t first)

-- A share is the even part of the slot space, or one more.
abbrev pub Even : ℕ → String × ℕ → Type 0
Even count e = (slot_count / count ≤ e.1) × (e.1 ≤ slot_count / count + 1)

upsert-Even :
    (count i : ℕ) (k : String) (t : Table String ℕ)
    → All (Even count) t
    → All (Even count) (upsert String_discrete k (share count i) t)
unfolding upsert
upsert-Even count i k [] a = ((ground arith, ground arith), tt)
upsert-Even count i k ((j, w) ∷ t) (e, a) =
    ite-either (All (Even count)) (String_discrete j k) (λ q. ((ground arith, ground arith), a))
      (λ q. (e, upsert-Even count i k t a))

quotas_from-Even :
    (count i : ℕ) (ns : List NodeInfo) (t : Table String ℕ)
    → All (Even count) t
    → All (Even count) (quotas_from count i ns t)
unfolding quotas_from
quotas_from-Even count i [] t a = a
quotas_from-Even count i (n ∷ ns) t a =
    quotas_from-Even count (i + 1) ns (upsert String_discrete n.id (share count i) t)
      (upsert-Even count i n.id t a)

unlisted : (ns : List NodeInfo) → All (λ n. lookup String_discrete n.id (no_quotas) ≡ none) ns
unfolding lookup
unlisted [] = tt
unlisted (n ∷ ns) = (refl, unlisted ns)

min-mod : (count : ℕ) → 0 < count → slot_count % count < count
min-mod count some_node = mod-lt slot_count some_node

-- For at least one node, all with IDs of their own, the quotas add up to the slot space, and each
-- is the even part of it or one more.
pub slot_quotas-total :
    (nodes : List NodeInfo)
    → 0 < length nodes
    → DistinctIds nodes
    → (total (slot_quotas nodes) ≡ slot_count) × All (Even (length nodes)) (slot_quotas nodes)
unfolding slot_quotas lookup
slot_quotas-total nodes some_node d =
    let count = length nodes in
    let sum = quotas_from-total count 0 nodes [] d (unlisted nodes) in
    let even = shares-sum count 0 count in
    (
      omega (arith, sum, even, min-mod count some_node, div-add-mod' slot_count count),
      quotas_from-Even count 0 nodes [] tt,
    )
