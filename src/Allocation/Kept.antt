-- ===== src/Allocation/Kept.antt =====
-- A step keeps what holds of the shared fields.
use sindri.Prelude.{
  ℕ, ◌+◌, ◌-◌, ◌≤◌, ◌<◌, Bool, none, some, List, All, ◌≡◌, sym, ◌∙◌, subst, arith, ◌⊎◌, inl, inr,
}
use sindri.Store.Slots.{All-map}
use sindri.Ranges.{SequenceRange}
use sindri.Allocation.{Block, Key, Position, closed}
use sindri.Allocation.Ideal.{ideal}
use sindri.Allocation.Invariant.{Even, Apart, Knows, Safe, Pairwise, Shared}
use sindri.Allocation.Grants.{Grants, nothing, of_token, of_range, ideal-Grants}
use sindri.Allocation.Effect.{ideal-Effect}
use sindri.Allocation.Steps.{Jump, same, up, down, ideal-Jump, ideal-range, ideal-standby}

module _ (t : ℕ) (bound : Bool) (k : Key) (p : Position) (s : Shared k) (safe : Safe t k p) where
  abbrev k' : Key
  k' = (ideal t bound k p).0

  at_closed : (n : ℕ) (r : SequenceRange) → p ≡ closed n r → Knows t k (closed n r)
  at_closed n r e = subst (λ (x : Position). Knows t k x) e safe.0

  pairwise : Grants k p k'.granted → Pairwise k'.granted
  pairwise (nothing e) = subst (λ (bs : List Block). Pairwise bs) (sym e) s.apart
  pairwise (of_token tok has live cap e) =
      subst (λ (bs : List Block). Pairwise bs) (sym e) (((safe.1 tok has).fresh live).1, s.apart)
  pairwise (of_range n r f e) =
      let a = at_closed n r f in
      subst (λ (bs : List Block). Pairwise bs) (sym e)
        (
          All-map (λ b. b.last < r.start) (Apart r.start (r.start + n - 1)) k.granted (λ b l. inr l)
              a.8,
          s.apart,
        )

  below_last : Grants k p k'.granted → All (λ b. b.last ≤ k'.last) k'.granted
  below_last g = from g
    where
      old : All (λ b. b.last ≤ k'.last) k.granted
      old =
          let grows = (ideal-range t bound k p s safe).0 in
          All-map (λ b. b.last ≤ k.last) (λ b. b.last ≤ k'.last) k.granted (λ b l. omega arith)
            s.below_last

      from : Grants k p k'.granted → All (λ b. b.last ≤ k'.last) k'.granted
      from (nothing e) = subst (λ (bs : List Block). All (λ b. b.last ≤ k'.last) bs) (sym e) old
      from (of_token tok has live cap e) =
          let grows = (ideal-range t bound k p s safe).0 in
          subst (λ (bs : List Block). All (λ b. b.last ≤ k'.last) bs) (sym e) (omega arith, old)
      from (of_range n r f e) =
          let grows = (ideal-range t bound k p s safe).0 in
          let a = at_closed n r f in
          subst (λ (bs : List Block). All (λ b. b.last ≤ k'.last) bs) (sym e) (ground arith, old)

  below_next :
      Even k'.generation
      → Grants k p k'.granted
      → Jump k k' p
      → All (λ b. b.last ≤ k'.next) k'.granted
  below_next even g (up e f) = absurd (ground arith)
  below_next even g (same f) = from g
    where
      cursor : k.next ≤ k'.next
      cursor = (ideal-Effect t bound k p safe).cursor (ground arith) (sym f)

      old : All (λ b. b.last ≤ k'.next) k.granted
      old =
          let c = cursor in
          All-map (λ b. b.last ≤ k.next) (λ b. b.last ≤ k'.next) k.granted (λ b l. omega arith)
            (s.below_next (ground arith))

      from : Grants k p k'.granted → All (λ b. b.last ≤ k'.next) k'.granted
      from (nothing e) = subst (λ (bs : List Block). All (λ b. b.last ≤ k'.next) bs) (sym e) old
      from (of_token tok has live cap e) =
          let c = cursor in
          let below = ((safe.1 tok has).fresh live).0 in
          subst (λ (bs : List Block). All (λ b. b.last ≤ k'.next) bs) (sym e) (omega arith, old)
      from (of_range n r h e) = let a = at_closed n r h in let odd = a.2 in absurd (ground arith)
  below_next even g (down n r f e) = from g
    where
      old : All (λ b. b.last ≤ k'.next) k.granted
      old =
          let a = at_closed n r f in
          let low = a.7 in
          let pos = a.4 in
          All-map (λ b. b.last < r.start) (λ b. b.last ≤ k'.next) k.granted
            (λ b l. omega (arith, e)) a.8

      from : Grants k p k'.granted → All (λ b. b.last ≤ k'.next) k'.granted
      from (nothing h) = subst (λ (bs : List Block). All (λ b. b.last ≤ k'.next) bs) (sym h) old
      from (of_token tok has live cap h) =
          let a = at_closed n r f in let odd = a.2 in absurd (ground arith)
      from (of_range m x h g') =
          let a = at_closed m x h in
          let low = a.7 in
          subst (λ (bs : List Block). All (λ b. b.last ≤ k'.next) bs) (sym g') (ground arith, old)

  pub ideal-Shared : Shared k'
  ideal-Shared =
      let g = ideal-Grants t bound k p safe in
      let range = ideal-range t bound k p s safe in
      record {
        apart = pairwise g;
        below_next = λ even. below_next even g (ideal-Jump t bound k p s safe);
        below_last = below_last g;
        below_high = range.1;
        standby = λ r e. standby r e (ideal-standby t bound k p s safe);
        unlocked = range.3;
      }
    where
      standby :
          (r : SequenceRange)
          → k'.standby ≡ some r
          → (k'.standby ≡ none) ⊎ ((k'.standby ≡ k.standby) × (k'.last ≡ k.last))
          → (k'.last < r.start) × (r.start ≤ r.last) × (r.last ≤ k'.high)
      standby r e (inl gone) = absurd (ground arith)
      standby r e (inr (kept, last)) =
          let high = (ideal-range t bound k p s safe).2 in
          let old = s.standby r (sym kept ∙ e) in ground arith
