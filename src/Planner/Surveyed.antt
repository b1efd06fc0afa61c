-- ===== src/Planner/Surveyed.antt =====
-- The survey of the segments that `planTargetsFromSegments` makes first, and the node it chooses.
use sindri.Prelude.{
  ℕ, zero, suc, ◌+◌, ◌≤◌, String, Bool, true, false, List, [], ◌∷◌, ok, check, Table, >>=-eq-ok,
  if◌then◌else◌, if-either, ltb, All, Any, ◌≡◌, refl, subst, arith, inl, inr,
}
use sindri.Keys.{slot_count}
use sindri.Directory.{OwnershipSegment, validate_segments_from, follows, check_owner}
use sindri.Planner.{NodeInfo, quota, slots_in}
use sindri.Planner.Targets.{stays, NodeCounts, Survey, kept, free, survey_slots, survey, choose}

abbrev pub Covers : ℕ → OwnershipSegment → Type 0
Covers slot s = (s.start_slot ≤ slot) × (slot ≤ s.end_slot)

unfoldable pub Covered : ℕ → List OwnershipSegment → Type 0
Covered next [] = next ≡ slot_count
Covered next (s ∷ ss) =
    (s.start_slot ≡ next) × (s.start_slot ≤ s.end_slot) × Covered (s.end_slot + 1) ss

pub validate-Covered :
    (next : ℕ) (ss : List OwnershipSegment)
    → validate_segments_from next ss ≡ ok tt
    → Covered next ss
unfolding validate_segments_from Covered
validate-Covered next [] h = ground arith
validate-Covered next (s ∷ ss) h =
    let (u, at, h1) = >>=-eq-ok (check (follows next s.start_slot s.end_slot) _) _ h in
    let (v, owner, h2) = >>=-eq-ok (check_owner s s.state) _ h1 in
    (ground arith, ground arith, validate-Covered (s.end_slot + 1) ss h2)

unfoldable pub slot_of : Survey → ℕ
slot_of (kept slot owner) = slot
slot_of (free slot) = slot

unfoldable pub NumberedSurvey : ℕ → List Survey → Type 0
NumberedSurvey next [] = next ≡ slot_count
NumberedSurvey next (e ∷ es) = (slot_of e ≡ next) × NumberedSurvey (next + 1) es

-- The node chosen is one of the nodes.
choose-Any-within :
    (all : List NodeInfo) (quotas : Table String ℕ) (c : NodeCounts) (chosen : String)
    (ns : List NodeInfo)
    → Any (λ n. n.id ≡ chosen) all
    → ((P : NodeInfo → Type 0) → Any P ns → Any P all)
    → Any (λ n. n.id ≡ choose quotas c chosen ns) all
unfolding choose
choose-Any-within all quotas c chosen [] there member = there
choose-Any-within all quotas c chosen (n ∷ ns) there member =
    if-either (λ x. Any (λ m. m.id ≡ x) all) (ltb (c n.id) (quota quotas n.id))
      (λ e. member (λ m. m.id ≡ n.id) (inl refl))
      (λ e.
        choose-Any-within all quotas c (if ltb (c n.id) (c chosen) then n.id else chosen) ns
          (if-either (λ x. Any (λ m. m.id ≡ x) all) (ltb (c n.id) (c chosen))
            (λ f. member (λ m. m.id ≡ n.id) (inl refl)) (λ f. there))
          (λ P x. member P (inr x)))

pub choose-Any :
    (quotas : Table String ℕ) (c : NodeCounts) (chosen : String) (ns : List NodeInfo)
    → Any (λ n. n.id ≡ chosen) ns
    → Any (λ n. n.id ≡ choose quotas c chosen ns) ns
choose-Any quotas c chosen ns there = choose-Any-within ns quotas c chosen ns there (λ P x. x)

module _ (nodes : List NodeInfo) (segments : List OwnershipSegment) where
  -- What an entry of the survey says of the segment that covers its slot.
  unfoldable pub Surveyed : Survey → Type 0
  Surveyed (kept slot owner) =
      Any (λ s. Covers slot s × (stays nodes s ≡ true) × (owner ≡ s.owner_node_id)) segments
  Surveyed (free slot) = Any (λ s. Covers slot s × (stays nodes s ≡ false)) segments

  survey_slots-Surveyed :
      (s : OwnershipSegment) (stay : Bool) (slot n : ℕ) (rest : List Survey)
      → ((P : OwnershipSegment → Type 0) → P s → Any P segments)
      → stays nodes s ≡ stay
      → s.start_slot ≤ slot
      → slot + n ≤ s.end_slot + 1
      → All Surveyed rest × NumberedSurvey (slot + n) rest
      → All Surveyed (survey_slots stay s.owner_node_id slot n rest)
        × NumberedSurvey slot (survey_slots stay s.owner_node_id slot n rest)
  unfolding survey_slots Surveyed NumberedSurvey slot_of
  survey_slots-Surveyed s stay slot zero rest member e low high (a, numbered) =
      (a, subst (λ k. NumberedSurvey k rest) (omega arith) numbered)
  survey_slots-Surveyed s true slot (suc n) rest member e low high (a, numbered) =
      let (b, more) =
        survey_slots-Surveyed s true (slot + 1) n rest member e (omega (arith, low))
          (omega (arith, high)) (a, subst (λ k. NumberedSurvey k rest) (omega arith) numbered) in
      ((member _ ((low, omega (arith, high)), e, refl), b), (refl, more))
  survey_slots-Surveyed s false slot (suc n) rest member e low high (a, numbered) =
      let (b, more) =
        survey_slots-Surveyed s false (slot + 1) n rest member e (omega (arith, low))
          (omega (arith, high)) (a, subst (λ k. NumberedSurvey k rest) (omega arith) numbered) in
      ((member _ ((low, omega (arith, high)), e), b), (refl, more))

  pub survey-Surveyed :
      (ss : List OwnershipSegment) (next : ℕ)
      → ((P : OwnershipSegment → Type 0) → Any P ss → Any P segments)
      → Covered next ss
      → All Surveyed (survey nodes ss) × NumberedSurvey next (survey nodes ss)
  unfolding survey NumberedSurvey Covered
  survey-Surveyed [] next member c = (tt, c)
  survey-Surveyed (s ∷ ss) next member (at, high, c) =
      let (a, numbered) = survey-Surveyed ss (s.end_slot + 1) (λ P x. member P (inr x)) c in
      subst
        (λ k.
          All Surveyed (survey nodes (s ∷ ss))
          × NumberedSurvey k (
              survey_slots (stays nodes s) s.owner_node_id s.start_slot (slots_in s)
                (survey nodes ss)))
        at
        (survey_slots-Surveyed s (stays nodes s) s.start_slot (slots_in s) (survey nodes ss)
          (λ P x. member P (inl x)) refl (omega arith) (omega (arith, high))
          (a, subst (λ k. NumberedSurvey k (survey nodes ss)) (omega (arith, high)) numbered))
