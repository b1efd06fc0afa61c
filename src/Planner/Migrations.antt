-- ===== src/Planner/Migrations.antt =====
-- `planMigrations`: every plan moves a served slot that no handoff governs, away from its owner and
-- to an admitted instance, and PlanHandoffs takes the plans for well-formed.
use Prim.Native.String.{compare as compare_text}
use text.Mathlib.Text.{is_lt}
use sindri.Prelude.{
  ℕ, ◌+◌, ◌≤◌, ◌<◌, String, true, false, Option, none, some, List, [], ◌∷◌, ok, ltb, ◌==◌, str_eq,
  if-either, length, All, Any, Any-map, Any-All, Any-elim, ◌≡◌, refl, sym, ◌∙◌, ap, subst, inl, inr,
  >>=-eq-ok, check, ◌||◌, arith,
}
use sindri.Prelude.Int64.{lt64, le64}
use sindri.Store.{SlotState, Duration}
use sindri.Store.Slots.{All-map}
use sindri.Store.Transactions.{Result-cases}
use sindri.Directory.{
  OwnershipSegment, validate_ownership_segments, validate_segments_from, check_owner, follows,
}
use sindri.Handoffs.{Handoff}
use sindri.Planner.{
  NodeInfo, insert_node, sort_nodes, slot_quotas, Counts, is_serving, admit, settle_pending, Fleet,
  plan_admitted, plan_tallied, plan_migrations,
}
use sindri.Planner.Plans.{From, Planned, Ascends, Known, Chained, plan_segments-Good}
use sindri.Handoffs.Planning.{well_formed, check_plans}

module _ (P : NodeInfo → Type 0) where
  admit-All :
      (c : Counts) (stability : Duration) (ns : List NodeInfo)
      → All P ns
      → All P (admit c stability ns)
  unfolding admit
  admit-All c stability [] a = tt
  admit-All c stability (n ∷ ns) (p, a) =
      let rest = admit-All c stability ns a in
      if-either (All P) (lt64 0 (c n.instance_id) || le64 stability n.stable_for) (λ e. (p, rest))
        (λ e. rest)

  insert_node-All : (n : NodeInfo) (ms : List NodeInfo) → P n → All P ms → All P (insert_node n ms)
  unfolding insert_node
  insert_node-All n [] p a = (p, tt)
  insert_node-All n (m ∷ ms) p (q, a) =
      if-either (All P) (is_lt (compare_text m.id n.id)) (λ e. (q, insert_node-All n ms p a))
        (λ e. (p, (q, a)))

  sort_nodes-All : (ns : List NodeInfo) → All P ns → All P (sort_nodes ns)
  unfolding sort_nodes
  sort_nodes-All [] a = tt
  sort_nodes-All (n ∷ ns) (p, a) = insert_node-All n (sort_nodes ns) p (sort_nodes-All ns a)

check_owner-epoch :
    (s : OwnershipSegment) (state : SlotState)
    → check_owner s state ≡ ok tt
    → is_serving state ≡ true
    → (s.epoch == 0) ≡ false
unfolding check_owner
check_owner-epoch s SlotState.owned h e = ground arith
check_owner-epoch s state h e = absurd (cc)

-- Checked segments follow each other, and a served one has an epoch.
validate-Chained :
    (next : ℕ) (ss : List OwnershipSegment)
    → validate_segments_from next ss ≡ ok tt
    → Chained next ss × All (λ s. is_serving s.state ≡ true → (s.epoch == 0) ≡ false) ss
unfolding validate_segments_from
validate-Chained next [] h = (tt, tt)
validate-Chained next (s ∷ ss) h =
    let (u, at, h1) = >>=-eq-ok (check (follows next s.start_slot s.end_slot) _) _ h in
    let (v, owner, h2) = >>=-eq-ok (check_owner s s.state) _ h1 in
    let (rest, epochs) = validate-Chained (s.end_slot + 1) ss h2 in
    ((ground arith, ground arith, rest), (check_owner-epoch s s.state owner, epochs))

-- What `planMigrations` may answer, with that limit.
pub record Migrations (fresh : ℕ → String) (segments : List OwnershipSegment)
    (nodes : List NodeInfo) (pending : List Handoff) (limit : ℕ) (hs : List Handoff) : Type 0 where
  pub planned : All (Planned fresh segments nodes pending) hs
  pub ascends : Ascends 0 hs
  pub fits : length hs ≤ limit
  pub accepted : check_plans hs ≡ ok tt

All-members : (ns : List NodeInfo) → All (λ n. Any (λ m. m ≡ n) ns) ns
All-members [] = tt
All-members (n ∷ ns) = (inl refl, All-map _ _ ns (λ m found. inr found) (All-members ns))

module _ (fresh : ℕ → String) (segments : List OwnershipSegment) (nodes : List NodeInfo)
    (pending : List Handoff) where
  none-Migrations : (limit : ℕ) → Migrations fresh segments nodes pending limit []
  unfolding check_plans
  none-Migrations limit = record { planned = tt; ascends = tt; fits = omega arith; accepted = refl }

  module _ (named : (k : ℕ) → str_eq (fresh k) "" ≡ false)
      (epochs : All (λ s. is_serving s.state ≡ true → (s.epoch == 0) ≡ false) segments) where
    Planned-epoch :
        (h : Handoff) → Planned fresh segments nodes pending h → (h.source_epoch == 0) ≡ false
    Planned-epoch h p =
        Any-elim _ segments
          (λ s both. subst (λ e. (e == 0) ≡ false) (sym both.1.epoch) (both.0 both.1.serving))
          (Any-All _ (From h) segments epochs p.from)

    Planned-well_formed :
        (h : Handoff) → Planned fresh segments nodes pending h → well_formed h ≡ true
    Planned-well_formed h p =
        let has_epoch = Planned-epoch h p in
        let has_id : str_eq h.id "" ≡ false =
          subst (λ i. str_eq i "" ≡ false) (sym p.identity) (named h.slot_id) in
        let apart = p.apart in rw (has_id, has_epoch, p.shape.0, p.shape.1) (ground arith)

    check_plans-ok :
        (hs : List Handoff) → All (Planned fresh segments nodes pending) hs → check_plans hs ≡ ok tt
    unfolding check_plans
    check_plans-ok [] a = refl
    check_plans-ok (h ∷ hs) (p, a) = rw (Planned-well_formed h p) (check_plans-ok hs a)

    widen_nodes :
        (admitted : List NodeInfo) (h : Handoff)
        → All (λ n. Any (λ m. m ≡ n) nodes) admitted
        → Planned fresh segments admitted pending h
        → Planned fresh segments nodes pending h
    widen_nodes admitted h sub p = record {
      from = p.from;
      free = p.free;
      to =
          Any-elim _ admitted
            (λ n both.
              Any-map _ _ nodes (λ m same. ap (λ (x : NodeInfo). x.instance_id) same ∙ both.1)
                both.0)
            (Any-All _ _ admitted sub p.to);
      apart = p.apart;
      identity = p.identity;
      shape = p.shape;
    }

    Good-Migrations :
        (admitted : List NodeInfo) (limit : ℕ) (hs : List Handoff)
        → 0 < limit
        → All (λ n. Any (λ m. m ≡ n) nodes) admitted
        → All (Planned fresh segments admitted pending) hs
        → Ascends 0 hs
        → (0 < limit → length hs ≤ limit)
        → Migrations fresh segments nodes pending limit hs
    Good-Migrations admitted limit hs room sub planned ascends fits =
        let all = All-map _ _ hs (λ h p. widen_nodes admitted h sub p) planned in
        record {
          planned = all;
          ascends = ascends;
          fits = fits room;
          accepted = check_plans-ok hs all;
        }

    plan_admitted-Migrations :
        (admitted : List NodeInfo) (c : Counts) (limit : ℕ)
        → 0 < limit
        → Chained 0 segments
        → All (λ n. Any (λ m. m ≡ n) nodes) admitted
        → All (Known nodes) admitted
        → Migrations fresh segments nodes pending limit
            (plan_admitted fresh segments nodes pending admitted c limit)
    unfolding plan_admitted
    plan_admitted-Migrations admitted c limit room chain sub known =
        let f : Fleet = record {
          admitted = admitted;
          quotas = slot_quotas admitted;
          pending = pending;
          fresh = fresh;
        } in
        if-either (Migrations fresh segments nodes pending limit) (ltb (length admitted) 2)
          (λ few. none-Migrations limit)
          (λ enough.
            let g =
              plan_segments-Good segments nodes f known segments 0 limit (settle_pending pending c)
                (λ h a. a) chain in
            Good-Migrations admitted limit _ room sub g.planned g.ascends g.fits)

    plan_tallied-Migrations :
        (stability : Duration) (limit : ℕ) (tallied : Option Counts)
        → 0 < limit
        → Chained 0 segments
        → All (Known nodes) nodes
        → Migrations fresh segments nodes pending limit
            (plan_tallied fresh segments nodes pending stability limit tallied)
    unfolding plan_tallied
    plan_tallied-Migrations stability limit none room chain known = none-Migrations limit
    plan_tallied-Migrations stability limit (some c) room chain known =
        let kept : (P : NodeInfo → Type 0)
            → All P nodes
            → All P (sort_nodes (admit c stability nodes)) =
          λ P a. sort_nodes-All P (admit c stability nodes) (admit-All P c stability nodes a) in
        plan_admitted-Migrations (sort_nodes (admit c stability nodes)) c limit room chain
          (kept (λ n. Any (λ m. m ≡ n) nodes) (All-members nodes)) (kept (Known nodes) known)

-- The migrations that `planMigrations` answers, for nodes with one instance each, move served slots
-- that no pending handoff governs, each at most once, away from the slot's owner, under the slot's
-- epoch, and to another live instance; they are at most as many as the limit, and PlanHandoffs takes
-- them for well-formed if new identities are not empty.
pub plan_migrations-Migrations :
    (fresh : ℕ → String) (segments : List OwnershipSegment) (nodes : List NodeInfo)
    (pending : List Handoff) (stability : Duration) (limit : ℕ)
    → ((k : ℕ) → str_eq (fresh k) "" ≡ false)
    → All (Known nodes) nodes
    → Migrations fresh segments nodes pending limit
        (plan_migrations fresh segments nodes pending stability limit)
unfolding plan_migrations
plan_migrations-Migrations fresh segments nodes pending stability limit named known =
    elim (Result-cases (validate_ownership_segments segments)) [
      | inl (e, failed) ↦
          rw (failed, plan_migrations) (none-Migrations fresh segments nodes pending limit)
      | inr (u, valid) ↦
          let (chain, epochs) = validate-Chained 0 segments valid in
          rw (valid, plan_migrations)
            (if-either (Migrations fresh segments nodes pending limit) (limit == 0)
              (λ zero_limit. none-Migrations fresh segments nodes pending limit)
              (λ e.
                plan_tallied-Migrations fresh segments nodes pending named epochs stability limit _
                  (ground arith) chain known))
    ]
