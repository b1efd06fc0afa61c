-- ===== src/Planner/Plans.antt =====
-- The loops of `planMigrations` over the segments and their slots.
use sindri.Prelude.{
  ℕ, zero, suc, ◌+◌, ◌-◌, ◌≤◌, ◌<◌, String, true, false, some, List, [], ◌∷◌, Table, ◌==◌, str_eq,
  if◌then◌else◌, if-either, length, All, Any, Any-map, Any-All, Any-elim, ◌≡◌, ◌≢◌, refl, sym, ◌∙◌,
  ap, subst, inl, inr, str_eq_refl, arith,
}
use sindri.Prelude.Int64.{Int64, lt64}
use sindri.Store.{Kind, Phase}
use sindri.Directory.{OwnershipSegment}
use sindri.Handoffs.{Handoff}
use sindri.Planner.{
  NodeInfo, quota, by_instance, Counts, is_serving, slots_in, is_busy, first_target, plan_for,
  Fleet, plan_slots, id_of, plan_segments,
}

-- The plan moves a slot of the segment, which is served, away from the segment's owner.
pub record From (h : Handoff) (s : OwnershipSegment) : Type 0 where
  pub serving : is_serving s.state ≡ true
  pub covers : (s.start_slot ≤ h.slot_id) × (h.slot_id < s.start_slot + slots_in s)
  pub source : h.source_instance_id ≡ s.owner_instance_id
  pub epoch : h.source_epoch ≡ s.epoch

pub record Planned (fresh : ℕ → String) (segments : List OwnershipSegment) (nodes : List NodeInfo)
    (pending : List Handoff) (h : Handoff) : Type 0 where
  pub from : Any (From h) segments
  pub free : is_busy h.slot_id pending ≡ false
  pub to : Any (λ n. n.instance_id ≡ h.target_instance_id) nodes
  pub apart : h.source_instance_id ≢ h.target_instance_id
  pub identity : h.id ≡ fresh h.slot_id
  pub shape : (h.kind ≡ Kind.transfer) × (h.phase ≡ Phase.planned) × (h.drained ≡ false)

-- The plans go up through the slots from `low` on, so no slot is in two of them.
abbrev pub Ascends : ℕ → List Handoff → Type 0
Ascends low [] = Unit
Ascends low (h ∷ hs) = (low ≤ h.slot_id) × Ascends (h.slot_id + 1) hs

Ascends-from : (low high : ℕ) (hs : List Handoff) → low ≤ high → Ascends high hs → Ascends low hs
Ascends-from low high [] l a = tt
Ascends-from low high (h ∷ hs) l (b, a) = (omega (arith, l, b), a)

-- The segments follow each other.
abbrev pub Chained : ℕ → List OwnershipSegment → Type 0
Chained next [] = Unit
Chained next (s ∷ ss) =
    (s.start_slot ≡ next) × (s.start_slot ≤ s.end_slot) × Chained (s.end_slot + 1) ss

-- Its instance leads back to the node.
abbrev pub Known : List NodeInfo → NodeInfo → Type 0
Known nodes n = by_instance n.instance_id nodes ≡ some n

first_target-Any :
    (ns : List NodeInfo) (quotas : Table String ℕ) (c : Counts)
    → str_eq (first_target ns quotas c) "" ≡ false
    → Any
        (λ n.
          (n.instance_id ≡ first_target ns quotas c)
          × (lt64 (c n.instance_id) (quota quotas n.id) ≡ true))
        ns
unfolding first_target
first_target-Any [] quotas c h = absurd (let e = str_eq_refl "" in cc)
first_target-Any (n ∷ ns) quotas c h =
    if-either
      (λ (t : String).
        str_eq t "" ≡ false
        → Any (λ m. (m.instance_id ≡ t) × (lt64 (c m.instance_id) (quota quotas m.id) ≡ true))
            (n ∷ ns))
      (lt64 (c n.instance_id) (quota quotas n.id)) (λ e g. inl (refl, e))
      (λ e g. inr (first_target-Any ns quotas c g)) h

lt64-asym : (a b : Int64) → lt64 a b ≡ true → lt64 b a ≡ true → ⊥
lt64-asym a b h g = ground arith

module _ (segments : List OwnershipSegment) (nodes : List NodeInfo) (f : Fleet)
    (known : All (Known nodes) f.admitted) where
  -- What the loops promise of the plans they still make, from slot `low` on, with `room` left.
  pub record Good (low room : ℕ) (hs : List Handoff) : Type 0 where
    pub planned : All (Planned f.fresh segments f.admitted f.pending) hs
    pub ascends : Ascends low hs
    pub fits : 0 < room → length hs ≤ room

  widen :
      (low room : ℕ) {high : ℕ} (hs : List Handoff)
      → low ≤ high
      → Good high room hs
      → Good low room hs
  widen low room {high} hs l g = record {
    planned = g.planned;
    ascends = Ascends-from low high hs l g.ascends;
    fits = g.fits;
  }

  pub none-Good : (low room : ℕ) → Good low room []
  none-Good low room = record { planned = tt; ascends = tt; fits = λ l. omega (arith, l) }

  module _ (s : OwnershipSegment) (serving : is_serving s.state ≡ true)
      (member : (h : Handoff) → From h s → Any (From h) segments) where
    owner_quota : ℕ
    owner_quota = quota f.quotas (id_of (by_instance s.owner_instance_id nodes))

    not_below :
        (c : Counts) (n : NodeInfo) (target : String)
        → lt64 owner_quota (c s.owner_instance_id) ≡ true
        → s.owner_instance_id ≡ target
        → Known nodes n
        → n.instance_id ≡ target
        → lt64 (c n.instance_id) (quota f.quotas n.id) ≡ true
        → ⊥
    unfolding owner_quota
    not_below c n target above same k is_target below =
        let owner : s.owner_instance_id ≡ n.instance_id = same ∙ sym is_target in
        let back : by_instance s.owner_instance_id nodes ≡ some n =
          ap (λ i. by_instance i nodes) owner ∙ k in
        lt64-asym (quota f.quotas n.id) (c n.instance_id)
          (subst (λ i. lt64 (quota f.quotas n.id) (c i) ≡ true) owner
            (subst (λ o. lt64 (quota f.quotas (id_of o)) (c s.owner_instance_id) ≡ true) back
              above))
          below

    target-apart :
        (c : Counts)
        → lt64 owner_quota (c s.owner_instance_id) ≡ true
        → str_eq (first_target f.admitted f.quotas c) "" ≡ false
        → s.owner_instance_id ≢ first_target f.admitted f.quotas c
    unfolding owner_quota
    target-apart c above named same =
        Any-elim _ f.admitted
          (λ n found.
            not_below c n (first_target f.admitted f.quotas c) above same found.0 found.1.0
              found.1.1)
          (Any-All (Known nodes) _ f.admitted known (first_target-Any f.admitted f.quotas c named))

    SlotIn : ℕ → ℕ → Type 0
    SlotIn slot n = (s.start_slot ≤ slot) × (slot + n ≤ s.start_slot + slots_in s)

    plan_for-Planned :
        (slot : ℕ) (c : Counts)
        → s.start_slot ≤ slot
        → slot < s.start_slot + slots_in s
        → lt64 owner_quota (c s.owner_instance_id) ≡ true
        → is_busy slot f.pending ≡ false
        → str_eq (first_target f.admitted f.quotas c) "" ≡ false
        → Planned f.fresh segments f.admitted f.pending
            (plan_for f.fresh s slot (first_target f.admitted f.quotas c))
    plan_for-Planned slot c low high above free named = record {
      from =
          member (plan_for f.fresh s slot (first_target f.admitted f.quotas c))
            (record { serving = serving; covers = (low, high); source = refl; epoch = refl });
      free = free;
      to =
          Any-map _ _ f.admitted (λ n found. found.0)
            (first_target-Any f.admitted f.quotas c named);
      apart = target-apart c above named;
      identity = refl;
      shape = (refl, refl, refl);
    }

    cons-Good :
        (slot room : ℕ) (target : String) (hs : List Handoff)
        → Planned f.fresh segments f.admitted f.pending (plan_for f.fresh s slot target)
        → (room ≢ 1 → Good (slot + 1) (room - 1) hs)
        → Good slot room (plan_for f.fresh s slot target ∷ (if room == 1 then [] else hs))
    cons-Good slot room target hs one rest =
        if-either (λ (r : List Handoff). Good slot room (plan_for f.fresh s slot target ∷ r))
          (room == 1)
          (λ e. record {
            planned = (one, tt);
            ascends = (omega arith, tt);
            fits = λ l. omega (arith, l);
          })
          (λ e.
            let g = rest (λ q. ground arith) in
            record {
              planned = (one, g.planned);
              ascends = (omega arith, g.ascends);
              fits = λ l. ground (arith, g.fits);
            })

    plan_slots-Good :
        (n slot : ℕ) (c : Counts) (room : ℕ) (next : Counts → ℕ → List Handoff)
        → s.start_slot ≤ slot
        → slot + n ≤ s.start_slot + slots_in s
        → ((d : Counts) (left : ℕ) → Good (s.start_slot + slots_in s) left (next d left))
        → Good slot room (plan_slots f s owner_quota n slot c room next)
    unfolding plan_slots
    plan_slots-Good zero slot c room next low high follows =
        widen slot room _ (omega (arith, high)) (follows c room)
    plan_slots-Good (suc n) slot c room next low high follows =
        if-either (Good slot room) (lt64 owner_quota (c s.owner_instance_id))
          (λ above.
            if-either (Good slot room) (is_busy slot f.pending)
              (λ busy. widen slot room _ (omega arith) (
                plan_slots-Good n (slot + 1) c room next (omega (arith, low)) (omega (arith, high))
                  follows))
              (λ free.
                if-either (Good slot room) (str_eq (first_target f.admitted f.quotas c) "")
                  (λ none_left. none-Good slot room)
                  (λ named.
                    cons-Good slot room (first_target f.admitted f.quotas c) _
                      (plan_for-Planned slot c low (omega (arith, high)) above free named)
                      (λ more.
                        plan_slots-Good n (slot + 1) _ (room - 1) next (omega (arith, low))
                          (omega (arith, high)) follows))))
          (λ below. widen slot room _ (omega (arith, high)) (follows c room))

  pub plan_segments-Good :
      (ss : List OwnershipSegment) (low room : ℕ) (c : Counts)
      → ((h : Handoff) → Any (From h) ss → Any (From h) segments)
      → Chained low ss
      → Good low room (plan_segments nodes f ss c room)
  unfolding plan_segments owner_quota
  plan_segments-Good [] low room c member chain = none-Good low room
  plan_segments-Good (s ∷ ss) low room c member (at, high, chain) =
      let follows : (d : Counts) (left : ℕ)
          → Good (s.start_slot + slots_in s) left (plan_segments nodes f ss d left) =
        λ d left.
          plan_segments-Good ss (s.start_slot + slots_in s) left d (λ h a. member h (inr a))
            (subst (λ k. Chained k ss) (omega (arith, high)) chain) in
      if-either (Good low room) (is_serving s.state)
        (λ serving. widen low room _ (omega (arith, at)) (
          plan_slots-Good s serving (λ h a. member h (inl a)) (slots_in s) s.start_slot c room
            (plan_segments nodes f ss) (omega arith) (omega arith) follows))
        (λ other. widen low room _ (omega (arith, at)) (follows c room))
