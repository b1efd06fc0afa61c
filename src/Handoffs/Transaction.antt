-- ===== src/Handoffs/Transaction.antt =====
-- The loop of `ApplyHandoffs` collects only accepted changes.
use sindri.Prelude.{
  ℕ, String, true, false, Option, none, some, List, [], ◌∷◌, ◌++◌, ◌≡◌, ◌≢◌, ◌∙◌, refl, subst, ◌⊎◌,
  inl, inr, arith, Option-cases, Bool-cases, ok, All, Any,
}
use sindri.Store.{SlotState, Kind, Phase, Time, mem_text, mem_nat, OwnershipRow, HandoffRow}
use sindri.Handoffs.{
  Action, Command, Request, Snapshot, Budget, row_for_handoff, Handoff, is_active,
}
use sindri.Handoffs.Apply.{
  Verdict, skip, fail, change, judge, act, resolve, withdraw_row, existing_row, names_row,
}
use sindri.Handoffs.Protocol.{Moves, act-Moves, act-source}
use sindri.Handoffs.Batch.{Changes, collect, apply_loop}

-- Where the handoff `r` of a change of slot `k` comes from: it is the slot's row, which a command of
-- the batch names; or the slot has no active row, and a WITHDRAW of the batch, by the owner of the
-- served slot, makes `r`, a release that is ready.
pub data Origin (q : Request) (k : ℕ) (existing : Option HandoffRow) (o : OwnershipRow)
    (r : HandoffRow) : Type 0 where
  stored :
      existing ≡ some r
      → Any (λ c. (c.handoff.slot_id ≡ k) × (r.id ≡ c.handoff.id)) q.commands
      → Origin q k existing o r
  withdrawn :
      ((e : HandoffRow) → existing ≡ some e → is_active e.phase ≡ false)
      → Any
          (λ c. (c.handoff.slot_id ≡ k) × (r.id ≡ c.handoff.id) × (c.action ≡ Action.withdraw))
          q.commands
      → q.instance_id ≡ r.source_instance_id
      → o.state ≡ SlotState.owned
      → r.kind ≡ Kind.release
      → r.phase ≡ Phase.ready
      → Origin q k existing o r

-- An accepted change of the slot row `o`: some handoff `r` accounts for it, and the old owner, at the
-- epoch of the handoff, is among those whose revision moves.
abbrev pub Accepted : Request → Snapshot → List String → OwnershipRow → Type 0
Accepted q s ids o' =
    (o : OwnershipRow) × (r : HandoffRow) × (s.owned o'.slot_id ≡ some o)
    × Moves q s.leases s.now r o o'
    × Origin q o'.slot_id (s.current o'.slot_id) o r
    × ((o.owner_instance_id ≡ some r.source_instance_id) × (o.epoch ≡ r.source_epoch))
    × (mem_text r.source_instance_id ids ≡ true)

-- Every row stands under its own slot.
abbrev pub Keyed : Snapshot → Type 0
Keyed s = (k : ℕ) (o : OwnershipRow) → s.owned k ≡ some o → o.slot_id ≡ k

no_active_row :
    (q : Request) (now : Time) (o : OwnershipRow) (existing : Option HandoffRow) (h : Handoff)
    {r : HandoffRow}
    → withdraw_row q now o existing h ≡ some r
    → (e : HandoffRow) → existing ≡ some e
    → is_active e.phase ≡ false
unfolding withdraw_row
no_active_row q now o none h p e f = absurd (cc)
no_active_row q now o (some x) h p e f = ground arith

withdraw_row-Origin :
    (q : Request) (now : Time) (o : OwnershipRow) (existing : Option HandoffRow) (c : Command)
    {r : HandoffRow}
    → ((P : Command → Type 0) → P c → Any P q.commands)
    → c.action ≡ Action.withdraw
    → withdraw_row q now o existing c.handoff ≡ some r
    → Origin q c.handoff.slot_id existing o r
unfolding withdraw_row row_for_handoff
withdraw_row-Origin q now o existing c mem a p =
    withdrawn (no_active_row q now o existing c.handoff p) (mem _ (refl, ground arith, a))
      (ground arith) (ground arith) (ground arith) (ground arith)

existing_row-Origin :
    (q : Request) (o : OwnershipRow) (existing : Option HandoffRow) (c : Command) {r : HandoffRow}
    → ((P : Command → Type 0) → P c → Any P q.commands)
    → existing_row c.handoff existing ≡ some r
    → Origin q c.handoff.slot_id existing o r
unfolding existing_row names_row
existing_row-Origin q o none c mem p = absurd (cc)
existing_row-Origin q o (some x) c mem p = stored (ground arith) (mem _ (refl, ground arith))

resolve-Origin :
    (q : Request) (now : Time) (o : OwnershipRow) (existing : Option HandoffRow) (c : Command)
    (a : Action) {r : HandoffRow}
    → ((P : Command → Type 0) → P c → Any P q.commands)
    → c.action ≡ a
    → resolve q now o existing c.handoff a ≡ some r
    → Origin q c.handoff.slot_id existing o r
unfolding resolve
resolve-Origin q now o e c Action.withdraw mem f p = withdraw_row-Origin q now o e c mem f p
resolve-Origin q now o e c Action.prepare mem f p = existing_row-Origin q o e c mem p
resolve-Origin q now o e c Action.begin mem f p = existing_row-Origin q o e c mem p
resolve-Origin q now o e c Action.ack_drain mem f p = existing_row-Origin q o e c mem p
resolve-Origin q now o e c Action.transfer mem f p = existing_row-Origin q o e c mem p
resolve-Origin q now o e c Action.ack_active mem f p = existing_row-Origin q o e c mem p
resolve-Origin q now o e c Action.other mem f p = existing_row-Origin q o e c mem p

module _ (q : Request) (s : Snapshot) (b : Budget) where
  -- A command that changes a row was judged on the slot's row and on a handoff.
  pub judge-act :
      (c : Command) {v : Verdict}
      → judge q s b c ≡ v
      → v ≢ skip
      → (o : OwnershipRow) × (r : HandoffRow) × (s.owned c.handoff.slot_id ≡ some o)
        × (resolve q s.now o (s.current c.handoff.slot_id) c.handoff c.action ≡ some r)
        × (act q s b c.action o r ≡ v)
  unfolding judge
  judge-act c {v} h n = elim (Option-cases (s.owned c.handoff.slot_id)) [
    | inl e ↦ ground arith
    | inr (o, e) ↦
        at_owned o e
          (Option-cases (resolve q s.now o (s.current c.handoff.slot_id) c.handoff c.action))
  ]
    where
      at_owned :
          (o : OwnershipRow)
          → s.owned c.handoff.slot_id ≡ some o
          → ((resolve q s.now o (s.current c.handoff.slot_id) c.handoff c.action ≡ none)
              ⊎ ((r : HandoffRow) × (resolve q s.now o
                      (s.current c.handoff.slot_id)
                      c.handoff
                      c.action
                    ≡ some r)))
          → (o : OwnershipRow) × (r : HandoffRow) × (s.owned c.handoff.slot_id ≡ some o)
            × (resolve q s.now o (s.current c.handoff.slot_id) c.handoff c.action ≡ some r)
            × (act q s b c.action o r ≡ v)
      at_owned o e (inl m) = ground arith
      at_owned o e (inr (r, m)) = (o, r, e, m, ground arith)

mem_text-append_left :
    (x : String) (xs ys : List String) → mem_text x xs ≡ true → mem_text x (xs ++ ys) ≡ true
mem_text-append_left x [] ys h = cc
mem_text-append_left x (y ∷ xs) ys h = ground (arith, mem_text-append_left x xs ys)

mem_text-append_right :
    (x : String) (xs ys : List String) → mem_text x ys ≡ true → mem_text x (xs ++ ys) ≡ true
mem_text-append_right x [] ys h = h
mem_text-append_right x (y ∷ xs) ys h = ground (arith, mem_text-append_right x xs ys h)

Accepted-grow :
    (q : Request) (s : Snapshot) (ids more : List String) (os : List OwnershipRow)
    → All (Accepted q s ids) os
    → All (Accepted q s (more ++ ids)) os
Accepted-grow q s ids more [] a = tt
Accepted-grow q s ids more (x ∷ os) (a, rest) = (
  (a.0, a.1, a.2, a.3, a.4, a.5, mem_text-append_right a.1.source_instance_id more ids a.6),
  Accepted-grow q s ids more os rest,
)

module _ (q : Request) (s : Snapshot) (keyed : Keyed s) where
  collect-Accepted :
      (b : Budget) (c : Command) (acc : Changes) (r' : HandoffRow) (so : Option OwnershipRow)
      (ids : List String) (b' : Budget)
      → ((P : Command → Type 0) → P c → Any P q.commands)
      → judge q s b c ≡ change r' so ids b'
      → All (Accepted q s acc.instances) acc.slots
      → All (Accepted q s (collect r' so ids acc).instances) (collect r' so ids acc).slots
  unfolding collect
  collect-Accepted b c acc r' none ids b' mem h a = Accepted-grow q s acc.instances ids acc.slots a
  collect-Accepted b c acc r' (some o') ids b' mem h a =
      let (o, r, held, origin, acts) = judge-act q s b c h (λ e. cc) in
      let src = act-source q s b o r c.action acts in
      let k : o'.slot_id ≡ c.handoff.slot_id = src.3 ∙ keyed _ o held in
      (
        (
          o,
          r,
          rw k held,
          act-Moves q s b o r c.action acts,
          rw k (resolve-Origin q s.now o _ c c.action mem refl origin),
          (src.0, src.1),
          mem_text-append_left r.source_instance_id ids acc.instances src.2,
        ),
        Accepted-grow q s acc.instances ids acc.slots a,
      )

  pub apply_loop-Accepted :
      (b : Budget) (acc : Changes) (seen : List ℕ) (cs : List Command) {out : Changes}
      → ((P : Command → Type 0) → Any P cs → Any P q.commands)
      → apply_loop q s b acc seen cs ≡ ok out
      → All (Accepted q s acc.instances) acc.slots
      → All (Accepted q s out.instances) out.slots
  unfolding apply_loop
  apply_loop-Accepted b acc seen [] {out} mem h a =
      let e : acc ≡ out = ground arith in
      subst (λ (x : Changes). All (Accepted q s x.instances) x.slots) e a
  apply_loop-Accepted b acc seen (c ∷ cs) {out} mem h a =
      elim (Bool-cases (mem_nat c.handoff.slot_id seen)) [
        | inl e ↦ absurd (ground arith)
        | inr e ↦
            judged (judge q s b c) refl
              (apply_loop-Accepted b acc (c.handoff.slot_id ∷ seen) cs (λ P m. mem P (inr m)))
              (λ r o ids b' k.
                apply_loop-Accepted b' (collect r o ids acc) (c.handoff.slot_id ∷ seen) cs
                  (λ P m. mem P (inr m)) k)
              e
      ]
    where
      judged :
          (v : Verdict)
          → judge q s b c ≡ v
          → (apply_loop q s b acc (c.handoff.slot_id ∷ seen) cs ≡ ok out
              → All (Accepted q s acc.instances) acc.slots
              → All (Accepted q s out.instances) out.slots)
          → ((r : HandoffRow) (o : Option OwnershipRow) (ids : List String) (b' : Budget)
              → apply_loop q s b' (collect r o ids acc) (c.handoff.slot_id ∷ seen) cs ≡ ok out
              → All (Accepted q s (collect r o ids acc).instances) (collect r o ids acc).slots
              → All (Accepted q s out.instances) out.slots)
          → mem_nat c.handoff.slot_id seen ≡ false
          → All (Accepted q s out.instances) out.slots
      judged skip ev skipped changed e = skipped (ground arith) a
      judged (fail x) ev skipped changed e = absurd (ground arith)
      judged (change r o ids b') ev skipped changed e =
          changed r o ids b' (ground arith)
            (collect-Accepted b c acc r o ids b' (λ P m. mem P (inl m)) ev a)
