-- ===== src/Client/Partition.antt =====
-- What groupKeyRequests makes of a batch.
use sindri.Prelude.{
  ℕ, zero, suc, ◌+◌, String, false, List, [], ◌∷◌, length, ok, check, not, >>=-eq-ok, ok_injective,
  ◌≡◌, refl, sym, ◌∙◌, ap, subst, All, Any, some, get_elem?, some_injective, arith,
}
use sindri.Keys.{slot_for_key}
use sindri.Directory.{is_empty}
use sindri.Client.Requests.{KeyRequest}
use sindri.Client.Groups.{OwnerGroup, join_group, group_from, group_key_requests}
use sindri.Client.Joined.{
  Has, total, All-snoc, join_group-All, join_group-kept, join_group-joined, join_group-total,
  sort_groups-All, sort_groups-Any, sort_groups-total,
}

module _ (owners : ℕ → String) where
  -- The group of one node: each of its requests is for a slot of that node.
  pub record IsGroupOf (whole : List KeyRequest) (g : OwnerGroup) : Type 0 where
    pub named : is_empty g.node_id ≡ false
    pub anchored : owners g.anchor_slot ≡ g.node_id
    pub owned :
        All
          (λ i.
            (r : KeyRequest) × (get_elem? whole i ≡ some r)
            × (owners (slot_for_key r.key) ≡ g.node_id))
          g.indexes

  record Rest (index : ℕ) (whole rs : List KeyRequest) (before after : List OwnerGroup)
      : Type 0 where
    each : All (IsGroupOf whole) before → All (IsGroupOf whole) after
    kept : (i : ℕ) (o : String) → Any (Has i o) before → Any (Has i o) after
    found :
        (k : ℕ) (r : KeyRequest)
        → get_elem? rs k ≡ some r
        → Any (Has (index + k) (owners (slot_for_key r.key))) after
    counted : total after ≡ total before + length rs

  found_after :
      (index : ℕ) (r : KeyRequest) (rs : List KeyRequest) (after : List OwnerGroup)
      → Any (Has index (owners (slot_for_key r.key))) after
      → ((k : ℕ) (x : KeyRequest)
          → get_elem? rs k ≡ some x
          → Any (Has (suc index + k) (owners (slot_for_key x.key))) after)
      → (k : ℕ) (x : KeyRequest) → get_elem? (r ∷ rs) k ≡ some x
      → Any (Has (index + k) (owners (slot_for_key x.key))) after
  found_after index r rs after first others zero x e =
      let i : index ≡ index + 0 = omega arith in
      subst (λ j. Any (Has j (owners (slot_for_key x.key))) after) i
        (subst (λ (y : KeyRequest). Any (Has index (owners (slot_for_key y.key))) after)
          (some_injective e) first)
  found_after index r rs after first others (suc k) x e =
      let i : suc index + k ≡ index + suc k = omega arith in
      subst (λ j. Any (Has j (owners (slot_for_key x.key))) after) i (others k x e)

  group_from-Rest :
      (index : ℕ) (whole rs : List KeyRequest) (before after : List OwnerGroup)
      → ((k : ℕ) → get_elem? rs k ≡ get_elem? whole (index + k))
      → group_from owners index rs before ≡ ok after
      → Rest index whole rs before after
  unfolding group_from
  group_from-Rest index whole [] before after place h =
      subst (λ (x : List OwnerGroup). Rest index whole [] before x) (ok_injective h)
        record {
          each = λ a. a;
          kept = λ i o a. a;
          found = λ k r e. absurd (cc);
          counted = omega arith;
        }
  group_from-Rest index whole (r ∷ rs) before after place h =
      let slot = slot_for_key r.key in
      let owner = owners slot in
      let joined = join_group owner slot index before in
      let (u, filled, h1) = >>=-eq-ok (check (not (is_empty owner)) _) _ h in
      let here : get_elem? whole index ≡ some r =
        ap (λ i. get_elem? whole i) (omega arith) ∙ sym (place 0) in
      let mine : (r' : KeyRequest) × (get_elem? whole index ≡ some r')
          × (owners (slot_for_key r'.key) ≡ owner) =
        (r, here, refl) in
      let rest =
        group_from-Rest (suc index) whole rs joined after
          (λ k. place (suc k) ∙ ap (λ i. get_elem? whole i) (omega arith)) h1 in
      record {
        each = λ a. rest.each (
            join_group-All owner slot index (IsGroupOf whole) before a
              (record { named = ground arith; anchored = refl; owned = (mine, tt) })
              (λ g e p. record {
                named = p.named;
                anchored = p.anchored;
                owned = All-snoc _ g.indexes index p.owned (r, here, sym e);
              }));
        kept = λ i o a. rest.kept i o (join_group-kept owner slot index i o before a);
        found =
            found_after index r rs after
              (rest.kept index owner (join_group-joined owner slot index before)) rest.found;
        counted = omega (arith, rest.counted, join_group-total owner slot index before);
      }

  -- The requests of a batch, parted by the nodes that own their slots.
  pub record Partition (whole : List KeyRequest) (groups : List OwnerGroup) : Type 0 where
    pub each : All (IsGroupOf whole) groups
    pub found :
        (i : ℕ) (r : KeyRequest)
        → get_elem? whole i ≡ some r
        → Any (Has i (owners (slot_for_key r.key))) groups
    pub counted : total groups ≡ length whole

  -- groupKeyRequests, where it returns no error, parts the requests: every group has a node, which
  -- owns the slots of the group's requests and its anchor slot; every request is in a group of its
  -- slot's owner; and the groups have as many indexes together as there are requests.
  pub group_key_requests-Partition :
      (rs : List KeyRequest) (groups : List OwnerGroup)
      → group_key_requests owners rs ≡ ok groups
      → Partition rs groups
  unfolding group_key_requests
  group_key_requests-Partition rs groups h =
      let (formed, done, h1) = >>=-eq-ok (group_from owners 0 rs []) _ h in
      let rest =
        group_from-Rest 0 rs rs [] formed (λ k. ap (λ i. get_elem? rs i) (omega arith)) done in
      subst (λ (x : List OwnerGroup). Partition rs x) (ok_injective h1)
        record {
          each = sort_groups-All (IsGroupOf rs) formed (rest.each tt);
          found = λ i r e. sort_groups-Any _ formed (
              subst (λ j. Any (Has j (owners (slot_for_key r.key))) formed) (omega arith)
                (rest.found i r e));
          counted = omega (arith, sort_groups-total formed, rest.counted);
        }
