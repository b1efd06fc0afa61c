-- ===== src/Client/Groups.antt =====
-- The client's grouping of a batch by the owners of its slots, pkg/sequence/client.go:
-- groupKeyRequests. The groups by node are a list in place of the source's map, whose order the sort
-- at the end removes.
use sindri.Prelude.{
  ℕ, suc, String, List, [], ◌∷◌, ◌++◌, Result, ok, ◌>>=◌, ◌>>◌, check, not, str_eq, if◌then◌else◌,
}
use Prim.Native.String.{compare as compare_text}
use text.Mathlib.Text.{is_lt}
use sindri.Keys.{slot_for_key}
use sindri.Directory.{is_empty}
use sindri.Client.Requests.{KeyRequest}

pub record OwnerGroup : Type 0 where
  pub node_id : String
  pub anchor_slot : ℕ
  pub indexes : List ℕ

pub data GroupError : Type 0 where
  batch_route_changed : ℕ → GroupError

-- The request `index` joins the group of its owner, or begins it.
unfoldable pub join_group : String → ℕ → ℕ → List OwnerGroup → List OwnerGroup
join_group owner slot index [] =
    record { node_id = owner; anchor_slot = slot; indexes = index ∷ [] } ∷ []
join_group owner slot index (g ∷ gs) =
    let rest = join_group owner slot index gs in
    if str_eq g.node_id owner
    then record g { indexes = g.indexes ++ (index ∷ []) } ∷ gs
    else g ∷ rest

unfoldable pub insert_group : OwnerGroup → List OwnerGroup → List OwnerGroup
insert_group g [] = g ∷ []
insert_group g (x ∷ xs) =
    let rest = insert_group g xs in
    if is_lt (compare_text x.node_id g.node_id) then x ∷ rest else g ∷ x ∷ xs

unfoldable pub sort_groups : List OwnerGroup → List OwnerGroup
sort_groups [] = []
sort_groups (g ∷ gs) = insert_group g (sort_groups gs)

module _ (owners : ℕ → String) where
  -- The loop over the requests, from the request `index` on.
  unfoldable pub group_from :
      ℕ → List KeyRequest → List OwnerGroup → Result GroupError (List OwnerGroup)
  unfolding join_group
  group_from index [] groups = ok groups
  group_from index (r ∷ rs) groups = do
    let slot = slot_for_key r.key
    check (not (is_empty (owners slot))) (batch_route_changed slot)
    group_from (suc index) rs (join_group (owners slot) slot index groups)

  -- `groupKeyRequests`.
  unfoldable pub group_key_requests : List KeyRequest → Result GroupError (List OwnerGroup)
  unfolding group_from sort_groups
  group_key_requests rs = do groups ← group_from 0 rs []; ok (sort_groups groups)
