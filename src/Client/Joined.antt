-- ===== src/Client/Joined.antt =====
-- The groups of groupKeyRequests, as requests join them and as they are sorted.
use sindri.Prelude.{
  ℕ, suc, ◌+◌, String, true, List, [], ◌∷◌, ◌++◌, length, length-append, str_eq, if-either, ◌≡◌,
  refl, All, Any, ◌⊎◌, inl, inr, arith,
}
use Prim.Native.String.{compare as compare_text}
use text.Mathlib.Text.{is_lt}
use sindri.Client.Groups.{OwnerGroup, join_group, insert_group, sort_groups}

-- The request at `i` goes to the node `o`.
abbrev pub Has : ℕ → String → OwnerGroup → Type 0
Has i o g = (g.node_id ≡ o) × Any (λ j. j ≡ i) g.indexes

abbrev pub total : List OwnerGroup → ℕ
total [] = 0
total (g ∷ gs) = length g.indexes + total gs

pub All-snoc : (P : ℕ → Type 0) (xs : List ℕ) (x : ℕ) → All P xs → P x → All P (xs ++ (x ∷ []))
All-snoc P [] x a p = (p, tt)
All-snoc P (y ∷ ys) x a p = (a.0, All-snoc P ys x a.1 p)

Any-snoc : (P : ℕ → Type 0) (xs : List ℕ) (x : ℕ) → Any P xs ⊎ P x → Any P (xs ++ (x ∷ []))
Any-snoc P [] x (inl a) = absurd a
Any-snoc P [] x (inr p) = inl p
Any-snoc P (y ∷ ys) x (inl (inl p)) = inl p
Any-snoc P (y ∷ ys) x (inl (inr a)) = inr (Any-snoc P ys x (inl a))
Any-snoc P (y ∷ ys) x (inr p) = inr (Any-snoc P ys x (inr p))

module _ (owner : String) (slot index : ℕ) where
  same_owner : (g : OwnerGroup) → str_eq g.node_id owner ≡ true → g.node_id ≡ owner
  same_owner g e = ground arith

  pub join_group-All :
      (P : OwnerGroup → Type 0) (gs : List OwnerGroup)
      → All P gs
      → P (record { node_id = owner; anchor_slot = slot; indexes = index ∷ [] })
      → ((g : OwnerGroup)
          → g.node_id ≡ owner
          → P g
          → P (record g { indexes = g.indexes ++ (index ∷ []) }))
      → All P (join_group owner slot index gs)
  unfolding join_group
  join_group-All P [] a new more = (new, tt)
  join_group-All P (g ∷ gs) a new more =
      let rest = join_group-All P gs a.1 new more in
      if-either (λ x. All P x) (str_eq g.node_id owner) (λ e. (more g (same_owner g e) a.0, a.1))
        (λ _. (a.0, rest))

  pub join_group-kept :
      (i : ℕ) (o : String) (gs : List OwnerGroup)
      → Any (Has i o) gs
      → Any (Has i o) (join_group owner slot index gs)
  unfolding join_group
  join_group-kept i o [] a = absurd a
  join_group-kept i o (g ∷ gs) (inl (n, h)) =
      if-either (λ x. Any (Has i o) x) (str_eq g.node_id owner)
        (λ e. inl (n, Any-snoc (λ j. j ≡ i) g.indexes index (inl h))) (λ _. inl (n, h))
  join_group-kept i o (g ∷ gs) (inr a) =
      let rest = join_group-kept i o gs a in
      if-either (λ x. Any (Has i o) x) (str_eq g.node_id owner) (λ e. inr a) (λ _. inr rest)

  pub join_group-joined :
      (gs : List OwnerGroup) → Any (Has index owner) (join_group owner slot index gs)
  unfolding join_group
  join_group-joined [] = inl (refl, inl refl)
  join_group-joined (g ∷ gs) =
      let rest = join_group-joined gs in
      if-either (λ x. Any (Has index owner) x) (str_eq g.node_id owner)
        (λ e. inl (same_owner g e, Any-snoc (λ j. j ≡ index) g.indexes index (inr refl)))
        (λ _. inr rest)

  pub join_group-total :
      (gs : List OwnerGroup) → total (join_group owner slot index gs) ≡ suc (total gs)
  unfolding join_group
  join_group-total [] = refl
  join_group-total (g ∷ gs) =
      let rest = join_group-total gs in
      if-either (λ x. total x ≡ suc (total (g ∷ gs))) (str_eq g.node_id owner)
        (λ e. omega (arith, length-append g.indexes (index ∷ []))) (λ _. omega (arith, rest))

insert_group-All :
    (P : OwnerGroup → Type 0) (g : OwnerGroup) (gs : List OwnerGroup)
    → P g
    → All P gs
    → All P (insert_group g gs)
unfolding insert_group
insert_group-All P g [] p a = (p, tt)
insert_group-All P g (x ∷ xs) p a =
    let rest = insert_group-All P g xs p a.1 in
    if-either (λ l. All P l) (is_lt (compare_text x.node_id g.node_id)) (λ _. (a.0, rest))
      (λ _. (p, a))

insert_group-Any :
    (P : OwnerGroup → Type 0) (g : OwnerGroup) (gs : List OwnerGroup)
    → P g ⊎ Any P gs
    → Any P (insert_group g gs)
unfolding insert_group
insert_group-Any P g [] a = a
insert_group-Any P g (x ∷ xs) (inl p) =
    let rest = insert_group-Any P g xs (inl p) in
    if-either (λ l. Any P l) (is_lt (compare_text x.node_id g.node_id)) (λ _. inr rest) (λ _. inl p)
insert_group-Any P g (x ∷ xs) (inr (inl q)) =
    if-either (λ l. Any P l) (is_lt (compare_text x.node_id g.node_id)) (λ _. inl q)
      (λ _. inr (inl q))
insert_group-Any P g (x ∷ xs) (inr (inr a)) =
    let rest = insert_group-Any P g xs (inr a) in
    if-either (λ l. Any P l) (is_lt (compare_text x.node_id g.node_id)) (λ _. inr rest)
      (λ _. inr (inr a))

insert_group-total :
    (g : OwnerGroup) (gs : List OwnerGroup)
    → total (insert_group g gs) ≡ length g.indexes + total gs
unfolding insert_group
insert_group-total g [] = refl
insert_group-total g (x ∷ xs) =
    let rest = insert_group-total g xs in
    if-either (λ l. total l ≡ length g.indexes + total (x ∷ xs))
      (is_lt (compare_text x.node_id g.node_id)) (λ _. omega (arith, rest)) (λ _. refl)

pub sort_groups-All :
    (P : OwnerGroup → Type 0) (gs : List OwnerGroup) → All P gs → All P (sort_groups gs)
unfolding sort_groups
sort_groups-All P [] a = tt
sort_groups-All P (g ∷ gs) a = insert_group-All P g (sort_groups gs) a.0 (sort_groups-All P gs a.1)

pub sort_groups-Any :
    (P : OwnerGroup → Type 0) (gs : List OwnerGroup) → Any P gs → Any P (sort_groups gs)
unfolding sort_groups
sort_groups-Any P [] a = absurd a
sort_groups-Any P (g ∷ gs) (inl p) = insert_group-Any P g (sort_groups gs) (inl p)
sort_groups-Any P (g ∷ gs) (inr a) =
    insert_group-Any P g (sort_groups gs) (inr (sort_groups-Any P gs a))

pub sort_groups-total : (gs : List OwnerGroup) → total (sort_groups gs) ≡ total gs
unfolding sort_groups
sort_groups-total [] = refl
sort_groups-total (g ∷ gs) =
    omega (arith, insert_group-total g (sort_groups gs), sort_groups-total gs)
