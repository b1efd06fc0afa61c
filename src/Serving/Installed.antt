-- ===== src/Serving/Installed.antt =====
-- `applyAuthorityLocked`: what its loops over the served slots and over the snapshot keep.
use sindri.Prelude.{
  ℕ, Bool, true, false, Option, none, some, List, [], ◌∷◌, ◌++◌, Table, Unique, lookup,
  lookup-upsert, ℕ_discrete, ◌≡◌, ◌≢◌, refl, sym, ◌∙◌, ap, ◌⊎◌, inl, inr, All, some_injective,
  if◌then◌else◌, Bool-cases, arith,
}
use sindri.Store.{mem_nat}
use sindri.Ownership.{Ownership}
use sindri.Serving.{
  LocalSlot, is_owned, find_owned, keeps, retain_slots, new_gate, install_slot, install_slots,
}

-- Every slot of the table is in the snapshot's list, owned, at its gate's epoch.
abbrev pub Served : List Ownership → Table ℕ LocalSlot → Type 0
Served os t =
    (k : ℕ) (g : LocalSlot) → lookup ℕ_discrete k t ≡ some g → keeps (find_owned k os) g ≡ true

-- No gate of `t` is open that was not open, under the same epoch, in `t₀`.
abbrev pub NoneOpened : Table ℕ LocalSlot → Table ℕ LocalSlot → Type 0
NoneOpened before t =
    (k : ℕ) (g : LocalSlot)
    → lookup ℕ_discrete k t ≡ some g
    → g.draining ≡ false
    → lookup ℕ_discrete k before ≡ some g

retain_slots-none :
    (os : List Ownership) (t : Table ℕ LocalSlot) (k : ℕ)
    → lookup ℕ_discrete k t ≡ none
    → lookup ℕ_discrete k (retain_slots os t) ≡ none
unfolding lookup retain_slots
retain_slots-none os [] k h = refl
retain_slots-none os ((j, s) ∷ t) k h = ground (arith, retain_slots-none os t k)

-- What the loop over the served slots keeps.
pub retain_slots-lookup :
    (os : List Ownership) (t : Table ℕ LocalSlot) (k : ℕ) (g : LocalSlot)
    → Unique ℕ_discrete t
    → lookup ℕ_discrete k (retain_slots os t) ≡ some g
    → (lookup ℕ_discrete k t ≡ some g) × (keeps (find_owned k os) g ≡ true)
unfolding lookup retain_slots
retain_slots-lookup os [] k g u h = absurd (cc)
retain_slots-lookup os ((j, s) ∷ t) k g (fresh, u) h = elim (ℕ_discrete j k) [
  | yes e ↦ ground (arith, retain_slots-none os t k)
  | no n ↦ ground (arith, retain_slots-lookup os t k g u)
]

retain_slots-Unique :
    (os : List Ownership) (t : Table ℕ LocalSlot)
    → Unique ℕ_discrete t
    → Unique ℕ_discrete (retain_slots os t)
unfolding lookup retain_slots
retain_slots-Unique os [] u = tt
retain_slots-Unique os ((j, s) ∷ t) (fresh, u) =
    ground (arith, retain_slots-none os t j fresh, retain_slots-Unique os t u)

-- The rest of the snapshot's list has that slot, owned.
abbrev pub Visits : ℕ → List Ownership → Type 0
Visits k os = (o : Ownership) × (find_owned k os ≡ some o) × (is_owned o.state ≡ true)

mem_nat-append : (k j : ℕ) (xs : List ℕ) → mem_nat k xs ≡ true → mem_nat k (xs ++ (j ∷ [])) ≡ true
mem_nat-append k j [] h = absurd (cc)
mem_nat-append k j (x ∷ xs) h = ground (arith, mem_nat-append k j xs)

mem_nat-last : (k : ℕ) (xs : List ℕ) → mem_nat k (xs ++ (k ∷ [])) ≡ true
mem_nat-last k [] = ground arith
mem_nat-last k (x ∷ xs) = ground (arith, mem_nat-last k xs)

mem_nat-kept :
    (b : Bool) (k j : ℕ) (xs : List ℕ)
    → mem_nat k xs ≡ true
    → mem_nat k (if b then xs ++ (j ∷ []) else xs) ≡ true
mem_nat-kept true k j xs h = mem_nat-append k j xs h
mem_nat-kept false k j xs h = h

mem_nat-added :
    (s : LocalSlot) (k : ℕ) (g : LocalSlot) (j : ℕ) (xs : List ℕ)
    → k ≡ j
    → s ≡ g
    → g.draining ≡ true
    → mem_nat k (if s.draining then xs ++ (j ∷ []) else xs) ≡ true
mem_nat-added s k g j xs at same closed =
    rw (at, ap (λ (x : LocalSlot). x.draining) same ∙ closed) (mem_nat-last j xs)

Visits-rest :
    (k : ℕ) (o : Ownership) (rest : List Ownership)
    → Visits k (o ∷ rest)
    → (k ≡ o.slot_id) ⊎ Visits k rest
unfolding find_owned
Visits-rest k o rest (x, found, owned) = elim (ℕ_discrete k o.slot_id) [
  | yes e ↦ inl e
  | no n ↦ inr (x, ground arith, owned)
]

module _ (os : List Ownership) (before : Table ℕ LocalSlot) where
  -- How far the loop over the snapshot has come, with `rest` to go.
  pub record Progress (rest : List Ownership) (t : Table ℕ LocalSlot) (pending : List ℕ)
      : Type 0 where
    pub served : Served os t
    pub none_opened : NoneOpened before t
    pub waiting :
        (k : ℕ) (g : LocalSlot)
        → lookup ℕ_discrete k t ≡ some g
        → g.draining ≡ true
        → (mem_nat k pending ≡ true) ⊎ Visits k rest
    pub present : (k : ℕ) → Visits k os → (lookup ℕ_discrete k t ≢ none) ⊎ Visits k rest

  install_slot-Progress :
      (o : Ownership) (rest : List Ownership) (t : Table ℕ LocalSlot) (pending : List ℕ)
      (found : Option LocalSlot)
      → find_owned o.slot_id os ≡ some o
      → is_owned o.state ≡ true
      → lookup ℕ_discrete o.slot_id t ≡ found
      → Progress (o ∷ rest) t pending
      → let r = install_slot o found (t, pending) in Progress rest r.0 r.1
  unfolding install_slot find_owned keeps
  install_slot-Progress o rest t pending none first owned e p = record {
    served = λ k g h.
        ground (arith, p.served k g, lookup-upsert ℕ_discrete o.slot_id k (new_gate o.epoch) t);
    none_opened = λ k g h opened.
        ground
          (arith, p.none_opened k g, lookup-upsert ℕ_discrete o.slot_id k (new_gate o.epoch) t);
    waiting = λ k g h closed. elim (ℕ_discrete k o.slot_id) [
      | yes at ↦ inl (rw at (mem_nat-last o.slot_id pending))
      | no n ↦
          elim (p.waiting k g
            (ground (arith, h, lookup-upsert ℕ_discrete o.slot_id k (new_gate o.epoch) t)) closed) [
              | inl m ↦ inl (mem_nat-append k o.slot_id pending m)
              | inr v ↦ elim (Visits-rest k o rest v) [ inl at ↦ absurd (n at) | inr w ↦ inr w ]
            ]
    ];
    present = λ k v. elim (p.present k v) [
      | inl there ↦ inl (λ gone.
          ground (arith, there, gone, lookup-upsert ℕ_discrete o.slot_id k (new_gate o.epoch) t))
      | inr w ↦ elim (Visits-rest k o rest w) [
        | inl at ↦ inl (λ gone.
            ground (arith, at, gone, lookup-upsert ℕ_discrete o.slot_id k (new_gate o.epoch) t))
        | inr x ↦ inr x
      ]
    ];
  }
  install_slot-Progress o rest t pending (some s) first owned e p = record {
    served = p.served;
    none_opened = p.none_opened;
    waiting = λ k g h closed. elim (p.waiting k g h closed) [
      | inl m ↦ inl (mem_nat-kept s.draining k o.slot_id pending m)
      | inr v ↦ elim (Visits-rest k o rest v) [
        | inl at ↦ inl (
            mem_nat-added s k g o.slot_id pending at
              (some_injective (sym e ∙ ap (λ j. lookup ℕ_discrete j t) (sym at) ∙ h)) closed)
        | inr w ↦ inr w
      ]
    ];
    present = λ k v. elim (p.present k v) [
      | inl there ↦ inl there
      | inr w ↦ elim (Visits-rest k o rest w) [ inl at ↦ inl (λ gone. cc) | inr x ↦ inr x ]
    ];
  }

  skip-Visits :
      (k : ℕ) (o : Ownership) (rest : List Ownership)
      → is_owned o.state ≡ false
      → Visits k (o ∷ rest)
      → Visits k rest
  unfolding find_owned
  skip-Visits k o rest other (x, found, owned) = elim (ℕ_discrete k o.slot_id) [
    | yes e ↦ absurd (ground arith)
    | no n ↦ (x, ground arith, owned)
  ]

  skip-Progress :
      (o : Ownership) (rest : List Ownership) (t : Table ℕ LocalSlot) (pending : List ℕ)
      → is_owned o.state ≡ false
      → Progress (o ∷ rest) t pending
      → Progress rest t pending
  skip-Progress o rest t pending other p = record {
    served = p.served;
    none_opened = p.none_opened;
    waiting = λ k g h closed. elim (p.waiting k g h closed) [
      | inl m ↦ inl m
      | inr v ↦ inr (skip-Visits k o rest other v)
    ];
    present = λ k v. elim (p.present k v) [
      | inl there ↦ inl there
      | inr w ↦ inr (skip-Visits k o rest other w)
    ];
  }

  pub install_slots-Progress :
      (rest : List Ownership) (t : Table ℕ LocalSlot) (pending : List ℕ)
      → All (λ o. find_owned o.slot_id os ≡ some o) rest
      → Progress rest t pending
      → let r = install_slots rest (t, pending) in Progress [] r.0 r.1
  unfolding install_slots
  install_slots-Progress [] t pending a p = p
  install_slots-Progress (o ∷ rest) t pending (first, a) p = elim (Bool-cases (is_owned o.state)) [
    | inl e ↦
        rw (e, install_slots)
          (let r = install_slot o (lookup ℕ_discrete o.slot_id t) (t, pending) in
            install_slots-Progress rest r.0 r.1 a
              (install_slot-Progress o rest t pending _ first e refl p))
    | inr e ↦
        rw (e, install_slots)
          (install_slots-Progress rest t pending a (skip-Progress o rest t pending e p))
  ]
