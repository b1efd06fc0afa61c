-- ===== src/Allocation/Fetches.antt =====
-- What fetches and their ends do to a key keeps the invariant.
use sindri.Prelude.{
  ℕ, ◌≤◌, ◌<◌, Bool, true, false, not, ◌&&◌, ◌||◌, Option, none, some, some_injective,
  if◌then◌else◌, ◌≡◌, subst, arith, inl, inr, Bool-cases, Option-cases,
}
use sindri.Ranges.{SequenceRange}
use sindri.Allocation.{Key, Position, raised, placed, opened, closed}
use sindri.Allocation.Invariant.{Knows}
use sindri.Allocation.System.{
  System, complete, fail, start_prefetch, prepare_batch_range, has_ready_block, is_free,
}
use sindri.Allocation.History.{Invariant}

-- The key with another standby range, fetch flag and end of what was fetched.
abbrev around : Key → Option SequenceRange → Bool → ℕ → Key
around k o f h = record k { standby = o; fetching = f; high = h }

around-Knows :
    (u : ℕ) (k : Key) (o : Option SequenceRange) (f : Bool) (h : ℕ) (q : Position)
    → k.lock ≡ none
    → Knows u k q
    → Knows u (around k o f h) q
around-Knows u k o f h (raised n r) free a = absurd (let l = a.0 in cc)
around-Knows u k o f h (placed n r) free a = absurd (let l = a.0 in cc)
around-Knows u k o f h (opened n r) free a = absurd (let l = a.0 in cc)
around-Knows u k o f h (closed n r) free a = absurd (let l = a.0 in cc)
around-Knows u k o f h q free a = a

around-Invariant :
    (s : System) (o : Option SequenceRange) (f : Bool) (h : ℕ)
    → s.key.lock ≡ none
    → s.key.high ≤ h
    → ((r : SequenceRange)
        → o ≡ some r
        → (s.key.last < r.start) × (r.start ≤ r.last) × (r.last ≤ h))
    → Invariant s
    → Invariant (record s { key = around s.key o f h })
around-Invariant s o f h free higher fits i = record {
  shared = record {
    apart = i.shared.apart;
    below_next = i.shared.below_next;
    below_last = i.shared.below_last;
    below_high = omega (arith, i.shared.below_high, higher);
    standby = fits;
    unlocked = i.shared.unlocked;
  };
  safe = λ u. (
    around-Knows u s.key o f h (s.at u) free (i.safe u).0,
    λ tok has.
        (let held = (i.safe u).1 tok has in record { bound = held.bound; fresh = held.fresh }),
  );
  parted = λ u v n. i.parted u v n;
}

is_free-lock : (k : Key) → is_free k ≡ true → k.lock ≡ none
is_free-lock k h = elim (Option-cases k.lock) [ inl e ↦ e | inr (u, e) ↦ absurd (ground arith) ]

old-fits :
    (s : System)
    → Invariant s
    → (r : SequenceRange) → s.key.standby ≡ some r
    → (s.key.last < r.start) × (r.start ≤ r.last) × (r.last ≤ s.key.high)
old-fits s i = i.shared.standby

pub complete-Invariant :
    (s : System) (r : SequenceRange)
    → s.key.high < r.start
    → r.start ≤ r.last
    → Invariant s
    → Invariant (record s { key = complete s.key r })
complete-Invariant s r above some_number i = elim (Bool-cases (is_free s.key && s.key.fetching)) [
  | inl e ↦
      let high = i.shared.below_high in
      rw e (
        around-Invariant s (some r) false r.last (is_free-lock s.key (ground arith)) (omega arith)
          (λ x f.
            subst
              (λ (y : SequenceRange).
                (s.key.last < y.start) × (y.start ≤ y.last) × (y.last ≤ r.last))
              (some_injective f) (omega arith, some_number, omega arith))
          i)
  | inr e ↦ rw e i
]

pub fail-Invariant : (s : System) → Invariant s → Invariant (record s { key = fail s.key })
fail-Invariant s i = elim (Bool-cases (is_free s.key)) [
  | inl e ↦ rw e (
      around-Invariant s s.key.standby false s.key.high (is_free-lock s.key e) (omega arith)
        (old-fits s i) i)
  | inr e ↦ rw e i
]

pub prefetch-Invariant :
    (s : System) → Invariant s → Invariant (record s { key = start_prefetch s.key })
prefetch-Invariant s i = by_standby s.key.standby
  where
    by_standby :
        (o : Option SequenceRange)
        → Invariant (record s {
          key = elim o [
            | none ↦ (if is_free s.key then record s.key { fetching = true } else s.key)
            | some _ ↦ s.key
          ];
        })
    by_standby (some r) = i
    by_standby none = elim (Bool-cases (is_free s.key)) [
      | inl f ↦ rw f (
          around-Invariant s s.key.standby true s.key.high (is_free-lock s.key f) (omega arith)
            (old-fits s i) i)
      | inr f ↦ rw f i
    ]

pub prepare-Invariant :
    (s : System) (n : ℕ) → Invariant s → Invariant (record s { key = prepare_batch_range s.key n })
prepare-Invariant s n i =
    elim (Bool-cases (not (is_free s.key) || has_ready_block s.key n || s.key.fetching)) [
      | inl e ↦ rw e i
      | inr e ↦ rw e (
          around-Invariant s none true s.key.high (is_free-lock s.key (ground arith)) (omega arith)
            (λ r f. absurd cc) i)
    ]
