-- ===== src/Allocation/Around.antt =====
-- What happens around the goroutines keeps the invariant, and so does everything together.
use sindri.Prelude.{
  ℕ, suc, length, sym, ◌+◌, ◌==◌, ℕ_discrete, ◌≤◌, ◌<◌, Bool, ◌&&◌, ◌||◌, some, List, [], ◌∷◌, All,
  ◌≡◌, subst, arith, inl, inr, Bool-cases,
}
use sindri.Store.Slots.{All-map}
use sindri.Allocation.{is_even, advance, Key, Position, idle, waiting}
use sindri.Allocation.Invariant.{Token, token, Knows, Pairwise}
use sindri.Allocation.System.{
  System, Event, call, step, leave, fetched, failed, prefetch, prepare, react, run, enter, left,
  complete, fail, start_prefetch, prepare_batch_range, new_system, Rising, set, entry,
}
use sindri.Prelude.Int64.{two63, two64, max_int64}
use sindri.Allocation.Ideal.{ideal}
use sindri.Allocation.Small.{Small, SmallAt, advance-ideal}
use sindri.Allocation.Room.{Small-grow, SmallAt-grow, ideal-cursor, ideal-start, ideal-SmallAt}
use sindri.Allocation.Steps.{ideal-range}
use sindri.Allocation.History.{
  Invariant, step-Invariant, goes-Invariant, entry-Knows, entry-token, set-same, set-other,
}
use sindri.Allocation.Fetches.{
  complete-Invariant, fail-Invariant, prefetch-Invariant, prepare-Invariant,
}

enter-Knows :
    (t n : ℕ) (k : Key) (q : Position)
    → Knows t k q
    → Knows t k (enter k n q)
      × ((tok : Token) → token (enter k n q) ≡ some tok → token q ≡ some tok)
enter-Knows t n k idle a = (entry-Knows t n k, λ tok has. absurd (let e = entry-token n k in cc))
enter-Knows t n k q a = (a, λ tok has. has)

left-Knows :
    (t : ℕ) (k : Key) (q : Position)
    → Knows t k q
    → Knows t k (left q) × ((tok : Token) → token (left q) ≡ some tok → token q ≡ some tok)
left-Knows t k (waiting n l) a = (tt, λ tok has. absurd cc)
left-Knows t k q a = (a, λ tok has. has)

-- The ranges still to come lie above what the key has fetched, and the cursor has room for a move by
-- every event still to come.
record Ready (s : System) (es : List Event) : Type 0 where
  invariant : Invariant s
  high : ℕ
  most : ℕ
  room : most + length es < two64
  large : max_int64 ≤ most
  fetched : (s.key.high ≤ high) × (high ≤ max_int64)
  rising : Rising high es
  small : Small most s.key
  small_at : (u : ℕ) → SmallAt most (s.at u)

set-SmallAt :
    (most t : ℕ) (p : Position) (f : ℕ → Position)
    → ((u : ℕ) → SmallAt most (f u))
    → SmallAt (suc most) p
    → (u : ℕ) → SmallAt (suc most) (set t p f u)
set-SmallAt most t p f all own u = elim (ℕ_discrete t u) [
  | yes e ↦ subst (λ (x : Position). SmallAt (suc most) x) (sym (set-same t p f u e)) own
  | no n ↦
      subst (λ (x : Position). SmallAt (suc most) x) (sym (set-other t p f u n))
        (SmallAt-grow most (f u) (all u))
]

entry-SmallAt : (most n : ℕ) (k : Key) → SmallAt most (entry k n)
entry-SmallAt most n k = elim (Bool-cases (n == 0 || n == 1)) [
  | inl e ↦ elim (Bool-cases k.initialized) [ inl f ↦ rw (e, f) tt | inr f ↦ rw (e, f) tt ]
  | inr e ↦ elim (Bool-cases (k.initialized && is_even k.generation)) [
    | inl f ↦ rw (e, f) tt
    | inr f ↦ rw (e, f) tt
  ]
]

enter-SmallAt : (most n : ℕ) (k : Key) (q : Position) → SmallAt most q → SmallAt most (enter k n q)
enter-SmallAt most n k idle a = entry-SmallAt most n k
enter-SmallAt most n k q a = a

left-SmallAt : (most : ℕ) (q : Position) → SmallAt most q → SmallAt most (left q)
left-SmallAt most (waiting n l) a = tt
left-SmallAt most q a = a

-- The key with other fetches keeps its cursor and its active range.
around-Ready :
    (s : System) (k : Key) (e : Event) (es : List Event) (y : Ready s (e ∷ es)) (high : ℕ)
    → Invariant (record s { key = k })
    → (k.next ≡ s.key.next) × (k.start ≡ s.key.start) × (k.high ≤ high)
    → high ≤ max_int64
    → Rising high es
    → Ready (record s { key = k }) es
around-Ready s k e es y high i (next, start, below) int rising = record {
  invariant = i;
  high = high;
  most = y.most;
  room = omega (arith, y.room);
  large = y.large;
  fetched = (below, int);
  rising = rising;
  small = record {
    cursor = omega (arith, next, y.small.cursor);
    start = omega (arith, start, y.small.start);
    high = omega arith;
  };
  small_at = y.small_at;
}

moved-Ready :
    (s : System) (t : ℕ) (p : Position) (e : Event) (es : List Event) (y : Ready s (e ∷ es))
    → Invariant (record s { at = set t p s.at })
    → Rising y.high es
    → SmallAt y.most p
    → Ready (record s { at = set t p s.at }) es
moved-Ready s t p e es y i rising own = record {
  invariant = i;
  high = y.high;
  most = suc y.most;
  room = omega (arith, y.room);
  large = omega (arith, y.large);
  fetched = y.fetched;
  rising = rising;
  small = Small-grow y.most s.key y.small;
  small_at = set-SmallAt y.most t p s.at y.small_at (SmallAt-grow y.most p own);
}

-- Under these conditions a step of the source is an ideal one.
step-Ready :
    (s : System) (t : ℕ) (bound : Bool) (es : List Event)
    → Ready s (step t bound ∷ es)
    → Ready
        (record {
          key = (advance t bound s.key (s.at t)).0;
          at = set t (advance t bound s.key (s.at t)).1 s.at;
        })
        es
step-Ready s t bound es y =
    let i = y.invariant in
    let p = s.at t in
    let range = ideal-range t bound s.key (s.at t) i.shared (i.safe t) in
    subst (λ (r : Key × Position). Ready (record { key = r.0; at = set t r.1 s.at }) es)
      (sym (
        advance-ideal t bound y.most (omega (arith, y.room)) s.key i.shared y.small (s.at t)
          (y.small_at t)))
      record {
        invariant = step-Invariant s t bound i;
        high = y.high;
        most = suc y.most;
        room = omega (arith, y.room);
        large = omega (arith, y.large);
        fetched = (omega (arith, range.2, y.fetched.0), y.fetched.1);
        rising = y.rising;
        small = record {
          cursor =
              ideal-cursor t bound y.most y.large s.key i.shared y.small (s.at t) (y.small_at t)
                (i.safe t);
          start =
              ideal-start t bound y.most y.large s.key i.shared y.small (s.at t) (y.small_at t)
                (i.safe t);
          high = omega (arith, range.2, y.small.high);
        };
        small_at = set-SmallAt y.most t (ideal t bound s.key (s.at t)).1 s.at y.small_at (
            ideal-SmallAt t bound y.most y.large s.key i.shared y.small (s.at t) (y.small_at t)
              (i.safe t));
      }

react-Ready : (s : System) (e : Event) (es : List Event) → Ready s (e ∷ es) → Ready (react s e) es
unfolding react
react-Ready s (call t n) es y =
    let moved = enter-Knows t n s.key (s.at t) (y.invariant.safe t).0 in
    moved-Ready s t (enter s.key n (s.at t)) (call t n) es y
      (goes-Invariant s t (enter s.key n (s.at t)) y.invariant moved.0 moved.1) y.rising
      (enter-SmallAt y.most n s.key (s.at t) (y.small_at t))
react-Ready s (leave t) es y =
    let moved = left-Knows t s.key (s.at t) (y.invariant.safe t).0 in
    moved-Ready s t (left (s.at t)) (leave t) es y
      (goes-Invariant s t (left (s.at t)) y.invariant moved.0 moved.1) y.rising
      (left-SmallAt y.most (s.at t) (y.small_at t))
react-Ready s (step t bound) es y = step-Ready s t bound es y
react-Ready s (fetched r) es y =
    let (above, some_number, int, rest) = y.rising in
    let below = y.fetched.0 in
    around-Ready s (complete s.key r) (fetched r) es y r.last
      (complete-Invariant s r (omega arith) some_number y.invariant)
      (ground arith, ground arith, ground arith) int rest
react-Ready s failed es y =
    let below = y.fetched.0 in
    around-Ready s (fail s.key) failed es y y.high (fail-Invariant s y.invariant)
      (ground arith, ground arith, ground arith) y.fetched.1 y.rising
react-Ready s prefetch es y =
    let below = y.fetched.0 in
    around-Ready s (start_prefetch s.key) prefetch es y y.high (prefetch-Invariant s y.invariant)
      (ground arith, ground arith, ground arith) y.fetched.1 y.rising
react-Ready s (prepare n) es y =
    let below = y.fetched.0 in
    around-Ready s (prepare_batch_range s.key n) (prepare n) es y y.high
      (prepare-Invariant s n y.invariant) (ground arith, ground arith, ground arith) y.fetched.1
      y.rising

run-Invariant : (s : System) (es : List Event) → Ready s es → Invariant (run s es)
unfolding run
run-Invariant s [] y = y.invariant
run-Invariant s (e ∷ es) y = run-Invariant (react s e) es (react-Ready s e es y)

new_system-Invariant : Invariant new_system
new_system-Invariant = record {
  shared = record {
    apart = tt;
    below_next = λ e. tt;
    below_last = tt;
    below_high = omega arith;
    standby = λ r e. absurd cc;
    unlocked = λ e. omega arith;
  };
  safe = λ u. (tt, λ tok has. absurd cc);
  parted = λ u v n x y hx. absurd cc;
}

new_system-Ready : (es : List Event) → Rising 0 es → length es < two63 → Ready new_system es
new_system-Ready es rising short = record {
  invariant = new_system-Invariant;
  high = 0;
  most = max_int64;
  room = omega (arith, short);
  large = omega arith;
  fetched = (omega arith, omega arith);
  rising = rising;
  small = record { cursor = omega arith; start = omega arith; high = omega arith };
  small_at = λ u. tt;
}

-- However the goroutines of a key interleave, from a key without a range, over fewer than 2 ^ 63
-- events, and provided that each range that a fetch brings is one of int64s, is not empty and lies
-- above those before it: of all the blocks of numbers handed out, no two have a number in common, and
-- none goes beyond the end of the last range fetched.
pub run-Distinct :
    (es : List Event)
    → Rising 0 es
    → length es < two63
    → Pairwise (run new_system es).key.granted
      × All (λ b. b.last ≤ (run new_system es).key.high) (run new_system es).key.granted
run-Distinct es rising short =
    let s = (run-Invariant new_system es (new_system-Ready es rising short)).shared in
    let high = s.below_high in
    (
      s.apart,
      All-map (λ b. b.last ≤ (run new_system es).key.last)
          (λ b. b.last ≤ (run new_system es).key.high) (run new_system es).key.granted
          (λ b l. omega arith) s.below_last,
    )
