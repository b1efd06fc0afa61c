-- ===== src/Allocation/Unique.antt =====
-- No number is handed out twice.
use sindri.Prelude.{ℕ, ◌≤◌, ◌<◌, Bool, some, List, All, ◌≡◌, sym, subst, arith, ◌⊎◌, inr}
use sindri.Store.Slots.{All-map}
use sindri.Allocation.{Block, Key, Position, closed}
use sindri.Allocation.Ideal.{ideal}
use sindri.Allocation.Invariant.{Apart, Token, token, Live, Knows, Held, Safe, Shared}
use sindri.Allocation.Effect.{Effect, ideal-Effect}
use sindri.Allocation.Grants.{
  Grants, nothing, of_token, of_range, Carries, kept, taken, ideal-Grants, ideal-Carries,
}

abbrev pub Disjoint : Token → Token → Type 0
Disjoint x y = (x.2 < y.1) ⊎ (y.2 < x.1)

-- The numbers of `p` and of `q` are apart while both count.
abbrev pub Parted : Key → Position → Position → Type 0
Parted k p q =
    (x y : Token) → token p ≡ some x → token q ≡ some y → Live k x → Live k y → Disjoint x y

pub Live-before :
    (t : ℕ) (k k' : Key) (tok : Token)
    → Effect t k k'
    → tok.0 ≤ k.generation
    → Live k' tok
    → Live k tok × (k'.generation ≡ k.generation)
Live-before t k k' tok e b (l, even) = let g = e.grows in (ground arith, ground arith)

module _ (t : ℕ) (bound : Bool) (k : Key) (p : Position) (s : Shared k) (safe : Safe t k p) where
  abbrev pub after : Key
  after = (ideal t bound k p).0

  -- Another goroutine's numbers stay fresh.
  pub others-Held :
      (u : ℕ) (q : Position) (tok : Token)
      → Parted k p q
      → token q ≡ some tok
      → Held k tok
      → Held after tok
  others-Held u q tok parted has held =
      let e = ideal-Effect t bound k p safe in
      record {
        bound = omega (arith, e.grows, held.bound);
        fresh = λ live.
            (let (l, gen) = Live-before t k after tok e held.bound live in
              let (below, apart) = held.fresh l in
              let cursor = e.cursor (ground arith) (sym gen) in
              (omega (arith, cursor, below), granted l apart (ideal-Grants t bound k p safe)));
      }
    where
      granted :
          Live k tok
          → All (Apart tok.1 tok.2) k.granted
          → Grants k p after.granted
          → All (Apart tok.1 tok.2) after.granted
      granted l apart (nothing f) =
          subst (λ (bs : List Block). All (Apart tok.1 tok.2) bs) (sym f) apart
      granted l apart (of_token x hx lx cap f) =
          subst (λ (bs : List Block). All (Apart tok.1 tok.2) bs) (sym f)
            (let d = parted x tok hx has lx l in (ground arith, apart))
      granted l apart (of_range n r f g) =
          let a : Knows t k (closed n r) = subst (λ (x : Position). Knows t k x) f safe.0 in
          absurd (let odd = a.2 in ground arith)

  -- The numbers of the goroutine that steps are fresh.
  pub own-Held : (tok : Token) → token (ideal t bound k p).1 ≡ some tok → Held after tok
  own-Held tok has = from (ideal-Carries t bound k p tok safe has)
    where
      from : Carries k after p tok → Held after tok
      from (kept old h f g older f') =
          let e = ideal-Effect t bound k p safe in
          let held = safe.1 old h in
          let grows = e.grows in
          let b = held.bound in
          record {
            bound = omega arith;
            fresh = λ live.
                (let gen : k.generation ≡ after.generation = ground arith in
                  let (below, apart) = held.fresh (ground arith, ground arith) in
                  let cursor = e.cursor (ground arith) gen in
                  (
                    omega arith,
                    subst (λ (bs : List Block). All (Apart tok.1 tok.2) bs) (sym f')
                        (All-map (Apart old.1 old.2) (Apart tok.1 tok.2) k.granted
                          (λ x d. ground arith) apart),
                  ));
          }
      from (taken low high b f' gen) = record {
        bound = b;
        fresh = λ live. (
          high,
          subst (λ (bs : List Block). All (Apart tok.1 tok.2) bs) (sym f')
              (All-map (λ x. x.last ≤ k.next) (Apart tok.1 tok.2) k.granted
                (λ x d. inr (omega arith)) (s.below_next (ground arith))),
        );
      }

  -- They stay apart from another goroutine's.
  pub own-Parted :
      (q : Position)
      → ((y : Token) → token q ≡ some y → Held k y)
      → Parted k p q
      → Parted after (ideal t bound k p).1 q
  own-Parted q helds parted x y hx hy lx ly = from (ideal-Carries t bound k p x safe hx)
    where
      from : Carries k after p x → Disjoint x y
      from (kept old h f g older f') =
          let e = ideal-Effect t bound k p safe in
          let grows = e.grows in
          let held = safe.1 old h in
          let b = held.bound in
          let b' = (helds y hy).bound in
          let d = parted old y h hy (ground arith, ground arith) (ground arith, ground arith) in
          ground arith
      from (taken low high b f' gen) =
          let held = helds y hy in
          let (below, apart) = held.fresh (ground arith, ground arith) in inr (omega arith)
