-- ===== src/Allocation/History.antt =====
-- From a new key, whatever the goroutines do and whatever is fetched: the numbers handed out.
use sindri.Prelude.{
  ℕ, Bool, ◌&&◌, ◌||◌, none, some, ◌==◌, ◌≡◌, ◌≢◌, sym, ◌∙◌, subst, arith, inl, inr, Bool-cases,
  ℕ_discrete,
}
use sindri.Allocation.{Key, Position, is_even}
use sindri.Allocation.Ideal.{ideal}
use sindri.Allocation.Invariant.{Token, token, Knows, Safe, Shared, ideal-Knows}
use sindri.Allocation.Effect.{ideal-Effect, Effect-Knows}
use sindri.Allocation.Unique.{Parted, Live-before, others-Held, own-Held, own-Parted}
use sindri.Allocation.Kept.{ideal-Shared}
use sindri.Allocation.System.{System, set, entry}

pub record Invariant (s : System) : Type 0 where
  pub shared : Shared s.key
  pub safe : (u : ℕ) → Safe u s.key (s.at u)
  pub parted : (u v : ℕ) → u ≢ v → Parted s.key (s.at u) (s.at v)

pub set-same : (t : ℕ) (p : Position) (f : ℕ → Position) (u : ℕ) → t ≡ u → set t p f u ≡ p
unfolding set
set-same t p f u e = ground arith

pub set-other : (t : ℕ) (p : Position) (f : ℕ → Position) (u : ℕ) → t ≢ u → set t p f u ≡ f u
unfolding set
set-other t p f u n = ground arith

Parted-sym : (k : Key) (p q : Position) → Parted k p q → Parted k q p
Parted-sym k p q d x y hx hy lx ly = let e = d y x hy hx ly lx in ground arith

-- One goroutine moves to `p` and the key to `k`: what is to be shown of the others.
moved-Invariant :
    (s : System) (t : ℕ) (k : Key) (p : Position)
    → Shared k
    → Safe t k p
    → ((u : ℕ) → u ≢ t → Safe u k (s.at u))
    → ((u : ℕ) → u ≢ t → Parted k p (s.at u))
    → ((u v : ℕ) → u ≢ t → v ≢ t → u ≢ v → Parted k (s.at u) (s.at v))
    → Invariant (record { key = k; at = set t p s.at })
moved-Invariant s t k p shared own others mine rest = record {
  shared = shared;
  safe = safe;
  parted = parted;
}
  where
    at' : ℕ → Position
    at' = set t p s.at

    safe : (u : ℕ) → Safe u k (set t p s.at u)
    safe u = elim (ℕ_discrete t u) [
      | yes e ↦
          subst (λ (x : Position). Safe u k x) (sym (set-same t p s.at u e))
            (subst (λ (v : ℕ). Safe v k p) e own)
      | no n ↦
          subst (λ (x : Position). Safe u k x) (sym (set-other t p s.at u n))
            (others u (λ e. n (sym e)))
    ]

    parted : (u v : ℕ) → u ≢ v → Parted k (set t p s.at u) (set t p s.at v)
    parted u v n = elim (ℕ_discrete t u) [
      | yes e ↦
          subst (λ (x : Position). Parted k x (set t p s.at v)) (sym (set-same t p s.at u e))
            (subst (λ (x : Position). Parted k p x)
              (sym (set-other t p s.at v (λ f. n (sym e ∙ f)))) (mine v (λ f. n (sym e ∙ sym f))))
      | no m ↦
          subst (λ (x : Position). Parted k x (set t p s.at v)) (sym (set-other t p s.at u m))
            (elim (ℕ_discrete t v) [
              | yes e ↦
                  subst (λ (x : Position). Parted k (s.at u) x) (sym (set-same t p s.at v e))
                    (Parted-sym k p (s.at u) (mine u (λ f. m (sym f))))
              | no l ↦
                  subst (λ (x : Position). Parted k (s.at u) x) (sym (set-other t p s.at v l))
                    (rest u v (λ f. m (sym f)) (λ f. l (sym f)) n)
            ])
    ]

pub step-Invariant :
    (s : System) (t : ℕ) (bound : Bool)
    → Invariant s
    → Invariant (record {
      key = (ideal t bound s.key (s.at t)).0;
      at = set t (ideal t bound s.key (s.at t)).1 s.at;
    })
step-Invariant s t bound i =
    let k = s.key in
    let p = s.at t in
    let sh = i.shared in
    let mine = i.safe t in
    let e = ideal-Effect t bound s.key (s.at t) (i.safe t) in
    moved-Invariant s t (ideal t bound s.key (s.at t)).0 (ideal t bound s.key (s.at t)).1
      (ideal-Shared t bound s.key (s.at t) i.shared (i.safe t))
      (
        ideal-Knows t bound s.key (s.at t) i.shared (i.safe t),
        own-Held t bound s.key (s.at t) i.shared (i.safe t),
      )
      (λ u n. (
        Effect-Knows t u s.key (ideal t bound s.key (s.at t)).0 (s.at u) n e (i.safe u),
        λ tok has.
            others-Held t bound s.key (s.at t) i.shared (i.safe t) u (s.at u) tok
              (i.parted t u (λ f. n (sym f))) has ((i.safe u).1 tok has),
      ))
      (λ u n.
        own-Parted t bound s.key (s.at t) i.shared (i.safe t) (s.at u) (i.safe u).1
          (i.parted t u (λ f. n (sym f))))
      (λ u v n m d x y hx hy lx ly.
        i.parted u v d x y hx hy
          (Live-before t s.key (ideal t bound s.key (s.at t)).0 x e ((i.safe u).1 x hx).bound lx).0
          (Live-before t s.key (ideal t bound s.key (s.at t)).0 y e ((i.safe v).1 y hy).bound ly).0)

-- A goroutine goes elsewhere in the code, with no other numbers than it had.
pub goes-Invariant :
    (s : System) (t : ℕ) (p : Position)
    → Invariant s
    → Knows t s.key p
    → ((tok : Token) → token p ≡ some tok → token (s.at t) ≡ some tok)
    → Invariant (record s { at = set t p s.at })
goes-Invariant s t p i knows had =
    moved-Invariant s t s.key p i.shared (knows, λ tok has. (i.safe t).1 tok (had tok has))
      (λ u n. i.safe u) (λ u n x y hx hy. i.parted t u (λ f. n (sym f)) x y (had x hx) hy)
      (λ u v n m d. i.parted u v d)

pub entry-Knows : (t n : ℕ) (k : Key) → Knows t k (entry k n)
entry-Knows t n k = elim (Bool-cases (n == 0 || n == 1)) [
  | inl e ↦ elim (Bool-cases k.initialized) [
    | inl f ↦ rw (e, f) (ground arith)
    | inr f ↦ rw (e, f) (ground arith)
  ]
  | inr e ↦ elim (Bool-cases (k.initialized && is_even k.generation)) [
    | inl f ↦ rw (e, f) (ground arith, ground arith, ground arith, λ h. absurd cc)
    | inr f ↦ rw (e, f) (ground arith)
  ]
]

pub entry-token : (n : ℕ) (k : Key) → token (entry k n) ≡ none
entry-token n k = ground arith
