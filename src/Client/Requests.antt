-- ===== src/Client/Requests.antt =====
-- The client's batch requests, pkg/sequence/client.go: normalizeKeyRequests.
--
-- A uint32 is a number; the total of the source, an int64, stays far below its limits.
use sindri.Prelude.{
  ℕ, zero, suc, ◌+◌, ◌≤◌, String, false, not, ◌||◌, List, [], ◌∷◌, length, Result, ok, ◌>>=◌, ◌>>◌,
  check, >>=-eq-ok, ok_injective, str_eq_refl, ltb, leb, ◌==◌, if◌then◌else◌, ◌≡◌, ◌≢◌, refl, ◌∙◌,
  ap, subst, All, arith,
}
use sindri.Store.{mem_text}
use sindri.Keys.{bytes}
use sindri.Directory.{is_empty}

pub record KeyRequest : Type 0 where
  pub key : String
  pub count : ℕ

pub data RequestError : Type 0 where
  empty_batch too_many_keys key_length duplicate_key count_limit total_limit : RequestError

abbrev pub max_batch_keys : ℕ
max_batch_keys = 1000

abbrev pub max_ids_per_key : ℕ
max_ids_per_key = 10000

abbrev pub max_ids_per_request : ℕ
max_ids_per_request = 100000

-- A count of 0 asks for one number.
abbrev pub or_one : ℕ → ℕ
or_one n = if n == 0 then 1 else n

-- The loop of normalizeKeyRequests.
unfoldable pub normalize_from :
    List String → ℕ → List KeyRequest → Result RequestError (List KeyRequest)
normalize_from seen total [] = ok []
normalize_from seen total (r ∷ rs) = do
  check (not (is_empty r.key || ltb 256 (length (bytes r.key)))) key_length
  check (not (mem_text r.key seen)) duplicate_key
  check (leb (or_one r.count) max_ids_per_key) count_limit
  check (leb (total + or_one r.count) max_ids_per_request) total_limit
  rest ← normalize_from (r.key ∷ seen) (total + or_one r.count) rs
  ok (record { key = r.key; count = or_one r.count } ∷ rest)

-- `normalizeKeyRequests`.
unfoldable pub normalize_key_requests : List KeyRequest → Result RequestError (List KeyRequest)
normalize_key_requests rs = do
  check (not (length rs == 0)) empty_batch
  check (leb (length rs) max_batch_keys) too_many_keys
  normalize_from [] 0 rs

abbrev pub sum_counts : List KeyRequest → ℕ
sum_counts [] = 0
sum_counts (r ∷ rs) = r.count + sum_counts rs

-- The requests in their order, each for its own key and at least one number.
abbrev pub Defaulted : List KeyRequest → List KeyRequest → Type 0
Defaulted [] [] = Unit
Defaulted (r ∷ rs) (x ∷ xs) = (x.key ≡ r.key) × (x.count ≡ or_one r.count) × Defaulted rs xs
Defaulted rs xs = ⊥

-- A key of 1 to 256 bytes that asks for 1 to 10000 numbers.
abbrev pub Sized : KeyRequest → Type 0
Sized x =
    (is_empty x.key ≡ false)
    × (length (bytes x.key) ≤ 256)
    × (1 ≤ x.count)
    × (x.count ≤ max_ids_per_key)

abbrev pub DistinctKeys : List KeyRequest → Type 0
DistinctKeys [] = Unit
DistinctKeys (x ∷ xs) = All (λ y. x.key ≢ y.key) xs × DistinctKeys xs

record Loop (seen : List String) (total : ℕ) (rs out : List KeyRequest) : Type 0 where
  same : Defaulted rs out
  fresh : All (λ (x : KeyRequest). mem_text x.key seen ≡ false) out
  sized : All Sized out
  distinct : DistinctKeys out
  bounded : total + sum_counts out ≤ max_ids_per_request
  again : normalize_from seen total out ≡ ok out

or_one_positive : (n : ℕ) → 1 ≤ or_one n
or_one_positive zero = omega arith
or_one_positive (suc n) = ground arith

or_one_again : (n : ℕ) → or_one (or_one n) ≡ or_one n
or_one_again zero = refl
or_one_again (suc n) = ground arith

All-apart :
    (k : String) (seen : List String) (xs : List KeyRequest)
    → All (λ (x : KeyRequest). mem_text x.key (k ∷ seen) ≡ false) xs
    → All (λ (x : KeyRequest). mem_text x.key seen ≡ false) xs
      × All (λ (x : KeyRequest). k ≢ x.key) xs
All-apart k seen [] a = (tt, tt)
All-apart k seen (x ∷ xs) (f, a) =
    let (older, apart) = All-apart k seen xs a in
    (
      (ground arith, older),
      (
        (λ e.
            let itself = ap (λ y. mem_text y (k ∷ seen)) e ∙ f in
            let same = str_eq_refl k in absurd (ground arith)),
        apart,
      ),
    )

normalize_from-Loop :
    (seen : List String) (total : ℕ) (rs out : List KeyRequest)
    → total ≤ max_ids_per_request
    → normalize_from seen total rs ≡ ok out
    → Loop seen total rs out
unfolding normalize_from
normalize_from-Loop seen total [] [] small h = record {
  same = tt;
  fresh = tt;
  sized = tt;
  distinct = tt;
  bounded = omega (arith, small);
  again = refl;
}
normalize_from-Loop seen total [] (x ∷ out) small h = absurd (cc)
normalize_from-Loop seen total (r ∷ rs) out small h =
    let (u1, key, h1) =
      >>=-eq-ok (check (not (is_empty r.key || ltb 256 (length (bytes r.key)))) _) _ h in
    let (u2, unseen, h2) = >>=-eq-ok (check (not (mem_text r.key seen)) _) _ h1 in
    let (u3, each, h3) = >>=-eq-ok (check (leb (or_one r.count) max_ids_per_key) _) _ h2 in
    let (u4, all, h4) =
      >>=-eq-ok (check (leb (total + or_one r.count) max_ids_per_request) _) _ h3 in
    let (rest, done, h5) =
      >>=-eq-ok (normalize_from (r.key ∷ seen) (total + or_one r.count) rs) _ h4 in
    let later =
      normalize_from-Loop (r.key ∷ seen) (total + or_one r.count) rs rest (ground arith) done in
    let (older, apart) = All-apart r.key seen rest later.fresh in
    let once = or_one_again r.count in
    subst (λ (o : List KeyRequest). Loop seen total (r ∷ rs) o) (ok_injective h5)
      record {
        same = (refl, refl, later.same);
        fresh = (ground arith, older);
        sized = ((ground arith, ground arith, or_one_positive r.count, ground arith), later.sized);
        distinct = (apart, later.distinct);
        bounded = omega (arith, later.bounded);
        again = rw (once, key, unseen, each, all, later.again) refl;
      }

Defaulted-length : (rs out : List KeyRequest) → Defaulted rs out → length out ≡ length rs
Defaulted-length [] [] d = refl
Defaulted-length (r ∷ rs) (x ∷ xs) d = ap suc (Defaulted-length rs xs d.2)
Defaulted-length [] (x ∷ xs) d = absurd d
Defaulted-length (r ∷ rs) [] d = absurd d

-- A batch that the server's limits allow.
pub record Normalised (rs out : List KeyRequest) : Type 0 where
  pub same : Defaulted rs out
  pub several : (1 ≤ length out) × (length out ≤ max_batch_keys)
  pub sized : All Sized out
  pub distinct : DistinctKeys out
  pub bounded : sum_counts out ≤ max_ids_per_request
  pub again : normalize_key_requests out ≡ ok out

-- What normalizeKeyRequests returns without an error has the given keys in their order, with 1 for a
-- count of 0 and the given counts otherwise; it has 1 to 1000 requests for different keys of 1 to
-- 256 bytes, with counts of 1 to 10000 that add up to at most 100000; and it is its own
-- normalisation.
pub normalize_key_requests-Normalised :
    (rs out : List KeyRequest) → normalize_key_requests rs ≡ ok out → Normalised rs out
unfolding normalize_key_requests
normalize_key_requests-Normalised rs out h =
    let (u1, some_request, h1) = >>=-eq-ok (check (not (length rs == 0)) _) _ h in
    let (u2, few, h2) = >>=-eq-ok (check (leb (length rs) max_batch_keys) _) _ h1 in
    let loop = normalize_from-Loop [] 0 rs out (omega arith) h2 in
    let long = Defaulted-length rs out loop.same in
    record {
      same = loop.same;
      several = (ground arith, ground arith);
      sized = loop.sized;
      distinct = loop.distinct;
      bounded = omega (arith, loop.bounded);
      again = rw (long, some_request, few, loop.again) refl;
    }
