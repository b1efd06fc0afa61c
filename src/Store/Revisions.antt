-- ===== src/Store/Revisions.antt =====
-- The ownership revision of an instance, which every change of its authority moves.
use mathlib.Core.Option
use sindri.Prelude.{
  String, true, List, ◌≡◌, refl, ap, some, Table, lookup, String_discrete, arith, [], ◌∷◌,
}
use sindri.Store.{InstanceRow, Database, next64, mem_text, map_values, bump_row, bump_revisions}

pub lookup-map_values :
    {K V : Type 0} (same : Discrete K) (f : K → V → V) (k : K) (t : Table K V)
    → lookup same k (map_values f t) ≡ Option.map (f k) (lookup same k t)
unfolding lookup
lookup-map_values same f k [] = refl
lookup-map_values {K} {V} same f k ((j, v) ∷ t) =
    let e_key : j ≡ k → some (f j v) ≡ some (f k v) = λ e. ap (λ (i : K). some (f i v)) e in
    ground (arith, lookup-map_values same f k t)

-- From `db` to `db'` the revision of `id`, if it is registered, moves, and nothing else of its row.
abbrev pub Revised : String → Database → Database → Type 0
Revised id db db' =
    (i : InstanceRow)
    → lookup String_discrete id db.instances ≡ some i
    → lookup String_discrete id db'.instances ≡ some (record i { revision = next64 i.revision })

pub lookup-bump_revisions :
    (ids : List String) (db : Database) (id : String)
    → lookup String_discrete id (bump_revisions ids db).instances
      ≡ Option.map (bump_row ids id) (lookup String_discrete id db.instances)
unfolding bump_revisions
lookup-bump_revisions ids db id = lookup-map_values String_discrete (bump_row ids) id db.instances

pub bump_revisions-Revised :
    (ids : List String) (db : Database) (id : String)
    → mem_text id ids ≡ true
    → Revised id db (bump_revisions ids db)
unfolding bump_row
bump_revisions-Revised ids db id m i h = ground (arith, lookup-bump_revisions ids db id)
