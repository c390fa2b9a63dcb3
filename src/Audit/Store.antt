-- ===== src/Audit/Store.antt =====
-- The queries that apps/api/src/audit/audit.service.ts makes of the audit table. The table is the
-- list of its rows; Prisma's `findFirst`, `findUnique`, `findMany`, `create` and `update` are the
-- searches, the sort by `chainIndex`, the append and the update in place that the calls ask for.
use mini_sentinel.Prelude.{
  ℕ, String, Option, none, some, List, [], ◌∷◌, map, leb, eqb, if◌then◌else◌, filter, find?, ◌==◌,
}
use mini_sentinel.Audit.Row.{Row}

module _ {F : Type 0} where
  -- `findUnique({ where: { requestId } })`, `findUnique({ where: { id } })`
  abbrev pub find_request : String → List (Row F) → Option (Row F)
  find_request request_id t = find? (λ r. r.request_id == request_id) t

  abbrev pub find_id : String → List (Row F) → Option (Row F)
  find_id id t = find? (λ r. r.id == id) t

  abbrev pub find_hash : String → List (Row F) → Option (Row F)
  find_hash hash t = find? (λ r. r.hash == hash) t

  abbrev pub find_index : ℕ → List (Row F) → Option (Row F)
  find_index i t = find? (λ r. eqb r.chain_index i) t

  later : Row F → Option (Row F) → Option (Row F)
  later r none = some r
  later r (some s) = if leb s.chain_index r.chain_index then some r else some s

  -- `findFirst({ orderBy: { chainIndex: 'desc' } })`
  unfoldable pub find_latest : List (Row F) → Option (Row F)
  unfolding later
  find_latest [] = none
  find_latest (r ∷ t) = later r (find_latest t)

  unfoldable pub insert_by_index : Row F → List (Row F) → List (Row F)
  insert_by_index r [] = r ∷ []
  insert_by_index r (s ∷ t) =
      if leb r.chain_index s.chain_index then r ∷ (s ∷ t) else s ∷ insert_by_index r t

  -- `findMany({ orderBy: { chainIndex: 'asc' } })`
  unfoldable pub order_by_index : List (Row F) → List (Row F)
  unfolding insert_by_index
  order_by_index [] = []
  order_by_index (r ∷ t) = insert_by_index r (order_by_index t)

  -- `where: { chainIndex: { gte: i } }`
  abbrev pub from_index : ℕ → List (Row F) → List (Row F)
  from_index i t = filter (λ r. leb i r.chain_index) t

  abbrev pub change : String → (Row F → Row F) → Row F → Row F
  change id f r = if r.id == id then f r else r

  -- `update({ where: { id }, data })`
  unfoldable pub update : String → (Row F → Row F) → List (Row F) → List (Row F)
  update id f t = map (change id f) t
