-- ===== src/Assembler/Graph.antt =====
-- internal/assembler/graph.go and `uniqueStrings` of internal/assembler/bundle.go: the entities
-- within some hops of the seeds.
pub mod Reach
pub mod Unique
use factvault.Common.{
  ℕ, zero, suc, ◌+◌, Bool, true, false, ◌&&◌, ◌||◌, Option, none, some, List, [], ◌∷◌, ◌++◌, map,
  Text, text_eq, text_lt, ℤ, pos, negsuc, leb, ◌==◌, length, if◌then◌else◌, Result, ok, err, ◌>>=◌,
}

pub data Error : Type 0 where
  entity_not_found invalid_depth invalid_entity_count bad_uuid : Error

-- A row of `relations`; the confidence is in thousandths.
pub record Relation : Type 0 where
  pub id : ℕ
  pub tenant_id : ℕ
  pub source_id : ℕ
  pub target_id : ℕ
  pub confidence : Option ℕ

-- Postgres's casts between text and uuid.
pub record UuidCast : Type 0 where
  pub of_text : Text → Option ℕ
  pub to_text : ℕ → Text

unfoldable pub is_seen : Text → List Text → Bool
is_seen value [] = false
is_seen value (s ∷ seen) = text_eq s value || is_seen value seen

-- `uniqueStrings`, from the values seen so far.
unfoldable pub unique_from : List Text → List Text → List Text
unique_from seen [] = []
unique_from seen (value ∷ values) =
    let skip = text_eq value [] || is_seen value seen in
    let rest = unique_from (if skip then seen else value ∷ seen) values in
    if skip then rest else value ∷ rest

unfoldable pub unique_strings : List Text → List Text
unique_strings values = unique_from [] values

-- `$1::uuid[]`.
unfoldable pub cast_uuids : UuidCast → List Text → Result Error (List ℕ)
cast_uuids c [] = ok []
cast_uuids c (s ∷ ss) = elim (c.of_text s) [
  | none ↦ err bad_uuid
  | some id ↦ cast_uuids c ss >>= λ ids. ok (id ∷ ids)
]

-- `COALESCE(r.confidence, 0)`.
abbrev pub coalesce : Option ℕ → ℕ
coalesce none = 0
coalesce (some c) = c

pub is_open : ℕ → Relation → Bool
is_open tenant r = r.tenant_id == tenant && leb 400 (coalesce r.confidence)

-- The rows that join one entity, in both directions.
pub neighbours : List Relation → ℕ → ℕ → List ℕ
neighbours [] tenant entity = []
neighbours (r ∷ rs) tenant entity =
    (if is_open tenant r && r.source_id == entity then r.target_id ∷ [] else [])
    ++ ((if is_open tenant r && r.target_id == entity then r.source_id ∷ [] else [])
        ++ neighbours rs tenant entity)

unfoldable pub has_id : ℕ → List ℕ → Bool
has_id id [] = false
has_id id (x ∷ xs) = x == id || has_id id xs

-- The rows of one depth, once each, as UNION keeps them.
pub distinct : List ℕ → List ℕ
distinct [] = []
distinct (x ∷ xs) = let rest = distinct xs in if has_id x rest then rest else x ∷ rest

pub next_level : List Relation → ℕ → List ℕ → List ℕ
next_level rs tenant [] = []
next_level rs tenant (x ∷ xs) = neighbours rs tenant x ++ next_level rs tenant xs

-- The recursive query: the rows of a level, and those of the levels that may still follow.
pub graph_rows : List Relation → ℕ → ℕ → List ℕ → List ℕ
graph_rows rs tenant zero level = level
graph_rows rs tenant (suc more) level =
    level ++ graph_rows rs tenant more (distinct (next_level rs tenant level))

-- `SELECT DISTINCT … ORDER BY entity_id::text`.
pub insert_id : UuidCast → ℕ → List ℕ → List ℕ
insert_id c id [] = id ∷ []
insert_id c id (x ∷ xs) =
    let rest = insert_id c id xs in
    if id == x
    then x ∷ xs
    else if text_lt (c.to_text id) (c.to_text x)
    then id ∷ x ∷ xs
    else x ∷ rest

pub order_ids : UuidCast → List ℕ → List ℕ
order_ids c [] = []
order_ids c (x ∷ xs) = insert_id c x (order_ids c xs)

-- The query of `ExpandGraph`, from the seeds' UUIDs.
pub reachable_ids : UuidCast → List Relation → ℕ → ℕ → List ℕ → List ℕ
reachable_ids c rs tenant depth seeds = order_ids c (graph_rows rs tenant depth (distinct seeds))

abbrev with_depth : UuidCast → List Relation → List Text → ℕ → ℕ → Result Error (List Text)
with_depth c rs seeds zero tenant = ok (unique_strings seeds)
with_depth c rs seeds (suc depth) tenant = do
  ids ← cast_uuids c (unique_strings seeds)
  ok (map c.to_text (reachable_ids c rs tenant (suc depth) ids))

abbrev pub is_valid_depth : ℤ → Bool
is_valid_depth (pos n) = leb n 3
is_valid_depth (negsuc n) = false

abbrev depth_of : ℤ → ℕ
depth_of (pos n) = n
depth_of (negsuc n) = zero

-- `ExpandGraph`.
pub expand_graph : UuidCast → List Relation → List Text → ℤ → ℕ → Result Error (List Text)
expand_graph c rs seeds depth tenant =
    if is_valid_depth depth
    then if length seeds == 0
      then err invalid_entity_count
      else with_depth c rs seeds (depth_of depth) tenant
    else err invalid_depth
