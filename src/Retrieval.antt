-- ===== src/Retrieval.antt =====
-- internal/retrieval/service.go: bundles for an entity, a story, and a query. The fields `MaxFacts`
-- and `MinConfidence` of the requests, which nothing reads, are left out.
pub mod Tenants
use factvault.Common.{
  ℕ, Bool, true, false, not, ◌&&◌, ◌||◌, Option, none, some, List, [], ◌∷◌, ◌++◌, map, Text, lit,
  text_eq, ltb, leb, ◌==◌, ℤ, pos, negsuc, ltb_ℤ, take, if◌then◌else◌, Result, ok, err, ◌>>=◌,
}
use factvault.Assembler.Graph.{UuidCast}
use factvault.Assembler.Graph
use factvault.Assembler.Tables.{Tables, Bundle, EntityRow}
use factvault.Assembler.Bundle.{assemble}
use factvault.Embed.{Vector}

pub data Error : Type 0 where
  bad_tenant : Error
  assembler_error : Graph.Error → Error

-- The tables, and the entities from the newest to the oldest.
pub record RetrievalDb : Type 0 where
  pub tables : Tables
  pub newest : List EntityRow

-- The parts of the service that may be nil, and `ILIKE`. A score is in thousandths.
pub record Service : Type 0 where
  pub embedder : Option (List Text → Option (List Vector))
  pub search_nearest : Option (ℕ → Vector → ℕ → Option (List (ℕ × ℕ)))
  pub ilike : Text → Text → Bool

pub record StoryRequest : Type 0 where
  pub query : Text
  pub depth : ℤ

abbrev cosine_seed_threshold : ℕ
cosine_seed_threshold = 600

above_threshold : UuidCast → List (ℕ × ℕ) → List Text
above_threshold c [] = []
above_threshold c ((id, score) ∷ results) =
    let rest = above_threshold c results in
    if leb cosine_seed_threshold score then c.to_text id ∷ rest else rest

-- The vector of the query; an empty one is an error.
query_vector : Option (List Vector) → Option Vector
query_vector none = none
query_vector (some []) = none
query_vector (some ([] ∷ vs)) = none
query_vector (some ((x ∷ v) ∷ vs)) = some (x ∷ v)

cosine_seed :
    UuidCast
    → (List Text → Option (List Vector))
    → (ℕ → Vector → ℕ → Option (List (ℕ × ℕ)))
    → ℕ
    → Text
    → ℕ
    → Option (List Text)
cosine_seed c embed search tenant query limit = elim (query_vector (embed (query ∷ []))) [
  | none ↦ none
  | some v ↦ elim (search tenant v limit) [
    | none ↦ none
    | some results ↦ some (above_threshold c results)
  ]
]

matches_query : Service → ℕ → Text → EntityRow → Bool
matches_query s tenant query e =
    e.tenant_id == tenant
    && (text_eq query []
        || (s.ilike e.label (lit "%" ++ (query ++ lit "%"))
            || s.ilike (elim e.description [ none ↦ [] | some d ↦ d ])
                (lit "%" ++ (query ++ lit "%"))))

pub matching : Service → ℕ → Text → List EntityRow → List EntityRow
matching s tenant query [] = []
matching s tenant query (e ∷ es) =
    let rest = matching s tenant query es in
    if matches_query s tenant query e then e ∷ rest else rest

ilike_seed : UuidCast → Service → RetrievalDb → ℕ → Text → ℕ → List Text
ilike_seed c s db tenant query limit =
    map (λ (e : EntityRow). c.to_text e.id) (take limit (matching s tenant query db.newest))

-- What the cosine path gives, if it is taken and finds something.
cosine_ids : UuidCast → Service → ℕ → Text → ℕ → List Text
cosine_ids c s tenant query limit = if text_eq query [] then [] else elim s.embedder [
  | none ↦ []
  | some embed ↦ elim s.search_nearest [
    | none ↦ []
    | some search ↦ elim (cosine_seed c embed search tenant query limit) [
      | none ↦ []
      | some ids ↦ ids
    ]
  ]
]

-- `seedEntities`, at the limit of its callers.
pub seed_entities : UuidCast → Service → RetrievalDb → ℕ → Text → ℕ → List Text
seed_entities c s db tenant query limit = elim (cosine_ids c s tenant query limit) [
  | [] ↦ ilike_seed c s db tenant query limit
  | id ∷ ids ↦ id ∷ ids
]

-- The errors of the assembler are those of the service.
unfoldable pub assembled : Result Graph.Error Bundle → Result Error Bundle
assembled (err failure) = err (assembler_error failure)
assembled (ok b) = ok b

-- `withTenantTx`.
unfoldable pub with_tenant : UuidCast → Text → (ℕ → Result Error Bundle) → Result Error Bundle
with_tenant c tenant_id run = elim (c.of_text tenant_id) [
  | none ↦ err bad_tenant
  | some tenant ↦ run tenant
]

-- The bundle of the seeds, of which there must be one.
pub assemble_seeds : UuidCast → RetrievalDb → ℕ → ℤ → List Text → Result Error Bundle
assemble_seeds c db tenant depth [] = err (assembler_error Graph.entity_not_found)
assemble_seeds c db tenant depth (id ∷ ids) =
    assembled (assemble c db.tables (id ∷ ids) depth tenant)

unfoldable pub dossier : UuidCast → RetrievalDb → Text → Text → Result Error Bundle
dossier c db tenant_id entity_id =
    with_tenant c tenant_id
      (λ tenant. assembled (assemble c db.tables (entity_id ∷ []) (pos 0) tenant))

pub story_depth : ℤ → ℤ
story_depth (pos n) = if n == 0 then pos 2 else pos n
story_depth (negsuc n) = negsuc n

pub story : UuidCast → Service → RetrievalDb → Text → StoryRequest → Result Error Bundle
story c s db tenant_id req =
    let depth = story_depth req.depth in
    if ltb_ℤ depth (pos 1) || ltb_ℤ (pos 3) depth
    then err (assembler_error Graph.invalid_depth)
    else with_tenant c tenant_id
        (λ tenant. assemble_seeds c db tenant depth (seed_entities c s db tenant req.query 10))

pub facts_query : UuidCast → Service → RetrievalDb → Text → Text → Result Error Bundle
facts_query c s db tenant_id query =
    with_tenant c tenant_id
      (λ tenant. assemble_seeds c db tenant (pos 0) (seed_entities c s db tenant query 10))
