-- ===== src/Retrieval/Tenants.antt =====
-- internal/retrieval/service.go: whose rows stand in the bundles that the service returns.
use factvault.Common.{
  ℕ, Bool, true, ◌&&◌, some, List, [], ◌∷◌, Text, ◌≡◌, subst, ◌⊎◌, inl, inr, arith, ℤ, pos, ◌==◌,
  All, All_weaken, select, ok, Result-cases, Bool-cases, Option-cases, length,
}
use factvault.Assembler.Graph.{
  UuidCast, Relation, has_id, is_valid_depth, unique_strings, cast_uuids,
}
use factvault.Assembler.Tables.{Tables, Bundle, EntityRow}
use factvault.Assembler.Bundle.{
  assemble, load_bundle, bundle_of, all_entity_ids, load_entities, load_relations,
}
use factvault.Assembler.Bundle.Closed.{IsClosed, assemble-IsClosed}
use factvault.Retrieval.{
  Service, RetrievalDb, StoryRequest, assembled, with_tenant, assemble_seeds, seed_entities,
  dossier, story, story_depth, facts_query,
}

select-All : {A : Type 0} (p : A → Bool) (xs : List A) → All (λ x. p x ≡ true) (select p xs)
select-All p [] = tt
select-All p (x ∷ xs) = elim (Bool-cases (p x)) [
  | inl kept ↦ rw kept (kept, select-All p xs)
  | inr dropped ↦ rw dropped (select-All p xs)
]

-- Entities and relations of a bundle are the tenant's, and so is the bundle.
pub record IsOfTenant (tenant : ℕ) (b : Bundle) : Type 0 where
  owned : b.tenant_id ≡ tenant
  entities : All (λ e. e.tenant_id ≡ tenant) b.entities
  relations : All (λ r. r.tenant_id ≡ tenant) b.relations

bundle_of-IsOfTenant :
    (t : Tables) (primary : Text) (count : ℕ) (ids : List ℕ) (tenant : ℕ) (b : Bundle)
    → bundle_of t primary count ids tenant ≡ ok b
    → IsOfTenant tenant b
unfolding bundle_of load_entities load_relations
bundle_of-IsOfTenant t primary count ids tenant b h =
    let es =
      All_weaken (λ (e : EntityRow). (e.tenant_id == tenant && has_id e.id ids) ≡ true)
        (λ (e : EntityRow). e.tenant_id ≡ tenant) (λ e k. ground arith) (load_entities t tenant ids)
        (select-All _ t.entities) in
    let rs =
      All_weaken
        (λ (r : Relation).
          (r.tenant_id == tenant && (has_id r.source_id ids && has_id r.target_id ids)) ≡ true)
        (λ (r : Relation). r.tenant_id ≡ tenant) (λ r k. ground arith) (load_relations t tenant ids)
        (select-All _ t.relations) in
    elim (Bool-cases (length (load_entities t tenant ids) == count)) [
      | inr missing ↦ absurd (ground arith)
      | inl found ↦ (record {
        owned = ground arith;
        entities =
            subst (All (λ (e : EntityRow). e.tenant_id ≡ tenant)) {x = load_entities t tenant ids}
              {y = b.entities} (ground arith) es;
        relations =
            subst (All (λ (r : Relation). r.tenant_id ≡ tenant)) {x = load_relations t tenant ids}
              {y = b.relations} (ground arith) rs;
      })
    ]

assemble-IsOfTenant :
    (c : UuidCast) (t : Tables) (ids : List Text) (depth : ℤ) (tenant : ℕ) (b : Bundle)
    → assemble c t ids depth tenant ≡ ok b
    → IsOfTenant tenant b
unfolding assemble load_bundle
assemble-IsOfTenant c t [] depth tenant b h = absurd (ground arith)
assemble-IsOfTenant c t (primary ∷ ids) depth tenant b h =
    elim (Bool-cases (is_valid_depth depth)) [
      | inr invalid ↦ absurd (ground arith)
      | inl valid ↦ elim (Result-cases (all_entity_ids c t (primary ∷ ids) depth tenant)) [
        | inr (e, bad) ↦ absurd (ground arith)
        | inl (all_ids, expanded) ↦ elim (Result-cases (cast_uuids c (unique_strings all_ids))) [
          | inr (e, bad) ↦ absurd (ground arith)
          | inl (uuids, cast) ↦
              bundle_of-IsOfTenant t primary (length (unique_strings all_ids)) uuids tenant b
                (ground arith)
        ]
      ]
    ]

-- A bundle of the tenant, closed, whose text stands for the id.
abbrev pub IsAnswer : UuidCast → Text → Bundle → Type 0
IsAnswer c tenant_id b =
    (tenant : ℕ) × (c.of_text tenant_id ≡ some tenant) × IsOfTenant tenant b × IsClosed b

assembled-IsAnswer :
    (c : UuidCast) (t : Tables) (ids : List Text) (depth : ℤ) (tenant_id : Text) (tenant : ℕ)
    (b : Bundle)
    → c.of_text tenant_id ≡ some tenant
    → assembled (assemble c t ids depth tenant) ≡ ok b
    → IsAnswer c tenant_id b
unfolding assembled
assembled-IsAnswer c t ids depth tenant_id tenant b scanned h =
    elim (Result-cases (assemble c t ids depth tenant)) [
      | inr (e, bad) ↦ absurd (ground arith)
      | inl (found, good) ↦
          (let made : assemble c t ids depth tenant ≡ ok b = ground arith in
            (
              tenant,
              scanned,
              assemble-IsOfTenant c t ids depth tenant b made,
              assemble-IsClosed c t ids depth tenant b made,
            ))
    ]

assemble_seeds-IsAnswer :
    (c : UuidCast) (db : RetrievalDb) (seeds : List Text) (depth : ℤ) (tenant_id : Text)
    (tenant : ℕ) (b : Bundle)
    → c.of_text tenant_id ≡ some tenant
    → assemble_seeds c db tenant depth seeds ≡ ok b
    → IsAnswer c tenant_id b
unfolding assemble_seeds
assemble_seeds-IsAnswer c db [] depth tenant_id tenant b scanned h = absurd (ground arith)
assemble_seeds-IsAnswer c db (id ∷ ids) depth tenant_id tenant b scanned h =
    assembled-IsAnswer c db.tables (id ∷ ids) depth tenant_id tenant b scanned h

-- The bundles that Dossier, Story and FactsQuery return belong to the caller's tenant, hold only
-- entities and relations of that tenant, whatever the embedder and the vector store answer, and are
-- closed.
pub retrieval-IsAnswer :
    (c : UuidCast) (s : Service) (db : RetrievalDb) (tenant_id entity_id query : Text)
    (req : StoryRequest) (b : Bundle)
    → (dossier c db tenant_id entity_id ≡ ok b)
      ⊎ ((story c s db tenant_id req ≡ ok b) ⊎ (facts_query c s db tenant_id query ≡ ok b))
    → IsAnswer c tenant_id b
unfolding dossier story facts_query with_tenant
retrieval-IsAnswer c s db tenant_id entity_id query req b (inl h) =
    elim (Option-cases (c.of_text tenant_id)) [
      | inl bad ↦ absurd (ground arith)
      | inr (tenant, scanned) ↦
          assembled-IsAnswer c db.tables (entity_id ∷ []) (pos 0) tenant_id tenant b scanned
            (ground arith)
    ]
retrieval-IsAnswer c s db tenant_id entity_id query req b (inr (inl h)) =
    elim (Option-cases (c.of_text tenant_id)) [
      | inl bad ↦ absurd (ground arith)
      | inr (tenant, scanned) ↦
          assemble_seeds-IsAnswer c db (seed_entities c s db tenant req.query 10)
            (story_depth req.depth) tenant_id tenant b scanned (ground arith)
    ]
retrieval-IsAnswer c s db tenant_id entity_id query req b (inr (inr h)) =
    elim (Option-cases (c.of_text tenant_id)) [
      | inl bad ↦ absurd (ground arith)
      | inr (tenant, scanned) ↦
          assemble_seeds-IsAnswer c db (seed_entities c s db tenant query 10) (pos 0) tenant_id
            tenant b scanned (ground arith)
    ]
