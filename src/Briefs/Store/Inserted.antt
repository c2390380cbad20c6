-- ===== src/Briefs/Store/Inserted.antt =====
-- internal/briefs/briefs.go: what `Get` finds after a row was inserted.
use factvault.Common.{
  ℕ, false, Option, none, some, List, [], ◌∷◌, Text, ◌==◌, ◌≡◌, ◌≢◌, refl, inl, inr, arith, ok, err,
  Bool-cases, Result-cases, Option-cases,
}
use factvault.Assembler.Graph.{UuidCast, has_id}
use factvault.Briefs.{not_found}
use factvault.Briefs.Store.{
  GenerateRequest, BriefRow, BriefDb, brief_ids, cast_entity, insert_row, brief_of, find_brief,
  get_brief,
}

-- The entity of a request as the database gives it back.
abbrev pub canonical : UuidCast → Option Text → Option Text
canonical c none = none
canonical c (some t) = elim (c.of_text t) [ none ↦ none | some e ↦ some (c.to_text e) ]

find_brief_missing :
    (tenant id : ℕ) (rs : List BriefRow)
    → has_id id (brief_ids rs) ≡ false
    → find_brief tenant id rs ≡ none
unfolding find_brief brief_ids has_id
find_brief_missing tenant id [] h = refl
find_brief_missing tenant id (r ∷ rs) h = ground (arith, find_brief_missing tenant id rs)

insert_row-ok :
    (c : UuidCast) (db : BriefDb) (tenant : ℕ) (req : GenerateRequest) (payload : Text) (id now : ℕ)
    (after : BriefDb)
    → insert_row c db tenant req payload id now ≡ ok after
    → (entity : Option ℕ) × (cast_entity c db.entity_ids req.entity_id ≡ ok entity)
      × (has_id id (brief_ids db.briefs) ≡ false)
      × (after.briefs
          ≡ record {
            id = id;
            tenant_id = tenant;
            source_kind = req.source_kind;
            entity_id = entity;
            query = req.query;
            payload = payload;
            created_at = now;
          }
            ∷ db.briefs)
unfolding insert_row
insert_row-ok c db tenant req payload id now after h =
    elim (Result-cases (cast_entity c db.entity_ids req.entity_id)) [
      | inr (e, bad) ↦ absurd (ground arith)
      | inl (entity, cast) ↦ elim (Bool-cases (has_id id (brief_ids db.briefs))) [
        | inl taken ↦ absurd (ground arith)
        | inr free ↦ (entity, cast, free, ground arith)
      ]
    ]

cast_entity-canonical :
    (c : UuidCast) (ids : List ℕ) (o : Option Text) (entity : Option ℕ)
    → cast_entity c ids o ≡ ok entity
    → (elim entity [ none ↦ none | some e ↦ some (c.to_text e) ]) ≡ canonical c o
unfolding cast_entity
cast_entity-canonical c ids none entity h = ground arith
cast_entity-canonical c ids (some t) entity h = elim (Option-cases (c.of_text t)) [
  | inl bad ↦ absurd (ground arith)
  | inr (e, good) ↦ ground arith
]

-- What is found after a row was inserted.
pub get_brief-insert_row :
    (c : UuidCast) (db : BriefDb) (tenant : ℕ) (req : GenerateRequest) (value : Text) (id now : ℕ)
    (after : BriefDb)
    → insert_row c db tenant req value id now ≡ ok after
    → (get_brief c after tenant id
        ≡ ok (record {
          id = id;
          source_kind = req.source_kind;
          entity_id = canonical c req.entity_id;
          payload = value;
        }))
      × ((other : ℕ) → other ≢ tenant → get_brief c after other id ≡ err not_found)
      × ((any other : ℕ) → other ≢ id → get_brief c after any other ≡ get_brief c db any other)
unfolding get_brief find_brief brief_of
get_brief-insert_row c db tenant req value id now after h =
    let (entity, cast, free, rows) = insert_row-ok c db tenant req value id now after h in
    let spelled = cast_entity-canonical c db.entity_ids req.entity_id entity cast in
    let missing = λ (who : ℕ). find_brief_missing who id db.briefs free in
    rw rows (
      ground (arith, Bool-cases (tenant == tenant)),
      λ other apart. ground (arith, missing other),
      λ any other apart. ground arith,
    )
