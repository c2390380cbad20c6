-- ===== src/Briefs/Store.antt =====
-- internal/briefs/briefs.go: the service that stores and reads briefs. A transaction that cannot begin, lock or commit is left out, as is the role it runs in:
-- the queries name the tenant themselves.
pub mod Inserted
pub mod Stored
pub mod Listed
use factvault.Common.{
  ℕ, Bool, true, false, not, ◌&&◌, ◌||◌, Option, none, some, List, [], ◌∷◌, map, Text, lit, text_eq,
  ltb, leb, ◌==◌, ℤ, pos, negsuc, take, if◌then◌else◌, Result, ok, err, ◌>>=◌, SortPackage,
}
use factvault.Strings.{trim_space}
use factvault.Assembler.Graph.{UuidCast, has_id}
use factvault.Assembler.Tables.{Bundle}
use factvault.Briefs.{
  BriefDoc, Generator, generate, Error, invalid_generate_request, bundle_loader_required,
  load_failed, nil_bundle, bundle_tenant_mismatch, bundle_entity_mismatch, insert_failed, bad_limit,
  bad_uuid, not_found, marshal_failed,
}

pub record GenerateRequest : Type 0 where
  pub source_kind : Text
  pub entity_id : Option Text
  pub query : Option Text

pub record Brief : Type 0 where
  pub id : ℕ
  pub source_kind : Text
  pub entity_id : Option Text
  pub payload : Text

-- A row of `evidence_briefs`.
pub record BriefRow : Type 0 where
  pub id : ℕ
  pub tenant_id : ℕ
  pub source_kind : Text
  pub entity_id : Option ℕ
  pub query : Option Text
  pub payload : Text
  pub created_at : ℕ

-- The table, and the ids of `entities` that its foreign key refers to.
pub record BriefDb : Type 0 where
  pub briefs : List BriefRow
  pub entity_ids : List ℕ

-- `json.Marshal` of a document, and the text that a `JSONB` column gives back for one that is stored,
-- if it takes it.
pub record JsonPackages : Type 0 where
  pub marshal : BriefDoc → Option Text
  pub to_jsonb : Text → Option Text

-- What a loader returns: an error, or a bundle that may be nil.
abbrev pub BundleLoader : Type 0
BundleLoader = ℕ → GenerateRequest → Option (Option Bundle)

-- The pointer is nil, or the text is blank.
unfoldable pub is_blank : Option Text → Bool
is_blank none = true
is_blank (some t) = text_eq (trim_space t) []

unfoldable pub validate_generate_request : GenerateRequest → Result Error (Unit {0})
validate_generate_request req =
    if text_eq req.source_kind (lit "dossier")
    then if is_blank req.entity_id then err invalid_generate_request else ok tt
    else if text_eq req.source_kind (lit "story")
    then if is_blank req.query then err invalid_generate_request else ok tt
    else err invalid_generate_request

-- The request names an entity, and the bundle has another.
unfoldable pub is_mismatch : Option Text → Text → Bool
is_mismatch none entity = false
is_mismatch (some wanted) entity = not (text_eq entity wanted)

unfoldable pub validate_bundle : ℕ → GenerateRequest → Option Bundle → Result Error (Unit {0})
validate_bundle tenant req none = err nil_bundle
validate_bundle tenant req (some b) =
    if not (b.tenant_id == tenant)
    then err bundle_tenant_mismatch
    else if is_mismatch req.entity_id b.entity_id
    then err bundle_entity_mismatch
    else ok tt

unfoldable pub brief_ids : List BriefRow → List ℕ
brief_ids [] = []
brief_ids (r ∷ rs) = r.id ∷ brief_ids rs

-- The cast of `$3::uuid` and the foreign key.
unfoldable pub cast_entity : UuidCast → List ℕ → Option Text → Result Error (Option ℕ)
cast_entity c ids none = ok none
cast_entity c ids (some t) = elim (c.of_text t) [
  | none ↦ err bad_uuid
  | some e ↦ if has_id e ids then ok (some e) else err insert_failed
]

-- The payload of a bundle: the document that `Generate` makes, as JSON.
unfoldable pub payload_of : JsonPackages → Generator → Option Bundle → Result Error Text
payload_of j g bundle = generate g bundle >>= λ doc. elim (j.marshal doc) [
  | none ↦ err marshal_failed
  | some payload ↦ ok payload
]

-- The `INSERT`, with the id and the time that the database gives the row, of the JSON value that the
-- column made of the payload.
unfoldable pub insert_row :
    UuidCast → BriefDb → ℕ → GenerateRequest → Text → ℕ → ℕ → Result Error BriefDb
insert_row c db tenant req value id now = cast_entity c db.entity_ids req.entity_id >>= λ entity.
    if has_id id (brief_ids db.briefs)
      || not (text_eq req.source_kind (lit "dossier") || text_eq req.source_kind (lit "story"))
    then err insert_failed
    else ok (record {
      briefs =
          record {
            id = id;
            tenant_id = tenant;
            source_kind = req.source_kind;
            entity_id = entity;
            query = req.query;
            payload = value;
            created_at = now;
          }
          ∷ db.briefs;
      entity_ids = db.entity_ids;
    })

unfoldable pub insert_brief :
    JsonPackages → UuidCast → BriefDb → ℕ → GenerateRequest → Text → ℕ → ℕ → Result Error BriefDb
insert_brief j c db tenant req payload id now = elim (j.to_jsonb payload) [
  | none ↦ err insert_failed
  | some value ↦ insert_row c db tenant req value id now
]

unfoldable pub generate_and_store_bundle :
    JsonPackages
    → UuidCast
    → Generator
    → BriefDb
    → ℕ
    → GenerateRequest
    → Option Bundle
    → ℕ
    → ℕ
    → Result Error (Brief × BriefDb)
generate_and_store_bundle j c g db tenant req bundle id now = validate_generate_request req >>= λ _.
    validate_bundle tenant req bundle >>= λ _. payload_of j g bundle >>= λ payload.
    insert_brief j c db tenant req payload id now >>= λ stored. ok (
      record {
        id = id;
        source_kind = req.source_kind;
        entity_id = req.entity_id;
        payload = payload;
      },
      stored,
    )

unfoldable pub generate_and_store :
    JsonPackages
    → UuidCast
    → Generator
    → Option BundleLoader
    → BriefDb
    → ℕ
    → GenerateRequest
    → ℕ
    → ℕ
    → Result Error (Brief × BriefDb)
generate_and_store j c g loader db tenant req id now = validate_generate_request req >>= λ _.
    elim loader [
      | none ↦ err bundle_loader_required
      | some load ↦ elim (load tenant req) [
        | none ↦ err load_failed
        | some bundle ↦ generate_and_store_bundle j c g db tenant req bundle id now
      ]
    ]

-- The row as the queries of `List` and `Get` scan it.
unfoldable pub brief_of : UuidCast → BriefRow → Brief
brief_of c r = record {
  id = r.id;
  source_kind = r.source_kind;
  entity_id = elim r.entity_id [ none ↦ none | some e ↦ some (c.to_text e) ];
  payload = r.payload;
}

pub find_brief : ℕ → ℕ → List BriefRow → Option BriefRow
find_brief tenant id [] = none
find_brief tenant id (r ∷ rs) =
    let rest = find_brief tenant id rs in
    if r.tenant_id == tenant && r.id == id then some r else rest

pub get_brief : UuidCast → BriefDb → ℕ → ℕ → Result Error Brief
get_brief c db tenant id = elim (find_brief tenant id db.briefs) [
  | none ↦ err not_found
  | some r ↦ ok (brief_of c r)
]

pub record ListOptions : Type 0 where
  pub limit : ℤ
  pub source_kind : Option Text
  pub entity_id : Option Text
  pub created_after : Option ℕ
  pub created_before : Option ℕ

-- `entity_id = $3::uuid`, which no row without an entity meets.
unfoldable pub same_id : Option ℕ → Option ℕ → Bool
same_id none other = false
same_id (some e) none = false
same_id (some e) (some f) = f == e

-- The conditions that `List` adds to its query, one for each option that is set.
unfoldable pub is_listed : UuidCast → ℕ → ListOptions → BriefRow → Bool
is_listed c tenant opts r =
    r.tenant_id == tenant
    && ((elim opts.source_kind [ none ↦ true | some kind ↦ text_eq r.source_kind kind ])
        && ((elim opts.entity_id [ none ↦ true | some t ↦ same_id (c.of_text t) r.entity_id ])
            && ((elim opts.created_after [ none ↦ true | some from ↦ leb from r.created_at ])
                && (elim opts.created_before [ none ↦ true | some to ↦ leb r.created_at to ]))))

unfoldable pub listed_rows : UuidCast → ℕ → ListOptions → List BriefRow → List BriefRow
listed_rows c tenant opts [] = []
listed_rows c tenant opts (r ∷ rs) =
    let rest = listed_rows c tenant opts rs in if is_listed c tenant opts r then r ∷ rest else rest

-- The `::uuid` cast of the filter.
unfoldable pub is_castable : UuidCast → Option Text → Bool
is_castable c none = true
is_castable c (some t) = elim (c.of_text t) [ none ↦ false | some e ↦ true ]

unfoldable pub newer : BriefRow → BriefRow → Bool
newer a b = ltb b.created_at a.created_at

-- `List`, with the database's `ORDER BY` as a sort.
unfoldable pub list_briefs :
    UuidCast → SortPackage → BriefDb → ℕ → ListOptions → Result Error (List Brief)
list_briefs c p db tenant opts =
    if not (is_castable c opts.entity_id) then err bad_uuid else elim opts.limit [
      | negsuc n ↦ err bad_limit
      | pos n ↦
          ok (map (brief_of c) (take n (p.sort_slice newer (listed_rows c tenant opts db.briefs))))
    ]
