-- ===== src/Briefs/Store/Stored.antt =====
-- internal/briefs/briefs.go: what `GenerateAndStore` stores, and what `Get` reads back.
use factvault.Common.{
  ℕ, false, Option, none, some, Text, text_eq_iff, ◌≡◌, ◌≢◌, refl, sym, ap, ◌∙◌, ◌⊎◌, inl, inr,
  arith, ok, err, Result-cases, Option-cases,
}
use factvault.Assembler.Graph.{UuidCast}
use factvault.Assembler.Tables.{Bundle}
use factvault.Briefs.{Generator, not_found, generate, BriefDoc}
use factvault.Briefs.Store.Inserted.{canonical, get_brief-insert_row}
use factvault.Briefs.Store.{
  GenerateRequest, Brief, BriefDb, BundleLoader, validate_generate_request, validate_bundle,
  is_mismatch, JsonPackages, payload_of, insert_row, insert_brief, generate_and_store_bundle,
  generate_and_store, get_brief,
}

-- A brief was stored from the bundle: it was checked, and what was inserted is the payload.
record IsStoredFrom (j : JsonPackages) (c : UuidCast) (g : Generator) (db : BriefDb) (tenant : ℕ)
    (req : GenerateRequest) (bundle : Bundle) (id now : ℕ) (b : Brief) (after : BriefDb)
    : Type 0 where
  of_tenant : bundle.tenant_id ≡ tenant
  of_entity : is_mismatch req.entity_id bundle.entity_id ≡ false
  derived : payload_of j g (some bundle) ≡ ok b.payload
  inserted : insert_brief j c db tenant req b.payload id now ≡ ok after
  made : b ≡ record {
    id = id;
    source_kind = req.source_kind;
    entity_id = req.entity_id;
    payload = b.payload;
  }

validate_bundle-ok :
    (tenant : ℕ) (req : GenerateRequest) (bundle : Option Bundle) (u : Unit {0})
    → validate_bundle tenant req bundle ≡ ok u
    → (found : Bundle) × (bundle ≡ some found)
      × (found.tenant_id ≡ tenant)
      × (is_mismatch req.entity_id found.entity_id ≡ false)
unfolding validate_bundle
validate_bundle-ok tenant req none u h = cc
validate_bundle-ok tenant req (some found) u h = (found, refl, ground arith, ground arith)

generate_and_store_bundle-ok :
    (j : JsonPackages) (c : UuidCast) (g : Generator) (db : BriefDb) (tenant : ℕ)
    (req : GenerateRequest) (bundle : Option Bundle) (id now : ℕ) (b : Brief) (after : BriefDb)
    → generate_and_store_bundle j c g db tenant req bundle id now ≡ ok (b, after)
    → (found : Bundle) × (bundle ≡ some found)
      × IsStoredFrom j c g db tenant req found id now b after
unfolding generate_and_store_bundle
generate_and_store_bundle-ok j c g db tenant req bundle id now b after h =
    elim (Result-cases (validate_generate_request req)) [
      | inr (e, bad) ↦ absurd (ground arith)
      | inl (_, valid) ↦ elim (Result-cases (validate_bundle tenant req bundle)) [
        | inr (e, bad) ↦ absurd (ground arith)
        | inl (u, checked) ↦
            (let (found, is_found, of_tenant, of_entity) =
                validate_bundle-ok tenant req bundle u checked in
              elim (Result-cases (payload_of j g bundle)) [
                | inr (e, bad) ↦ absurd (ground arith)
                | inl (payload, derived) ↦
                    elim (Result-cases (insert_brief j c db tenant req payload id now)) [
                      | inr (e, bad) ↦ absurd (ground arith)
                      | inl (stored, inserted) ↦
                          (let fields : ◌≡◌ {A = Brief × BriefDb}
                                (
                                  record {
                                    id = id;
                                    source_kind = req.source_kind;
                                    entity_id = req.entity_id;
                                    payload = payload;
                                  },
                                  stored,
                                )
                                (b, after) =
                              ground arith in
                            let same : payload ≡ b.payload =
                              ap (λ (r : Brief × BriefDb). r.0.payload) fields in
                            (
                              found,
                              is_found,
                              record {
                                of_tenant = of_tenant;
                                of_entity = of_entity;
                                derived = ground arith;
                                inserted = ground arith;
                                made = ground arith;
                              },
                            ))
                    ]
              ])
      ]
    ]

generate_and_store-ok :
    (j : JsonPackages) (c : UuidCast) (g : Generator) (loader : Option BundleLoader) (db : BriefDb)
    (tenant : ℕ) (req : GenerateRequest) (id now : ℕ) (b : Brief) (after : BriefDb)
    → generate_and_store j c g loader db tenant req id now ≡ ok (b, after)
    → (load : BundleLoader) × (found : Bundle) × (loader ≡ some load)
      × (load tenant req ≡ some (some found))
      × IsStoredFrom j c g db tenant req found id now b after
unfolding generate_and_store
generate_and_store-ok j c g none db tenant req id now b after h =
    elim (Result-cases (validate_generate_request req)) [
      | inr (e, bad) ↦ absurd (ground arith)
      | inl (_, valid) ↦ absurd (ground arith)
    ]
generate_and_store-ok j c g (some load) db tenant req id now b after h =
    elim (Result-cases (validate_generate_request req)) [
      | inr (e, bad) ↦ absurd (ground arith)
      | inl (_, valid) ↦ elim (Option-cases (load tenant req)) [
        | inl failed ↦ absurd (ground arith)
        | inr (bundle, loaded) ↦
            (let (found, is_found, stored) =
                generate_and_store_bundle-ok j c g db tenant req bundle id now b after
                  (ground arith) in
              (load, found, refl, loaded ∙ ap some is_found, stored))
      ]
    ]

insert_brief-ok :
    (j : JsonPackages) (c : UuidCast) (db : BriefDb) (tenant : ℕ) (req : GenerateRequest)
    (payload : Text) (id now : ℕ) (after : BriefDb)
    → insert_brief j c db tenant req payload id now ≡ ok after
    → (value : Text) × (j.to_jsonb payload ≡ some value)
      × (insert_row c db tenant req value id now ≡ ok after)
unfolding insert_brief
insert_brief-ok j c db tenant req payload id now after h =
    elim (Option-cases (j.to_jsonb payload)) [
      | inl refused ↦ absurd (ground arith)
      | inr (value, taken) ↦ (value, taken, ground arith)
    ]

payload_of-ok :
    (j : JsonPackages) (g : Generator) (bundle : Option Bundle) (payload : Text)
    → payload_of j g bundle ≡ ok payload
    → (doc : BriefDoc) × (generate g bundle ≡ ok doc) × (j.marshal doc ≡ some payload)
unfolding payload_of
payload_of-ok j g bundle payload h = elim (Result-cases (generate g bundle)) [
  | inr (e, bad) ↦ absurd (ground arith)
  | inl (doc, made) ↦ elim (Option-cases (j.marshal doc)) [
    | inl failed ↦ absurd (ground arith)
    | inr (text, written) ↦ (doc, made, ground arith)
  ]
]

-- What Postgres documents of `JSONB`: it keeps the value of a JSON text, but not its spaces nor the
-- order of its keys; so a reader of JSON reads of a stored document what it reads of the text that
-- was stored.
abbrev pub KeepsDocuments : JsonPackages → (Text → Option BriefDoc) → Type 0
KeepsDocuments j read =
    (doc : BriefDoc) (text value : Text)
    → j.marshal doc ≡ some text
    → j.to_jsonb text ≡ some value
    → read value ≡ read text

-- A brief that was stored is read back: the tenant gets it under its id as it was returned, with its
-- entity as the database spells it, and with the text that the column made of the payload, in which
-- a reader of JSON reads the same document; no other tenant gets it; and what is found under any
-- other id is what was found before.
pub get_brief-generate_and_store :
    (j : JsonPackages) (read : Text → Option BriefDoc) (c : UuidCast) (g : Generator)
    (loader : Option BundleLoader) (db : BriefDb) (tenant : ℕ) (req : GenerateRequest) (id now : ℕ)
    (b : Brief) (after : BriefDb)
    → KeepsDocuments j read
    → generate_and_store j c g loader db tenant req id now ≡ ok (b, after)
    → (value : Text) × (j.to_jsonb b.payload ≡ some value)
      × (read value ≡ read b.payload)
      × (get_brief c after tenant b.id
          ≡ ok (record {
            id = b.id;
            source_kind = b.source_kind;
            entity_id = canonical c b.entity_id;
            payload = value;
          }))
      × ((other : ℕ) → other ≢ tenant → get_brief c after other b.id ≡ err not_found)
      × ((any other : ℕ) → other ≢ b.id → get_brief c after any other ≡ get_brief c db any other)
get_brief-generate_and_store j read c g loader db tenant req id now b after keeps h =
    let (load, found, is_load, loaded, stored) =
      generate_and_store-ok j c g loader db tenant req id now b after h in
    let (doc, made_doc, written) = payload_of-ok j g (some found) b.payload stored.derived in
    let (value, taken, inserted) =
      insert_brief-ok j c db tenant req b.payload id now after stored.inserted in
    let (mine, others, rest) = get_brief-insert_row c db tenant req value id now after inserted in
    let made = stored.made in
    let is_id : b.id ≡ id = ap (λ (r : Brief). r.id) made in
    (
      value,
      taken,
      keeps doc b.payload value written taken,
      ground arith,
      λ other apart. ground (arith, others other),
      λ any other apart. rest any other (λ e. apart (e ∙ sym is_id)),
    )

-- A brief is stored only from a bundle that the loader gave for the request, of the caller's tenant
-- and of the entity that the request names, if it names one, and its payload is the JSON of the document
-- that is derived from it.
pub generate_and_store-IsVouched :
    (j : JsonPackages) (c : UuidCast) (g : Generator) (loader : Option BundleLoader) (db : BriefDb)
    (tenant : ℕ) (req : GenerateRequest) (id now : ℕ) (b : Brief) (after : BriefDb)
    → generate_and_store j c g loader db tenant req id now ≡ ok (b, after)
    → (load : BundleLoader) × (found : Bundle) × (loader ≡ some load)
      × (load tenant req ≡ some (some found))
      × (found.tenant_id ≡ tenant)
      × ((req.entity_id ≡ none) ⊎ (req.entity_id ≡ some found.entity_id))
      × (doc : BriefDoc) × (generate g (some found) ≡ ok doc)
      × (j.marshal doc ≡ some b.payload)
unfolding is_mismatch
generate_and_store-IsVouched j c g loader db tenant req id now b after h =
    let (load, found, is_load, loaded, stored) =
      generate_and_store-ok j c g loader db tenant req id now b after h in
    let (doc, made_doc, written) = payload_of-ok j g (some found) b.payload stored.derived in
    (
      load,
      found,
      is_load,
      loaded,
      stored.of_tenant,
      of_request req.entity_id found.entity_id stored.of_entity,
      doc,
      made_doc,
      written,
    )
  where
    of_request :
        (wanted : Option Text) (entity : Text)
        → is_mismatch wanted entity ≡ false
        → (wanted ≡ none) ⊎ (wanted ≡ some entity)
    of_request none entity h = inl refl
    of_request (some t) entity h = inr (ground (arith, text_eq_iff entity t))
