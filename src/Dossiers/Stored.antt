-- ===== src/Dossiers/Stored.antt =====
-- internal/workers/dossier.go: which dossiers a run leaves.
use factvault.Common.{
  ℕ, ◌+◌, ◌&&◌, some, List, [], ◌∷◌, Text, text_eq, ◌==◌, ◌≡◌, ◌≢◌, refl, sym, ap, ◌∙◌, ◌⊎◌, inl,
  inr, arith, pos, length, In, ok, Result-cases, Option-cases, Bool-cases,
}
use factvault.Assembler.Graph.{UuidCast}
use factvault.Assembler.Tables.{Tables, Bundle}
use factvault.Assembler.Bundle.{assemble}
use factvault.Dossiers.{
  DossierRow, DossierOptions, DossierDb, find_dossier, dossier_entity_ids, upsert_dossier,
  store_dossier, store_dossiers, dossier_once,
}

-- The dossier of the key is of this time and holds the bundle.
abbrev HasBundle : ℕ → ℕ → ℕ → Bundle → List DossierRow → Type 0
HasBundle tenant entity now bundle ds =
    (d : DossierRow) × (find_dossier tenant entity ds ≡ some d)
    × (d.assembled_at ≡ now)
    × (d.bundle ≡ bundle)

find_dossier-upsert :
    (id tenant entity now : ℕ) (bundle : Bundle) (ds : List DossierRow)
    → HasBundle tenant entity now bundle (upsert_dossier id tenant entity now bundle ds)
unfolding find_dossier upsert_dossier
find_dossier-upsert id tenant entity now bundle [] = (
  record { id = id; tenant_id = tenant; entity_id = entity; assembled_at = now; bundle = bundle },
  ground arith,
  refl,
  refl,
)
find_dossier-upsert id tenant entity now bundle (d ∷ ds) =
    elim (Bool-cases (d.tenant_id == tenant && d.entity_id == entity)) [
      | inl same ↦ (record d { assembled_at = now; bundle = bundle }, ground arith, refl, refl)
      | inr other ↦
          (let (e, found, at, holds) = find_dossier-upsert id tenant entity now bundle ds in
            (e, ground arith, at, holds))
    ]

find_dossier-upsert_other :
    (id tenant entity now : ℕ) (bundle : Bundle) (ds : List DossierRow) (any other : ℕ)
    → (any ≢ tenant) ⊎ (other ≢ entity)
    → find_dossier any other (upsert_dossier id tenant entity now bundle ds)
      ≡ find_dossier any other ds
unfolding find_dossier upsert_dossier
find_dossier-upsert_other id tenant entity now bundle [] any other h = ground arith
find_dossier-upsert_other id tenant entity now bundle (d ∷ ds) any other h =
    ground (arith, find_dossier-upsert_other id tenant entity now bundle ds any other h)

-- The entity of the text has a dossier of this time, of a bundle assembled for a text of the list
-- that stands for the same entity.
abbrev pub IsStored : UuidCast → Tables → ℕ → ℕ → List Text → List DossierRow → Text → Type 0
IsStored c t tenant now ids ds id =
    (entity : ℕ) × (spelled : Text) × (bundle : Bundle) × (c.of_text id ≡ some entity)
    × (c.of_text spelled ≡ some entity)
    × In spelled ids
    × (assemble c t (spelled ∷ []) (pos 0) tenant ≡ ok bundle)
    × HasBundle tenant entity now bundle ds

module _ (c : UuidCast) where
  -- No text of the list stands for the entity.
  abbrev pub Misses : ℕ → List Text → Type 0
  Misses entity ids = (id : Text) → In id ids → c.of_text id ≢ some entity

  entity_cases :
      (entity : ℕ) (ids : List Text)
      → ((id : Text) × In id ids × (c.of_text id ≡ some entity)) ⊎ Misses entity ids
  entity_cases entity [] = inr (λ id m. absurd m)
  entity_cases entity (x ∷ xs) = elim (entity_cases entity xs) [
    | inl (id, m, e) ↦ inl (id, inr m, e)
    | inr misses ↦ elim (Option-cases (c.of_text x)) [
      | inl bad ↦ inr (missed x xs misses (ground arith))
      | inr (n, good) ↦ elim (Bool-cases (n == entity)) [
        | inl same ↦ inl (x, inl refl, ground arith)
        | inr apart ↦ inr (missed x xs misses (ground arith))
      ]
    ]
  ]
    where
      missed :
          (x : Text) (xs : List Text)
          → Misses entity xs
          → c.of_text x ≢ some entity
          → Misses entity (x ∷ xs)
      missed x xs misses first id (inl e) f = first (ap c.of_text (sym e) ∙ f)
      missed x xs misses first id (inr m) f = misses id m f

module _ (c : UuidCast) (t : Tables) (new_uuid : ℕ → ℕ) (tenant now : ℕ) where
  store_dossier-ok :
      (uuid : ℕ) (id : Text) (before after : List DossierRow)
      → store_dossier c t tenant now uuid id before ≡ ok after
      → (entity : ℕ) × (bundle : Bundle) × (c.of_text id ≡ some entity)
        × (assemble c t (id ∷ []) (pos 0) tenant ≡ ok bundle)
        × (after ≡ upsert_dossier uuid tenant entity now bundle before)
  unfolding store_dossier
  store_dossier-ok uuid id before after h =
      elim (Result-cases (assemble c t (id ∷ []) (pos 0) tenant)) [
        | inr (e, bad) ↦ absurd (ground arith)
        | inl (bundle, assembled) ↦ elim (Option-cases (c.of_text id)) [
          | inl bad ↦ absurd (ground arith)
          | inr (entity, good) ↦ (entity, bundle, good, assembled, ground arith)
        ]
      ]

  store_dossiers_frame :
      (drawn : ℕ) (ids : List Text) (before after : List DossierRow) (any other : ℕ)
      → store_dossiers c t new_uuid tenant now drawn ids before ≡ ok after
      → (any ≢ tenant) ⊎ Misses c other ids
      → find_dossier any other after ≡ find_dossier any other before
  unfolding store_dossiers
  store_dossiers_frame drawn [] before after any other h m =
      ap (find_dossier any other) (ground arith)
  store_dossiers_frame drawn (id ∷ ids) before after any other h m =
      elim (Result-cases (store_dossier c t tenant now (new_uuid drawn) id before)) [
        | inr (e, bad) ↦ absurd (ground arith)
        | inl (next, good) ↦
            (let (entity, bundle, cast, _, made) =
                store_dossier-ok (new_uuid drawn) id before next good in
              store_dossiers_frame (drawn + 1) ids next after any other (ground arith)
                (later id ids any other m)
              ∙ ap (find_dossier any other) made
              ∙ find_dossier-upsert_other (new_uuid drawn) tenant entity now bundle before any other
                  (apart id ids any other entity cast m))
      ]
    where
      later :
          (id : Text) (ids : List Text) (any other : ℕ)
          → (any ≢ tenant) ⊎ Misses c other (id ∷ ids)
          → (any ≢ tenant) ⊎ Misses c other ids
      later id ids any other (inl a) = inl a
      later id ids any other (inr m) = inr (λ x n. m x (inr n))

      apart :
          (id : Text) (ids : List Text) (any other entity : ℕ)
          → c.of_text id ≡ some entity
          → (any ≢ tenant) ⊎ Misses c other (id ∷ ids)
          → (any ≢ tenant) ⊎ (other ≢ entity)
      apart id ids any other entity cast (inl a) = inl a
      apart id ids any other entity cast (inr m) =
          inr (λ e. m id (inl refl) (cast ∙ ap some (sym e)))

  store_dossiers-IsStored :
      (drawn : ℕ) (ids : List Text) (before after : List DossierRow) (id : Text)
      → store_dossiers c t new_uuid tenant now drawn ids before ≡ ok after
      → In id ids
      → IsStored c t tenant now ids after id
  unfolding store_dossiers
  store_dossiers-IsStored drawn [] before after id h m = absurd m
  store_dossiers-IsStored drawn (x ∷ xs) before after id h m =
      elim (Result-cases (store_dossier c t tenant now (new_uuid drawn) x before)) [
        | inr (e, bad) ↦ absurd (ground arith)
        | inl (next, good) ↦ elim m [
          | inr n ↦
              widen x xs after id
                (store_dossiers-IsStored (drawn + 1) xs next after id (ground arith) n)
          | inl same ↦
              (let (entity, bundle, cast, made, stored) =
                  store_dossier-ok (new_uuid drawn) x before next good in
                elim (entity_cases c entity xs) [
                  | inl (y, in_y, cast_y) ↦
                      respell x xs after y id entity cast_y (ap c.of_text same ∙ cast)
                        (store_dossiers-IsStored (drawn + 1) xs next after y (ground arith) in_y)
                  | inr misses ↦
                      (let kept =
                          store_dossiers_frame (drawn + 1) xs next after tenant entity
                            (ground arith) (inr misses) in
                        let (d, found, at, holds) =
                          find_dossier-upsert (new_uuid drawn) tenant entity now bundle before in
                        (
                          entity,
                          x,
                          bundle,
                          ap c.of_text same ∙ cast,
                          cast,
                          inl refl,
                          made,
                          (d, kept ∙ ap (find_dossier tenant entity) stored ∙ found, at, holds),
                        ))
                ])
        ]
      ]
    where
      widen :
          (x : Text) (xs : List Text) (ds : List DossierRow) (id : Text)
          → IsStored c t tenant now xs ds id
          → IsStored c t tenant now (x ∷ xs) ds id
      widen x xs ds id (entity, spelled, bundle, e, f, n, made, holds) =
          (entity, spelled, bundle, e, f, inr n, made, holds)

      respell :
          (x : Text) (xs : List Text) (ds : List DossierRow) (y id : Text) (entity : ℕ)
          → c.of_text y ≡ some entity
          → c.of_text id ≡ some entity
          → IsStored c t tenant now xs ds y
          → IsStored c t tenant now (x ∷ xs) ds id
      respell x xs ds y id entity cast_y cast_id (other, spelled, bundle, e, f, n, made, holds) =
          (other, spelled, bundle, cast_id ∙ sym cast_y ∙ e, f, inr n, made, holds)

-- A run that returns has stored, for each of the ids that it picked, a dossier of the time of the run
-- with the bundle that was assembled for the entity; it counts the ids; and a dossier of another
-- tenant, or of an entity that it did not pick, is as it was.
pub dossier_once-Stores :
    (c : UuidCast) (new_uuid : ℕ → ℕ) (db : DossierDb) (opts : DossierOptions) (now drawn : ℕ)
    (count : ℕ) (after : List DossierRow)
    → dossier_once c new_uuid db opts now drawn ≡ ok (count, after)
    → (tenant : ℕ) × (c.of_text opts.tenant_id ≡ some tenant)
      × (count ≡ length (dossier_entity_ids c db tenant opts now))
      × ((id : Text)
          → In id (dossier_entity_ids c db tenant opts now)
          → IsStored c db.tables tenant now (dossier_entity_ids c db tenant opts now) after id)
      × ((any other : ℕ)
          → (any ≢ tenant) ⊎ Misses c other (dossier_entity_ids c db tenant opts now)
          → find_dossier any other after ≡ find_dossier any other db.dossiers)
unfolding dossier_once
dossier_once-Stores c new_uuid db opts now drawn count after h =
    elim (Bool-cases (text_eq opts.tenant_id [])) [
      | inl blank ↦ absurd (ground arith)
      | inr given ↦ elim (Option-cases (c.of_text opts.tenant_id)) [
        | inl bad ↦ absurd (ground arith)
        | inr (tenant, scanned) ↦
            (let ids = dossier_entity_ids c db tenant opts now in
              elim (Result-cases
                (store_dossiers c db.tables new_uuid tenant now drawn ids db.dossiers)) [
                  | inr (e, bad) ↦ absurd (ground arith)
                  | inl (stored, good) ↦
                      (let last : ◌≡◌ {A = ℕ × List DossierRow} (length ids, stored)
                            (count, after) =
                          ground arith in
                        let run : store_dossiers c db.tables new_uuid tenant now drawn ids
                              db.dossiers
                            ≡ ok after =
                          good ∙ ap ok (ap (λ (p : ℕ × List DossierRow). p.1) last) in
                        (
                          tenant,
                          scanned,
                          sym (ap (λ (p : ℕ × List DossierRow). p.0) last),
                          λ id m.
                              store_dossiers-IsStored c db.tables new_uuid tenant now drawn ids
                                db.dossiers after id run m,
                          λ any other m.
                              store_dossiers_frame c db.tables new_uuid tenant now drawn ids
                                db.dossiers after any other run m,
                        ))
                ])
      ]
    ]
