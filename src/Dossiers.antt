-- ===== src/Dossiers.antt =====
-- internal/workers/dossier.go: the worker that stores the bundle of each entity, in one transaction.
pub mod Stored
use factvault.Common.{
  ℕ, ◌+◌, Bool, true, false, not, ◌&&◌, ◌||◌, Option, none, some, List, [], ◌∷◌, ◌++◌, map, Text,
  text_eq, ltb, leb, ◌==◌, length, take, ℤ, pos, negsuc, if◌then◌else◌, Result, ok, err, ◌>>=◌,
}
use factvault.Assembler.Graph.{UuidCast}
use factvault.Assembler.Graph
use factvault.Assembler.Tables.{Tables, Bundle, EntityRow}
use factvault.Assembler.Bundle.{assemble}

pub data Error : Type 0 where
  tenant_required bad_tenant bad_entity : Error
  assembler_error : Graph.Error → Error

-- A row of `dossiers`; the time is in seconds.
pub record DossierRow : Type 0 where
  pub id : ℕ
  pub tenant_id : ℕ
  pub entity_id : ℕ
  pub assembled_at : ℕ
  pub bundle : Bundle

pub record DossierOptions : Type 0 where
  pub tenant_id : Text
  pub entity_id : Text
  pub everything : Bool
  pub limit : ℤ

-- The tables, the entities from the oldest to the newest, and the dossiers.
pub record DossierDb : Type 0 where
  pub tables : Tables
  pub oldest : List EntityRow
  pub dossiers : List DossierRow

-- The dossier that the key (tenant, entity) has.
pub find_dossier : ℕ → ℕ → List DossierRow → Option DossierRow
find_dossier tenant entity [] = none
find_dossier tenant entity (d ∷ ds) =
    let rest = find_dossier tenant entity ds in
    if d.tenant_id == tenant && d.entity_id == entity then some d else rest

-- The join found no dossier, or one of at least 24 hours.
is_stale : ℕ → Option DossierRow → Bool
is_stale now none = true
is_stale now (some d) = leb (d.assembled_at + 86400) now

pub is_due : DossierDb → ℕ → Bool → ℕ → EntityRow → Bool
is_due db tenant everything now e =
    e.tenant_id == tenant
    && (everything || is_stale now (find_dossier e.tenant_id e.id db.dossiers))

due_entities : DossierDb → ℕ → Bool → ℕ → List EntityRow → List EntityRow
due_entities db tenant everything now [] = []
due_entities db tenant everything now (e ∷ es) =
    let rest = due_entities db tenant everything now es in
    if is_due db tenant everything now e then e ∷ rest else rest

dossier_limit : ℤ → ℕ
dossier_limit (pos n) = if ltb 0 n then n else 100
dossier_limit (negsuc n) = 100

unfoldable pub dossier_entity_ids : UuidCast → DossierDb → ℕ → DossierOptions → ℕ → List Text
unfolding dossier_limit due_entities
dossier_entity_ids c db tenant opts now =
    if not (text_eq opts.entity_id [])
    then opts.entity_id ∷ []
    else map (λ (e : EntityRow). c.to_text e.id)
        (take (dossier_limit opts.limit) (due_entities db tenant opts.everything now db.oldest))

-- The row that the insertion makes, or the update of the one in conflict.
unfoldable pub upsert_dossier : ℕ → ℕ → ℕ → ℕ → Bundle → List DossierRow → List DossierRow
upsert_dossier id tenant entity now bundle [] =
    record { id = id; tenant_id = tenant; entity_id = entity; assembled_at = now; bundle = bundle }
    ∷ []
upsert_dossier id tenant entity now bundle (d ∷ ds) =
    let rest = upsert_dossier id tenant entity now bundle ds in
    if d.tenant_id == tenant && d.entity_id == entity
    then record d { assembled_at = now; bundle = bundle } ∷ ds
    else d ∷ rest

unfoldable pub store_dossier :
    UuidCast → Tables → ℕ → ℕ → ℕ → Text → List DossierRow → Result Error (List DossierRow)
store_dossier c t tenant now id entity_id dossiers =
    elim (assemble c t (entity_id ∷ []) (pos 0) tenant) [
      | err failure ↦ err (assembler_error failure)
      | ok bundle ↦ elim (c.of_text entity_id) [
        | none ↦ err bad_entity
        | some entity ↦ ok (upsert_dossier id tenant entity now bundle dossiers)
      ]
    ]

-- The loop over the ids; `drawn` counts the UUIDs.
unfoldable pub store_dossiers :
    UuidCast
    → Tables
    → (ℕ → ℕ)
    → ℕ
    → ℕ
    → ℕ
    → List Text
    → List DossierRow
    → Result Error (List DossierRow)
store_dossiers c t new_uuid tenant now drawn [] dossiers = ok dossiers
store_dossiers c t new_uuid tenant now drawn (id ∷ ids) dossiers =
    store_dossier c t tenant now (new_uuid drawn) id dossiers >>= λ stored.
    store_dossiers c t new_uuid tenant now (drawn + 1) ids stored

-- `RunOnce`: the number of dossiers, and the rows after the transaction.
unfoldable pub dossier_once :
    UuidCast → (ℕ → ℕ) → DossierDb → DossierOptions → ℕ → ℕ → Result Error (ℕ × List DossierRow)
dossier_once c new_uuid db opts now drawn =
    if text_eq opts.tenant_id [] then err tenant_required else elim (c.of_text opts.tenant_id) [
      | none ↦ err bad_tenant
      | some tenant ↦
          store_dossiers c db.tables new_uuid tenant now drawn
            (dossier_entity_ids c db tenant opts now) db.dossiers
          >>= λ dossiers. ok (length (dossier_entity_ids c db tenant opts now), dossiers)
    ]
