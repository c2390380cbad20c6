-- ===== src/Examples/Retrievals.antt =====
-- A dossier that is asked for, and one that is stored.
use factvault.Common.{
  ℕ, ◌≡◌, ◌≢◌, ◌⊎◌, refl, inl, none, some, true, false, List, [], ◌∷◌, Text, lit, text_eq, pos,
  length, ok, In, arith,
}
use factvault.Retrieval.{Service, RetrievalDb, StoryRequest, dossier}
use factvault.Retrieval
use factvault.Retrieval.Tenants.{IsAnswer, retrieval-IsAnswer}
use factvault.Dossiers.{
  DossierDb, DossierOptions, DossierRow, dossier_once, dossier_entity_ids, find_dossier,
}
use factvault.Dossiers
use factvault.Dossiers.Stored.{IsStored, Misses, dossier_once-Stores}
use factvault.Examples.Bundles.{uuid_cast, tables, bundle, assembled_now}

abbrev pub service : Service
service = record { embedder = none; search_nearest = none; ilike = λ value pattern. true }

abbrev pub vault : RetrievalDb
vault = record { tables = tables; newest = tables.entities }

abbrev request : StoryRequest
request = record { query = []; depth = pos 0 }

pub answered_now : dossier uuid_cast vault (lit "ttttttt") (lit "a") ≡ ok bundle
unfolding dossier Retrieval.with_tenant Retrieval.assembled
answered_now = rw assembled_now refl

retrieval-IsAnswer_example : IsAnswer uuid_cast (lit "ttttttt") bundle
retrieval-IsAnswer_example =
    retrieval-IsAnswer uuid_cast service vault (lit "ttttttt") (lit "a") [] request bundle
      (inl answered_now)

abbrev database : DossierDb
database = record { tables = tables; oldest = tables.entities; dossiers = [] }

abbrev options : DossierOptions
options = record {
  tenant_id = lit "ttttttt";
  entity_id = lit "a";
  everything = false;
  limit = pos 0;
}

abbrev stored : List DossierRow
stored = record { id = 40; tenant_id = 7; entity_id = 1; assembled_at = 5; bundle = bundle } ∷ []

stored_now : dossier_once uuid_cast (λ n. n) database options 5 40 ≡ ok (1, stored)
unfolding dossier_once dossier_entity_ids Dossiers.store_dossiers Dossiers.store_dossier
    Dossiers.upsert_dossier text_eq
stored_now = ground (arith, assembled_now)

dossier_once-Stores_example :
    (tenant : ℕ) × (uuid_cast.of_text options.tenant_id ≡ some tenant)
    × (1 ≡ length (dossier_entity_ids uuid_cast database tenant options 5))
    × ((id : Text)
        → In id (dossier_entity_ids uuid_cast database tenant options 5)
        → IsStored uuid_cast tables tenant 5
            (dossier_entity_ids uuid_cast database tenant options 5)
            stored
            id)
    × ((any other : ℕ)
        → (any ≢ tenant)
          ⊎ Misses uuid_cast other (dossier_entity_ids uuid_cast database tenant options 5)
        → find_dossier any other stored ≡ find_dossier any other database.dossiers)
dossier_once-Stores_example =
    dossier_once-Stores uuid_cast (λ n. n) database options 5 40 1 stored stored_now
