-- ===== src/Examples/Briefs.antt =====
-- Briefs of a bundle with a conflict, and a table of briefs.
use factvault.Common.{
  ℕ, ◌≡◌, ◌≢◌, ◌⊎◌, refl, sym, ap, ◌∙◌, inl, inr, arith, none, some, Option, [], ◌∷◌, List, Text,
  lit, pos, length, ok, err, map, text_eq, Identified, if◌then◌else◌, ◌==◌, ◌||◌, Bool, false,
}
use mathlib.Core.List.Permᴰ
use factvault.Common.Sorting.Insertion.{
  insertion_package, insertion_package-IsSort, insertion_sort, insert_sorted,
}
use factvault.Assembler.Graph.{UuidCast}
use factvault.Assembler.Tables.{Bundle, BundleStatement}
use factvault.Briefs.{Generator, BriefDoc, generate, detect_conflicts, Conflict}
use factvault.Briefs
use factvault.Strings.{trim_space}
use factvault.Strings
use factvault.Utf8
use factvault.Assembler.Graph.{has_id}
use factvault.Briefs.{not_found, derive_writer_prompts}
use factvault.Briefs.Store.{
  GenerateRequest, BundleLoader, BriefDb, Brief, BriefRow, ListOptions, generate_and_store,
  get_brief, list_briefs, brief_of, JsonPackages,
}
use factvault.Briefs.Store
use factvault.Briefs.Store.Stored.{
  KeepsDocuments, get_brief-generate_and_store, generate_and_store-IsVouched,
}
use factvault.Briefs.Store.Listed.{IsPage, list_briefs-IsPage}
use factvault.Briefs.Determined.{generate-determined}
use factvault.Briefs.Found.{AreConflicts, detect_conflicts-AreConflicts}
use factvault.Briefs.Pairs.{conflict_of}

abbrev uuid_cast : UuidCast
uuid_cast = record { of_text = λ t. some (length t); to_text = λ n. n ∷ [] }

abbrev pub generator : Generator
generator = record {
  sort = insertion_package;
  range_keys = λ ks. ks;
  quote = λ t. t;
  uuid_text = λ n. n ∷ [];
}

abbrev statement : ℕ → Text → ℕ → BundleStatement
statement id value confidence = record {
  id = id;
  entity_id = 1;
  property_slug = lit "ceo";
  value = value;
  value_type = lit "string";
  rank = 2;
  confidence = confidence;
  source_ids = [];
  qualifier_ids = [];
}

abbrev statements : List BundleStatement
statements = statement 5 (lit "Ann") 800 ∷ statement 3 (lit "Bob") 500 ∷ []

abbrev bundle : Bundle
bundle = record {
  entity_id = lit "a";
  entities = [];
  statements = statements;
  sources = [];
  qualifiers = [];
  relations = [];
  tenant_id = 7;
}

statements-Identified : Identified (λ s. s.id) statements
statements-Identified x y (inl m) (inl n) e = m ∙ sym n
statements-Identified x y (inl m) (inr (inl n)) e =
    absurd
      (ground (arith, ap (λ (r : BundleStatement). r.id) m, ap (λ (r : BundleStatement). r.id) n))
statements-Identified x y (inl m) (inr (inr n)) e = absurd n
statements-Identified x y (inr (inl m)) (inl n) e =
    absurd
      (ground (arith, ap (λ (r : BundleStatement). r.id) m, ap (λ (r : BundleStatement). r.id) n))
statements-Identified x y (inr (inl m)) (inr (inl n)) e = m ∙ sym n
statements-Identified x y (inr (inl m)) (inr (inr n)) e = absurd n
statements-Identified x y (inr (inr m)) n e = absurd m

conflict_found :
    detect_conflicts generator statements
    ≡ conflict_of (statement 3 (lit "Bob") 500) (statement 5 (lit "Ann") 800) ∷ []
unfolding detect_conflicts Briefs.conflicts_of Briefs.group_conflicts Briefs.group_of
    Briefs.group_keys Briefs.conflict_pairs Briefs.conflicts_with Briefs.has_group Briefs.key_eq
    Briefs.statement_less Briefs.conflict_less insertion_sort insert_sorted text_eq
conflict_found = refl

detect_conflicts-AreConflicts_example :
    AreConflicts statements (detect_conflicts generator statements)
detect_conflicts-AreConflicts_example =
    detect_conflicts-AreConflicts generator statements insertion_package-IsSort
      (λ ks. Permᴰ.refl ks) statements-Identified

abbrev doc : BriefDoc
doc = record {
  key_claims =
      record {
        statement_id = 5;
        entity_id = 1;
        property_slug = lit "ceo";
        value = lit "Ann";
        confidence = 800;
      }
      ∷ [];
  citations = [];
  conflicts = conflict_of (statement 3 (lit "Bob") 500) (statement 5 (lit "Ann") 800) ∷ [];
  source_health = [];
  evidence_gaps =
      record { statement_id = 3; property_slug = lit "ceo" }
      ∷ record { statement_id = 5; property_slug = lit "ceo" }
      ∷ [];
  writer_prompts = derive_writer_prompts generator bundle;
}

generated_now : generate generator (some bundle) ≡ ok doc
unfolding generate Briefs.extract_key_claims Briefs.key_claims Briefs.claim_less
    Briefs.extract_citations Briefs.citations_from detect_conflicts Briefs.conflicts_of
    Briefs.group_conflicts Briefs.group_of Briefs.group_keys Briefs.conflict_pairs
    Briefs.conflicts_with Briefs.has_group Briefs.key_eq Briefs.statement_less Briefs.conflict_less
    Briefs.build_source_health Briefs.health_from Briefs.find_evidence_gaps Briefs.gaps_of
    insertion_sort insert_sorted text_eq
generated_now = refl

generate-determined_example :
    (doc.key_claims ≡ doc.key_claims)
    × (doc.citations ≡ doc.citations)
    × (doc.source_health ≡ doc.source_health)
    × (doc.evidence_gaps ≡ doc.evidence_gaps)
generate-determined_example =
    generate-determined generator generator bundle doc doc insertion_package-IsSort
      insertion_package-IsSort statements-Identified generated_now generated_now

abbrev request : GenerateRequest
request = record { source_kind = lit "dossier"; entity_id = some (lit "a"); query = none }

abbrev unspaced : Text → Text
unspaced [] = []
unspaced (b ∷ bs) = if b == b' ' then bs else b ∷ bs

-- A JSON that only tells whether there are claims, after a space that the column drops.
abbrev json : JsonPackages
json = record {
  marshal = λ d. some (b' ' ∷ (elim d.key_claims [ [] ↦ lit "0" | x ∷ xs ↦ lit "1" ]));
  to_jsonb = λ t. some (unspaced t);
}

abbrev has_one : Text → Bool
has_one [] = false
has_one (b ∷ bs) = b == b'1' || has_one bs

abbrev read : Text → Option BriefDoc
read t = if has_one t then some doc else none

has_one-unspaced : (t : Text) → has_one (unspaced t) ≡ has_one t
has_one-unspaced [] = refl
has_one-unspaced (b ∷ bs) = ground arith

json-KeepsDocuments : KeepsDocuments json read
json-KeepsDocuments d text value written taken =
    let e : unspaced text ≡ value = ground arith in
    ap read (sym e) ∙ ap (λ h. if h then some doc else none) (has_one-unspaced text)

abbrev loader : BundleLoader
loader = λ tenant req. some (some bundle)

abbrev table : BriefDb
table = record { briefs = []; entity_ids = 1 ∷ [] }

abbrev brief : Brief
brief = record {
  id = 4;
  source_kind = lit "dossier";
  entity_id = some (lit "a");
  payload = lit " 1";
}

abbrev row : BriefRow
row = record {
  id = 4;
  tenant_id = 7;
  source_kind = lit "dossier";
  entity_id = some 1;
  query = none;
  payload = lit "1";
  created_at = 100;
}

abbrev stored_table : BriefDb
stored_table = record { briefs = row ∷ []; entity_ids = 1 ∷ [] }

stored_now :
    generate_and_store json uuid_cast generator (some loader) table 7 request 4 100
    ≡ ok (brief, stored_table)
unfolding generate_and_store Store.generate_and_store_bundle Store.payload_of Store.insert_row
    Store.validate_generate_request Store.validate_bundle Store.is_mismatch Store.is_blank
    Store.insert_brief Store.cast_entity Store.brief_ids has_id text_eq trim_space Strings.trim_left
    Strings.trim_right Utf8.runes
stored_now = rw generated_now refl

get_brief-generate_and_store_example :
    (value : Text) × (json.to_jsonb (lit " 1") ≡ some value)
    × (read value ≡ read (lit " 1"))
    × (get_brief uuid_cast stored_table 7 4
        ≡ ok (record {
          id = 4;
          source_kind = lit "dossier";
          entity_id = some (1 ∷ []);
          payload = value;
        }))
    × ((other : ℕ) → other ≢ 7 → get_brief uuid_cast stored_table other 4 ≡ err not_found)
    × ((any other : ℕ)
        → other ≢ 4
        → get_brief uuid_cast stored_table any other ≡ get_brief uuid_cast table any other)
get_brief-generate_and_store_example =
    get_brief-generate_and_store json read uuid_cast generator (some loader) table 7 request 4 100
      brief stored_table json-KeepsDocuments stored_now

generate_and_store-IsVouched_example :
    (load : BundleLoader) × (found : Bundle) × (◌≡◌ {A = Option BundleLoader}
      (some loader)
      (some load))
    × (load 7 request ≡ some (some found))
    × (found.tenant_id ≡ 7)
    × ((request.entity_id ≡ none) ⊎ (request.entity_id ≡ some found.entity_id))
    × (found_doc : BriefDoc) × (generate generator (some found) ≡ ok found_doc)
    × (json.marshal found_doc ≡ some brief.payload)
generate_and_store-IsVouched_example =
    generate_and_store-IsVouched json uuid_cast generator (some loader) table 7 request 4 100 brief
      stored_table stored_now

abbrev options : ListOptions
options = record {
  limit = pos 1;
  source_kind = some (lit "dossier");
  entity_id = none;
  created_after = some 50;
  created_before = none;
}

abbrev spelled : Brief
spelled = record {
  id = 4;
  source_kind = lit "dossier";
  entity_id = some (1 ∷ []);
  payload = lit "1";
}

listed_now : list_briefs uuid_cast insertion_package stored_table 7 options ≡ ok (spelled ∷ [])
unfolding list_briefs Store.is_castable Store.listed_rows Store.is_listed Store.same_id Store.newer
    brief_of insertion_sort insert_sorted text_eq
listed_now = refl

list_briefs-IsPage_example :
    (n : ℕ) × (rows : List BriefRow) × (options.limit ≡ pos n)
    × (◌≡◌ {A = List Brief} (spelled ∷ []) (map (brief_of uuid_cast) rows))
    × IsPage uuid_cast stored_table 7 options n rows
list_briefs-IsPage_example =
    list_briefs-IsPage uuid_cast insertion_package stored_table 7 options (spelled ∷ [])
      insertion_package-IsSort listed_now
