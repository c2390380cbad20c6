-- ===== src/Examples/Pipelines.antt =====
-- A source on its way through the pipeline, and a small graph.
use factvault.Common.{
  ℕ, text_eq, ◌≡◌, ◌↔◌, ◌⊎◌, refl, true, false, none, some, List, [], ◌∷◌, lit, pos, length, ◌++◌,
  In, Result, ok, err,
}
use factvault.Strings.{
  ascii, trim_space, decode_rune, is_space, trim_left, keep_before, trim_right, join, fields,
  fields_from, encode, decode, encode_rune, trim_prefix?,
}
use factvault.Utf8
use factvault.Db.{Source, Vault, collected, archived}
use factvault.Rows.{Env, hex}
use factvault.Pipeline.{Item, World, Fetched, failed, replied, collect_once, archive_once}
use factvault.Pipeline.Verify.{verify_once, is_due, effective_age, SourceVerification}
use factvault.Examples.Networks.{network}
use factvault.Pipeline
use factvault.Pipeline.{is_collected, sources_where}
use factvault.Pipeline.Blocked.{IsBlocked, archive_once-err_iff}
use factvault.Extract.{effective_limit}
use factvault.Common.{take}
use factvault.Pipeline.Html
use factvault.Pipeline.Html.{strip_html}
use factvault.Pipeline.Collected.{Extends, collect_once-Extends}
use factvault.Pipeline.Frame.{All2, Archives, archive_once-Archives}
use factvault.Pipeline.Verify.Checks.{
  Verifies, verify_once-Verifies, AreChecks, verify_once-AreChecks,
}
use factvault.Assembler.Graph.{Relation, UuidCast, reachable_ids}
use factvault.Assembler.Graph.Reach.{IsWithin, In-reachable_ids_iff}
use factvault.Extractors.Runner.{run_extract}
use factvault.Extractors.Runner.Kept.{IsKept, all_facts, run_extract-IsKept}
use factvault.Extractors.{ExtractedFact}

abbrev env : Env
env = record {
  unicode = ascii;
  sha256 = λ t. t;
  new_uuid = λ n. n;
  cast_number = λ t. some t;
  cast_date = λ t. some t;
  cast_uuid = λ t. some 7;
}

-- A zlib that stores, and a web of which every page is `<b>hi</b>`.
abbrev world : World
world = record {
  deflate = λ t. some t;
  inflate = λ n t. some t;
  max_decompress = none;
  net = network;
  error_text = λ url e. url;
  new_request = λ url. none;
  fetch = λ url. replied 200 (λ n. ok (lit "<b>hi</b>"));
  submit = λ url. none;
  scan_uuid = λ t. some 7;
  refuses = λ s. false;
  storable = λ t. true;
  now = 1000000;
}

abbrev item : Item
item = record {
  url = lit "u";
  html = lit "<b>hi</b>";
  title = [];
  publisher = [];
  topic = [];
  tags = [];
}

abbrev stored : Source
stored = record {
  id = 1;
  tenant_id = 7;
  url = lit "u";
  content_hash = lit "h";
  raw_html = some (lit "<b>hi</b>");
  raw_text = none;
  archive_url = none;
  publisher = none;
  title = none;
  last_verified_at = none;
  status = collected;
}

abbrev vault : List Source → Vault
vault ss = record {
  sources = ss;
  entities = [];
  properties = [];
  proposed = [];
  statements = [];
  statement_sources = [];
  uuids = 0;
}

abbrev after_collect : Vault
after_collect = record {
  sources =
      record {
        id = 0;
        tenant_id = 7;
        url = lit "u";
        content_hash = hex (lit "<b>hi</b>");
        raw_html = some (lit "<b>hi</b>");
        raw_text = none;
        archive_url = none;
        publisher = none;
        title = none;
        last_verified_at = none;
        status = collected;
      }
      ∷ [];
  entities = [];
  properties = [];
  proposed = [];
  statements = [];
  statement_sources = [];
  uuids = 1;
}

collected_now : collect_once env world 7 (some (item ∷ [])) (vault []) ≡ ok after_collect
unfolding collect_once Pipeline.collect_items Pipeline.collect_item Pipeline.insert_source
    Pipeline.has_url Pipeline.collected_source Pipeline.publisher_of trim_space trim_left trim_right
    keep_before decode_rune is_space Utf8.runes Utf8.split Utf8.rune_width text_eq
collected_now = refl

collect_once-Extends_example : Extends 7 (vault []) after_collect
collect_once-Extends_example =
    collect_once-Extends env world 7 (some (item ∷ [])) (vault []) after_collect collected_now

verify_once-Verifies_example :
    All2
      (Verifies 7)
      (stored ∷ [])
      (verify_once env world 7 (pos 7) (pos 10) (vault (stored ∷ []), [])).0.sources
verify_once-Verifies_example =
    verify_once-Verifies env world 7 (pos 7) (pos 10) (vault (stored ∷ [])) [] (tt, tt)

-- A source that is due for a check, which finds it live.
abbrev due_source : Source
due_source = record stored {
  url = lit "h";
  content_hash = hex (lit "<b>hi</b>");
  status = archived;
}

verify_once-AreChecks_example :
    (added : List SourceVerification) × ((verify_once env world 7
        (pos 7)
        (pos 10)
        (vault (due_source ∷ []), [])).1
      ≡ [] ++ added)
    × AreChecks env world 7
        (take
          (effective_limit (pos 10))
          (sources_where (is_due world 7 (effective_age (pos 7))) (due_source ∷ [])))
        added
verify_once-AreChecks_example =
    verify_once-AreChecks env world 7 (pos 7) (pos 10) (vault (due_source ∷ [])) []

abbrev after_archive : Vault
after_archive =
    vault
      (record stored { raw_text = some (lit "hi"); archive_url = some []; status = archived } ∷ [])

archived_now : archive_once world (lit "t") (pos 10) (vault (stored ∷ [])) ≡ ok after_archive
unfolding archive_once Pipeline.archive_tenant Pipeline.archive_sources Pipeline.archive_source
    Pipeline.write_archive Pipeline.update_source Pipeline.sources_where Pipeline.is_collected
    Pipeline.decompress Pipeline.submit_wayback strip_html Html.break_lines Html.replace_from
    Html.strip_tags trim_space trim_left trim_right keep_before decode_rune is_space join fields
    fields_from encode decode encode_rune Utf8.runes Utf8.split Utf8.rune_width trim_prefix?
archived_now = refl

archive_once-Archives_example :
    (tenant : ℕ) × (world.scan_uuid (lit "t") ≡ some tenant)
    × All2 (Archives tenant) (stored ∷ []) after_archive.sources
archive_once-Archives_example =
    archive_once-Archives world (lit "t") (pos 10) (vault (stored ∷ [])) after_archive (tt, tt)
      archived_now

-- Two hops: 1 is joined to 2, and 3 to 2.
abbrev relation : ℕ → ℕ → Relation
relation source target = record {
  id = 1;
  tenant_id = 7;
  source_id = source;
  target_id = target;
  confidence = some 400;
}

abbrev uuid_cast : UuidCast
uuid_cast = record { of_text = λ t. some (length t); to_text = λ n. n ∷ [] }

In-reachable_ids_iff_example :
    In 3 (reachable_ids uuid_cast (relation 1 2 ∷ relation 3 2 ∷ []) 7 2 (1 ∷ []))
    ↔ ((x : ℕ) × In x (1 ∷ []) × IsWithin (relation 1 2 ∷ relation 3 2 ∷ []) 7 2 x 3)
In-reachable_ids_iff_example =
    In-reachable_ids_iff uuid_cast (relation 1 2 ∷ relation 3 2 ∷ []) 7 2 3 (1 ∷ [])

abbrev doi_fact : ExtractedFact
doi_fact = record {
  subject_text = lit "Page";
  property_slug = lit "doi";
  value = lit "10.1000/x";
  value_type = lit "string";
  excerpt = lit "DOI 10.1000/x";
  excerpt_offset_start = pos 0;
  excerpt_offset_end = pos 13;
  extraction_method = lit "regex:identifiers-v1";
  source_confidence = none;
}

abbrev answer : Result ℕ (List ExtractedFact)
answer = ok (doi_fact ∷ doi_fact ∷ [])

run_extract-IsKept_example :
    IsKept
      (all_facts (answer ∷ answer ∷ ok [] ∷ ok [] ∷ []))
      (run_extract answer answer (ok []) (ok []))
run_extract-IsKept_example = run_extract-IsKept answer answer (ok []) (ok [])

-- Nothing can be decompressed.
abbrev broken : World
broken = record world { inflate = λ n t. none }

archive_once-err_iff_example :
    ((e : Pipeline.Error) × (archive_once broken (lit "t") (pos 10) (vault (stored ∷ [])) ≡ err e))
    ↔ ((broken.scan_uuid (lit "t") ≡ none)
        ⊎ ((tenant : ℕ) × (broken.scan_uuid (lit "t") ≡ some tenant)
            × IsBlocked broken (
                take
                  (effective_limit (pos 10))
                  (sources_where (is_collected tenant) (stored ∷ [])))))
archive_once-err_iff_example = archive_once-err_iff broken (lit "t") (pos 10) (vault (stored ∷ []))
