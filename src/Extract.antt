-- ===== src/Extract.antt =====
-- internal/workers/extract.go: the extraction worker. A function that runs inside a transaction
-- returns the vault, or the error that rolls it back.
pub mod Effect
pub mod Runs
pub mod Links
pub mod Provenance
use factvault.Common.{
  ℕ, zero, suc, ◌+◌, ◌≤◌, Bool, true, false, not, ◌&&◌, ◌||◌, Option, none, some, List, [], ◌∷◌,
  ◌++◌, Text, lit, text_eq, ℤ, pos, negsuc, ltb_ℤ, ◌==◌, take, if◌then◌else◌, Result, ok, err,
  ◌>>=◌,
}
use factvault.Strings.{Unicode, trim_space, to_lower}
use factvault.Db.{
  Source, SourceStatus, SourceStatus-discrete, archived, extracted, StatementValue, Statement,
  StatementSource, Vault,
}
use factvault.Excerpt.{verify_excerpt_offset, verify_proposal_offset}
use factvault.Extractors.{ExtractedFact}
use factvault.Vocabulary.{Mode, mode_strict}
use factvault.Rows.{
  Env, Ensured, write_under, do_not_write, ensure_entity, ensure_property, cast_value,
  has_statement, admits_statement, admits_offsets,
}

pub data Error : Type 0 where
  constraint_violation bad_cast invalid_threshold cost_blocked extractor_failed : Error
  nil_db_pool tenant_required invalid_tenant : Error

-- `INSERT INTO statements … ON CONFLICT DO NOTHING RETURNING id`: `none` is `ErrNoRows`, a
-- statement that was there.
pub insert_statement : Env → ℕ → ℕ → ℕ → Text → Text → ℕ → Vault → Result Error (Option ℕ × Vault)
insert_statement env tenant subject property value_type value confidence v =
    elim (cast_value env value_type value) [
      | none ↦ err bad_cast
      | some val ↦
          if not (admits_statement tenant val confidence v)
          then err constraint_violation
          else if has_statement tenant subject property val v.statements
          then ok (none, record v { uuids = v.uuids + 1 })
          else (let id = env.new_uuid v.uuids in
              ok (
                some id,
                record v {
                  statements =
                      record {
                        id = id;
                        tenant_id = tenant;
                        subject_id = subject;
                        property_id = property;
                        value = val;
                        confidence = confidence;
                      }
                      ∷ v.statements;
                  uuids = v.uuids + 1;
                },
              ))
    ]

-- `INSERT INTO statement_sources`.
pub insert_statement_source : Env → ℕ → ℕ → ℕ → ExtractedFact → ℕ → Vault → Result Error Vault
insert_statement_source env tenant source_id statement_id fact confidence v =
    if admits_offsets fact.excerpt_offset_start fact.excerpt_offset_end
    then ok (record v {
      statement_sources =
          record {
            id = env.new_uuid v.uuids;
            statement_id = statement_id;
            source_id = source_id;
            excerpt = fact.excerpt;
            excerpt_offset_start = fact.excerpt_offset_start;
            excerpt_offset_end = fact.excerpt_offset_end;
            extraction_method = fact.extraction_method;
            confidence = confidence;
            tenant_id = tenant;
          }
          ∷ v.statement_sources;
      uuids = v.uuids + 1;
    })
    else err constraint_violation

-- Half a point, where the fact states no confidence of its own.
abbrev pub fact_confidence : Option ℕ → ℕ
fact_confidence none = 500
fact_confidence (some c) = c

-- `insertFact` behind the statement's INSERT: only a new statement gets a source.
pub link_new : Env → ℕ → ℕ → ExtractedFact → ℕ → Option ℕ × Vault → Result Error (Bool × Vault)
link_new env tenant source_id fact confidence (none, v) = ok (false, v)
link_new env tenant source_id fact confidence (some id, v) = do
  v' ← insert_statement_source env tenant source_id id fact confidence v
  ok (true, v')

pub insert_under : Env → ℕ → ℕ → ExtractedFact → ℕ → Ensured × Vault → Result Error (Bool × Vault)
insert_under env tenant source_id fact subject (do_not_write, v) = ok (false, v)
insert_under env tenant source_id fact subject (write_under property value_type, v) = do
  let confidence = fact_confidence fact.source_confidence
  inserted ← insert_statement env tenant subject property value_type fact.value confidence v
  link_new env tenant source_id fact confidence inserted

-- `insertFact`: whether a statement was inserted.
pub insert_fact : Env → Mode → ℕ → ℕ → ExtractedFact → Vault → Result Error (Bool × Vault)
insert_fact env mode tenant source_id fact v =
    let (subject, v') = ensure_entity env tenant fact.subject_text v in
    insert_under env tenant source_id fact subject
      (ensure_property env mode tenant source_id fact v')

-- The loop of `writeExtractedFacts`; `accepted` counts the statements inserted.
pub write_facts :
    Env → Mode → ℕ → ℕ → Text → List ExtractedFact → ℕ → Vault → Result Error (ℕ × Vault)
write_facts env mode tenant source_id raw_text [] accepted v = ok (accepted, v)
write_facts env mode tenant source_id raw_text (fact ∷ facts) accepted v =
    let skipped = write_facts env mode tenant source_id raw_text facts accepted v in
    if verify_excerpt_offset raw_text fact.excerpt fact.excerpt_offset_start fact.excerpt_offset_end
    then (do
      (inserted, v') ← insert_fact env mode tenant source_id fact v
      write_facts env mode tenant source_id raw_text facts
          (if inserted then accepted + 1 else accepted) v')
    else skipped

-- `UPDATE sources SET status = 'extracted' WHERE id = …`, on the rows that row-level security
-- shows to the tenant.
pub set_status : ℕ → ℕ → SourceStatus → List Source → List Source
set_status tenant id status [] = []
set_status tenant id status (s ∷ ss) =
    (if s.tenant_id == tenant && s.id == id then record s { status = status } else s)
    ∷ set_status tenant id status ss

abbrev pub mark_extracted : ℕ → ℕ → ℕ × Vault → Vault
mark_extracted tenant source_id (zero, v) = v
mark_extracted tenant source_id (suc n, v) = record v {
  sources = set_status tenant source_id extracted v.sources;
}

-- `writeExtractedFacts`, one transaction. With no facts none is opened.
pub write_extracted_facts :
    Env → Mode → ℕ → ℕ → Text → List ExtractedFact → Vault → Result Error Vault
write_extracted_facts env mode tenant source_id raw_text [] v = ok v
write_extracted_facts env mode tenant source_id raw_text (fact ∷ facts) v = do
  written ← write_facts env mode tenant source_id raw_text (fact ∷ facts) 0 v
  ok (mark_extracted tenant source_id written)

-- A statement that a language model proposes.
pub record StatementProposal : Type 0 where
  pub subject_text : Text
  pub property_slug : Text
  pub value : Text
  pub value_type : Text
  pub excerpt : Text
  pub excerpt_offset_start : ℤ
  pub excerpt_offset_end : ℤ

-- `FilterVerifiedStatementProposals`, of internal/extractors/llm.go.
filter_verified_proposals : Text → List StatementProposal → List StatementProposal
filter_verified_proposals raw_text [] = []
filter_verified_proposals raw_text (p ∷ ps) =
    let rest = filter_verified_proposals raw_text ps in
    if verify_proposal_offset raw_text p.excerpt p.excerpt_offset_start p.excerpt_offset_end
    then p ∷ rest
    else rest

proposal_facts : List StatementProposal → List ExtractedFact
proposal_facts [] = []
proposal_facts (p ∷ ps) =
    record {
      subject_text = p.subject_text;
      property_slug = p.property_slug;
      value = p.value;
      value_type = p.value_type;
      excerpt = p.excerpt;
      excerpt_offset_start = p.excerpt_offset_start;
      excerpt_offset_end = p.excerpt_offset_end;
      extraction_method = lit "llm:v1:covered-span";
      source_confidence = none;
    }
    ∷ proposal_facts ps

-- The extractors that a pipeline is given, and its settings. `confirmed` is `ConfirmCost` or the
-- environment's FACTVAULT_CONFIRM_COST.
pub record FactPipeline : Type 0 where
  pub has_pool : Bool
  pub deterministic : Source → Text → Result Error (List ExtractedFact)
  pub llm : Option (Source → Text → Result Error (List StatementProposal))
  pub llm_provider : Text
  pub cost_guardrail_threshold : ℤ
  pub confirmed : Bool
  pub vocabulary_mode : Mode

-- `vocabularyMode`.
pub effective_mode : Mode → Mode
effective_mode [] = mode_strict
effective_mode (b ∷ s) = b ∷ s

-- `extractFacts`.
pub extract_facts : FactPipeline → Source → Text → Result Error (List ExtractedFact)
extract_facts p source raw_text = elim p.llm [
  | none ↦ p.deterministic source raw_text
  | some llm ↦ (do
    facts ← p.deterministic source raw_text
    proposals ← llm source raw_text
    ok (facts ++ proposal_facts (filter_verified_proposals raw_text proposals)))
]

-- The SELECT of `loadArchivedSources`; the table stands in the order of `fetched_at`.
unfoldable pub is_pending : ℕ → Source → Bool
is_pending tenant s =
    s.tenant_id == tenant
    && (elim s.raw_text [ none ↦ false | some t ↦ true ]
        && elim s.status [ archived ↦ true | _ ↦ false ])

pub pending_sources : ℕ → List Source → List Source
pending_sources tenant [] = []
pending_sources tenant (s ∷ ss) =
    let rest = pending_sources tenant ss in if is_pending tenant s then s ∷ rest else rest

-- One round of the loop of `ExtractOnce`: a source with no text is passed over.
pub extract_source : Env → FactPipeline → ℕ → Source → Option Text → Vault → Result Error Vault
extract_source env p tenant source none v = ok v
extract_source env p tenant source (some []) v = ok v
extract_source env p tenant source (some (b ∷ raw_text)) v = do
  facts ← extract_facts p source (b ∷ raw_text)
  write_extracted_facts env (effective_mode p.vocabulary_mode) tenant source.id (b ∷ raw_text) facts
      v

-- The loop: an error ends the run, and what was committed before it stays.
pub extract_sources : Env → FactPipeline → ℕ → List Source → Vault → Vault × Option Error
extract_sources env p tenant [] v = (v, none)
extract_sources env p tenant (s ∷ ss) v = elim (extract_source env p tenant s s.raw_text v) [
  | err e ↦ (v, some e)
  | ok v' ↦ extract_sources env p tenant ss v'
]

-- `costGuardrail`: only the metered providers are limited.
abbrev effective_threshold : ℤ → ℤ
effective_threshold (pos zero) = pos 1000
effective_threshold (pos (suc n)) = pos (suc n)
effective_threshold (negsuc n) = negsuc n

pub cost_guardrail : Unicode → FactPipeline → ℕ → Result Error (Unit {0})
cost_guardrail u p limit =
    let provider = to_lower u (trim_space p.llm_provider) in
    let threshold = effective_threshold p.cost_guardrail_threshold in
    elim p.llm [
      | none ↦ ok tt
      | some llm ↦
          if not (text_eq provider (lit "anthropic") || text_eq provider (lit "openai"))
          then ok tt
          else if ltb_ℤ threshold (pos 100) || ltb_ℤ (pos 10000) threshold
          then err invalid_threshold
          else if p.confirmed
          then ok tt
          else if ltb_ℤ threshold (pos limit)
          then err cost_blocked
          else ok tt
    ]

-- `limit <= 0` stands for 100.
abbrev pub effective_limit : ℤ → ℕ
effective_limit (pos zero) = 100
effective_limit (pos (suc n)) = suc n
effective_limit (negsuc n) = 100

-- `ExtractOnce` behind its guards.
pub extract_tenant : Env → FactPipeline → Option ℕ → ℕ → Vault → Vault × Option Error
extract_tenant env p none limit v = (v, some invalid_tenant)
extract_tenant env p (some tenant) limit v =
    extract_sources env p tenant (take limit (pending_sources tenant v.sources)) v

pub extract_guarded :
    Env → FactPipeline → Option ℕ → ℕ → Result Error (Unit {0}) → Vault → Vault × Option Error
extract_guarded env p tenant limit (err e) v = (v, some e)
extract_guarded env p tenant limit (ok _) v = extract_tenant env p tenant limit v

-- `ExtractOnce`.
pub extract_once : Env → FactPipeline → Text → ℤ → Vault → Vault × Option Error
extract_once env p tenant_id limit v =
    let n = effective_limit limit in
    if not p.has_pool
    then (v, some nil_db_pool)
    else if text_eq tenant_id []
    then (v, some tenant_required)
    else extract_guarded env p (env.cast_uuid tenant_id) n (cost_guardrail env.unicode p n) v
