-- ===== src/Extract/Effect.antt =====
-- What inserting one fact does to the statements and to their links.
use factvault.Common.{
  ℕ, ◌+◌, ◌≤◌, ◌<◌, ◌≡◌, refl, Bool, true, false, List, ◌∷◌, arith, ok, Option-cases, inl, inr, ap,
  ◌∙◌,
}
use factvault.Db.{Vault, Statement, StatementSource}
use factvault.Extractors.{ExtractedFact}
use factvault.Vocabulary.{Mode}
use factvault.Rows.{
  Env, Ensured, write_under, do_not_write, ensure_entity, ensure_property, cast_value,
}
use factvault.Rows.Frame.{Keeps, ensure_entity-Keeps, ensure_property-Keeps}
use factvault.Extract.{
  insert_statement, insert_statement_source, link_new, insert_under, insert_fact, fact_confidence,
}

-- The fact's excerpt, with its offsets, is what the link holds.
pub record Cites (tenant source_id : ℕ) (fact : ExtractedFact) (link : StatementSource)
    : Type 0 where
  pub tenant_id : link.tenant_id ≡ tenant
  pub source : link.source_id ≡ source_id
  pub excerpt : link.excerpt ≡ fact.excerpt
  pub starts : link.excerpt_offset_start ≡ fact.excerpt_offset_start
  pub ends : link.excerpt_offset_end ≡ fact.excerpt_offset_end

-- A new statement and its only link, under the UUID that was drawn for it.
pub record Adds (env : Env) (tenant source_id : ℕ) (fact : ExtractedFact) (v w : Vault)
    : Type 0 where
  pub statement : Statement
  pub link : StatementSource
  pub drawn : ℕ
  pub statements : w.statements ≡ statement ∷ v.statements
  pub links : w.statement_sources ≡ link ∷ v.statement_sources
  pub sources : w.sources ≡ v.sources
  pub statement_id : statement.id ≡ env.new_uuid drawn
  pub link_id : link.statement_id ≡ env.new_uuid drawn
  statement_tenant : statement.tenant_id ≡ tenant
  pub cites : Cites tenant source_id fact link
  pub drawn_after : v.uuids ≤ drawn
  pub drawn_before : drawn < w.uuids

-- The effect by the answer: `false` leaves statements and links alone, `true` adds one of each.
abbrev pub Effect : Env → ℕ → ℕ → ExtractedFact → Vault → Bool × Vault → Type 0
Effect env tenant source_id fact v (false, w) = Keeps v w
Effect env tenant source_id fact v (true, w) = Adds env tenant source_id fact v w

insert_under-Effect :
    (env : Env) (tenant source_id : ℕ) (fact : ExtractedFact) (subject : ℕ) (x : Ensured)
    (v : Vault) (r : Bool × Vault)
    → insert_under env tenant source_id fact subject (x, v) ≡ ok r
    → Effect env tenant source_id fact v r
unfolding insert_under insert_statement link_new insert_statement_source
insert_under-Effect env tenant source_id fact subject do_not_write v (false, w) h = ground arith
insert_under-Effect env tenant source_id fact subject do_not_write v (true, w) h = ground arith
insert_under-Effect env tenant source_id fact subject (write_under property value_type) v (false, w)
      h =
    ground arith
insert_under-Effect env tenant source_id fact subject (write_under property value_type) v (true, w)
      h =
    elim (Option-cases (cast_value env value_type fact.value)) [
      | inl refused ↦ absurd (ground arith)
      | inr (val, cast) ↦ record {
        statement = record {
          id = env.new_uuid v.uuids;
          tenant_id = tenant;
          subject_id = subject;
          property_id = property;
          value = val;
          confidence = fact_confidence fact.source_confidence;
        };
        link = record {
          id = env.new_uuid (v.uuids + 1);
          statement_id = env.new_uuid v.uuids;
          source_id = source_id;
          excerpt = fact.excerpt;
          excerpt_offset_start = fact.excerpt_offset_start;
          excerpt_offset_end = fact.excerpt_offset_end;
          extraction_method = fact.extraction_method;
          confidence = fact_confidence fact.source_confidence;
          tenant_id = tenant;
        };
        drawn = v.uuids;
        statements = ground arith;
        links = ground arith;
        sources = ground arith;
        statement_id = refl;
        link_id = refl;
        statement_tenant = refl;
        cites = record {
          tenant_id = refl;
          source = refl;
          excerpt = refl;
          starts = refl;
          ends = refl;
        };
        drawn_after = omega arith;
        drawn_before = ground arith;
      }
    ]

after-Keeps :
    (env : Env) (tenant source_id : ℕ) (fact : ExtractedFact) (u v : Vault) (r : Bool × Vault)
    → Keeps u v
    → Effect env tenant source_id fact v r
    → Effect env tenant source_id fact u r
after-Keeps env tenant source_id fact u v (false, w) k e = record {
  sources = e.sources ∙ k.sources;
  statements = e.statements ∙ k.statements;
  links = e.links ∙ k.links;
  uuids = omega arith;
}
after-Keeps env tenant source_id fact u v (true, w) k e = record {
  statement = e.statement;
  link = e.link;
  drawn = e.drawn;
  statement_id = e.statement_id;
  link_id = e.link_id;
  statement_tenant = e.statement_tenant;
  cites = e.cites;
  drawn_before = e.drawn_before;
  statements = e.statements ∙ ap (λ (l : List Statement). e.statement ∷ l) k.statements;
  links = e.links ∙ ap (λ (l : List StatementSource). e.link ∷ l) k.links;
  sources = e.sources ∙ k.sources;
  drawn_after = omega arith;
}

pub insert_fact-Effect :
    (env : Env) (mode : Mode) (tenant source_id : ℕ) (fact : ExtractedFact) (v : Vault)
    (r : Bool × Vault)
    → insert_fact env mode tenant source_id fact v ≡ ok r
    → Effect env tenant source_id fact v r
unfolding insert_fact
insert_fact-Effect env mode tenant source_id fact v r h =
    let (subject, v1) = ensure_entity env tenant fact.subject_text v in
    let (x, v2) = ensure_property env mode tenant source_id fact v1 in
    after-Keeps env tenant source_id fact v v1 r
      (ensure_entity-Keeps env tenant fact.subject_text v)
      (after-Keeps env tenant source_id fact v1 v2 r
        (ensure_property-Keeps env mode tenant source_id fact v1)
        (insert_under-Effect env tenant source_id fact subject x v2 r h))
