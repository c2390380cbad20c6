-- ===== src/Extract/Provenance.antt =====
-- Which excerpts the links cite that the worker writes, and from which sources.
use factvault.Common.{
  ℕ, ◌≡◌, ◌⊎◌, ◌∙◌, sym, refl, ap, inl, inr, Bool, true, false, Option, none, some, List, [], ◌∷◌,
  arith, Text, ℤ, All, Bool-cases, All-map,
}
use mathlib.Core.Path.{subst}
use factvault.Db.{Vault, Source, SourceStatus, extracted, StatementSource}
use factvault.Excerpt.{verify_excerpt_offset}
use factvault.Extractors.{ExtractedFact}
use factvault.Extractors.Facts.{IsVerified}
use factvault.Rows.{Env}
use factvault.Extract.{FactPipeline, set_status, is_pending, pending_sources, extract_once}
use factvault.Extract.Effect.{Effect, Cites}
use factvault.Extract.Runs.{Keeping, extract_once_inv}

-- What a link can refer to: the id, the tenant and the text of each source.
abbrev Cited : Type 0
Cited = ℕ × ℕ × Option Text

pub cited : List Source → List Cited
cited [] = []
cited (s ∷ ss) = (s.id, s.tenant_id, s.raw_text) ∷ cited ss

abbrev HoldsExcerpt : Option Text → StatementSource → Type 0
HoldsExcerpt none l = ⊥
HoldsExcerpt (some raw_text) l =
    verify_excerpt_offset raw_text l.excerpt l.excerpt_offset_start l.excerpt_offset_end ≡ true

-- Some source of the list is the link's source, in the link's tenant, and holds its excerpt.
abbrev IsCited : List Cited → StatementSource → Type 0
IsCited [] l = ⊥
IsCited ((id, tenant, text) ∷ cs) l =
    ((l.source_id ≡ id) × (l.tenant_id ≡ tenant) × HoldsExcerpt text l) ⊎ IsCited cs l

abbrev HasText : List Cited → ℕ → ℕ → Text → Type 0
HasText [] id tenant raw_text = ⊥
HasText ((i, t, text) ∷ cs) id tenant raw_text =
    ((i ≡ id) × (t ≡ tenant) × (text ≡ some raw_text)) ⊎ HasText cs id tenant raw_text

-- Every link of the vault is cited by a source of the vault.
pub record HasProvenance (v : Vault) : Type 0 where
  pub links : All (IsCited (cited v.sources)) v.statement_sources

cited-set_status :
    (tenant id : ℕ) (status : SourceStatus) (ss : List Source)
    → cited (set_status tenant id status ss) ≡ cited ss
unfolding set_status cited
cited-set_status tenant id status [] = refl
cited-set_status tenant id status (s ∷ ss) = ground (arith, cited-set_status tenant id status ss)

IsCited-of_HasText :
    (cs : List Cited) (id tenant : ℕ) (raw_text : Text) (fact : ExtractedFact) (l : StatementSource)
    → HasText cs id tenant raw_text
    → IsVerified raw_text fact
    → Cites tenant id fact l
    → IsCited cs l
IsCited-of_HasText [] id tenant raw_text fact l h v c = h
IsCited-of_HasText ((i, t, text) ∷ cs) id tenant raw_text fact l (inl (e, f, g)) v c =
    inl (c.source ∙ sym e, c.tenant_id ∙ sym f, rw (g, c.excerpt, c.starts, c.ends) v)
IsCited-of_HasText ((i, t, text) ∷ cs) id tenant raw_text fact l (inr h) v c =
    inr (IsCited-of_HasText cs id tenant raw_text fact l h v c)

-- The invariant of a run: the sources keep their texts, and the links are cited.
abbrev Invariant : List Cited → Vault → Type 0
Invariant cs v = (cited v.sources ≡ cs) × All (IsCited cs) v.statement_sources

inserts_keep :
    (env : Env) (cs : List Cited) (tenant id : ℕ) (raw_text : Text)
    → HasText cs id tenant raw_text
    → (fact : ExtractedFact) (v : Vault) (r : Bool × Vault) → IsVerified raw_text fact
    → Effect env tenant id fact v r
    → Invariant cs v
    → Invariant cs r.1
inserts_keep env cs tenant id raw_text h fact v (false, w) good e i =
    (ap cited e.sources ∙ i.0, subst (All (IsCited cs)) (sym e.links) i.1)
inserts_keep env cs tenant id raw_text h fact v (true, w) good e i = (
  ap cited e.sources ∙ i.0,
  subst (All (IsCited cs)) (sym e.links)
      (IsCited-of_HasText cs id tenant raw_text fact e.link h good e.cites, i.1),
)

keeping :
    (env : Env) (cs : List Cited) (tenant id : ℕ) (raw_text : Text)
    → HasText cs id tenant raw_text
    → Keeping env (Invariant cs) tenant id raw_text
keeping env cs tenant id raw_text h = record {
  inserts = inserts_keep env cs tenant id raw_text h;
  marks = λ v i. (cited-set_status tenant id extracted v.sources ∙ i.0, i.1);
}

-- The pending sources have their texts in the vault.
abbrev Texts : List Cited → ℕ → List Source → Type 0
Texts cs tenant =
    All (λ s. (raw_text : Text) → s.raw_text ≡ some raw_text → HasText cs s.id tenant raw_text)

Texts-cons :
    (c : Cited) (cs : List Cited) (tenant : ℕ) (ss : List Source)
    → Texts cs tenant ss
    → Texts (c ∷ cs) tenant ss
Texts-cons c cs tenant [] h = tt
Texts-cons c cs tenant (s ∷ ss) h = (λ r e. inr (h.0 r e), Texts-cons c cs tenant ss h.1)

pending-tenant : (tenant : ℕ) (s : Source) → is_pending tenant s ≡ true → s.tenant_id ≡ tenant
unfolding is_pending
pending-tenant tenant s h = ground arith

pending-Texts :
    (tenant : ℕ) (ss : List Source) → Texts (cited ss) tenant (pending_sources tenant ss)
unfolding pending_sources cited
pending-Texts tenant [] = tt
pending-Texts tenant (s ∷ ss) = elim (Bool-cases (is_pending tenant s)) [
  | inl now ↦ rw now (
    λ r e. inl (refl, pending-tenant tenant s now, e),
    Texts-cons (s.id, s.tenant_id, s.raw_text) (cited ss) tenant (pending_sources tenant ss)
        (pending-Texts tenant ss),
  )
  | inr later ↦ rw later (
      Texts-cons (s.id, s.tenant_id, s.raw_text) (cited ss) tenant (pending_sources tenant ss)
        (pending-Texts tenant ss))
]

-- Whatever the extractors and the language model answer, and whether or not the run ends in an
-- error: if every link was cited before a run of `ExtractOnce`, every link is cited after it.
pub extract_once-HasProvenance :
    (env : Env) (p : FactPipeline) (tenant_id : Text) (limit : ℤ) (v : Vault)
    → HasProvenance v
    → HasProvenance (extract_once env p tenant_id limit v).0
extract_once-HasProvenance env p tenant_id limit v h =
    let cs = cited v.sources in
    let kept =
      extract_once_inv env (Invariant cs) p tenant_id limit v
        (λ t.
          All-map _ _ (λ s texts raw_text e. keeping env cs t s.id raw_text (texts raw_text e))
            (pending_sources t v.sources) (pending-Texts t v.sources))
        (refl, h.links) in
    record { links = rw kept.0 kept.1 }
