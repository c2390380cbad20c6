-- ===== src/Extract/Runs.antt =====
-- An invariant of the vault that every insertion keeps holds after a whole run of the worker,
-- also where the run stops at an error.
use factvault.Common.{
  ℕ, zero, suc, ◌≡◌, refl, Bool, true, false, Option, none, some, List, [], ◌∷◌, Text, ℤ, Result,
  ok, err, >>=-ok, All, Bool-cases, inl, inr, take, if◌then◌else◌, ok-injective, ◌⊎◌, All-take, not,
  text_eq,
}
use mathlib.Core.Path.{subst}
use factvault.Db.{Vault, Source, extracted}
use factvault.Excerpt.{verify_excerpt_offset}
use factvault.Extractors.{ExtractedFact}
use factvault.Vocabulary.{Mode}
use factvault.Rows.{Env}
use factvault.Extract.{
  Error, nil_db_pool, tenant_required, FactPipeline, insert_fact, write_facts,
  write_extracted_facts, mark_extracted, extract_facts, extract_source, extract_sources,
  pending_sources, effective_mode, extract_once, set_status, extract_tenant, extract_guarded,
  effective_limit, cost_guardrail,
}
use factvault.Extract.Effect.{Effect, insert_fact-Effect}
use factvault.Extractors.Facts.{IsVerified}

module _ (env : Env) (P : Vault → Type 0) (tenant : ℕ) where
  -- Inserting a verified fact keeps the invariant, and so does the change of a source's status.
  pub record Keeping (source_id : ℕ) (raw_text : Text) : Type 0 where
    pub inserts :
        (fact : ExtractedFact) (v : Vault) (r : Bool × Vault)
        → IsVerified raw_text fact
        → Effect env tenant source_id fact v r
        → P v
        → P r.1
    pub marks :
        (v : Vault)
        → P v
        → P (record v { sources = set_status tenant source_id extracted v.sources })

  module _ (mode : Mode) (source_id : ℕ) (raw_text : Text) (keep : Keeping source_id raw_text) where
    write_facts_inv :
        (facts : List ExtractedFact) (n : ℕ) (v : Vault) (r : ℕ × Vault)
        → write_facts env mode tenant source_id raw_text facts n v ≡ ok r
        → P v
        → P r.1
    unfolding write_facts
    write_facts_inv [] n v r h p = subst (λ (x : ℕ × Vault). P x.1) (ok-injective h) p
    write_facts_inv (f ∷ fs) n v r h p =
        elim (Bool-cases
          (verify_excerpt_offset raw_text f.excerpt f.excerpt_offset_start f.excerpt_offset_end)) [
            | inl good ↦
                let (x, e, rest) =
                  >>=-ok (insert_fact env mode tenant source_id f v) _ (rw good at h) in
                write_facts_inv fs _ x.1 r rest
                  (keep.inserts f v x good (insert_fact-Effect env mode tenant source_id f v x e) p)
            | inr bad ↦ write_facts_inv fs n v r (rw bad at h) p
          ]

    mark_extracted_inv : (r : ℕ × Vault) → P r.1 → P (mark_extracted tenant source_id r)
    mark_extracted_inv (zero, v) p = p
    mark_extracted_inv (suc n, v) p = keep.marks v p

    write_extracted_facts_inv :
        (facts : List ExtractedFact) (v w : Vault)
        → write_extracted_facts env mode tenant source_id raw_text facts v ≡ ok w
        → P v
        → P w
    unfolding write_extracted_facts
    write_extracted_facts_inv [] v w h p = subst P (ok-injective h) p
    write_extracted_facts_inv (f ∷ fs) v w h p =
        let (x, e, rest) =
          >>=-ok (write_facts env mode tenant source_id raw_text (f ∷ fs) 0 v) _ h in
        subst P (ok-injective rest) (mark_extracted_inv x (write_facts_inv (f ∷ fs) 0 v x e p))

  -- The sources that a run goes through, each with the text that it was loaded with.
  abbrev pub KeepingAll : List Source → Type 0
  KeepingAll = All (λ s. (raw_text : Text) → s.raw_text ≡ some raw_text → Keeping s.id raw_text)

  module _ (p : FactPipeline) where
    extract_source_inv :
        (s : Source) (raw : Option Text) (v w : Vault)
        → ((raw_text : Text) → raw ≡ some raw_text → Keeping s.id raw_text)
        → extract_source env p tenant s raw v ≡ ok w
        → P v
        → P w
    unfolding extract_source
    extract_source_inv s none v w keep h q = subst P (ok-injective h) q
    extract_source_inv s (some []) v w keep h q = subst P (ok-injective h) q
    extract_source_inv s (some (b ∷ raw)) v w keep h q =
        let (facts, e, rest) = >>=-ok (extract_facts p s (b ∷ raw)) _ h in
        write_extracted_facts_inv (effective_mode p.vocabulary_mode) s.id (b ∷ raw)
          (keep (b ∷ raw) refl) facts v w rest q

    Result-cases :
        (r : Result Error Vault) → ((e : Error) × (r ≡ err e)) ⊎ ((w : Vault) × (r ≡ ok w))
    Result-cases (ok w) = inr (w, refl)
    Result-cases (err e) = inl (e, refl)

    extract_sources_inv :
        (ss : List Source) (v : Vault)
        → KeepingAll ss
        → P v
        → P (extract_sources env p tenant ss v).0
    unfolding extract_sources
    extract_sources_inv [] v keep q = q
    extract_sources_inv (s ∷ ss) v keep q =
        elim (Result-cases (extract_source env p tenant s s.raw_text v)) [
          | inl (e, h) ↦ rw (h, extract_sources) q
          | inr (w, h) ↦
              rw (h, extract_sources)
                (extract_sources_inv ss w keep.1 (extract_source_inv s s.raw_text v w keep.0 h q))
        ]

module _ (env : Env) (P : Vault → Type 0) (p : FactPipeline) where
  extract_tenant_inv :
      (tenant : Option ℕ) (limit : ℕ) (v : Vault)
      → ((t : ℕ) → KeepingAll env P t (pending_sources t v.sources))
      → P v
      → P (extract_tenant env p tenant limit v).0
  unfolding extract_tenant
  extract_tenant_inv none limit v keep h = h
  extract_tenant_inv (some t) limit v keep h =
      let pending = pending_sources t v.sources in
      extract_sources_inv env P t p (take limit pending) v (All-take _ limit pending (keep t)) h

  extract_guarded_inv :
      (tenant : Option ℕ) (limit : ℕ) (r : Result Error (Unit {0})) (v : Vault)
      → ((t : ℕ) → KeepingAll env P t (pending_sources t v.sources))
      → P v
      → P (extract_guarded env p tenant limit r v).0
  unfolding extract_guarded
  extract_guarded_inv tenant limit (err e) v keep h = h
  extract_guarded_inv tenant limit (ok _) v keep h = extract_tenant_inv tenant limit v keep h

  -- An invariant that the insertions from pending sources keep, a whole run keeps.
  pub extract_once_inv :
      (tenant_id : Text) (limit : ℤ) (v : Vault)
      → ((t : ℕ) → KeepingAll env P t (pending_sources t v.sources))
      → P v
      → P (extract_once env p tenant_id limit v).0
  unfolding extract_once
  extract_once_inv tenant_id limit v keep h = guarded p.has_pool (text_eq tenant_id [])
    where
      n : ℕ
      n = effective_limit limit

      guarded :
          (pool empty : Bool)
          → P
              (if not pool
                then (v, some nil_db_pool)
                else if empty
                then (v, some tenant_required)
                else extract_guarded env p
                    (env.cast_uuid tenant_id)
                    n
                    (cost_guardrail env.unicode p n)
                    v).0
      guarded false empty = h
      guarded true true = h
      guarded true false =
          extract_guarded_inv (env.cast_uuid tenant_id) n (cost_guardrail env.unicode p n) v keep h
