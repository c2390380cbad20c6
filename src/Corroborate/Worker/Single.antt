-- ===== src/Corroborate/Worker/Single.antt =====
-- Corroboration of the statements that the extraction worker writes.
use factvault.Common.{
  ℕ, zero, suc, ◌≤◌, ◌≡◌, refl, ◌⊎◌, inl, inr, Bool, List, [], ◌∷◌, arith, Text, take, length, ◌==◌,
  All, Bool-cases, Option-cases, ok,
}
use mathlib.Core.Path.{subst}
use factvault.Db.{Source, Statement, StatementSource, Vault}
use factvault.Rows.{Env}
use factvault.Confidence.{one_source_ceiling}
use factvault.Corroborate.{SourceEvidence}
use factvault.Corroborate.Counted.{corroborated_single}
use factvault.Corroborate.Worker.{
  Parsers, source_by_id, evidence_row, insert_link, order_links, evidence_rows, select_evidence,
  evidence_of, reweigh, reweigh_all, corroborate_tenant, corroborate_once,
}
use factvault.Extract.Links.{links_of, HasSingleLinks}

-- Row by row: as it was, or with a confidence of at most one half.
abbrev pub AtMostHalf : List Statement → List Statement → Type 0
AtMostHalf [] [] = Unit
AtMostHalf [] (t ∷ ts) = ⊥
AtMostHalf (s ∷ ss) [] = ⊥
AtMostHalf (s ∷ ss) (t ∷ ts) =
    ((t ≡ s) ⊎ ((t.id ≡ s.id) × (t.confidence ≤ one_source_ceiling))) × AtMostHalf ss ts

links_of-insert_link :
    (id : ℕ) (l : StatementSource) (ls : List StatementSource)
    → links_of id (insert_link l ls) ≡ links_of id (l ∷ ls)
unfolding links_of insert_link
links_of-insert_link id l [] = refl
links_of-insert_link id l (x ∷ xs) = ground (arith, links_of-insert_link id l xs)

links_of-order_links :
    (id : ℕ) (ls : List StatementSource) → links_of id (order_links ls) ≡ links_of id ls
unfolding links_of order_links
links_of-order_links id [] = refl
links_of-order_links id (l ∷ ls) =
    ground (arith, links_of-insert_link id l (order_links ls), links_of-order_links id ls)

evidence_of-rows :
    (p : Parsers) (tenant id : ℕ) (sources : List Source) (ls : List StatementSource)
    → length (evidence_of id (evidence_rows p tenant sources ls)) ≤ links_of id ls
unfolding links_of evidence_of evidence_rows evidence_row
evidence_of-rows p tenant id sources [] = omega arith
evidence_of-rows p tenant id sources (l ∷ ls) =
    elim (Option-cases (source_by_id tenant l.source_id sources)) [
      | inl missing ↦ ground (arith, evidence_of-rows p tenant id sources ls)
      | inr (source, found) ↦ ground (arith, evidence_of-rows p tenant id sources ls)
    ]

evidence_of-take :
    (id n : ℕ) (evs : List SourceEvidence)
    → length (evidence_of id (take n evs)) ≤ length (evidence_of id evs)
unfolding evidence_of
evidence_of-take id zero evs = omega arith
evidence_of-take id (suc n) [] = omega arith
evidence_of-take id (suc n) (ev ∷ evs) = ground (arith, evidence_of-take id n evs)

reweigh-AtMostHalf :
    (p : Parsers) (tenant : ℕ) (s : Statement) (evs : List SourceEvidence)
    → length evs ≤ 1
    → (reweigh p tenant s evs ≡ s)
      ⊎ (((reweigh p tenant s evs).id ≡ s.id)
          × ((reweigh p tenant s evs).confidence ≤ one_source_ceiling))
reweigh-AtMostHalf p tenant s [] h = inl refl
reweigh-AtMostHalf p tenant s (ev ∷ evs) h = elim (Bool-cases (s.tenant_id == tenant)) [
  | inl its ↦ rw its (inr (refl, corroborated_single p.unicode p.hostname (ev ∷ evs) h))
  | inr other ↦ rw other (inl refl)
]

reweigh_all-AtMostHalf :
    (p : Parsers) (tenant : ℕ) (v : Vault) (ss : List Statement)
    → All (λ (s : Statement). links_of s.id v.statement_sources ≡ 1) ss
    → AtMostHalf ss (reweigh_all p tenant (select_evidence p tenant v) ss)
unfolding reweigh_all select_evidence
reweigh_all-AtMostHalf p tenant v [] h = tt
reweigh_all-AtMostHalf p tenant v (s ∷ ss) h =
    let ls = order_links v.statement_sources in
    let rows = evidence_rows p tenant v.sources ls in
    (
      reweigh-AtMostHalf p tenant s (evidence_of s.id (take 1000 rows)) (
          omega (
            arith,
            evidence_of-take s.id 1000 rows,
            evidence_of-rows p tenant s.id v.sources ls,
            links_of-order_links s.id v.statement_sources,
            h.0,
          )),
      reweigh_all-AtMostHalf p tenant v ss h.1,
    )

-- In a vault where every statement has exactly one link, as `ExtractOnce` leaves it, a run of
-- `CorroborateOnce` that returns without an error leaves each statement as it was, or gives it a
-- confidence of at most one half.
pub corroborate_once-AtMostHalf :
    (env : Env) (p : Parsers) (has_pool : Bool) (tenant_id : Text) (v w : Vault)
    → HasSingleLinks env v
    → corroborate_once p has_pool tenant_id v ≡ ok w
    → AtMostHalf v.statements w.statements
unfolding corroborate_once corroborate_tenant
corroborate_once-AtMostHalf env p has_pool tenant_id v w h e =
    elim (Option-cases (p.cast_uuid tenant_id)) [
      | inl invalid ↦ absurd (ground arith)
      | inr (tenant, valid) ↦
          (let made : Vault = record v {
            statements = reweigh_all p tenant (select_evidence p tenant v) v.statements;
          } in
            subst (λ (u : Vault). AtMostHalf v.statements u.statements) {x = made} {y = w}
              (ground arith) (reweigh_all-AtMostHalf p tenant v v.statements h.single))
    ]
