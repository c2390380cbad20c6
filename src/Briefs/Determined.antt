-- ===== src/Briefs/Determined.antt =====
-- internal/briefs/briefs.go: which statements and sources the sections of a brief come from, and
-- that their order is fixed.
use factvault.Common.{
  ℕ, Bool, List, [], text_lt_asym, text_lt_incomparable, ltb, leb, ◌==◌, length, ◌≡◌, refl, sym, ap,
  ◌∙◌, arith, Identified, some, ok, SortPackage, IsSort, IsWeakOrder, IsFiltered, In-filtered_iff,
  sort_slice_unique, KeepsFirst, loop-Identified, ==_iff,
}
use factvault.Assembler.Graph.{has_id}
use factvault.Assembler.Tables.{Bundle, BundleStatement, BundleSource}
use factvault.Briefs.{
  Citation, SourceEntry, EvidenceGap, key_claims, claim_less, claim_of, extract_key_claims,
  citations_from, extract_citations, health_from, build_source_health, gaps_of, find_evidence_gaps,
  BriefDoc, Generator, generate,
}

claim_less-IsWeakOrder : IsWeakOrder claim_less
unfolding claim_less
claim_less-IsWeakOrder = record {
  asymmetric = λ x y h. ground (arith, text_lt_asym x.property_slug y.property_slug);
  incomparable = λ x y z h k.
      ground (arith, text_lt_incomparable x.property_slug y.property_slug z.property_slug);
}

key_claims-IsFiltered : IsFiltered (λ s. leb 700 s.confidence) claim_of key_claims
unfolding key_claims
key_claims-IsFiltered = record { on_nil = refl; on_cons = λ s ss. refl }

gap_of : BundleStatement → EvidenceGap
gap_of s = record { statement_id = s.id; property_slug = s.property_slug }

gaps_of-IsFiltered : IsFiltered (λ s. length s.source_ids == 0) gap_of gaps_of
unfolding gaps_of gap_of
gaps_of-IsFiltered = record { on_nil = refl; on_cons = λ s ss. refl }

id_order : {A : Type 0} (id : A → ℕ) → IsWeakOrder (λ (a b : A). ltb (id a) (id b))
id_order id = record {
  asymmetric = λ x y h. ground arith;
  incomparable = λ x y z h k. ground arith;
}

-- A sort by an id that names the elements gives the same list whichever sort does it.
by_id_unique :
    {A : Type 0} (p q : SortPackage) (id : A → ℕ) (xs : List A)
    → IsSort p
    → IsSort q
    → Identified id xs
    → p.sort_slice (λ (a b : A). ltb (id a) (id b)) xs
      ≡ q.sort_slice (λ (a b : A). ltb (id a) (id b)) xs
by_id_unique p q id xs hp hq named =
    sort_slice_unique p q (λ (a b : _). ltb (id a) (id b)) xs hp hq (id_order id)
      (λ x y m n h k. named x y m n (ground arith))

pub citation_of : BundleSource → Citation
citation_of s = record {
  source_id = s.id;
  url = s.url;
  verification_status = s.verification_status;
}

pub citations_from-KeepsFirst :
    KeepsFirst ◌==◌ has_id (λ s. s.id) citation_of (λ c. c.source_id) citations_from
unfolding citations_from citation_of has_id
citations_from-KeepsFirst = record {
  decides = λ j k. ==_iff j k;
  on_seen = λ k j seen. refl;
  on_nil = λ seen. refl;
  on_cons = λ seen s ss. ground arith;
  keyed = λ s. refl;
}

entry_of : BundleSource → SourceEntry
entry_of s = record { source_id = s.id; status = s.verification_status }

health_from-KeepsFirst : KeepsFirst ◌==◌ has_id (λ s. s.id) entry_of (λ c. c.source_id) health_from
unfolding health_from entry_of has_id
health_from-KeepsFirst = record {
  decides = λ j k. ==_iff j k;
  on_seen = λ k j seen. refl;
  on_nil = λ seen. refl;
  on_cons = λ seen s ss. ground arith;
  keyed = λ s. refl;
}

-- A loop that keeps the id of the elements keeps that one id stands for one result.
filtered-Identified :
    {A B : Type 0} (keep : A → Bool) (f : A → B) (loop : List A → List B) (id : A → ℕ) (key : B → ℕ)
    → IsFiltered keep f loop
    → ((x : A) → key (f x) ≡ id x)
    → (xs : List A) → Identified id xs
    → Identified key (loop xs)
filtered-Identified keep f loop id key h keyed xs named y z m n e =
    let (a, in_a, _, made_a) = (In-filtered_iff keep f y loop h xs).0 m in
    let (b, in_b, _, made_b) = (In-filtered_iff keep f z loop h xs).0 n in
    let same = named a b in_a in_b (sym (ap key made_a ∙ keyed a) ∙ e ∙ ap key made_b ∙ keyed b) in
    made_a ∙ ap f same ∙ sym made_b

module _ (p q : SortPackage) where
  extract_key_claims_unique :
      (ss : List BundleStatement)
      → IsSort p
      → IsSort q
      → Identified (λ s. s.id) ss
      → extract_key_claims p ss ≡ extract_key_claims q ss
  unfolding extract_key_claims claim_less
  extract_key_claims_unique ss hp hq named =
      sort_slice_unique p q claim_less (key_claims ss) hp hq claim_less-IsWeakOrder (λ x y m n h k.
        filtered-Identified (λ s. leb 700 s.confidence) claim_of key_claims (λ s. s.id)
          (λ c. c.statement_id) key_claims-IsFiltered (λ s. refl) ss named x y m n (ground arith))

  find_evidence_gaps_unique :
      (ss : List BundleStatement)
      → IsSort p
      → IsSort q
      → Identified (λ s. s.id) ss
      → find_evidence_gaps p ss ≡ find_evidence_gaps q ss
  unfolding find_evidence_gaps gap_of
  find_evidence_gaps_unique ss hp hq named =
      by_id_unique p q (λ (g : EvidenceGap). g.statement_id) (gaps_of ss) hp hq
        (filtered-Identified (λ s. length s.source_ids == 0) gap_of gaps_of (λ s. s.id)
          (λ c. c.statement_id) gaps_of-IsFiltered (λ s. refl) ss named)

  extract_citations_unique :
      (ss : List BundleSource)
      → IsSort p
      → IsSort q
      → extract_citations p ss ≡ extract_citations q ss
  unfolding extract_citations
  extract_citations_unique ss hp hq =
      by_id_unique p q (λ (c : Citation). c.source_id) (citations_from [] ss) hp hq
        (loop-Identified ◌==◌ has_id (λ s. s.id) citation_of (λ c. c.source_id) citations_from
          citations_from-KeepsFirst [] ss)

  build_source_health_unique :
      (ss : List BundleSource)
      → IsSort p
      → IsSort q
      → build_source_health p ss ≡ build_source_health q ss
  unfolding build_source_health
  build_source_health_unique ss hp hq =
      by_id_unique p q (λ (c : SourceEntry). c.source_id) (health_from [] ss) hp hq
        (loop-Identified ◌==◌ has_id (λ s. s.id) entry_of (λ c. c.source_id) health_from
          health_from-KeepsFirst [] ss)

-- The order of the claims, sources, and gaps of a brief is determined: where no two statements of
-- the bundle have one id, two generators whose sorts are sorts give the same key claims,
-- citations, source health and evidence gaps.
pub generate-determined :
    (g h : Generator) (b : Bundle) (d e : BriefDoc)
    → IsSort g.sort
    → IsSort h.sort
    → Identified (λ s. s.id) b.statements
    → generate g (some b) ≡ ok d
    → generate h (some b) ≡ ok e
    → (d.key_claims ≡ e.key_claims)
      × (d.citations ≡ e.citations)
      × (d.source_health ≡ e.source_health)
      × (d.evidence_gaps ≡ e.evidence_gaps)
unfolding generate
generate-determined g h b d e sg sh named made made' =
    let claims = extract_key_claims_unique g.sort h.sort b.statements sg sh named in
    let citations = extract_citations_unique g.sort h.sort b.sources sg sh in
    let health = build_source_health_unique g.sort h.sort b.sources sg sh in
    let gaps = find_evidence_gaps_unique g.sort h.sort b.statements sg sh named in ground arith
