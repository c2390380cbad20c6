-- ===== src/Briefs/Cited.antt =====
-- internal/briefs/briefs.go over internal/assembler/assembler.go: the sources that a brief cites.
use factvault.Common.{
  ℕ, List, [], ◌∷◌, Text, ◌≡◌, refl, subst, sym, inl, inr, arith, map, some, ok, ℤ, In, All,
  All_weaken, IsSort, In_perm, In-map, In-loop_iff, ◌==◌, ltb,
}
use mathlib.Core.List.Permᴰ
use factvault.Assembler.Graph.{UuidCast, has_id}
use factvault.Assembler.Tables.{Tables, Bundle, BundleSource}
use factvault.Assembler.Bundle.{assemble}
use factvault.Assembler.Bundle.Closed.{source_ids, assemble-IsClosed}
use factvault.Briefs.{Citation, BriefDoc, Generator, generate, extract_citations, citations_from}
use factvault.Briefs.Determined.{citation_of, citations_from-KeepsFirst}

-- The brief has a citation of the source.
abbrev pub IsCited : BriefDoc → ℕ → Type 0
IsCited d id = (c : Citation) × In c d.citations × (c.source_id ≡ id)

In_source_ids : (i : ℕ) (ss : List BundleSource) → In i (source_ids ss) → In i (map (λ s. s.id) ss)
unfolding source_ids
In_source_ids i [] m = m
In_source_ids i (s ∷ ss) (inl e) = inl e
In_source_ids i (s ∷ ss) (inr m) = inr (In_source_ids i ss m)

source-IsCited :
    (g : Generator) (b : Bundle) (d : BriefDoc) (i : ℕ)
    → IsSort g.sort
    → generate g (some b) ≡ ok d
    → In i (source_ids b.sources)
    → IsCited d i
unfolding generate extract_citations has_id
source-IsCited g b d i sort made m =
    let kept =
      (In-loop_iff ◌==◌ has_id (λ s. s.id) citation_of (λ c. c.source_id) citations_from
          citations_from-KeepsFirst [] b.sources i).1
        (In_source_ids i b.sources m, refl) in
    let (c, in_c, e) =
      In-map (λ (c : Citation). c.source_id) i (citations_from [] b.sources) kept in
    let less = λ (a b : Citation). ltb a.source_id b.source_id in
    let sections : d.citations ≡ extract_citations g.sort b.sources = ground arith in
    (
      c,
      subst (In c) (sym sections)
          (In_perm c _ _ (Permᴰ.symm (sort.permutes less (citations_from [] b.sources))) in_c),
      sym e,
    )

-- The brief of an assembled bundle cites every source that a statement of the bundle lists.
pub assemble-generate-IsCited :
    (c : UuidCast) (t : Tables) (ids : List Text) (depth : ℤ) (tenant : ℕ) (b : Bundle)
    (g : Generator) (d : BriefDoc)
    → IsSort g.sort
    → assemble c t ids depth tenant ≡ ok b
    → generate g (some b) ≡ ok d
    → All (λ s. All (IsCited d) s.source_ids) b.statements
assemble-generate-IsCited c t ids depth tenant b g d sort assembled made =
    All_weaken (λ s. All (λ id. In id (source_ids b.sources)) s.source_ids)
      (λ s. All (IsCited d) s.source_ids)
      (λ s h.
        All_weaken (λ id. In id (source_ids b.sources)) (IsCited d)
          (λ i m. source-IsCited g b d i sort made m) s.source_ids h)
      b.statements (assemble-IsClosed c t ids depth tenant b assembled).listed
