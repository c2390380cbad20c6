-- ===== src/Corroborate/Counted.antt =====
-- How many independent sources the clusters count.
use factvault.Common.{
  suc, ◌+◌, ◌≤◌, ◌≡◌, ◌⊎◌, refl, sym, inl, inr, Bool, true, false, ◌||◌, Option, List, [], ◌∷◌,
  ◌++◌, arith, Text, All, text_eq, text_eq_refl, length, Bool-cases, if◌then◌else◌,
}
use factvault.Strings.{Unicode}
use factvault.Corroborate.{
  SourceEvidence, SourceCluster, is_similar, cluster_domain, canonical_text, any_similar, takes,
  place, cluster, count_independent_sources, corroborated_confidence,
}
use factvault.Corroborate.Similarity.{is_similar_refl}
use factvault.Confidence.{one_source_ceiling}
use factvault.Confidence.Ceiling.{compute_confidence_single}

module _ (u : Unicode) (hostname : Text → Option Text) where
  -- Some cluster takes the text.
  taken : Text → Text → List SourceCluster → Bool
  taken domain text_key [] = false
  taken domain text_key (c ∷ cs) = takes u hostname c domain text_key || taken domain text_key cs

  length-place :
      (domain text_key : Text) (cs : List SourceCluster)
      → length (place u hostname domain text_key cs)
        ≡ (if taken domain text_key cs then length cs else suc (length cs))
  unfolding place taken
  length-place domain text_key [] = refl
  length-place domain text_key (c ∷ cs) = ground (arith, length-place domain text_key cs)

  any_similar-append :
      (texts : List Text) (t text_key : Text)
      → any_similar u hostname (texts ++ t ∷ []) text_key
        ≡ (any_similar u hostname texts text_key || is_similar t text_key)
  unfolding any_similar
  any_similar-append [] t text_key = ground arith
  any_similar-append (x ∷ xs) t text_key = ground (arith, any_similar-append xs t text_key)

  -- Placing a text takes no cluster away from another text.
  taken-place_kept :
      (d k domain text_key : Text) (cs : List SourceCluster)
      → taken d k cs ≡ true
      → taken d k (place u hostname domain text_key cs) ≡ true
  unfolding place taken takes
  taken-place_kept d k domain text_key [] h = cc
  taken-place_kept d k domain text_key (c ∷ cs) h =
      ground (arith, any_similar-append c.texts text_key k, taken-place_kept d k domain text_key cs)

  -- What was placed is taken.
  taken-place_self :
      (domain text_key : Text) (cs : List SourceCluster)
      → taken domain text_key (place u hostname domain text_key cs) ≡ true
  unfolding place taken takes any_similar
  taken-place_self domain text_key [] =
      ground (arith, text_eq_refl domain, is_similar_refl text_key)
  taken-place_self domain text_key (c ∷ cs) = ground (
    arith,
    any_similar-append c.texts text_key text_key,
    is_similar_refl text_key,
    taken-place_self domain text_key cs,
  )

  cluster_bounds :
      (evs : List SourceEvidence) (cs : List SourceCluster)
      → (length cs ≤ length (cluster u hostname evs cs))
        × (length (cluster u hostname evs cs) ≤ length cs + length evs)
  unfolding cluster
  cluster_bounds [] cs = omega arith
  cluster_bounds (ev ∷ evs) cs =
      let d = cluster_domain u hostname ev in
      let k = canonical_text u hostname ev.raw_text in
      ground (arith, length-place d k cs, cluster_bounds evs (place u hostname d k cs))

  -- Of one or more sources at least one, and at most all, are independent.
  count_bounds :
      (ev : SourceEvidence) (evs : List SourceEvidence)
      → (1 ≤ count_independent_sources u hostname (ev ∷ evs))
        × (count_independent_sources u hostname (ev ∷ evs) ≤ length (ev ∷ evs))
  unfolding count_independent_sources cluster place
  count_bounds ev evs = omega (
    arith,
    cluster_bounds evs (
        record {
          domain = cluster_domain u hostname ev;
          texts = canonical_text u hostname ev.raw_text ∷ [];
        }
        ∷ []),
  )

  cluster-append :
      (xs ys : List SourceEvidence) (cs : List SourceCluster)
      → cluster u hostname (xs ++ ys) cs ≡ cluster u hostname ys (cluster u hostname xs cs)
  unfolding cluster
  cluster-append [] ys cs = refl
  cluster-append (x ∷ xs) ys cs =
      cluster-append xs ys
        (place u hostname (cluster_domain u hostname x) (canonical_text u hostname x.raw_text) cs)

  taken-cluster_kept :
      (d k : Text) (evs : List SourceEvidence) (cs : List SourceCluster)
      → taken d k cs ≡ true
      → taken d k (cluster u hostname evs cs) ≡ true
  unfolding cluster
  taken-cluster_kept d k [] cs h = h
  taken-cluster_kept d k (x ∷ xs) cs h =
      let d' = cluster_domain u hostname x in
      let k' = canonical_text u hostname x.raw_text in
      taken-cluster_kept d k xs (place u hostname d' k' cs) (taken-place_kept d k d' k' cs h)

  -- Some source of the list has the domain and the canonical text of `ev`.
  abbrev Repeats : SourceEvidence → List SourceEvidence → Type 0
  Repeats ev [] = ⊥
  Repeats ev (x ∷ xs) =
      ((cluster_domain u hostname x ≡ cluster_domain u hostname ev)
        × (canonical_text u hostname x.raw_text ≡ canonical_text u hostname ev.raw_text))
      ⊎ Repeats ev xs

  taken-cluster :
      (ev : SourceEvidence) (evs : List SourceEvidence) (cs : List SourceCluster)
      → Repeats ev evs
      → taken
          (cluster_domain u hostname ev)
          (canonical_text u hostname ev.raw_text)
          (cluster u hostname evs cs)
        ≡ true
  unfolding cluster
  taken-cluster ev [] cs h = absurd h
  taken-cluster ev (x ∷ xs) cs (inl (d, k)) =
      rw (sym d, sym k)
        (taken-cluster_kept (cluster_domain u hostname x) (canonical_text u hostname x.raw_text) xs
          _
          (taken-place_self (cluster_domain u hostname x) (canonical_text u hostname x.raw_text)
            cs))
  taken-cluster ev (x ∷ xs) cs (inr h) = taken-cluster ev xs _ h

  -- A source that has the domain and the canonical text of an earlier one adds nothing to the count.
  pub count_repeated :
      (evs : List SourceEvidence) (ev : SourceEvidence)
      → Repeats ev evs
      → count_independent_sources u hostname (evs ++ ev ∷ [])
        ≡ count_independent_sources u hostname evs
  unfolding count_independent_sources cluster
  count_repeated evs ev h =
      let d = cluster_domain u hostname ev in
      let k = canonical_text u hostname ev.raw_text in
      let cs = cluster u hostname evs [] in
      rw (cluster-append evs (ev ∷ []) [])
        (ground (arith, length-place d k cs, taken-cluster ev evs [] h))

  taken_none :
      (d k : Text) (cs : List SourceCluster)
      → All (λ (c : SourceCluster). text_eq c.domain d ≡ false) cs
      → taken d k cs ≡ false
  unfolding taken takes
  taken_none d k [] h = refl
  taken_none d k (c ∷ cs) h = ground (arith, taken_none d k cs h.1)

  place_none :
      (d e k : Text) (cs : List SourceCluster)
      → text_eq e d ≡ false
      → All (λ (c : SourceCluster). text_eq c.domain d ≡ false) cs
      → All (λ (c : SourceCluster). text_eq c.domain d ≡ false) (place u hostname e k cs)
  unfolding place
  place_none d e k [] h a = (h, tt)
  place_none d e k (c ∷ cs) h a = elim (Bool-cases (takes u hostname c e k)) [
    | inl t ↦ rw t (a.0, a.1)
    | inr f ↦ rw f (a.0, place_none d e k cs h a.1)
  ]

  -- The sources have domains that differ from one another.
  abbrev AllDifferent : List SourceEvidence → Type 0
  AllDifferent [] = Unit
  AllDifferent (ev ∷ evs) =
      All
        (λ (x : SourceEvidence).
          text_eq (cluster_domain u hostname ev) (cluster_domain u hostname x) ≡ false)
        evs
      × AllDifferent evs

  all_places :
      (e k : Text) (evs : List SourceEvidence) (cs : List SourceCluster)
      → All (λ (x : SourceEvidence). text_eq e (cluster_domain u hostname x) ≡ false) evs
      → All
          (λ (x : SourceEvidence).
            All (λ (c : SourceCluster). text_eq c.domain (cluster_domain u hostname x) ≡ false) cs)
          evs
      → All
          (λ (x : SourceEvidence).
            All
              (λ (c : SourceCluster). text_eq c.domain (cluster_domain u hostname x) ≡ false)
              (place u hostname e k cs))
          evs
  all_places e k [] cs h a = tt
  all_places e k (x ∷ xs) cs h a =
      (place_none (cluster_domain u hostname x) e k cs h.0 a.0, all_places e k xs cs h.1 a.1)

  cluster_different :
      (evs : List SourceEvidence) (cs : List SourceCluster)
      → AllDifferent evs
      → All
          (λ (x : SourceEvidence).
            All (λ (c : SourceCluster). text_eq c.domain (cluster_domain u hostname x) ≡ false) cs)
          evs
      → length (cluster u hostname evs cs) ≡ length cs + length evs
  unfolding cluster
  cluster_different [] cs d a = omega arith
  cluster_different (ev ∷ evs) cs d a =
      let e = cluster_domain u hostname ev in
      let k = canonical_text u hostname ev.raw_text in
      ground (
        arith,
        length-place e k cs,
        taken_none e k cs a.0,
        cluster_different evs (place u hostname e k cs) d.1 (all_places e k evs cs d.0 a.1),
      )

  -- Sources whose domains differ from one another are all counted.
  pub count_different :
      (evs : List SourceEvidence)
      → AllDifferent evs
      → count_independent_sources u hostname evs ≡ length evs
  unfolding count_independent_sources
  count_different evs d = omega (arith, cluster_different evs [] d (no_clusters evs))
    where
      no_clusters :
          (xs : List SourceEvidence)
          → All
              (λ (x : SourceEvidence).
                All
                  (λ (c : SourceCluster). text_eq c.domain (cluster_domain u hostname x) ≡ false)
                  [])
              xs
      no_clusters [] = tt
      no_clusters (x ∷ xs) = (tt, no_clusters xs)

  -- The confidence of a statement with at most one source is at most half.
  pub corroborated_single :
      (evs : List SourceEvidence)
      → length evs ≤ 1
      → corroborated_confidence u hostname evs ≤ one_source_ceiling
  unfolding corroborated_confidence count_independent_sources
  corroborated_single evs h =
      compute_confidence_single (length (cluster u hostname evs [])) _
        (omega (arith, cluster_bounds evs []))
