-- ===== src/Corroborate.antt =====
-- internal/workers/corroborate.go: the independent sources of a statement. `url.Parse` gives the
-- host of a URL, if it parses, and is a parameter; similarities are compared as fractions.
pub mod Counted
pub mod Similarity
pub mod Worker
use factvault.Common.{
  ℕ, zero, suc, ◌+◌, ◌*◌, ◌≤◌, Bool, true, false, ◌&&◌, ◌||◌, not, Option, none, some, List, [],
  ◌∷◌, ◌++◌, Text, lit, text_eq, take, length, map, leb, ◌==◌, if◌then◌else◌,
}
use factvault.Strings.{Unicode, trim_space, to_lower, fields, join, trim_prefix?, decode}
use factvault.Confidence.{compute_confidence}

pub record SourceEvidence : Type 0 where
  pub statement_id : ℕ
  pub source_id : Text
  pub url : Text
  pub publisher : Text
  pub raw_text : Text
  pub confidence : ℕ

pub record SourceCluster : Type 0 where
  pub domain : Text
  pub texts : List Text

-- A trigram of runes.
abbrev pub Trigram : Type 0
Trigram = ℕ × ℕ × ℕ

pub trigram_eq : Trigram → Trigram → Bool
trigram_eq (a, b, c) (x, y, z) = a == x && (b == y && c == z)

pub has_trigram : Trigram → List Trigram → Bool
has_trigram t [] = false
has_trigram t (x ∷ xs) = trigram_eq x t || has_trigram t xs

-- A Go map used as a set: each trigram once.
add_trigram : Trigram → List Trigram → List Trigram
add_trigram t set = if has_trigram t set then set else t ∷ set

windows : List ℕ → List Trigram
windows [] = []
windows (a ∷ []) = []
windows (a ∷ b ∷ []) = []
windows (a ∷ b ∷ c ∷ cs) = add_trigram (a, b, c) (windows (b ∷ c ∷ cs))

abbrev padding : Text
padding = lit "  "

-- The trigrams of a text between two spaces on each side.
pub trigrams : Text → List Trigram
unfolding windows
trigrams s = windows (decode (padding ++ (s ++ padding)))

pub intersection : List Trigram → List Trigram → ℕ
intersection [] set = 0
intersection (t ∷ ts) set =
    let rest = intersection ts set in if has_trigram t set then suc rest else rest

-- `trigramSimilarity(a, b) >= 0.85`, that is 2 * |A ∩ B| / (|A| + |B|) ≥ 17 / 20.
pub is_similar : Text → Text → Bool
is_similar a b =
    let x = trigrams a in
    let y = trigrams b in
    if length x == 0 && length y == 0
    then true
    else leb (17 * (length x + length y)) (20 * (2 * intersection x y))

module _ (u : Unicode) (hostname : Text → Option Text) where
  unfoldable pub evidence_domain : SourceEvidence → Text
  evidence_domain ev = elim ev.publisher [
    | b ∷ s ↦ to_lower u (trim_space (b ∷ s))
    | [] ↦ elim (hostname ev.url) [
      | none ↦ []
      | some host ↦
          to_lower u (elim (trim_prefix? host (lit "www.")) [ some rest ↦ rest | none ↦ host ])
    ]
  ]

  -- `domain == ""` falls back to the source's id.
  unfoldable pub cluster_domain : SourceEvidence → Text
  cluster_domain ev = elim (evidence_domain ev) [ [] ↦ ev.source_id | b ∷ s ↦ b ∷ s ]

  pub canonical_text : Text → Text
  canonical_text text = join (take 200 (fields (to_lower u text))) (lit " ")

  pub any_similar : List Text → Text → Bool
  any_similar [] text_key = false
  any_similar (existing ∷ rest) text_key = is_similar existing text_key || any_similar rest text_key

  -- Whether a cluster takes the text.
  pub takes : SourceCluster → Text → Text → Bool
  takes c domain text_key = text_eq c.domain domain && any_similar c.texts text_key

  -- The text goes to the first cluster that takes it, else to a new one at the end.
  pub place : Text → Text → List SourceCluster → List SourceCluster
  place domain text_key [] = record { domain = domain; texts = text_key ∷ [] } ∷ []
  place domain text_key (c ∷ cs) =
      let rest = place domain text_key cs in
      if takes c domain text_key
      then record c { texts = c.texts ++ text_key ∷ [] } ∷ cs
      else c ∷ rest

  pub cluster : List SourceEvidence → List SourceCluster → List SourceCluster
  cluster [] clusters = clusters
  cluster (ev ∷ evidence) clusters =
      cluster evidence (place (cluster_domain ev) (canonical_text ev.raw_text) clusters)

  pub count_independent_sources : List SourceEvidence → ℕ
  count_independent_sources evidence = length (cluster evidence [])

  -- The new confidence of one statement, as the loop of `CorroborateOnce` computes it.
  pub corroborated_confidence : List SourceEvidence → ℕ
  corroborated_confidence evidence =
      compute_confidence (count_independent_sources evidence)
        (map (λ (ev : SourceEvidence). ev.confidence) evidence)
