-- ===== src/Examples/Sources.antt =====
-- Corroboration at concrete evidence.
use factvault.Common.{◌≤◌, ◌≡◌, refl, inl, Option, none, [], ◌∷◌, arith, Text, lit, text_eq}
use factvault.Strings.{ascii}
use factvault.Confidence.{compute_confidence, one_source_ceiling}
use factvault.Confidence.Ceiling.{compute_confidence_single}
use factvault.Corroborate.{
  SourceEvidence, count_independent_sources, corroborated_confidence, cluster_domain,
}
use factvault.Corroborate
use factvault.Strings
use factvault.Utf8
use factvault.Corroborate.Counted.{count_repeated, count_different}

compute_confidence_single_example : compute_confidence 1 (900 ∷ []) ≤ one_source_ceiling
compute_confidence_single_example = compute_confidence_single 1 (900 ∷ []) (omega arith)

abbrev wire_copy : Text → SourceEvidence
wire_copy id = record {
  statement_id = 1;
  source_id = id;
  url = [];
  publisher = lit "Wire";
  raw_text = lit "Apple filed a form";
  confidence = 500;
}

abbrev other_paper : SourceEvidence
other_paper = record {
  statement_id = 1;
  source_id = lit "c";
  url = [];
  publisher = lit "Paper";
  raw_text = lit "Apple filed a form";
  confidence = 500;
}

abbrev hostname : Text → Option Text
hostname url = none

count_repeated_example :
    count_independent_sources ascii hostname (wire_copy (lit "a") ∷ wire_copy (lit "b") ∷ [])
    ≡ count_independent_sources ascii hostname (wire_copy (lit "a") ∷ [])
unfolding cluster_domain Corroborate.evidence_domain Strings.to_lower Utf8.runes Strings.trim_space
    Utf8.rune_width
count_repeated_example =
    count_repeated ascii hostname (wire_copy (lit "a") ∷ []) (wire_copy (lit "b"))
      (inl (refl, refl))

count_different_example :
    count_independent_sources ascii hostname (wire_copy (lit "a") ∷ other_paper ∷ []) ≡ 2
unfolding cluster_domain Corroborate.evidence_domain Strings.to_lower Utf8.runes Strings.trim_space
    Utf8.rune_width text_eq
count_different_example =
    count_different ascii hostname (wire_copy (lit "a") ∷ other_paper ∷ []) ((refl, tt), (tt, tt))
