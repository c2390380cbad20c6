-- ===== src/Extractors/Gazetteer/Ends.antt =====
-- internal/extractors/deterministic/gazetteer.go: the loop over the matches of a phrase ends.
use factvault.Common.{
  ℕ, zero, suc, ◌+◌, ◌≤◌, ◌<◌, Option, List, [], ◌∷◌, Text, length, ◌≢◌, inl, inr, arith, ltb, err,
  Result-cases, Bool-cases, Option-cases, All, drop,
}
use factvault.Db.{Source}
use factvault.Strings.{Unicode, to_lower, index}
use factvault.Extractors.{ExtractedFact, source_label}
use factvault.Extractors.Gazetteer.{
  out_of_fuel, GazetteerEntry, default_gazetteer_entries, gazetteer_match, gazetteer_loop,
  gazetteer_phrases, append_gazetteer_facts, gazetteer_facts, gazetteer_extract,
}

module _ (u : Unicode) (subject raw_text : Text) where
  gazetteer_match_ends :
      (facts : List ExtractedFact) (entry : GazetteerEntry) (start end : ℕ)
      → gazetteer_match u subject raw_text facts entry start end ≢ err out_of_fuel
  unfolding gazetteer_match
  gazetteer_match_ends facts entry start end h = ground arith

  gazetteer_loop_ends :
      (entry : GazetteerEntry) (phrase : Text) (fuel : ℕ) (facts : List ExtractedFact)
      (search_from : ℕ)
      → 0 < length phrase
      → 0 < fuel
      → length raw_text + 2 ≤ fuel + search_from
      → gazetteer_loop u subject raw_text entry phrase fuel facts search_from ≢ err out_of_fuel
  unfolding gazetteer_loop
  gazetteer_loop_ends entry phrase zero facts search_from some_phrase some_fuel enough h =
      ground arith
  gazetteer_loop_ends entry phrase (suc fuel) facts search_from some_phrase some_fuel enough h =
      elim (Bool-cases (ltb (length raw_text) search_from)) [
        | inl beyond ↦ ground arith
        | inr within ↦
            elim (Option-cases
              (index (to_lower u (drop search_from raw_text)) (to_lower u phrase))) [
                | inl missing ↦ ground arith
                | inr (idx, found) ↦
                    (let start = search_from + idx in
                      let end = start + length phrase in
                      elim (Result-cases
                        (gazetteer_match u subject raw_text facts entry start end)) [
                          | inr (fault, bad) ↦
                              gazetteer_match_ends facts entry start end (ground arith)
                          | inl (more, good) ↦
                              gazetteer_loop_ends entry phrase fuel more end some_phrase
                                (ground arith) (ground arith) (ground arith)
                        ])
              ]
      ]

  gazetteer_phrases_end :
      (entry : GazetteerEntry) (phrases : List Text) (facts : List ExtractedFact)
      → All (λ p. 0 < length p) phrases
      → gazetteer_phrases u subject raw_text entry phrases facts ≢ err out_of_fuel
  unfolding gazetteer_phrases
  gazetteer_phrases_end entry [] facts some_phrases h = ground arith
  gazetteer_phrases_end entry (p ∷ ps) facts some_phrases h =
      elim (Result-cases
        (gazetteer_loop u subject raw_text entry p (length raw_text + 2) facts 0)) [
          | inr (fault, bad) ↦
              gazetteer_loop_ends entry p (length raw_text + 2) facts 0 some_phrases.0
                (ground arith) (ground arith) (ground arith)
          | inl (more, good) ↦ gazetteer_phrases_end entry ps more some_phrases.1 (ground arith)
        ]

  gazetteer_facts_end :
      (facts : List ExtractedFact) (entries : List GazetteerEntry)
      → All (λ e. All (λ p. 0 < length p) (e.canonical ∷ e.aliases)) entries
      → gazetteer_facts u subject raw_text facts entries ≢ err out_of_fuel
  unfolding gazetteer_facts append_gazetteer_facts
  gazetteer_facts_end facts [] some_entries h = ground arith
  gazetteer_facts_end facts (e ∷ es) some_entries h =
      elim (Result-cases (gazetteer_phrases u subject raw_text e (e.canonical ∷ e.aliases) facts)) [
        | inr (fault, bad) ↦
            gazetteer_phrases_end e (e.canonical ∷ e.aliases) facts some_entries.0 (ground arith)
        | inl (more, good) ↦ gazetteer_facts_end more es some_entries.1 (ground arith)
      ]

default_phrases :
    All (λ e. All (λ p. 0 < length p) (e.canonical ∷ e.aliases)) default_gazetteer_entries
default_phrases = omega arith

-- The gazetteer comes to an end on every text, valid or not: each match moves the search on, so the
-- loop over the matches of a phrase takes at most two rounds more than the text has bytes, be it
-- that it returns its facts or that it panics.
pub gazetteer_extract_ends :
    (u : Unicode) (source : Option Source) (raw_text : Text)
    → gazetteer_extract u source raw_text ≢ err out_of_fuel
unfolding gazetteer_extract
gazetteer_extract_ends u source raw_text h =
    gazetteer_facts_end u (source_label source) raw_text [] default_gazetteer_entries
      default_phrases h
