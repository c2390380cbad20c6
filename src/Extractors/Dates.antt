-- ===== src/Extractors/Dates.antt =====
-- The date facts of a text: internal/extractors/deterministic/dates.go.
use factvault.Common.{
  ℕ, ◌≡◌, inl, inr, false, Option, none, some, List, [], ◌∷◌, ◌++◌, arith, Text, lit, All,
  All-append, Bool-cases, if◌then◌else◌,
}
use factvault.Db.{Source}
use factvault.Excerpt.{slice}
use factvault.Excerpt.CharOffset.{IsSpan}
use factvault.Extractors.{
  ExtractedFact, fact_at, overlaps_existing_fact, append_date_fact, append_date_facts, DatePatterns,
  date_extract,
}
use factvault.Extractors.Facts.{IsVerified, fact_at-IsVerified, AreSpans, Disjoint, AllDisjoint}

pub no_overlap-Disjoint :
    (raw_text subject slug value value_type method : Text) (facts : List ExtractedFact)
    (start end : ℕ)
    → overlaps_existing_fact raw_text facts start end ≡ false
    → All (λ f. Disjoint f (fact_at subject raw_text slug value value_type method start end)) facts
unfolding overlaps_existing_fact fact_at
no_overlap-Disjoint raw_text subject slug value value_type method [] start end h = tt
no_overlap-Disjoint raw_text subject slug value value_type method (f ∷ facts) start end h = (
  ground arith,
  no_overlap-Disjoint raw_text subject slug value value_type method facts start end (ground arith),
)

pub AllDisjoint-snoc :
    (fs : List ExtractedFact) (g : ExtractedFact)
    → AllDisjoint fs
    → All (λ f. Disjoint f g) fs
    → AllDisjoint (fs ++ g ∷ [])
AllDisjoint-snoc [] g d h = (tt, tt)
AllDisjoint-snoc (f ∷ fs) g d h =
    (All-append (Disjoint f) fs (g ∷ []) d.0 (h.0, tt), AllDisjoint-snoc fs g d.1 h.1)

-- What holds of the facts that the date extractor has collected.
pub record AreDateFacts (raw_text : Text) (facts : List ExtractedFact) : Type 0 where
  pub verified : All (IsVerified raw_text) facts
  disjoint : AllDisjoint facts

append_date_fact-AreDateFacts :
    (facts : List ExtractedFact) (subject raw_text method : Text) (normalize : Text → Option Text)
    (start end : ℕ)
    → IsSpan raw_text start end
    → AreDateFacts raw_text facts
    → AreDateFacts raw_text (append_date_fact facts subject raw_text method normalize start end)
unfolding append_date_fact
append_date_fact-AreDateFacts facts subject raw_text method normalize start end s h =
    go (normalize (slice raw_text start end))
  where
    go :
        (o : Option Text)
        → AreDateFacts raw_text (elim o [
          | none ↦ facts
          | some value ↦
              if overlaps_existing_fact raw_text facts start end
              then facts
              else facts
                ++ (fact_at subject raw_text (lit "date") value (lit "date") method start end ∷ [])
        ])
    go none = h
    go (some value) = elim (Bool-cases (overlaps_existing_fact raw_text facts start end)) [
      | inl over ↦ rw over h
      | inr free ↦ rw free (record {
        verified = All-append (IsVerified raw_text) facts _ h.verified (
          fact_at-IsVerified subject raw_text (lit "date") value (lit "date") method start end s,
          tt,
        );
        disjoint = AllDisjoint-snoc facts _ h.disjoint (
            no_overlap-Disjoint raw_text subject (lit "date") value (lit "date") method facts start
              end free);
      })
    ]

append_date_facts-AreDateFacts :
    (facts : List ExtractedFact) (subject raw_text method : Text) (normalize : Text → Option Text)
    (matches : List (ℕ × ℕ))
    → AreSpans raw_text matches
    → AreDateFacts raw_text facts
    → AreDateFacts raw_text (append_date_facts facts subject raw_text method normalize matches)
unfolding append_date_facts
append_date_facts-AreDateFacts facts subject raw_text method normalize [] s h = h
append_date_facts-AreDateFacts facts subject raw_text method normalize ((start, end) ∷ ms) s h =
    append_date_facts-AreDateFacts
      (append_date_fact facts subject raw_text method normalize start end) subject raw_text method
      normalize ms s.1
      (append_date_fact-AreDateFacts facts subject raw_text method normalize start end s.0 h)

-- Where the four patterns report spans of the text, whatever the normalisers are, every date fact
-- passes the excerpt check, and no two date facts overlap.
pub date_extract-AreDateFacts :
    (p : DatePatterns) (source : Option Source) (raw_text : Text)
    → AreSpans raw_text (p.rfc3339 raw_text)
    → AreSpans raw_text (p.month_day_year raw_text)
    → AreSpans raw_text (p.day_month_year raw_text)
    → AreSpans raw_text (p.iso raw_text)
    → AreDateFacts raw_text (date_extract p source raw_text)
unfolding date_extract
date_extract-AreDateFacts p source raw_text s1 s2 s3 s4 =
    append_date_facts-AreDateFacts _ _ _ _ _ _ s4 (
      append_date_facts-AreDateFacts _ _ _ _ _ _ s3 (
        append_date_facts-AreDateFacts _ _ _ _ _ _ s2 (
          append_date_facts-AreDateFacts [] _ _ _ _ _ s1
            (record { verified = tt; disjoint = tt }))))
