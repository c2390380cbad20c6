-- ===== src/Extractors/Facts.antt =====
-- The facts that extractors cut out of a text, and the workers' excerpt check.
use factvault.Common.{ℕ, ◌≡◌, ◌⊎◌, true, List, [], ◌∷◌, Text, leb_ℤ, All}
use factvault.Excerpt.{verify_excerpt_offset, slice}
use factvault.Excerpt.CharOffset.{IsSpan, verify_excerpt-IsSpan}
use factvault.Extractors.{ExtractedFact, Match, fact_at, collect_identifier_facts, money_facts}

-- The workers' excerpt check accepts the fact.
abbrev pub IsVerified : Text → ExtractedFact → Type 0
IsVerified raw_text f =
    verify_excerpt_offset raw_text f.excerpt f.excerpt_offset_start f.excerpt_offset_end ≡ true

pub fact_at-IsVerified :
    (subject raw_text slug value value_type method : Text) (start end : ℕ)
    → IsSpan raw_text start end
    → IsVerified raw_text (fact_at subject raw_text slug value value_type method start end)
unfolding fact_at
fact_at-IsVerified subject raw_text slug value value_type method start end h =
    verify_excerpt-IsSpan raw_text start end h

-- Go's `regexp` reports matches that begin and end at runes; the patterns match no empty text.
abbrev pub AreSpans : Text → List (ℕ × ℕ) → Type 0
AreSpans raw_text = All (λ m. IsSpan raw_text m.0 m.1)

abbrev pub AreMatches : Text → List Match → Type 0
AreMatches raw_text = All (λ m. IsSpan raw_text m.start m.end)

-- Whatever the slug and the normaliser, the facts of an identifier pattern whose matches are spans
-- of the text pass the workers' excerpt check.
pub collect_identifier_facts-IsVerified :
    (subject raw_text slug value_type method : Text) (ms : List Match) (normalize : Text → Text)
    → AreMatches raw_text ms
    → All
        (IsVerified raw_text)
        (collect_identifier_facts subject raw_text slug value_type method ms normalize)
unfolding collect_identifier_facts
collect_identifier_facts-IsVerified subject raw_text slug value_type method [] normalize h = tt
collect_identifier_facts-IsVerified subject raw_text slug value_type method (m ∷ ms) normalize h = (
  fact_at-IsVerified subject raw_text slug (normalize (slice raw_text m.value_start m.value_end))
      value_type method m.start m.end h.0,
  collect_identifier_facts-IsVerified subject raw_text slug value_type method ms normalize h.1,
)

money_facts-IsVerified :
    (subject raw_text : Text) (normalize : Text → Text → Text) (ms : List Match)
    → AreMatches raw_text ms
    → All (IsVerified raw_text) (money_facts subject raw_text normalize ms)
unfolding money_facts
money_facts-IsVerified subject raw_text normalize [] h = tt
money_facts-IsVerified subject raw_text normalize (m ∷ ms) h = (
  fact_at-IsVerified subject raw_text _ _ _ _ m.start m.end h.0,
  money_facts-IsVerified subject raw_text normalize ms h.1,
)

-- Two facts claim disjoint ranges of runes.
abbrev pub Disjoint : ExtractedFact → ExtractedFact → Type 0
Disjoint f g =
    (leb_ℤ f.excerpt_offset_end g.excerpt_offset_start ≡ true)
    ⊎ (leb_ℤ g.excerpt_offset_end f.excerpt_offset_start ≡ true)

-- Each fact is disjoint from the ones after it.
abbrev pub AllDisjoint : List ExtractedFact → Type 0
AllDisjoint [] = Unit
AllDisjoint (f ∷ fs) = All (Disjoint f) fs × AllDisjoint fs
