-- ===== src/Examples/Excerpts.antt =====
-- Excerpts of a text with a two-byte rune.
use factvault.Common.{
  ◌≡◌, ◌↔◌, refl, true, false, none, some, [], ◌∷◌, arith, Text, lit, pos, ltb_ℤ, length, All,
  text_eq,
}
use factvault.Utf8.{rune_width, runes, range_from}
use factvault.Excerpt.{
  slice, seek, rune_offset_to_byte_offset, excerpt_matches, verify_excerpt_offset,
  verify_proposal_offset, byte_offset_to_char_offset,
}
use factvault.Excerpt.Verified.{IsExcerpt, verify_excerpt_offset_iff}
use factvault.Excerpt.CharOffset.{IsSpan, verify_excerpt-IsSpan}
use factvault.Extractors.{Match, DatePatterns, date_extract}
use factvault.Extractors.Facts.{IsVerified}
use factvault.Strings.{ascii}
use factvault.Extractors.Identifiers.{
  IdentifierPatterns, identifier_extract, identifier_extract-IsVerified,
}
use factvault.Extractors.Dates.{AreDateFacts, date_extract-AreDateFacts}

-- "é CIK 0000320193": the first rune has two bytes.
abbrev sample : Text
sample = 0xC3 ∷ 0xA9 ∷ lit " CIK 0000320193"

accepts : verify_excerpt_offset sample (lit "CIK") (pos 2) (pos 5) ≡ true
unfolding verify_excerpt_offset rune_offset_to_byte_offset excerpt_matches seek range_from
    rune_width text_eq
accepts = refl

rejects_shifted : verify_excerpt_offset sample (lit "CIK") (pos 3) (pos 6) ≡ false
unfolding verify_excerpt_offset rune_offset_to_byte_offset excerpt_matches seek range_from
    rune_width text_eq
rejects_shifted = refl

-- The two checks part at an empty excerpt.
empty_excerpt :
    (verify_proposal_offset sample [] (pos 3) (pos 3) ≡ true)
    × (verify_excerpt_offset sample [] (pos 3) (pos 3) ≡ false)
unfolding verify_proposal_offset verify_excerpt_offset rune_offset_to_byte_offset excerpt_matches
    seek range_from rune_width text_eq
empty_excerpt = (refl, refl)

verify_excerpt_offset_iff_example :
    (verify_excerpt_offset sample (lit "CIK") (pos 2) (pos 5) ≡ true)
    ↔ (IsExcerpt sample (lit "CIK") (pos 2) (pos 5) × (ltb_ℤ (pos 2) (pos 5) ≡ true))
verify_excerpt_offset_iff_example = verify_excerpt_offset_iff sample (lit "CIK") (pos 2) (pos 5)

rune_count : length (runes sample) ≡ 16
unfolding runes rune_width
rune_count = refl

identifier-IsSpan : IsSpan sample 3 17
identifier-IsSpan = record {
  first = 2;
  last = 16;
  ordered = omega arith;
  within = omega (arith, rune_count);
  starts = unfold runes rune_width in refl;
  ends = unfold runes rune_width in refl;
}

verify_excerpt-IsSpan_example :
    verify_excerpt_offset sample
      (slice sample 3 17)
      (pos (byte_offset_to_char_offset sample 3))
      (pos (byte_offset_to_char_offset sample 17))
    ≡ true
verify_excerpt-IsSpan_example = verify_excerpt-IsSpan sample 3 17 identifier-IsSpan

abbrev cik_match : Match
cik_match = record { start = 3; end = 17; value_start = 7; value_end = 17; suffix = none }

-- Two patterns that report overlapping matches: the second one's fact is dropped.
abbrev patterns : DatePatterns
patterns = record {
  rfc3339 = λ t. (3, 17) ∷ [];
  month_day_year = λ t. [];
  day_month_year = λ t. [];
  iso = λ t. (3, 17) ∷ [];
  normalize_rfc3339 = λ t. some t;
  normalize_month_day_year = λ t. none;
  normalize_day_month_year = λ t. none;
  normalize_iso = λ t. some t;
}

date_extract-AreDateFacts_example : AreDateFacts sample (date_extract patterns none sample)
date_extract-AreDateFacts_example =
    date_extract-AreDateFacts patterns none sample (identifier-IsSpan, tt) tt tt
      (identifier-IsSpan, tt)

abbrev identifier_patterns : IdentifierPatterns
identifier_patterns = record {
  cik = λ t. cik_match ∷ [];
  cusip = λ t. [];
  isin = λ t. [];
  doi = λ t. [];
  nct = λ t. [];
  isbn13 = λ t. [];
}

identifier_extract-IsVerified_example :
    All (IsVerified sample) (identifier_extract ascii identifier_patterns none sample)
identifier_extract-IsVerified_example =
    identifier_extract-IsVerified ascii identifier_patterns none sample (record {
      cik = (identifier-IsSpan, tt);
      cusip = tt;
      isin = tt;
      doi = tt;
      nct = tt;
      isbn13 = tt;
    })
