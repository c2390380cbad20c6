-- ===== src/Extractors.antt =====
-- internal/extractors/base.go and internal/extractors/deterministic/: the facts that the
-- deterministic extractors emit. A regular expression is the list of matches that Go's `regexp`
-- finds in the text (byte offsets of the whole match and of its groups).
pub mod Facts
pub mod Dates
pub mod Identifiers
pub mod Gazetteer
pub mod Runner
use factvault.Common.{
  ℕ, zero, suc, ◌+◌, ◌-◌, Bool, true, false, ◌&&◌, ◌||◌, Option, none, some, List, [], ◌∷◌, ◌++◌,
  Text, lit, ℤ, pos, ltb_ℤ, if◌then◌else◌,
}
use factvault.Db.{Source}
use factvault.Excerpt.{slice, byte_offset_to_char_offset}

pub record ExtractedFact : Type 0 where
  pub subject_text : Text
  pub property_slug : Text
  pub value : Text
  pub value_type : Text
  pub excerpt : Text
  pub excerpt_offset_start : ℤ
  pub excerpt_offset_end : ℤ
  pub extraction_method : Text
  pub source_confidence : Option ℕ

-- `TextValue` of a nullable column is the column itself.
pub source_label : Option Source → Text
source_label none = []
source_label (some source) = elim source.title [ some title ↦ title | none ↦ source.url ]

-- One match: the whole match, the first group, and the second group where it took part.
pub record Match : Type 0 where
  pub start : ℕ
  pub end : ℕ
  pub value_start : ℕ
  pub value_end : ℕ
  pub suffix : Option (ℕ × ℕ)

-- The fact for the bytes start..end of the text.
pub fact_at : Text → Text → Text → Text → Text → Text → ℕ → ℕ → ExtractedFact
fact_at subject raw_text property_slug value value_type method start end = record {
  subject_text = subject;
  property_slug = property_slug;
  value = value;
  value_type = value_type;
  excerpt = slice raw_text start end;
  excerpt_offset_start = pos (byte_offset_to_char_offset raw_text start);
  excerpt_offset_end = pos (byte_offset_to_char_offset raw_text end);
  extraction_method = method;
  source_confidence = none;
}

-- `collectIdentifierFacts`, over the matches of its pattern.
pub collect_identifier_facts :
    Text → Text → Text → Text → Text → List Match → (Text → Text) → List ExtractedFact
collect_identifier_facts subject raw_text property_slug value_type method [] normalize = []
collect_identifier_facts subject raw_text property_slug value_type method (m ∷ ms) normalize =
    fact_at subject raw_text property_slug (normalize (slice raw_text m.value_start m.value_end))
      value_type method m.start m.end
    ∷ collect_identifier_facts subject raw_text property_slug value_type method ms normalize

-- The loop of `MoneyExtractor.Extract`; the amount and its suffix go to `normalizeUSDAmount`.
pub money_facts : Text → Text → (Text → Text → Text) → List Match → List ExtractedFact
money_facts subject raw_text normalize [] = []
money_facts subject raw_text normalize (m ∷ ms) =
    fact_at subject raw_text (lit "usd_amount")
      (normalize (slice raw_text m.value_start m.value_end)
        (elim m.suffix [ none ↦ [] | some (lo, hi) ↦ slice raw_text lo hi ]))
      (lit "number") (lit "regex:money-v1") m.start m.end
    ∷ money_facts subject raw_text normalize ms

-- `overlapsExistingDateFact` and `gazetteerFactOverlaps`, which have the same body.
pub overlaps_existing_fact : Text → List ExtractedFact → ℕ → ℕ → Bool
overlaps_existing_fact raw_text [] start end = false
overlaps_existing_fact raw_text (fact ∷ facts) start end =
    (ltb_ℤ (pos (byte_offset_to_char_offset raw_text start)) fact.excerpt_offset_end
      && ltb_ℤ fact.excerpt_offset_start (pos (byte_offset_to_char_offset raw_text end)))
    || overlaps_existing_fact raw_text facts start end

-- One round of the loop of `appendDateFacts`: a match whose text is no date, or that overlaps an
-- earlier fact, is passed over.
pub append_date_fact :
    List ExtractedFact → Text → Text → Text → (Text → Option Text) → ℕ → ℕ → List ExtractedFact
append_date_fact facts subject raw_text method normalize start end =
    elim (normalize (slice raw_text start end)) [
      | none ↦ facts
      | some value ↦
          if overlaps_existing_fact raw_text facts start end
          then facts
          else facts
            ++ (fact_at subject raw_text (lit "date") value (lit "date") method start end ∷ [])
    ]

pub append_date_facts :
    List ExtractedFact
    → Text
    → Text
    → Text
    → (Text → Option Text)
    → List (ℕ × ℕ)
    → List ExtractedFact
append_date_facts facts subject raw_text method normalize [] = facts
append_date_facts facts subject raw_text method normalize ((start, end) ∷ matches) =
    append_date_facts (append_date_fact facts subject raw_text method normalize start end) subject
      raw_text method normalize matches

-- What `DateExtractor.Extract` takes from `regexp` and `time`: for each of its four patterns, the
-- matches and the normaliser, in the order of the code.
pub record DatePatterns : Type 0 where
  pub rfc3339 : Text → List (ℕ × ℕ)
  pub month_day_year : Text → List (ℕ × ℕ)
  pub day_month_year : Text → List (ℕ × ℕ)
  pub iso : Text → List (ℕ × ℕ)
  pub normalize_rfc3339 : Text → Option Text
  pub normalize_month_day_year : Text → Option Text
  pub normalize_day_month_year : Text → Option Text
  pub normalize_iso : Text → Option Text

pub date_extract : DatePatterns → Option Source → Text → List ExtractedFact
date_extract p source raw_text =
    let subject = source_label source in
    let method = lit "regex:dates-v1" in
    let f1 =
      append_date_facts [] subject raw_text method p.normalize_rfc3339 (p.rfc3339 raw_text) in
    let f2 =
      append_date_facts f1 subject raw_text method p.normalize_month_day_year
        (p.month_day_year raw_text) in
    let f3 =
      append_date_facts f2 subject raw_text method p.normalize_day_month_year
        (p.day_month_year raw_text) in
    append_date_facts f3 subject raw_text method p.normalize_iso (p.iso raw_text)
