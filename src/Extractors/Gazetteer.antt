-- ===== src/Extractors/Gazetteer.antt =====
-- internal/extractors/deterministic/gazetteer.go: the facts about the entities of a fixed list. A
-- slice out of range is the fault `panicked`; the loop over the matches of a phrase runs on fuel.
pub mod Ends
pub mod Ascii
use factvault.Common.{
  ℕ, zero, suc, ◌+◌, ◌-◌, Bool, true, false, not, ◌&&◌, ◌||◌, Option, none, some, List, [], ◌∷◌,
  ◌++◌, Text, lit, length, take, drop, ltb, ◌==◌, min, if◌then◌else◌, Result, ok, err, ◌>>=◌,
}
use factvault.Db.{Source}
use factvault.Utf8.{between, runes, rune_width}
use factvault.Strings.{Unicode, index, to_lower, trim_prefix?, decode_rune}
use factvault.Extractors.{ExtractedFact, source_label, fact_at, overlaps_existing_fact}

pub data Fault : Type 0 where
  panicked out_of_fuel : Fault

pub record GazetteerEntry : Type 0 where
  pub canonical : Text
  pub aliases : List Text
  pub property_slug : Text
  pub value_type : Text

abbrev pub default_gazetteer_entries : List GazetteerEntry
default_gazetteer_entries =
    record {
      canonical = lit "Apple Inc.";
      aliases = lit "Apple" ∷ [];
      property_slug = lit "org_name";
      value_type = lit "string";
    }
    ∷ record {
      canonical = lit "Microsoft Corporation";
      aliases = lit "Microsoft" ∷ lit "MSFT" ∷ [];
      property_slug = lit "org_name";
      value_type = lit "string";
    }
    ∷ record {
      canonical = lit "Kamala Harris";
      aliases = lit "Sen. Harris" ∷ lit "Vice President Harris" ∷ [];
      property_slug = lit "person_name";
      value_type = lit "string";
    }
    ∷ record {
      canonical = lit "Joe Biden";
      aliases = lit "President Biden" ∷ lit "Biden" ∷ [];
      property_slug = lit "person_name";
      value_type = lit "string";
    }
    ∷ []

-- `utf8.DecodeLastRuneInString`: how many bytes at the end it decodes, the last being no ASCII.
unfoldable pub look_back : ℕ → ℕ → Text → ℕ
look_back zero k s = min k (length s)
look_back (suc rounds) k s =
    let rest = look_back rounds (suc k) s in
    if ltb (length s) k then length s else elim (drop (length s - k) s) [
      | [] ↦ rest
      | b ∷ bs ↦ if between 0x80 0xBF b then rest else k
    ]

unfoldable pub decode_whole : Text → ℕ
decode_whole [] = 0xFFFD
decode_whole (b ∷ bs) = if rune_width b bs == length (b ∷ bs) then decode_rune (b ∷ bs) else 0xFFFD

unfoldable pub decode_last_rune : Text → ℕ
decode_last_rune s = elim (drop (length s - 1) s) [
  | [] ↦ 0xFFFD
  | b ∷ bs ↦ if ltb b 0x80 then b else decode_whole (drop (length s - look_back 3 2 s) s)
]

-- `utf8.DecodeRuneInString`.
unfoldable pub decode_first_rune : Text → ℕ
decode_first_rune s = elim (runes s) [ [] ↦ 0xFFFD | c ∷ cs ↦ decode_rune c ]

unfoldable pub is_word_rune : Unicode → ℕ → Bool
is_word_rune u r = u.is_letter r || u.is_digit r

unfoldable pub has_word_boundaries : Unicode → Text → ℕ → ℕ → Bool
has_word_boundaries u raw_text start end =
    if ltb 0 start && is_word_rune u (decode_last_rune (take start raw_text))
    then false
    else not (ltb end (length raw_text) && is_word_rune u (decode_first_rune (drop end raw_text)))

module _ (u : Unicode) (subject raw_text : Text) where
  -- What the loop does with one match.
  unfoldable pub gazetteer_match :
      List ExtractedFact → GazetteerEntry → ℕ → ℕ → Result Fault (List ExtractedFact)
  gazetteer_match facts entry start end =
      if ltb (length raw_text) start
      then err panicked
      else if has_word_boundaries u raw_text start end
          && not (overlaps_existing_fact raw_text facts start end)
      then if ltb (length raw_text) end
        then err panicked
        else ok (
            facts
            ++ (fact_at subject raw_text entry.property_slug entry.canonical entry.value_type
                  (lit "gazetteer:v1") start end
                ∷ []))
      else ok facts

  unfoldable pub gazetteer_loop :
      GazetteerEntry → Text → ℕ → List ExtractedFact → ℕ → Result Fault (List ExtractedFact)
  gazetteer_loop entry phrase zero facts search_from = err out_of_fuel
  gazetteer_loop entry phrase (suc fuel) facts search_from =
      if ltb (length raw_text) search_from
      then err panicked
      else elim (index (to_lower u (drop search_from raw_text)) (to_lower u phrase)) [
        | none ↦ ok facts
        | some idx ↦
            gazetteer_match facts entry (search_from + idx) (search_from + idx + length phrase)
            >>= λ found. gazetteer_loop entry phrase fuel found (search_from + idx + length phrase)
      ]

  -- The loop over the phrases of an entry; the fuel of the search is two more than the text has bytes.
  unfoldable pub gazetteer_phrases :
      GazetteerEntry → List Text → List ExtractedFact → Result Fault (List ExtractedFact)
  gazetteer_phrases entry [] facts = ok facts
  gazetteer_phrases entry (phrase ∷ phrases) facts =
      gazetteer_loop entry phrase (length raw_text + 2) facts 0 >>= λ found.
      gazetteer_phrases entry phrases found

  unfoldable pub append_gazetteer_facts :
      List ExtractedFact → GazetteerEntry → Result Fault (List ExtractedFact)
  append_gazetteer_facts facts entry =
      gazetteer_phrases entry (entry.canonical ∷ entry.aliases) facts

  unfoldable pub gazetteer_facts :
      List ExtractedFact → List GazetteerEntry → Result Fault (List ExtractedFact)
  gazetteer_facts facts [] = ok facts
  gazetteer_facts facts (entry ∷ entries) =
      append_gazetteer_facts facts entry >>= λ found. gazetteer_facts found entries

-- `GazetteerExtractor.Extract`.
unfoldable pub gazetteer_extract :
    Unicode → Option Source → Text → Result Fault (List ExtractedFact)
gazetteer_extract u source raw_text =
    gazetteer_facts u (source_label source) raw_text [] default_gazetteer_entries
