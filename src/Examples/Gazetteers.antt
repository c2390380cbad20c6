-- ===== src/Examples/Gazetteers.antt =====
-- The gazetteer on a text of ASCII, and on one that grows when it is lower-cased.
use factvault.Common.{
  ◌≡◌, ◌≢◌, ◌<◌, ◌+◌, ◌&&◌, false, ℕ, ltb, if◌then◌else◌, none, ◌∷◌, Text, lit, arith, ◌==◌, refl,
  err,
}
use factvault.Strings.{Unicode}
use factvault.Strings
use factvault.Utf8
use factvault.Extractors.Gazetteer.{Fault, panicked, out_of_fuel, gazetteer_extract}
use factvault.Extractors.Gazetteer
use factvault.Extractors.Gazetteer.Ends.{gazetteer_extract_ends}
use factvault.Extractors.Gazetteer.Ascii.{Finds, gazetteer_extract-Finds}

-- ASCII, and one letter whose lower case, U+2C65, has three bytes where U+023A has two.
abbrev pub letters : Unicode
letters = record {
  is_letter = λ r. ltb 0x40 r;
  is_digit = λ r. false;
  to_lower_rune =
      λ r. if ltb 0x40 r && ltb r 0x5B then r + 0x20 else if r == 0x23A then 0x2C65 else r;
  to_upper_rune = λ r. r;
}

letters_lower : (r : ℕ) → r < 0x80 → letters.to_lower_rune r < 0x80
letters_lower r h = ground arith

abbrev text : Text
text = lit "Apple"

gazetteer_extract_ends_example : gazetteer_extract letters none text ≢ err out_of_fuel
gazetteer_extract_ends_example = gazetteer_extract_ends letters none text

gazetteer_extract-Finds_example : Finds text (gazetteer_extract letters none text)
gazetteer_extract-Finds_example =
    gazetteer_extract-Finds letters none text letters_lower (omega arith)

-- The company is found where the lower-cased text has it, which lies beyond the end of the text.
abbrev grown : Text
grown = 0xC8 ∷ 0xBA ∷ 0xC8 ∷ 0xBA ∷ 0xC8 ∷ 0xBA ∷ lit " Apple"

grown_panics : gazetteer_extract letters none grown ≡ err panicked
unfolding gazetteer_extract Gazetteer.gazetteer_facts Gazetteer.append_gazetteer_facts
    Gazetteer.gazetteer_phrases Gazetteer.gazetteer_loop Gazetteer.gazetteer_match Strings.index
    Gazetteer.has_word_boundaries Gazetteer.is_word_rune Gazetteer.decode_last_rune
    Gazetteer.decode_first_rune Gazetteer.decode_whole Gazetteer.look_back Strings.to_lower
    Strings.decode Strings.encode Strings.decode_rune Strings.encode_rune Strings.trim_prefix?
    Utf8.runes Utf8.split Utf8.rune_width
grown_panics = refl
