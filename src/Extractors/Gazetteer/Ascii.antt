-- ===== src/Extractors/Gazetteer/Ascii.antt =====
-- internal/extractors/deterministic/gazetteer.go: on a text of ASCII, offsets in the lower-cased
-- text are offsets in the text.
use factvault.Common.{
  ℕ, zero, suc, ◌+◌, ◌≤◌, ◌<◌, not, ◌&&◌, Option, List, [], ◌∷◌, ◌++◌, map, Text, lit, length,
  length-drop, drop, ◌≡◌, refl, sym, ap, inl, inr, arith, Result, ok, Bool-cases, Option-cases, All,
  All-append,
}
use factvault.Db.{Source}
use factvault.Utf8.{runes, split, rune_width}
use factvault.Utf8.Chunks.{split-zero_pending}
use factvault.Strings.{Unicode, to_lower, decode, decode_rune, encode, encode_rune, index}
use factvault.Strings.Indexed.{index_bound}
use factvault.Excerpt.CharOffset.{IsSpan}
use factvault.Excerpt.Seek.{byte_at}
use factvault.Extractors.{ExtractedFact, source_label, fact_at, overlaps_existing_fact}
use factvault.Extractors.Facts.{IsVerified, fact_at-IsVerified, AllDisjoint}
use factvault.Extractors.Dates.{no_overlap-Disjoint, AllDisjoint-snoc}
use factvault.Extractors.Gazetteer.{
  Fault, GazetteerEntry, default_gazetteer_entries, gazetteer_match, gazetteer_loop,
  gazetteer_phrases, append_gazetteer_facts, gazetteer_facts, gazetteer_extract,
  has_word_boundaries,
}

abbrev IsAscii : Text → Type 0
IsAscii = All (λ b. b < 0x80)

single : ℕ → Text
single b = b ∷ []

runes-IsAscii : (s : Text) → IsAscii s → runes s ≡ map single s
unfolding runes split rune_width single
runes-IsAscii [] h = refl
runes-IsAscii (b ∷ s) h =
    let width : rune_width b s ≡ 1 = ground arith in
    let pending = split-zero_pending s in
    let rest = runes-IsAscii s h.1 in rw (width, pending) (ap (λ cs. (b ∷ []) ∷ cs) rest)

length-to_lower :
    (u : Unicode) (s : Text)
    → ((r : ℕ) → r < 0x80 → u.to_lower_rune r < 0x80)
    → IsAscii s
    → length (to_lower u s) ≡ length s
unfolding to_lower decode encode encode_rune decode_rune single
length-to_lower u s lower h = rw (runes-IsAscii s h) (lowered s h)
  where
    lowered :
        (s : Text)
        → IsAscii s
        → length (encode (map u.to_lower_rune (map decode_rune (map single s)))) ≡ length s
    lowered [] h = refl
    lowered (b ∷ s) h = let rest = lowered s h.1 in let small = lower b h.0 in ground (arith, rest)

byte_at_ascii : (s : Text) (n : ℕ) → n ≤ length s → byte_at (map single s) n ≡ n
unfolding single
byte_at_ascii s zero h = refl
byte_at_ascii [] (suc n) h = ground arith
byte_at_ascii (b ∷ s) (suc n) h = ground (arith, byte_at_ascii s n)

length-map_single : (s : Text) → length (map single s) ≡ length s
length-map_single [] = refl
length-map_single (b ∷ s) = ap suc (length-map_single s)

IsAscii-IsSpan :
    (s : Text) (start end : ℕ) → IsAscii s → start < end → end ≤ length s → IsSpan s start end
IsAscii-IsSpan s start end h ordered within =
    let chars = runes-IsAscii s h in
    record {
      first = start;
      last = end;
      ordered = ordered;
      within = rw chars (omega (arith, length-map_single s));
      starts = rw chars (sym (byte_at_ascii s start (omega arith)));
      ends = rw chars (sym (byte_at_ascii s end within));
    }

-- The facts pass the workers' excerpt check, and no two claim overlapping ranges.
pub record AreFound (raw_text : Text) (facts : List ExtractedFact) : Type 0 where
  verified : All (IsVerified raw_text) facts
  disjoint : AllDisjoint facts

-- The outcome is such a list of facts.
abbrev pub Finds : Text → Result Fault (List ExtractedFact) → Type 0
Finds raw_text r = (facts : List ExtractedFact) × (r ≡ ok facts) × AreFound raw_text facts

IsAscii-drop : (n : ℕ) (s : Text) → IsAscii s → IsAscii (drop n s)
IsAscii-drop zero s h = h
IsAscii-drop (suc n) [] h = tt
IsAscii-drop (suc n) (b ∷ s) h = IsAscii-drop n s h.1

module _ (u : Unicode) (subject raw_text : Text)
    (lower : (r : ℕ) → r < 0x80 → u.to_lower_rune r < 0x80) (ascii : IsAscii raw_text) where
  gazetteer_match-Finds :
      (facts : List ExtractedFact) (entry : GazetteerEntry) (start end : ℕ)
      → start < end
      → end ≤ length raw_text
      → AreFound raw_text facts
      → Finds raw_text (gazetteer_match u subject raw_text facts entry start end)
  unfolding gazetteer_match
  gazetteer_match-Finds facts entry start end ordered within h =
      elim (Bool-cases (
        has_word_boundaries u raw_text start end
        && not (overlaps_existing_fact raw_text facts start end))) [
          | inr skipped ↦ (facts, ground arith, h)
          | inl taken ↦ (
            facts
                ++ (fact_at subject raw_text entry.property_slug entry.canonical entry.value_type
                      (lit "gazetteer:v1") start end
                    ∷ []),
            ground arith,
            record {
              verified = All-append (IsVerified raw_text) facts _ h.verified (
                fact_at-IsVerified subject raw_text entry.property_slug entry.canonical
                    entry.value_type (lit "gazetteer:v1") start end
                    (IsAscii-IsSpan raw_text start end ascii ordered within),
                tt,
              );
              disjoint = AllDisjoint-snoc facts _ h.disjoint (
                  no_overlap-Disjoint raw_text subject entry.property_slug entry.canonical
                    entry.value_type (lit "gazetteer:v1") facts start end (ground arith));
            },
          )
        ]

  gazetteer_loop-Finds :
      (entry : GazetteerEntry) (phrase : Text) (fuel : ℕ) (facts : List ExtractedFact)
      (search_from : ℕ)
      → 0 < length phrase
      → IsAscii phrase
      → search_from ≤ length raw_text
      → length raw_text + 2 ≤ fuel + search_from
      → AreFound raw_text facts
      → Finds raw_text (gazetteer_loop u subject raw_text entry phrase fuel facts search_from)
  unfolding gazetteer_loop
  gazetteer_loop-Finds entry phrase zero facts search_from some_phrase plain within enough h =
      ground arith
  gazetteer_loop-Finds entry phrase (suc fuel) facts search_from some_phrase plain within enough h =
      elim (Option-cases (index (to_lower u (drop search_from raw_text)) (to_lower u phrase))) [
        | inl missing ↦ (facts, ground arith, h)
        | inr (idx, found) ↦
            (let start = search_from + idx in
              let end = start + length phrase in
              let bound =
                index_bound (to_lower u (drop search_from raw_text)) (to_lower u phrase) idx
                  found in
              let same_text =
                length-to_lower u (drop search_from raw_text) lower
                  (IsAscii-drop search_from raw_text ascii) in
              let same_phrase = length-to_lower u phrase lower plain in
              let left = length-drop search_from raw_text in
              let inside : end ≤ length raw_text = omega arith in
              let (more, good, hm) =
                gazetteer_match-Finds facts entry start end (omega arith) inside h in
              let (all, done, ha) =
                gazetteer_loop-Finds entry phrase fuel more end some_phrase plain inside
                  (omega arith) hm in
              (all, ground arith, ha))
      ]

  gazetteer_phrases-Finds :
      (entry : GazetteerEntry) (phrases : List Text) (facts : List ExtractedFact)
      → All (λ p. (0 < length p) × IsAscii p) phrases
      → AreFound raw_text facts
      → Finds raw_text (gazetteer_phrases u subject raw_text entry phrases facts)
  unfolding gazetteer_phrases
  gazetteer_phrases-Finds entry [] facts plain h = (facts, refl, h)
  gazetteer_phrases-Finds entry (p ∷ ps) facts plain h =
      let (more, good, hm) =
        gazetteer_loop-Finds entry p (length raw_text + 2) facts 0 plain.0.0 plain.0.1 (omega arith)
          (omega arith) h in
      let (all, done, ha) = gazetteer_phrases-Finds entry ps more plain.1 hm in
      (all, ground arith, ha)

  gazetteer_facts-Finds :
      (facts : List ExtractedFact) (entries : List GazetteerEntry)
      → All (λ e. All (λ p. (0 < length p) × IsAscii p) (e.canonical ∷ e.aliases)) entries
      → AreFound raw_text facts
      → Finds raw_text (gazetteer_facts u subject raw_text facts entries)
  unfolding gazetteer_facts append_gazetteer_facts
  gazetteer_facts-Finds facts [] plain h = (facts, refl, h)
  gazetteer_facts-Finds facts (e ∷ es) plain h =
      let (more, good, hm) = gazetteer_phrases-Finds e (e.canonical ∷ e.aliases) facts plain.0 h in
      let (all, done, ha) = gazetteer_facts-Finds more es plain.1 hm in (all, ground arith, ha)

plain_phrases :
    All
      (λ e. All (λ p. (0 < length p) × IsAscii p) (e.canonical ∷ e.aliases))
      default_gazetteer_entries
plain_phrases = omega arith

-- On a text of ASCII, where lower-casing keeps ASCII runes ASCII, the gazetteer neither panics nor
-- runs out of fuel: it returns facts that all pass the workers' excerpt check, no two of which
-- overlap.
pub gazetteer_extract-Finds :
    (u : Unicode) (source : Option Source) (raw_text : Text)
    → ((r : ℕ) → r < 0x80 → u.to_lower_rune r < 0x80)
    → IsAscii raw_text
    → Finds raw_text (gazetteer_extract u source raw_text)
unfolding gazetteer_extract
gazetteer_extract-Finds u source raw_text lower ascii =
    gazetteer_facts-Finds u (source_label source) raw_text lower ascii [] default_gazetteer_entries
      plain_phrases (record { verified = tt; disjoint = tt })
