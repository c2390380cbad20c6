-- ===== src/Extractors/Runner.antt =====
-- internal/extractors/deterministic/runner.go: the extractors run in order, and a fact with the key
-- of an earlier one is dropped.
pub mod Kept
use factvault.Common.{
  ℕ, zero, suc, ◌+◌, ◌/◌, ◌%◌, Bool, true, false, ◌||◌, List, [], ◌∷◌, ◌++◌, Text, lit, text_eq,
  ltb, ℤ, pos, negsuc, if◌then◌else◌, Result, ok, err, ◌>>=◌,
}
use factvault.Strings.{join}
use factvault.Extractors.{ExtractedFact}

-- `%d`: the decimal digits; the number itself is enough fuel.
digits : ℕ → ℕ → Text
digits zero n = (b'0' + n) ∷ []
digits (suc fuel) n =
    let rest = digits fuel (n / 10) in
    if ltb n 10 then (b'0' + n) ∷ [] else rest ++ ((b'0' + n % 10) ∷ [])

abbrev decimal : ℤ → Text
decimal (pos n) = digits n n
decimal (negsuc n) = b'-' ∷ digits (suc n) (suc n)

-- `factKey`.
pub fact_key : ExtractedFact → Text
fact_key fact =
    join
      (fact.subject_text
        ∷ fact.property_slug
        ∷ fact.value
        ∷ fact.value_type
        ∷ fact.excerpt
        ∷ decimal fact.excerpt_offset_start
        ∷ decimal fact.excerpt_offset_end
        ∷ fact.extraction_method
        ∷ [])
      (0x1F ∷ [])

pub has_key : Text → List Text → Bool
has_key key [] = false
has_key key (k ∷ seen) = text_eq k key || has_key key seen

-- The inner loop over one extractor's facts: the keys seen after it, and the facts appended.
pub add_facts : List Text → List ExtractedFact → List Text × List ExtractedFact
add_facts seen [] = (seen, [])
add_facts seen (fact ∷ facts) =
    let key = fact_key fact in
    let known = has_key key seen in
    let (seen', kept) = add_facts (if known then seen else key ∷ seen) facts in
    (seen', if known then kept else fact ∷ kept)

-- The outer loop, over what the extractors answer for the text.
pub run_extractors :
    {E : Type 0} → List Text → List (Result E (List ExtractedFact)) → Result E (List ExtractedFact)
run_extractors seen [] = ok []
run_extractors seen (err e ∷ answers) = err e
run_extractors seen (ok facts ∷ answers) =
    let (seen', kept) = add_facts seen facts in
    run_extractors seen' answers >>= λ rest. ok (kept ++ rest)

-- `Runner.Extract`, with the four extractors that the runner holds.
pub run_extract :
    {E : Type 0}
    → (identifiers money dates gazetteer : Result E (List ExtractedFact))
    → Result E (List ExtractedFact)
run_extract identifiers money dates gazetteer =
    run_extractors [] (identifiers ∷ money ∷ dates ∷ gazetteer ∷ [])
