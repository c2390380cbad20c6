-- ===== src/Extractors/Runner/Kept.antt =====
-- Which facts the runner keeps.
use factvault.Common.{
  ◌≡◌, ◌↔◌, refl, ap, inl, inr, true, List, [], ◌∷◌, ◌++◌, arith, Text, text_eq, text_eq_iff,
  Result, ok, err, ◌>>=◌, In, Bool-cases,
}
use factvault.Extractors.{ExtractedFact}
use factvault.Extractors.Runner.{fact_key, has_key, add_facts, run_extractors, run_extract}

abbrev keys : List ExtractedFact → List Text
keys [] = []
keys (fact ∷ facts) = fact_key fact ∷ keys facts

abbrev HasUniqueKeys : List ExtractedFact → Type 0
HasUniqueKeys [] = Unit
HasUniqueKeys (fact ∷ facts) = (In (fact_key fact) (keys facts) → ⊥) × HasUniqueKeys facts

-- All the extractors' facts in order, or the first error.
abbrev pub all_facts :
    {E : Type 0} → List (Result E (List ExtractedFact)) → Result E (List ExtractedFact)
all_facts [] = ok []
all_facts (err e ∷ answers) = err e
all_facts (ok facts ∷ answers) = all_facts answers >>= λ rest. ok (facts ++ rest)

has_key_iff : (key : Text) (seen : List Text) → (has_key key seen ≡ true) ↔ In key seen
unfolding has_key
has_key_iff key [] = ground arith
has_key_iff key (k ∷ seen) = ground (arith, has_key_iff key seen, text_eq_iff k key)

In-kept_iff :
    (x : Text) (seen : List Text) (facts : List ExtractedFact)
    → In x (keys (add_facts seen facts).1) ↔ (In x (keys facts) × (In x seen → ⊥))
unfolding add_facts
In-kept_iff x seen [] = ground arith
In-kept_iff x seen (fact ∷ facts) = elim (Bool-cases (has_key (fact_key fact) seen)) [
  | inl known ↦ rw known (
      ground (
        arith,
        In-kept_iff x seen facts,
        has_key_iff (fact_key fact) seen,
        has_key_iff x seen,
        text_eq_iff x (fact_key fact),
        Bool-cases (text_eq x (fact_key fact)),
      ))
  | inr new ↦ rw new (
      ground (
        arith,
        In-kept_iff x (fact_key fact ∷ seen) facts,
        has_key_iff (fact_key fact) seen,
        has_key_iff x seen,
        text_eq_iff x (fact_key fact),
        Bool-cases (text_eq x (fact_key fact)),
      ))
]

kept-HasUniqueKeys :
    (seen : List Text) (facts : List ExtractedFact) → HasUniqueKeys (add_facts seen facts).1
unfolding add_facts
kept-HasUniqueKeys seen [] = tt
kept-HasUniqueKeys seen (fact ∷ facts) = elim (Bool-cases (has_key (fact_key fact) seen)) [
  | inl known ↦ rw known (kept-HasUniqueKeys seen facts)
  | inr new ↦ rw new (
    λ h. ((In-kept_iff (fact_key fact) (fact_key fact ∷ seen) facts).0 h).1 (inl refl),
    kept-HasUniqueKeys (fact_key fact ∷ seen) facts,
  )
]

-- Extractors one after the other are as one that answers all the facts.
add_facts-append :
    (seen : List Text) (xs ys : List ExtractedFact)
    → (add_facts seen (xs ++ ys)).1
      ≡ (add_facts seen xs).1 ++ (add_facts (add_facts seen xs).0 ys).1
unfolding add_facts
add_facts-append seen [] ys = refl
add_facts-append seen (x ∷ xs) ys = elim (Bool-cases (has_key (fact_key x) seen)) [
  | inl known ↦ rw known (add_facts-append seen xs ys)
  | inr new ↦
      rw new (ap (λ (r : List ExtractedFact). x ∷ r) (add_facts-append (fact_key x ∷ seen) xs ys))
]

nil_lem : (seen : List Text) → [] ≡ (add_facts seen []).1
unfolding add_facts
nil_lem seen = refl

then_kept :
    {E : Type 0} (kept : List ExtractedFact) (seen : List Text)
    (all : Result E (List ExtractedFact)) (xs : List ExtractedFact)
    (f : List ExtractedFact → List ExtractedFact)
    → ((ys : List ExtractedFact) → f (xs ++ ys) ≡ kept ++ (add_facts seen ys).1)
    → ((all >>= λ ys. ok (add_facts seen ys).1) >>= λ rest. ok (kept ++ rest))
      ≡ ((all >>= λ ys. ok (xs ++ ys)) >>= λ ys. ok (f ys))
then_kept kept seen (err e) xs f h = refl
then_kept kept seen (ok ys) xs f h = rw (h ys) refl

run_extractors-all_facts :
    {E : Type 0} (seen : List Text) (answers : List (Result E (List ExtractedFact)))
    → run_extractors seen answers ≡ (all_facts answers >>= λ facts. ok (add_facts seen facts).1)
unfolding run_extractors
run_extractors-all_facts seen [] = ap ok (nil_lem seen)
run_extractors-all_facts seen (err e ∷ answers) = refl
run_extractors-all_facts seen (ok facts ∷ answers) =
    rw (run_extractors-all_facts (add_facts seen facts).0 answers) (
      then_kept (add_facts seen facts).1 (add_facts seen facts).0 (all_facts answers) facts
        (λ all. (add_facts seen all).1) (add_facts-append seen facts))

-- What `Runner.Extract` answers in terms of all the facts that its extractors found.
abbrev pub IsKept :
    {E : Type 0} → Result E (List ExtractedFact) → Result E (List ExtractedFact) → Type 0
IsKept (err e) out = out ≡ err e
IsKept (ok facts) out =
    (kept : List ExtractedFact) × (out ≡ ok kept)
    × HasUniqueKeys kept
    × ((key : Text) → In key (keys kept) ↔ In key (keys facts))

-- `Runner.Extract` fails with the first extractor's error; else no two of its facts have the same
-- key, and their keys are those of all the facts that the four extractors found.
pub run_extract-IsKept :
    {E : Type 0} (identifiers money dates gazetteer : Result E (List ExtractedFact))
    → IsKept
        (all_facts (identifiers ∷ money ∷ dates ∷ gazetteer ∷ []))
        (run_extract identifiers money dates gazetteer)
unfolding run_extract
run_extract-IsKept {E = E} identifiers money dates gazetteer =
    let answers = identifiers ∷ money ∷ dates ∷ gazetteer ∷ [] in
    go (all_facts answers) (run_extractors-all_facts [] answers)
  where
    go :
        (all : Result E (List ExtractedFact))
        → run_extractors [] (identifiers ∷ money ∷ dates ∷ gazetteer ∷ [])
          ≡ (all >>= λ facts. ok (add_facts [] facts).1)
        → IsKept all (run_extractors [] (identifiers ∷ money ∷ dates ∷ gazetteer ∷ []))
    go (err e) h = h
    go (ok facts) h = (
      (add_facts [] facts).1,
      h,
      kept-HasUniqueKeys [] facts,
      λ key. ground (arith, In-kept_iff key [] facts),
    )
