-- ===== src/Extractors/Identifiers.antt =====
-- `IdentifierExtractor` of internal/extractors/deterministic/identifiers.go.
use factvault.Common.{Option, List, ◌++◌, Text, lit, select, All, All-append}
use factvault.Db.{Source}
use factvault.Strings.{Unicode, trim_space, to_lower, to_upper, decode, encode}
use factvault.Extractors.{ExtractedFact, Match, source_label, collect_identifier_facts}
use factvault.Extractors.Facts.{IsVerified, AreMatches, collect_identifier_facts-IsVerified}

-- The matches that each pattern has in a text.
pub record IdentifierPatterns : Type 0 where
  pub cik : Text → List Match
  pub cusip : Text → List Match
  pub isin : Text → List Match
  pub doi : Text → List Match
  pub nct : Text → List Match
  pub isbn13 : Text → List Match

-- `normalizeDigits` and `normalizeISBN13`, which have the same body.
normalize_digits : Unicode → Text → Text
normalize_digits u s = encode (select u.is_digit (decode s))

normalize_upper : Unicode → Text → Text
normalize_upper u s = to_upper u (trim_space s)

normalize_lower : Unicode → Text → Text
normalize_lower u s = to_lower u (trim_space s)

-- `collectIdentifierFacts` with what all its calls share.
identifier_facts : Option Source → Text → Text → List Match → (Text → Text) → List ExtractedFact
identifier_facts source raw_text slug matches normalize =
    collect_identifier_facts (source_label source) raw_text slug (lit "string")
      (lit "regex:identifiers-v1") matches normalize

pub identifier_extract : Unicode → IdentifierPatterns → Option Source → Text → List ExtractedFact
identifier_extract u p source raw_text =
    identifier_facts source raw_text (lit "sec_cik") (p.cik raw_text) (normalize_digits u)
    ++ (identifier_facts source raw_text (lit "sec_cusip") (p.cusip raw_text) (normalize_upper u)
        ++ (identifier_facts source raw_text (lit "sec_isin") (p.isin raw_text) (normalize_upper u)
            ++ (identifier_facts source raw_text (lit "doi") (p.doi raw_text) (normalize_lower u)
                ++ (identifier_facts source raw_text (lit "clinicaltrials.gov_nct_id")
                      (p.nct raw_text) (normalize_upper u)
                    ++ identifier_facts source raw_text (lit "isbn_13") (p.isbn13 raw_text)
                        (normalize_digits u)))))

-- All matches that the patterns have in the text begin and end where runes do.
pub record AreIdentifierSpans (p : IdentifierPatterns) (raw_text : Text) : Type 0 where
  pub cik : AreMatches raw_text (p.cik raw_text)
  pub cusip : AreMatches raw_text (p.cusip raw_text)
  pub isin : AreMatches raw_text (p.isin raw_text)
  pub doi : AreMatches raw_text (p.doi raw_text)
  pub nct : AreMatches raw_text (p.nct raw_text)
  pub isbn13 : AreMatches raw_text (p.isbn13 raw_text)

identifier_facts-IsVerified :
    (source : Option Source) (raw_text slug : Text) (ms : List Match) (normalize : Text → Text)
    → AreMatches raw_text ms
    → All (IsVerified raw_text) (identifier_facts source raw_text slug ms normalize)
unfolding identifier_facts
identifier_facts-IsVerified source raw_text slug ms normalize h =
    collect_identifier_facts-IsVerified (source_label source) raw_text slug (lit "string")
      (lit "regex:identifiers-v1") ms normalize h

-- Where the six patterns report spans of the text, every fact of `IdentifierExtractor.Extract`
-- passes the workers' excerpt check.
pub identifier_extract-IsVerified :
    (u : Unicode) (p : IdentifierPatterns) (source : Option Source) (raw_text : Text)
    → AreIdentifierSpans p raw_text
    → All (IsVerified raw_text) (identifier_extract u p source raw_text)
unfolding identifier_extract
identifier_extract-IsVerified u p source raw_text h =
    let facts = identifier_facts source raw_text in
    let join = All-append (IsVerified raw_text) in
    let cusip = facts (lit "sec_cusip") (p.cusip raw_text) (normalize_upper u) in
    let isin = facts (lit "sec_isin") (p.isin raw_text) (normalize_upper u) in
    let doi = facts (lit "doi") (p.doi raw_text) (normalize_lower u) in
    let nct = facts (lit "clinicaltrials.gov_nct_id") (p.nct raw_text) (normalize_upper u) in
    let isbn13 = facts (lit "isbn_13") (p.isbn13 raw_text) (normalize_digits u) in
    join (facts (lit "sec_cik") (p.cik raw_text) (normalize_digits u))
      (cusip ++ (isin ++ (doi ++ (nct ++ isbn13))))
      (identifier_facts-IsVerified source raw_text _ (p.cik raw_text) _ h.cik)
      (join cusip (isin ++ (doi ++ (nct ++ isbn13)))
        (identifier_facts-IsVerified source raw_text _ (p.cusip raw_text) _ h.cusip)
        (join isin (doi ++ (nct ++ isbn13))
          (identifier_facts-IsVerified source raw_text _ (p.isin raw_text) _ h.isin)
          (join doi (nct ++ isbn13)
            (identifier_facts-IsVerified source raw_text _ (p.doi raw_text) _ h.doi)
            (join nct isbn13
              (identifier_facts-IsVerified source raw_text _ (p.nct raw_text) _ h.nct)
              (identifier_facts-IsVerified source raw_text _ (p.isbn13 raw_text) _ h.isbn13)))))
