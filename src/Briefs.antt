-- ===== src/Briefs.antt =====
-- internal/briefs/briefs.go: a brief is derived from a bundle, as the document that is encoded. UUIDs are compared as texts in the code; their canonical texts are ordered as the
-- numbers are.
pub mod Determined
pub mod Pairs
pub mod Conflicts
pub mod Counted
pub mod Grouped
pub mod Ordered
pub mod Found
pub mod Cited
pub mod Store
use factvault.Common.{
  ℕ, ◌+◌, Bool, true, false, not, ◌&&◌, ◌||◌, Option, none, some, List, [], ◌∷◌, ◌++◌, Text, lit,
  text_eq, text_lt, ltb, leb, ◌==◌, length, if◌then◌else◌, Result, ok, err, SortPackage,
}
use factvault.Assembler.Graph.{has_id}
use factvault.Assembler.Tables.{Bundle, BundleStatement, BundleSource}

pub record KeyClaim : Type 0 where
  pub statement_id : ℕ
  pub entity_id : ℕ
  pub property_slug : Text
  pub value : Text
  pub confidence : ℕ

pub record Citation : Type 0 where
  pub source_id : ℕ
  pub url : Text
  pub verification_status : Text

pub record Conflict : Type 0 where
  pub entity_id : ℕ
  pub property_slug : Text
  pub value_a : Text
  pub value_b : Text

pub record SourceEntry : Type 0 where
  pub source_id : ℕ
  pub status : Text

pub record EvidenceGap : Type 0 where
  pub statement_id : ℕ
  pub property_slug : Text

pub record BriefDoc : Type 0 where
  pub key_claims : List KeyClaim
  pub citations : List Citation
  pub conflicts : List Conflict
  pub source_health : List SourceEntry
  pub evidence_gaps : List EvidenceGap
  pub writer_prompts : List Text

pub data Error : Type 0 where
  invalid_generate_request bundle_loader_required load_failed nil_bundle : Error
  bundle_tenant_mismatch bundle_entity_mismatch marshal_failed insert_failed bad_limit bad_uuid
        not_found :
      Error

-- An entity and a property, by which `detectConflicts` groups.
abbrev pub Key : Type 0
Key = ℕ × Text

-- What the generator takes from outside: the `sort` package, the order in which `range` visits the
-- keys of a map, `%q`, and the text of a UUID.
pub record Generator : Type 1 where
  pub sort : SortPackage
  pub range_keys : List Key → List Key
  pub quote : Text → Text
  pub uuid_text : ℕ → Text

abbrev pub claim_of : BundleStatement → KeyClaim
claim_of s = record {
  statement_id = s.id;
  entity_id = s.entity_id;
  property_slug = s.property_slug;
  value = s.value;
  confidence = s.confidence;
}

-- The loop of `extractKeyClaims`.
unfoldable pub key_claims : List BundleStatement → List KeyClaim
key_claims [] = []
key_claims (s ∷ ss) =
    let rest = key_claims ss in if leb 700 s.confidence then claim_of s ∷ rest else rest

unfoldable pub claim_less : KeyClaim → KeyClaim → Bool
claim_less a b =
    if not (a.statement_id == b.statement_id)
    then ltb a.statement_id b.statement_id
    else text_lt a.property_slug b.property_slug

unfoldable pub extract_key_claims : SortPackage → List BundleStatement → List KeyClaim
extract_key_claims p ss = p.sort_slice claim_less (key_claims ss)

-- The loop of `extractCitations`, from the ids seen so far.
unfoldable pub citations_from : List ℕ → List BundleSource → List Citation
citations_from seen [] = []
citations_from seen (s ∷ ss) =
    let known = has_id s.id seen in
    let rest = citations_from (if known then seen else s.id ∷ seen) ss in
    if known
    then rest
    else record { source_id = s.id; url = s.url; verification_status = s.verification_status }
      ∷ rest

unfoldable pub extract_citations : SortPackage → List BundleSource → List Citation
extract_citations p ss =
    p.sort_slice (λ (a b : Citation). ltb a.source_id b.source_id) (citations_from [] ss)

unfoldable pub key_eq : Key → Key → Bool
key_eq (e, slug) (f, other) = e == f && text_eq slug other

unfoldable pub has_group : Key → List Key → Bool
has_group k [] = false
has_group k (x ∷ xs) = key_eq x k || has_group k xs

abbrev pub key_of : BundleStatement → Key
key_of s = (s.entity_id, s.property_slug)

-- The keys of `byKey`, once each.
unfoldable pub group_keys : List BundleStatement → List Key
group_keys [] = []
group_keys (s ∷ ss) =
    let rest = group_keys ss in if has_group (key_of s) rest then rest else key_of s ∷ rest

-- `byKey[k]`, in the order of the statements.
unfoldable pub group_of : Key → List BundleStatement → List BundleStatement
group_of k [] = []
group_of k (s ∷ ss) = let rest = group_of k ss in if key_eq (key_of s) k then s ∷ rest else rest

-- The inner loop: the statements after one that give another value.
unfoldable pub conflicts_with : BundleStatement → List BundleStatement → List Conflict
conflicts_with a [] = []
conflicts_with a (b ∷ bs) =
    let rest = conflicts_with a bs in
    if not (text_eq a.value b.value)
    then record {
      entity_id = a.entity_id;
      property_slug = a.property_slug;
      value_a = a.value;
      value_b = b.value;
    }
      ∷ rest
    else rest

unfoldable pub conflict_pairs : List BundleStatement → List Conflict
conflict_pairs [] = []
conflict_pairs (s ∷ ss) = conflicts_with s ss ++ conflict_pairs ss

unfoldable pub statement_less : BundleStatement → BundleStatement → Bool
statement_less a b = ltb a.id b.id

unfoldable pub group_conflicts : SortPackage → List BundleStatement → List Conflict
group_conflicts p stmts =
    if ltb (length stmts) 2 then [] else conflict_pairs (p.sort_slice statement_less stmts)

-- The loop over the keys of the map, in the order that is given.
unfoldable pub conflicts_of : SortPackage → List BundleStatement → List Key → List Conflict
conflicts_of p ss [] = []
conflicts_of p ss (k ∷ ks) = group_conflicts p (group_of k ss) ++ conflicts_of p ss ks

unfoldable pub conflict_less : Conflict → Conflict → Bool
conflict_less a b =
    if not (a.entity_id == b.entity_id)
    then ltb a.entity_id b.entity_id
    else if not (text_eq a.property_slug b.property_slug)
    then text_lt a.property_slug b.property_slug
    else text_lt a.value_a b.value_a

unfoldable pub detect_conflicts : Generator → List BundleStatement → List Conflict
detect_conflicts g ss =
    g.sort.sort_slice conflict_less (conflicts_of g.sort ss (g.range_keys (group_keys ss)))

unfoldable pub health_from : List ℕ → List BundleSource → List SourceEntry
health_from seen [] = []
health_from seen (s ∷ ss) =
    let known = has_id s.id seen in
    let rest = health_from (if known then seen else s.id ∷ seen) ss in
    if known then rest else record { source_id = s.id; status = s.verification_status } ∷ rest

unfoldable pub build_source_health : SortPackage → List BundleSource → List SourceEntry
build_source_health p ss =
    p.sort_slice (λ (a b : SourceEntry). ltb a.source_id b.source_id) (health_from [] ss)

unfoldable pub gaps_of : List BundleStatement → List EvidenceGap
gaps_of [] = []
gaps_of (s ∷ ss) =
    let rest = gaps_of ss in
    if length s.source_ids == 0
    then record { statement_id = s.id; property_slug = s.property_slug } ∷ rest
    else rest

unfoldable pub find_evidence_gaps : SortPackage → List BundleStatement → List EvidenceGap
find_evidence_gaps p ss =
    p.sort_slice (λ (a b : EvidenceGap). ltb a.statement_id b.statement_id) (gaps_of ss)

conflict_prompt : Generator → List Conflict → List Text
conflict_prompt g [] = []
conflict_prompt g (c ∷ cs) =
    (lit "Investigate the conflicting values for "
      ++ (g.quote c.property_slug
          ++ (lit " on entity "
              ++ (g.uuid_text c.entity_id
                  ++ (lit ": "
                      ++ (g.quote c.value_a ++ (lit " vs " ++ (g.quote c.value_b ++ lit "."))))))))
    ∷ []

gap_prompt : Generator → List EvidenceGap → List Text
gap_prompt g [] = []
gap_prompt g (gap ∷ gaps) =
    (lit "Find sources to fill the evidence gap for property "
      ++ (g.quote gap.property_slug
          ++ (lit " on statement " ++ (g.uuid_text gap.statement_id ++ lit "."))))
    ∷ []

pub derive_writer_prompts : Generator → Bundle → List Text
derive_writer_prompts g b = g.sort.sort_slice text_lt (
    (lit "Summarize the evidence for entity "
      ++ (b.entity_id ++ lit " based on the assembled claims."))
    ∷ (conflict_prompt g (detect_conflicts g b.statements)
        ++ gap_prompt g (find_evidence_gaps g.sort b.statements)))

-- `Generate`; a nil bundle is `none`.
unfoldable pub generate : Generator → Option Bundle → Result Error BriefDoc
generate g none = err nil_bundle
generate g (some b) = ok (record {
  key_claims = extract_key_claims g.sort b.statements;
  citations = extract_citations g.sort b.sources;
  conflicts = detect_conflicts g b.statements;
  source_health = build_source_health g.sort b.sources;
  evidence_gaps = find_evidence_gaps g.sort b.statements;
  writer_prompts = derive_writer_prompts g b;
})
