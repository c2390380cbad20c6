-- ===== src/Vocabulary.antt =====
-- internal/vocabulary/resolver.go: labels resolved against the property catalog.
pub mod Slug
pub mod Words
pub mod Resolved
use factvault.Common.{
  Bool, true, false, ◌||◌, Option, none, some, List, [], ◌∷◌, ℕ, Text, lit, text_eq, ◌==◌,
  if◌then◌else◌,
}
use factvault.Strings.{Unicode, trim_space, to_lower, decode, encode}

-- `Mode` is a string; any value but `strict` resolves permissively.
abbrev pub Mode : Type 0
Mode = Text

abbrev pub mode_strict : Mode
mode_strict = lit "strict"

abbrev mode_permissive : Mode
mode_permissive = lit "permissive"

pub record Property : Type 0 where
  pub slug : Text
  pub label : Text
  pub value_type : Text

pub record ProposedProperty : Type 0 where
  pub proposed_slug : Text
  pub proposed_value_type : Text
  pub proposed_by : Text
  pub example_excerpt : Text

pub record Resolution : Type 0 where
  pub property : Property
  pub known : Bool
  pub queued_proposals : List ProposedProperty

-- A Go map: the entry that was put last is found first.
abbrev Catalog : Type 0
Catalog = List (Text × Property)

pub find_property : Catalog → Text → Option Property
find_property [] key = none
find_property ((k, p) ∷ rest) key = if text_eq k key then some p else find_property rest key

pub record Resolver : Type 0 where
  pub mode : Mode
  pub catalog : Option Catalog

abbrev pub property_of : Text → Text → Text → Property
property_of slug label value_type = record { slug = slug; label = label; value_type = value_type }

abbrev default_properties : List Property
default_properties =
    property_of (lit "sec_cik") (lit "SEC CIK") (lit "string")
    ∷ property_of (lit "sec_cusip") (lit "SEC CUSIP") (lit "string")
    ∷ property_of (lit "sec_isin") (lit "SEC ISIN") (lit "string")
    ∷ property_of (lit "usd_amount") (lit "USD amount") (lit "number")
    ∷ property_of (lit "date") (lit "Date") (lit "date")
    ∷ property_of (lit "org_name") (lit "Organization name") (lit "string")
    ∷ property_of (lit "person_name") (lit "Person name") (lit "string")
    ∷ property_of (lit "doi") (lit "DOI") (lit "string")
    ∷ property_of (lit "clinicaltrials.gov_nct_id") (lit "ClinicalTrials.gov NCT ID") (lit "string")
    ∷ property_of (lit "isbn_13") (lit "ISBN-13") (lit "string")
    ∷ []

-- The loop of `normalizeSlug` over the runes of the lowered label; `last_underscore` is the
-- code's variable of that name.
pub slug_loop : Unicode → List ℕ → Bool → List ℕ
slug_loop u [] last_underscore = []
slug_loop u (r ∷ rs) last_underscore =
    let written = r ∷ slug_loop u rs false in
    let underscore = b'_' ∷ slug_loop u rs true in
    let skipped = slug_loop u rs true in
    if u.is_letter r || u.is_digit r
    then written
    else if last_underscore
    then skipped
    else underscore

-- `strings.Trim(s, "_")`.
pub trim_underscores_left : List ℕ → List ℕ
trim_underscores_left [] = []
trim_underscores_left (r ∷ rs) =
    let rest = trim_underscores_left rs in if r == b'_' then rest else r ∷ rs

pub keep_before_underscores : ℕ → List ℕ → List ℕ
keep_before_underscores r [] = if r == b'_' then [] else r ∷ []
keep_before_underscores r (x ∷ xs) = r ∷ x ∷ xs

pub trim_underscores_right : List ℕ → List ℕ
trim_underscores_right [] = []
trim_underscores_right (r ∷ rs) = keep_before_underscores r (trim_underscores_right rs)

pub slug_runes : Unicode → List ℕ → List ℕ
slug_runes u rs = trim_underscores_right (trim_underscores_left (slug_loop u rs false))

module _ (u : Unicode) where
  pub normalize_label : Text → Text
  unfolding to_lower trim_space
  normalize_label s = to_lower u (trim_space s)

  pub normalize_slug : Text → Text
  normalize_slug s = encode (slug_runes u (decode (to_lower u (trim_space s))))

  catalog_of : List Property → Catalog → Catalog
  catalog_of [] catalog = catalog
  catalog_of (p ∷ ps) catalog =
      catalog_of ps ((normalize_label p.label, p) ∷ (normalize_label p.slug, p) ∷ catalog)

  default_catalog : Catalog
  default_catalog = catalog_of default_properties []

  pub new_resolver : Mode → Resolver
  new_resolver mode = record { mode = mode; catalog = some default_catalog }

  pub catalog_or_default : Option Catalog → Catalog
  catalog_or_default none = default_catalog
  catalog_or_default (some catalog) = catalog

  -- The slug of a label that is not in the catalog.
  pub fallback_slug : Text → Text
  fallback_slug label = elim (normalize_slug label) [ [] ↦ normalize_label label | b ∷ s ↦ b ∷ s ]

  -- `Resolve` behind the catalog lookup.
  pub resolve_unlisted : Mode → Text → Text → Text → Resolution
  resolve_unlisted mode label value_type excerpt =
      let slug = fallback_slug label in
      let property = property_of slug label value_type in
      if text_eq mode mode_strict
      then record {
        property = property;
        known = false;
        queued_proposals =
            record {
              proposed_slug = slug;
              proposed_value_type = value_type;
              proposed_by = lit "resolver:strict";
              example_excerpt = excerpt;
            }
            ∷ [];
      }
      else record { property = property; known = true; queued_proposals = [] }

  pub resolve : Resolver → Text → Text → Text → Resolution
  resolve r label value_type excerpt =
      elim (find_property (catalog_or_default r.catalog) (normalize_label label)) [
        | some property ↦ record { property = property; known = true; queued_proposals = [] }
        | none ↦ resolve_unlisted r.mode label value_type excerpt
      ]
