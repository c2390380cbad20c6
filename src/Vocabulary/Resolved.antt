-- ===== src/Vocabulary/Resolved.antt =====
-- What the resolver answers, in each mode.
use factvault.Common.{
  ℕ, ◌≡◌, ◌≢◌, ◌⊎◌, inl, inr, refl, sym, subst, true, false, Option, none, some, List, [], ◌∷◌,
  ◌++◌, arith, Text, lit, text_eq, text_eq_iff, Option-cases, Bool-cases,
}
use factvault.Strings.{Unicode, trim_space, to_lower, encode, encode_rune, decode}
use factvault.Vocabulary.{
  mode_strict, Property, Resolver, Resolution, find_property, catalog_or_default, normalize_label,
  normalize_slug, slug_runes, fallback_slug, resolve_unlisted, resolve, property_of,
}
use factvault.Vocabulary.Slug.{HasPlainUnderscore, IsSlug, slug_runes-IsSlug}
use factvault.Vocabulary.Words.{words, slug_runes-words}

-- The catalog entry of a label, if it has one.
abbrev pub listed : Unicode → Resolver → Text → Option Property
listed u r label = find_property (catalog_or_default u r.catalog) (to_lower u (trim_space label))

-- The slug is made of the letters and digits of the label in lower case, in their order, joined by
-- single underscores; where there are none, it is the label in lower case.
pub record IsSlugOf (u : Unicode) (label slug : Text) : Type 0 where
  runes : List ℕ
  joined : IsSlug u runes
  same_words : words u runes ≡ words u (decode (to_lower u (trim_space label)))
  written :
      ((runes ≢ []) × (slug ≡ encode runes))
      ⊎ ((runes ≡ []) × (slug ≡ to_lower u (trim_space label)))

-- The entry of the catalog, known; or a property with the label's slug, which is known unless the
-- mode is strict. A strict resolver queues it as a proposal with the excerpt.
abbrev pub IsResolved : Unicode → Resolver → Text → Text → Text → Resolution → Type 0
IsResolved u r label value_type excerpt x =
    ((p : Property) × (listed u r label ≡ some p)
      × (x.property ≡ p)
      × (x.known ≡ true)
      × (x.queued_proposals ≡ []))
    ⊎ ((listed u r label ≡ none)
        × IsSlugOf u label x.property.slug
        × (x.property.label ≡ label)
        × (x.property.value_type ≡ value_type)
        × (((r.mode ≢ lit "strict") × (x.known ≡ true) × (x.queued_proposals ≡ []))
            ⊎ ((r.mode ≡ lit "strict")
                × (x.known ≡ false)
                × (x.queued_proposals
                    ≡ record {
                      proposed_slug = x.property.slug;
                      proposed_value_type = value_type;
                      proposed_by = lit "resolver:strict";
                      example_excerpt = excerpt;
                    }
                      ∷ []))))

encode_rune-nonempty : (r : ℕ) (s : Text) → encode_rune r ++ s ≢ []
unfolding encode_rune
encode_rune-nonempty r s e = ground arith

nonempty_kept : (s low : Text) → s ≢ [] → ◌≡◌ {A = Text} (elim s [ [] ↦ low | b ∷ t ↦ b ∷ t ]) s
nonempty_kept [] low h = absurd (h refl)
nonempty_kept (b ∷ t) low h = refl

written_cases :
    (runes : List ℕ) (low : Text)
    → ((runes ≢ [])
        × (◌≡◌ {A = Text} (elim (encode runes) [ [] ↦ low | b ∷ t ↦ b ∷ t ]) (encode runes)))
      ⊎ ((runes ≡ []) × (◌≡◌ {A = Text} (elim (encode runes) [ [] ↦ low | b ∷ t ↦ b ∷ t ]) low))
unfolding encode
written_cases [] low = inr (refl, refl)
written_cases (r ∷ rs) low =
    inl
      (λ e. cc, nonempty_kept (encode_rune r ++ encode rs) low (encode_rune-nonempty r (encode rs)))

module _ (u : Unicode) (plain : HasPlainUnderscore u) where
  fallback_slug-IsSlugOf : (label : Text) → IsSlugOf u label (fallback_slug u label)
  unfolding fallback_slug normalize_slug normalize_label encode
  fallback_slug-IsSlugOf label =
      let lowered = decode (to_lower u (trim_space label)) in
      record {
        runes = slug_runes u lowered;
        joined = slug_runes-IsSlug u plain lowered;
        same_words = slug_runes-words u plain lowered;
        written = written_cases (slug_runes u lowered) (normalize_label u label);
      }

  resolve_unlisted-IsResolved :
      (r : Resolver) (label value_type excerpt : Text)
      → listed u r label ≡ none
      → IsResolved u r label value_type excerpt (resolve_unlisted u r.mode label value_type excerpt)
  unfolding resolve_unlisted
  resolve_unlisted-IsResolved r label value_type excerpt unlisted =
      elim (Bool-cases (text_eq r.mode mode_strict)) [
        | inl strict ↦
            (let x : Resolution = record {
              property = property_of (fallback_slug u label) label value_type;
              known = false;
              queued_proposals =
                  record {
                    proposed_slug = fallback_slug u label;
                    proposed_value_type = value_type;
                    proposed_by = lit "resolver:strict";
                    example_excerpt = excerpt;
                  }
                  ∷ [];
            } in
              let e : resolve_unlisted u r.mode label value_type excerpt ≡ x = ground arith in
              subst (IsResolved u r label value_type excerpt) (sym e) (
                inr (
                  unlisted,
                  fallback_slug-IsSlugOf label,
                  refl,
                  refl,
                  inr ((text_eq_iff r.mode mode_strict).0 strict, refl, refl),
                )))
        | inr permissive ↦
            (let x : Resolution = record {
              property = property_of (fallback_slug u label) label value_type;
              known = true;
              queued_proposals = [];
            } in
              let e : resolve_unlisted u r.mode label value_type excerpt ≡ x = ground arith in
              let other : r.mode ≢ lit "strict" =
                λ same. ground (arith, text_eq_iff r.mode mode_strict) in
              subst (IsResolved u r label value_type excerpt) (sym e)
                (inr (unlisted, fallback_slug-IsSlugOf label, refl, refl, inl (other, refl, refl))))
      ]

  -- Where the underscore is neither a letter nor a digit, `Resolve` answers the catalog's property
  -- for a listed label. For another it answers a property with the label's value type and a slug of
  -- its letters and digits, joined by single underscores, or its lower case if it has none. Only a
  -- strict resolver answers that one as unknown, and queues it with the excerpt.
  pub resolve-IsResolved :
      (r : Resolver) (label value_type excerpt : Text)
      → IsResolved u r label value_type excerpt (resolve u r label value_type excerpt)
  unfolding resolve normalize_label
  resolve-IsResolved r label value_type excerpt = elim (Option-cases (listed u r label)) [
    | inr (p, found) ↦
        (let x : Resolution = record { property = p; known = true; queued_proposals = [] } in
          let e : resolve u r label value_type excerpt ≡ x = ground arith in
          subst (IsResolved u r label value_type excerpt) (sym e)
            (inl (p, found, refl, refl, refl)))
    | inl unlisted ↦
        (let e : resolve u r label value_type excerpt
              ≡ resolve_unlisted u r.mode label value_type excerpt =
            ground arith in
          subst (IsResolved u r label value_type excerpt) (sym e)
            (resolve_unlisted-IsResolved r label value_type excerpt unlisted))
  ]
