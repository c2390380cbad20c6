-- ===== src/Vocabulary/Words.antt =====
-- internal/vocabulary/resolver.go: a slug has the letters and digits of what it is made from.
use factvault.Common.{
  ℕ, ◌≡◌, ◌∙◌, refl, ap, Bool, true, false, ◌||◌, List, [], ◌∷◌, arith, ◌==◌, ==_iff, if◌then◌else◌,
  Bool-cases, inl, inr,
}
use factvault.Strings.{Unicode}
use factvault.Vocabulary.{
  slug_loop, trim_underscores_left, keep_before_underscores, trim_underscores_right, slug_runes,
}
use factvault.Vocabulary.Slug.{HasPlainUnderscore}

-- The letters and digits among the runes.
abbrev pub words : Unicode → List ℕ → List ℕ
words u [] = []
words u (r ∷ rs) = if u.is_letter r || u.is_digit r then r ∷ words u rs else words u rs

module _ (u : Unicode) (plain : HasPlainUnderscore u) where
  underscore-words : (rs : List ℕ) → words u (b'_' ∷ rs) ≡ words u rs
  underscore-words rs = ground (arith, plain.no_letter, plain.no_digit)

  dropped-words : (r : ℕ) (rs : List ℕ) → (r == b'_') ≡ true → words u (r ∷ rs) ≡ words u rs
  dropped-words r rs e = ap (λ x. words u (x ∷ rs)) ((==_iff r b'_').0 e) ∙ underscore-words rs

  slug_loop-words : (rs : List ℕ) (last : Bool) → words u (slug_loop u rs last) ≡ words u rs
  unfolding slug_loop
  slug_loop-words [] last = refl
  slug_loop-words (r ∷ rs) last = elim (Bool-cases (u.is_letter r || u.is_digit r)) [
    | inl word ↦ ground (arith, slug_loop-words rs false)
    | inr other ↦ elim (Bool-cases last) [
      | inl after ↦ ground (arith, slug_loop-words rs true)
      | inr first ↦ ground (arith, slug_loop-words rs true, underscore-words (slug_loop u rs true))
    ]
  ]

  trim_left-words : (rs : List ℕ) → words u (trim_underscores_left rs) ≡ words u rs
  unfolding trim_underscores_left
  trim_left-words [] = refl
  trim_left-words (r ∷ rs) = elim (Bool-cases (r == b'_')) [
    | inl drops ↦ ground (arith, trim_left-words rs, dropped-words r rs)
    | inr keeps ↦ ground arith
  ]

  keep_before-words :
      (r : ℕ) (rs : List ℕ) → words u (keep_before_underscores r rs) ≡ words u (r ∷ rs)
  unfolding keep_before_underscores
  keep_before-words r [] = elim (Bool-cases (r == b'_')) [
    | inl drops ↦ ground (arith, dropped-words r [])
    | inr keeps ↦ ground arith
  ]
  keep_before-words r (x ∷ xs) = refl

  trim_right-words : (rs : List ℕ) → words u (trim_underscores_right rs) ≡ words u rs
  unfolding trim_underscores_right
  trim_right-words [] = refl
  trim_right-words (r ∷ rs) =
      keep_before-words r (trim_underscores_right rs) ∙ ground (arith, trim_right-words rs)

  pub slug_runes-words : (rs : List ℕ) → words u (slug_runes u rs) ≡ words u rs
  unfolding slug_runes
  slug_runes-words rs =
      trim_right-words (trim_underscores_left (slug_loop u rs false))
      ∙ trim_left-words (slug_loop u rs false)
      ∙ slug_loop-words rs false
