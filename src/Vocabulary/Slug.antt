-- ===== src/Vocabulary/Slug.antt =====
-- The slugs that the resolver makes: `normalizeSlug` of internal/vocabulary/resolver.go.
use factvault.Common.{
  ℕ, ◌≡◌, ◌⊎◌, refl, ap, inl, inr, Bool, true, false, ◌||◌, List, [], ◌∷◌, arith, ◌==◌,
  if◌then◌else◌, Bool-cases, ==_iff,
}
use factvault.Strings.{Unicode}
use factvault.Vocabulary.{
  slug_loop, trim_underscores_left, keep_before_underscores, trim_underscores_right, slug_runes,
}

abbrev underscore : ℕ
underscore = b'_'

-- The underscore is neither a letter nor a digit, as in Unicode.
pub record HasPlainUnderscore (u : Unicode) : Type 0 where
  pub no_letter : u.is_letter b'_' ≡ false
  pub no_digit : u.is_digit b'_' ≡ false

abbrev IsWord : Unicode → ℕ → Type 0
IsWord u r = (u.is_letter r || u.is_digit r) ≡ true

-- Words joined by single underscores; `after` says that an underscore stands before the list.
abbrev IsJoined : Unicode → Bool → List ℕ → Type 0
IsJoined u after [] = Unit
IsJoined u after (r ∷ rs) =
    (IsWord u r × IsJoined u false rs) ⊎ ((r ≡ b'_') × (after ≡ false) × IsJoined u true rs)

abbrev EndsInWord : Unicode → List ℕ → Type 0
EndsInWord u [] = Unit
EndsInWord u (r ∷ []) = IsWord u r
EndsInWord u (r ∷ x ∷ rs) = EndsInWord u (x ∷ rs)

-- No underscore at either end, and no two in a row; all else is letters and digits.
pub record IsSlug (u : Unicode) (rs : List ℕ) : Type 0 where
  joined : IsJoined u true rs
  pub ends : EndsInWord u rs

module _ (u : Unicode) where
  separated-IsJoined :
      (t : List ℕ) (last : Bool)
      → IsJoined u true t
      → IsJoined u last (if last then t else b'_' ∷ t)
  separated-IsJoined t true h = h
  separated-IsJoined t false h = inr (refl, refl, h)

  slug_loop-IsJoined : (rs : List ℕ) (last : Bool) → IsJoined u last (slug_loop u rs last)
  unfolding slug_loop
  slug_loop-IsJoined [] last = tt
  slug_loop-IsJoined (r ∷ rs) last = elim (Bool-cases (u.is_letter r || u.is_digit r)) [
    | inl word ↦ rw word (inl (word, slug_loop-IsJoined rs false))
    | inr other ↦
        rw other (separated-IsJoined (slug_loop u rs true) last (slug_loop-IsJoined rs true))
  ]

module _ (u : Unicode) (plain : HasPlainUnderscore u) where
  word-ne-underscore : (r : ℕ) → IsWord u r → (r == b'_') ≡ false
  word-ne-underscore r w = elim (Bool-cases (r == b'_')) [
    | inl e ↦ absurd (not_word (rw ((==_iff r b'_').0 e) at w))
    | inr n ↦ n
  ]
    where
      not_word : IsWord u b'_' → ⊥
      not_word h = ground (arith, plain.no_letter, plain.no_digit)

  trim_left-IsJoined :
      (rs : List ℕ) (after : Bool)
      → IsJoined u after rs
      → IsJoined u true (trim_underscores_left rs)
  unfolding trim_underscores_left
  trim_left-IsJoined [] after h = tt
  trim_left-IsJoined (r ∷ rs) after (inl (w, j)) = rw (word-ne-underscore r w) (inl (w, j))
  trim_left-IsJoined (r ∷ rs) after (inr (e, a, j)) =
      rw ((==_iff r b'_').1 e) (trim_left-IsJoined rs true j)

  keep_before-IsJoined :
      (r : ℕ) (t : List ℕ) (after : Bool)
      → (IsWord u r × IsJoined u false t) ⊎ ((r ≡ b'_') × (after ≡ false) × IsJoined u true t)
      → IsJoined u after (keep_before_underscores r t)
  unfolding keep_before_underscores
  keep_before-IsJoined r [] after (inl (w, j)) = rw (word-ne-underscore r w) (inl (w, tt))
  keep_before-IsJoined r [] after (inr (e, a, j)) = rw ((==_iff r b'_').1 e) tt
  keep_before-IsJoined r (x ∷ xs) after h = h

  trim_right-IsJoined :
      (rs : List ℕ) (after : Bool)
      → IsJoined u after rs
      → IsJoined u after (trim_underscores_right rs)
  unfolding trim_underscores_right
  trim_right-IsJoined [] after h = tt
  trim_right-IsJoined (r ∷ rs) after (inl (w, j)) =
      keep_before-IsJoined r (trim_underscores_right rs) after
        (inl (w, trim_right-IsJoined rs false j))
  trim_right-IsJoined (r ∷ rs) after (inr (e, a, j)) =
      keep_before-IsJoined r (trim_underscores_right rs) after
        (inr (e, a, trim_right-IsJoined rs true j))

  keep_before-EndsInWord :
      (r : ℕ) (t : List ℕ)
      → (IsWord u r) ⊎ (r ≡ b'_')
      → EndsInWord u t
      → EndsInWord u (keep_before_underscores r t)
  unfolding keep_before_underscores
  keep_before-EndsInWord r [] (inl w) h = rw (word-ne-underscore r w) w
  keep_before-EndsInWord r [] (inr e) h = rw ((==_iff r b'_').1 e) tt
  keep_before-EndsInWord r (x ∷ xs) c h = h

  trim_right-EndsInWord :
      (rs : List ℕ) (after : Bool) → IsJoined u after rs → EndsInWord u (trim_underscores_right rs)
  unfolding trim_underscores_right
  trim_right-EndsInWord [] after h = tt
  trim_right-EndsInWord (r ∷ rs) after (inl (w, j)) =
      keep_before-EndsInWord r (trim_underscores_right rs) (inl w)
        (trim_right-EndsInWord rs false j)
  trim_right-EndsInWord (r ∷ rs) after (inr (e, a, j)) =
      keep_before-EndsInWord r (trim_underscores_right rs) (inr e) (trim_right-EndsInWord rs true j)

  -- Where the underscore is neither a letter nor a digit, every slug is letters and digits joined by
  -- single underscores, with none at either end.
  pub slug_runes-IsSlug : (rs : List ℕ) → IsSlug u (slug_runes u rs)
  unfolding slug_runes
  slug_runes-IsSlug rs =
      let j = trim_left-IsJoined (slug_loop u rs false) false (slug_loop-IsJoined u rs false) in
      record {
        joined = trim_right-IsJoined (trim_underscores_left (slug_loop u rs false)) true j;
        ends = trim_right-EndsInWord (trim_underscores_left (slug_loop u rs false)) true j;
      }

  slug_loop_fixed : (rs : List ℕ) (after : Bool) → IsJoined u after rs → slug_loop u rs after ≡ rs
  unfolding slug_loop
  slug_loop_fixed [] after h = refl
  slug_loop_fixed (r ∷ rs) after (inl (w, j)) = rw w (ap (λ t. r ∷ t) (slug_loop_fixed rs false j))
  slug_loop_fixed (r ∷ rs) after (inr (e, a, j)) =
      rw (e, plain.no_letter, plain.no_digit, a) (ap (λ t. b'_' ∷ t) (slug_loop_fixed rs true j))

  IsJoined-weaken : (rs : List ℕ) → IsJoined u true rs → IsJoined u false rs
  IsJoined-weaken [] h = tt
  IsJoined-weaken (r ∷ rs) (inl h) = inl h
  IsJoined-weaken (r ∷ rs) (inr (e, a, j)) = cc

  trim_left_fixed : (rs : List ℕ) → IsJoined u true rs → trim_underscores_left rs ≡ rs
  unfolding trim_underscores_left
  trim_left_fixed [] h = refl
  trim_left_fixed (r ∷ rs) (inl (w, j)) = rw (word-ne-underscore r w)
  trim_left_fixed (r ∷ rs) (inr (e, a, j)) = cc

  trim_right_fixed : (rs : List ℕ) → EndsInWord u rs → trim_underscores_right rs ≡ rs
  unfolding trim_underscores_right keep_before_underscores
  trim_right_fixed [] h = refl
  trim_right_fixed (r ∷ []) h = rw (word-ne-underscore r h)
  trim_right_fixed (r ∷ x ∷ xs) h = rw (trim_right_fixed (x ∷ xs) h)

  -- Where the underscore is neither a letter nor a digit, the loop and the trim of `normalizeSlug`
  -- change nothing in a slug.
  slug_runes_idem : (rs : List ℕ) → slug_runes u (slug_runes u rs) ≡ slug_runes u rs
  slug_runes_idem rs = fixed (slug_runes u rs) (slug_runes-IsSlug rs)
    where
      fixed : (t : List ℕ) → IsSlug u t → slug_runes u t ≡ t
      fixed t s =
          unfold slug_runes in
          rw (slug_loop_fixed t false (IsJoined-weaken t s.joined), trim_left_fixed t s.joined)
            (trim_right_fixed t s.ends)
