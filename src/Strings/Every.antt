-- ===== src/Strings/Every.antt =====
-- The string functions only keep bytes of their arguments: what holds of every byte of a text
-- holds of every byte of its fields, of its trimmed form, and of joined texts.
use factvault.Common.{
  ℕ, Bool, true, false, List, [], ◌∷◌, ◌++◌, Text, concat, All, All-append, Bool-cases,
  if◌then◌else◌, inl, inr,
}
use factvault.Utf8.{runes}
use factvault.Utf8.Chunks.{concat-runes}
use factvault.Strings.{
  decode_rune, is_space, trim_left, keep_before, trim_right, trim_space, fields_from, fields, join,
}

module _ (P : ℕ → Type 0) where
  All-prefix : (xs ys : Text) → All P (xs ++ ys) → All P xs
  All-prefix [] ys h = tt
  All-prefix (x ∷ xs) ys h = (h.0, All-prefix xs ys h.1)

  All-suffix : (xs ys : Text) → All P (xs ++ ys) → All P ys
  All-suffix [] ys h = h
  All-suffix (x ∷ xs) ys h = All-suffix xs ys h.1

  All-parts : (xss : List Text) → All P (concat xss) → All (All P) xss
  All-parts [] h = tt
  All-parts (xs ∷ xss) h =
      (All-prefix xs (concat xss) h, All-parts xss (All-suffix xs (concat xss) h))

  All-concat : (xss : List Text) → All (All P) xss → All P (concat xss)
  All-concat [] h = tt
  All-concat (xs ∷ xss) h = All-append P xs (concat xss) h.0 (All-concat xss h.1)

  All-runes : (s : Text) → All P s → All (All P) (runes s)
  All-runes s h = All-parts (runes s) (rw (concat-runes s) h)

  All-if : (b : Bool) (xs ys : Text) → All P xs → All P ys → All P (if b then xs else ys)
  All-if true xs ys hx hy = hx
  All-if false xs ys hx hy = hy

  All-fields_from :
      (cs : List Text) (word : Text)
      → All (All P) cs
      → All P word
      → All (All P) (fields_from cs word)
  unfolding fields_from
  All-fields_from [] [] h w = tt
  All-fields_from [] (b ∷ word) h w = (w, tt)
  All-fields_from (c ∷ cs) [] h w =
      All-fields_from cs _ h.1 (All-if (is_space (decode_rune c)) [] c tt h.0)
  All-fields_from (c ∷ cs) (b ∷ word) h w = elim (Bool-cases (is_space (decode_rune c))) [
    | inl space ↦ rw space (w, All-fields_from cs [] h.1 tt)
    | inr kept ↦
        rw kept (All-fields_from cs ((b ∷ word) ++ c) h.1 (All-append P (b ∷ word) c w h.0))
  ]

  pub All-fields : (s : Text) → All P s → All (All P) (fields s)
  unfolding fields
  All-fields s h = All-fields_from (runes s) [] (All-runes s h) tt

  pub All-join : (xs : List Text) (sep : Text) → All (All P) xs → All P sep → All P (join xs sep)
  unfolding join
  All-join [] sep h hs = tt
  All-join (x ∷ []) sep h hs = h.0
  All-join (x ∷ y ∷ xs) sep h hs =
      All-append P x (sep ++ join (y ∷ xs) sep) h.0
        (All-append P sep (join (y ∷ xs) sep) hs (All-join (y ∷ xs) sep h.1 hs))

  All-trim_left : (cs : List Text) → All (All P) cs → All (All P) (trim_left cs)
  unfolding trim_left
  All-trim_left [] h = tt
  All-trim_left (c ∷ cs) h = elim (Bool-cases (is_space (decode_rune c))) [
    | inl space ↦ rw space (All-trim_left cs h.1)
    | inr kept ↦ rw kept h
  ]

  All-keep_before :
      (c : Text) (ds : List Text) → All P c → All (All P) ds → All (All P) (keep_before c ds)
  unfolding keep_before
  All-keep_before c [] hc h = elim (Bool-cases (is_space (decode_rune c))) [
    | inl space ↦ rw space tt
    | inr kept ↦ rw kept (hc, tt)
  ]
  All-keep_before c (d ∷ ds) hc h = (hc, h)

  All-trim_right : (cs : List Text) → All (All P) cs → All (All P) (trim_right cs)
  unfolding trim_right
  All-trim_right [] h = tt
  All-trim_right (c ∷ cs) h = All-keep_before c (trim_right cs) h.0 (All-trim_right cs h.1)

  pub All-trim_space : (s : Text) → All P s → All P (trim_space s)
  unfolding trim_space
  All-trim_space s h =
      All-concat (trim_right (trim_left (runes s)))
        (All-trim_right (trim_left (runes s)) (All-trim_left (runes s) (All-runes s h)))
