-- ===== src/Utf8/Chunks.antt =====
-- The encoded runes of a text are the text, cut at the offsets that `range` visits.
use factvault.Common.{
  ℕ, zero, suc, ◌+◌, ◌-◌, ◌≤◌, min, ◌≡◌, refl, ap, List, [], ◌∷◌, ◌++◌, arith, Text, length, concat,
  take, length-append,
}
use native.Mathlib.Nat.{add-zero}
use factvault.Utf8.{rune_width, range_from, split, runes}

pub rune_width_bounds :
    (b : ℕ) (s : Text) → (1 ≤ rune_width b s) × (rune_width b s ≤ suc (length s))
unfolding rune_width
rune_width_bounds b [] = ground arith
rune_width_bounds b (b1 ∷ []) = ground arith
rune_width_bounds b (b1 ∷ b2 ∷ []) = ground arith
rune_width_bounds b (b1 ∷ b2 ∷ b3 ∷ s) = ground arith

pub split-zero_pending : (s : Text) → (split 0 s).0 ≡ []
unfolding split
split-zero_pending [] = refl
split-zero_pending (b ∷ s) = refl

pub length-split_pending : (k : ℕ) (s : Text) → length (split k s).0 ≡ min k (length s)
unfolding split
length-split_pending zero [] = omega arith
length-split_pending (suc k) [] = omega arith
length-split_pending zero (b ∷ s) = omega arith
length-split_pending (suc k) (b ∷ s) = omega (arith, length-split_pending k s)

concat-split : (k : ℕ) (s : Text) → (split k s).0 ++ concat (split k s).1 ≡ s
unfolding split
concat-split zero [] = refl
concat-split (suc k) [] = refl
concat-split zero (b ∷ s) = ap (λ r. b ∷ r) (concat-split (rune_width b s - 1) s)
concat-split (suc k) (b ∷ s) = ap (λ r. b ∷ r) (concat-split k s)

pub concat-runes : (s : Text) → concat (runes s) ≡ s
unfolding runes
concat-runes s = rw (split-zero_pending s) at (concat-split 0 s)

-- The offsets at which the chunks of a list begin, the first at `o`.
abbrev pub offsets : ℕ → List Text → List ℕ
offsets o [] = []
offsets o (c ∷ cs) = o ∷ offsets (o + length c) cs

shift : (o p n : ℕ) → o ≡ p → o + suc n ≡ p + 1 + n
shift o p n e = omega arith

range_from-offsets :
    (k o : ℕ) (s : Text) → range_from k o s ≡ offsets (o + length (split k s).0) (split k s).1
unfolding split range_from
range_from-offsets zero o [] = refl
range_from-offsets (suc k) o [] = refl
range_from-offsets zero o (b ∷ s) = cc (
  range_from-offsets (rune_width b s - 1) (o + 1) s,
  add-zero o,
  shift (o + 0) o (length (split (rune_width b s - 1) s).0) (add-zero o),
)
range_from-offsets (suc k) o (b ∷ s) =
    cc (range_from-offsets k (o + 1) s, shift o o (length (split k s).0) refl)

pub range-offsets : (s : Text) → range_from 0 0 s ≡ offsets 0 (runes s)
unfolding runes
range-offsets s =
    cc
      (range_from-offsets 0 0 s, ap (λ (p : Text). 0 + length p) (split-zero_pending s), add-zero 0)

-- Where `seek` stops among the offsets.
concat-take_le : (n : ℕ) (cs : List Text) → length (concat (take n cs)) ≤ length (concat cs)
concat-take_le zero cs = omega arith
concat-take_le (suc n) [] = omega arith
concat-take_le (suc n) (c ∷ cs) =
    omega (
      arith,
      concat-take_le n cs,
      length-append c (concat (take n cs)),
      length-append c (concat cs),
    )
