-- ===== src/Utf8/Prefix.antt =====
-- Cutting a text where a rune begins keeps the runes before the cut.
use factvault.Common.{
  ℕ, zero, suc, ◌+◌, ◌-◌, ◌≤◌, ◌≡◌, refl, ap, List, [], ◌∷◌, arith, Text, length, concat, take,
  length-append, take-nil,
}
use factvault.Utf8.{rune_width, split, runes}
use factvault.Utf8.Chunks.{rune_width_bounds, length-split_pending, split-zero_pending}

-- What lies behind a rune does not change its width.
rune_width-take :
    (b m : ℕ) (s : Text) → rune_width b s ≤ suc m → rune_width b (take m s) ≡ rune_width b s
unfolding rune_width
rune_width-take b zero [] h = ground arith
rune_width-take b (suc m) [] h = ground arith
rune_width-take b zero (b1 ∷ []) h = ground arith
rune_width-take b (suc m) (b1 ∷ []) h = ground (arith, take-nil ℕ m)
rune_width-take b zero (b1 ∷ b2 ∷ []) h = ground arith
rune_width-take b (suc zero) (b1 ∷ b2 ∷ []) h = ground arith
rune_width-take b (suc (suc m)) (b1 ∷ b2 ∷ []) h = ground (arith, take-nil ℕ m)
rune_width-take b zero (b1 ∷ b2 ∷ b3 ∷ s) h = ground arith
rune_width-take b (suc zero) (b1 ∷ b2 ∷ b3 ∷ s) h = ground arith
rune_width-take b (suc (suc zero)) (b1 ∷ b2 ∷ b3 ∷ s) h = ground arith
rune_width-take b (suc (suc (suc m))) (b1 ∷ b2 ∷ b3 ∷ s) h = refl

-- The bytes of what is left of the current rune and of the first `n` runes after it.
cut : ℕ → ℕ → Text → ℕ
cut k n s = length (split k s).0 + length (concat (take n (split k s).1))

-- A text cut after a rune splits into the same runes.
split-take :
    (k n : ℕ) (s : Text) (m : ℕ)
    → m ≡ cut k n s
    → split k (take m s) ≡ ((split k s).0, take n (split k s).1)
unfolding split cut
split-take k n [] m e = rw (take-nil ℕ m, take-nil Text n)
split-take zero zero (b ∷ s) zero e = refl
split-take zero zero (b ∷ s) (suc m) e = absurd (omega arith)
split-take zero (suc n) (b ∷ s) zero e = absurd (omega arith)
split-take zero (suc n) (b ∷ s) (suc m) e =
    let (tail, rest) = split (rune_width b s - 1) s in
    let sum = length-append tail (concat (take n rest)) in
    rw
      (rune_width-take b m s
        (omega (arith, rune_width_bounds b s, length-split_pending (rune_width b s - 1) s)))
      (cc (split-take (rune_width b s - 1) n s m (omega arith)))
split-take (suc k) n (b ∷ s) zero e = absurd (omega arith)
split-take (suc k) n (b ∷ s) (suc m) e = cc (split-take k n s m (omega arith))

-- Cutting a text after its first `n` runes leaves these runes.
pub runes-take :
    (s : Text) (n : ℕ) → runes (take (length (concat (take n (runes s)))) s) ≡ take n (runes s)
unfolding runes cut
runes-take s n =
    ap (λ (p : Text × List Text). p.1)
      (split-take 0 n s (length (concat (take n (runes s))))
        (omega (arith, ap (λ (p : Text). length p) (split-zero_pending s))))
