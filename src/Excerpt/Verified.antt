-- ===== src/Excerpt/Verified.antt =====
-- What the two functions `VerifyExcerptOffset` accept.
use factvault.Common.{
  ℕ, ◌-◌, ◌≤◌, ◌≡◌, ◌↔◌, ap, true, false, some, arith, Text, ℤ, pos, negsuc, length, concat, take,
  drop, leb, ltb_ℤ, if◌then◌else◌, text_eq, text_eq_iff,
}
use factvault.Utf8.{runes}
use factvault.Utf8.Chunks.{concat-runes}
use factvault.Excerpt.{
  rune_offset_to_byte_offset, excerpt_matches, verify_excerpt_offset, verify_proposal_offset,
}
use factvault.Excerpt.Seek.{byte_at, rune_offset_to_byte_offset_lem}
use factvault.Excerpt.Slices.{slice-byte_at, byte_at_mono, byte_at_le}

-- The runes of a text from index `a` up to index `b`.
abbrev pub rune_slice : Text → ℕ → ℕ → Text
rune_slice s a b = concat (take (b - a) (drop a (runes s)))

matches_in_range :
    (s e : Text) (a b : ℕ)
    → a ≤ b
    → b ≤ length (runes s)
    → excerpt_matches s e (some (byte_at (runes s) a)) (some (byte_at (runes s) b))
      ≡ text_eq (rune_slice s a b) e
unfolding excerpt_matches
matches_in_range s e a b h k = ground (
  arith,
  slice-byte_at (runes s) a b,
  concat-runes s,
  byte_at_mono (runes s) a b,
  byte_at_le (runes s) b,
  ap (λ (t : Text). length t) (concat-runes s),
)

-- The part after the guards, for offsets in order.
excerpt_matches_lem :
    (s e : Text) (a b : ℕ)
    → a ≤ b
    → excerpt_matches s e
        (rune_offset_to_byte_offset s (pos a))
        (rune_offset_to_byte_offset s (pos b))
      ≡ (if leb b (length (runes s)) then text_eq (rune_slice s a b) e else false)
unfolding excerpt_matches
excerpt_matches_lem s e a b h = ground (
  arith,
  rune_offset_to_byte_offset_lem s a,
  rune_offset_to_byte_offset_lem s b,
  matches_in_range s e a b,
)

-- An independent description of an excerpt: `e` is the runes of `s` from `a` up to `b`.
abbrev pub IsExcerpt : Text → Text → ℤ → ℤ → Type 0
IsExcerpt s e (pos a) (pos b) = (a ≤ b) × (b ≤ length (runes s)) × (rune_slice s a b ≡ e)
IsExcerpt s e (pos a) (negsuc b) = ⊥
IsExcerpt s e (negsuc a) b = ⊥

-- The workers' `VerifyExcerptOffset` accepts exactly the excerpts that are the text's runes from
-- the start offset to the end offset, where the start is before the end.
pub verify_excerpt_offset_iff :
    (s e : Text) (a b : ℤ)
    → (verify_excerpt_offset s e a b ≡ true) ↔ (IsExcerpt s e a b × (ltb_ℤ a b ≡ true))
unfolding verify_excerpt_offset
verify_excerpt_offset_iff s e (pos a) (pos b) =
    ground (arith, excerpt_matches_lem s e a b, text_eq_iff (rune_slice s a b) e)
verify_excerpt_offset_iff s e (pos a) (negsuc b) = ground arith
verify_excerpt_offset_iff s e (negsuc a) (pos b) = ground arith
verify_excerpt_offset_iff s e (negsuc a) (negsuc b) = ground arith

-- The extractors' `VerifyExcerptOffset` accepts exactly the excerpts that are the text's runes from
-- the start offset to the end offset, the empty excerpt at equal offsets included.
verify_proposal_offset_iff :
    (s e : Text) (a b : ℤ) → (verify_proposal_offset s e a b ≡ true) ↔ IsExcerpt s e a b
unfolding verify_proposal_offset
verify_proposal_offset_iff s e (pos a) (pos b) =
    ground (arith, excerpt_matches_lem s e a b, text_eq_iff (rune_slice s a b) e)
verify_proposal_offset_iff s e (pos a) (negsuc b) = ground arith
verify_proposal_offset_iff s e (negsuc a) (pos b) = ground arith
verify_proposal_offset_iff s e (negsuc a) (negsuc b) = ground arith
