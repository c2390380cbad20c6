-- ===== src/Excerpt/CharOffset.antt =====
-- `byteOffsetToCharOffset` and `runeOffsetToByteOffset` together, and the excerpts that an extractor
-- cuts with them.
use factvault.Common.{
  ℕ, zero, suc, ◌≤◌, ◌<◌, ◌≡◌, refl, sym, ap, true, some, List, arith, Text, pos, length, take,
  length-take, take_all,
}
use factvault.Utf8.{runes}
use factvault.Utf8.Chunks.{concat-runes}
use factvault.Utf8.Prefix.{runes-take}
use factvault.Excerpt.{
  slice, rune_offset_to_byte_offset, verify_excerpt_offset, byte_offset_to_char_offset,
}
use factvault.Excerpt.Seek.{byte_at, rune_offset_to_byte_offset_lem}
use factvault.Excerpt.Slices.{slice-byte_at}
use factvault.Excerpt.Verified.{rune_slice, verify_excerpt_offset_iff}

count-prefix : (s : Text) (n : ℕ) → byte_offset_to_char_offset s n ≡ length (runes (take n s))
unfolding byte_offset_to_char_offset
count-prefix s zero = unfold runes in refl
count-prefix s (suc n) = ground (arith, take_all (suc n) s)

-- The character offset of the byte at which the rune of index `i` begins is `i`.
char_offset-byte_at :
    (s : Text) (i : ℕ)
    → i ≤ length (runes s)
    → byte_offset_to_char_offset s (byte_at (runes s) i) ≡ i
char_offset-byte_at s i h = omega (
  arith,
  count-prefix s (byte_at (runes s) i),
  ap (λ (r : List Text). length r) (runes-take s i),
  length-take i (runes s),
)

-- `runeOffsetToByteOffset` gives the byte at which a rune begins, or at which the text ends, back
-- from the character offset that `byteOffsetToCharOffset` gives for it.
rune_offset-char_offset :
    (s : Text) (i : ℕ)
    → i ≤ length (runes s)
    → rune_offset_to_byte_offset s (pos (byte_offset_to_char_offset s (byte_at (runes s) i)))
      ≡ some (byte_at (runes s) i)
rune_offset-char_offset s i h =
    ground (arith, char_offset-byte_at s i, rune_offset_to_byte_offset_lem s i)

-- A byte range that begins and ends where runes of the text begin, and is not empty.
pub record IsSpan (s : Text) (start end : ℕ) : Type 0 where
  pub first : ℕ
  pub last : ℕ
  pub ordered : first < last
  pub within : last ≤ length (runes s)
  pub starts : start ≡ byte_at (runes s) first
  pub ends : end ≡ byte_at (runes s) last

-- The slice at a span, with the character offsets of its ends, passes the workers' check.
pub verify_excerpt-IsSpan :
    (s : Text) (start end : ℕ)
    → IsSpan s start end
    → verify_excerpt_offset s
        (slice s start end)
        (pos (byte_offset_to_char_offset s start))
        (pos (byte_offset_to_char_offset s end))
      ≡ true
verify_excerpt-IsSpan s start end h =
    rw
      (
        h.starts,
        h.ends,
        char_offset-byte_at s h.first (omega arith),
        char_offset-byte_at s h.last h.within,
      )
      ((verify_excerpt_offset_iff s (slice s (byte_at (runes s) h.first) (byte_at (runes s) h.last))
          (pos h.first) (pos h.last)).1
        ((omega arith, h.within, sym (slice_runes h.first h.last (omega arith))), ground arith))
  where
    slice_runes :
        (a b : ℕ) → a ≤ b → slice s (byte_at (runes s) a) (byte_at (runes s) b) ≡ rune_slice s a b
    slice_runes a b k = rw (concat-runes s) at (slice-byte_at (runes s) a b k)
