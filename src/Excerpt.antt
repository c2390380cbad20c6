-- ===== src/Excerpt.antt =====
-- internal/workers/extract.go, internal/extractors/llm.go and
-- internal/extractors/deterministic/identifiers.go: excerpt offsets. The two packages declare
-- `runeOffsetToByteOffset` with the same body, and `VerifyExcerptOffset` with different guards.
pub mod Seek
pub mod Slices
pub mod Verified
pub mod CharOffset
use factvault.Common.{
  ℕ, zero, suc, ◌+◌, ◌-◌, Bool, true, false, ◌&&◌, ◌||◌, Option, none, some, List, [], ◌∷◌, Text, ℤ,
  pos, negsuc, ltb_ℤ, leb_ℤ, length, take, drop, leb, ltb, ◌==◌, if◌then◌else◌, text_eq,
}
use factvault.Utf8.{range_from, runes}

-- The loop over the byte offsets, `index` counting them.
unfoldable pub seek : List ℕ → ℕ → ℕ → ℕ → Option ℕ
seek [] index rune_offset size = if index == rune_offset then some size else none
seek (byte_offset ∷ rest) index rune_offset size =
    if index == rune_offset then some byte_offset else seek rest (index + 1) rune_offset size

unfoldable pub rune_offset_to_byte_offset : Text → ℤ → Option ℕ
rune_offset_to_byte_offset raw_text (negsuc n) = none
rune_offset_to_byte_offset raw_text (pos zero) = some 0
rune_offset_to_byte_offset raw_text (pos (suc n)) =
    seek (range_from 0 0 raw_text) 0 (suc n) (length raw_text)

-- `s[lo:hi]`, for bounds in order and in range; the callers test them.
abbrev pub slice : Text → ℕ → ℕ → Text
slice s lo hi = take (hi - lo) (drop lo s)

-- The part after the guards, which the two functions share.
unfoldable pub excerpt_matches : Text → Text → Option ℕ → Option ℕ → Bool
excerpt_matches raw_text excerpt none end_byte = false
excerpt_matches raw_text excerpt (some start_byte) none = false
excerpt_matches raw_text excerpt (some start_byte) (some end_byte) =
    if ltb end_byte start_byte || ltb (length raw_text) end_byte
    then false
    else text_eq (slice raw_text start_byte end_byte) excerpt

-- `VerifyExcerptOffset` of the workers: the offsets are not negative and start < end.
unfoldable pub verify_excerpt_offset : Text → Text → ℤ → ℤ → Bool
verify_excerpt_offset raw_text excerpt offset_start offset_end =
    if ltb_ℤ offset_start (pos 0) || (ltb_ℤ offset_end (pos 0) || leb_ℤ offset_end offset_start)
    then false
    else excerpt_matches raw_text excerpt (rune_offset_to_byte_offset raw_text offset_start)
        (rune_offset_to_byte_offset raw_text offset_end)

-- `VerifyExcerptOffset` of the extractors: start ≤ end suffices.
unfoldable pub verify_proposal_offset : Text → Text → ℤ → ℤ → Bool
verify_proposal_offset raw_text excerpt offset_start offset_end =
    if ltb_ℤ offset_start (pos 0) || ltb_ℤ offset_end offset_start
    then false
    else excerpt_matches raw_text excerpt (rune_offset_to_byte_offset raw_text offset_start)
        (rune_offset_to_byte_offset raw_text offset_end)

-- `byteOffsetToCharOffset`, at the offsets of a match, which are not negative.
pub byte_offset_to_char_offset : Text → ℕ → ℕ
byte_offset_to_char_offset s zero = 0
byte_offset_to_char_offset s (suc n) =
    if leb (length s) (suc n) then length (runes s) else length (runes (take (suc n) s))
