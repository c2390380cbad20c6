-- ===== src/Excerpt/Seek.antt =====
-- `runeOffsetToByteOffset` gives the byte at which the rune of that index begins.
use factvault.Common.{
  ℕ, zero, suc, ◌+◌, ◌≡◌, ap, ◌∙◌, none, some, List, [], ◌∷◌, arith, Text, pos, length, concat,
  take, length-append, leb, if◌then◌else◌,
}
use factvault.Utf8.{runes}
use factvault.Utf8.Chunks.{offsets, range-offsets, concat-runes}
use factvault.Excerpt.{seek, rune_offset_to_byte_offset}

-- The byte at which the chunk of index `n` begins.
abbrev pub byte_at : List Text → ℕ → ℕ
byte_at cs n = length (concat (take n cs))

seek-offsets :
    (cs : List Text) (o i d n size : ℕ)
    → n ≡ i + d
    → size ≡ o + length (concat cs)
    → seek (offsets o cs) i n size ≡ (if leb d (length cs) then some (o + byte_at cs d) else none)
unfolding seek
seek-offsets [] o i zero n size e f = ground arith
seek-offsets [] o i (suc d) n size e f = ground arith
seek-offsets (c ∷ cs) o i zero n size e f = ground arith
seek-offsets (c ∷ cs) o i (suc d) n size e f = ground (
  arith,
  seek-offsets cs (o + length c) (i + 1) d n size,
  length-append c (concat cs),
  length-append c (concat (take d cs)),
)

pub rune_offset_to_byte_offset_lem :
    (s : Text) (n : ℕ)
    → rune_offset_to_byte_offset s (pos n)
      ≡ (if leb n (length (runes s)) then some (byte_at (runes s) n) else none)
unfolding rune_offset_to_byte_offset
rune_offset_to_byte_offset_lem s zero = ground arith
rune_offset_to_byte_offset_lem s (suc n) = rw (range-offsets s) (
    seek-offsets (runes s) 0 0 (suc n) (suc n) (length s) (omega arith) (size_lem s)
    ∙ ap (λ (k : ℕ). if leb (suc n) (length (runes s)) then some k else none)
        (zero_add (byte_at (runes s) (suc n))))
  where
    zero_add : (k : ℕ) → 0 + k ≡ k
    zero_add k = omega arith

    size_lem : (t : Text) → length t ≡ 0 + length (concat (runes t))
    size_lem t = omega (arith, ap (λ (r : Text). length r) (concat-runes t))
