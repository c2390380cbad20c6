-- ===== src/Utf8.antt =====
-- How Go reads a string as runes: `for i := range s` and `utf8.RuneCountInString`.
-- An invalid byte is a rune of width 1, as in Go's decoder.
pub mod Chunks
pub mod Prefix
use factvault.Common.{
  ℕ, zero, suc, ◌+◌, ◌-◌, Bool, true, false, ◌&&◌, List, [], ◌∷◌, Text, leb, ltb, if◌then◌else◌,
}

abbrev pub between : ℕ → ℕ → ℕ → Bool
between lo hi b = leb lo b && leb b hi

-- The widths of a two-, three- or four-byte sequence whose second byte lies in lo..hi, else 1.
width_two : Text → ℕ
width_two [] = 1
width_two (b1 ∷ s) = if between 0x80 0xBF b1 then 2 else 1

width_three : ℕ → ℕ → Text → ℕ
width_three lo hi [] = 1
width_three lo hi (b1 ∷ []) = 1
width_three lo hi (b1 ∷ b2 ∷ s) = if between lo hi b1 && between 0x80 0xBF b2 then 3 else 1

width_four : ℕ → ℕ → Text → ℕ
width_four lo hi [] = 1
width_four lo hi (b1 ∷ []) = 1
width_four lo hi (b1 ∷ b2 ∷ []) = 1
width_four lo hi (b1 ∷ b2 ∷ b3 ∷ s) =
    if between lo hi b1 && (between 0x80 0xBF b2 && between 0x80 0xBF b3) then 4 else 1

-- The width of the rune that begins with the byte `b`, the text `s` following it.
unfoldable pub rune_width : ℕ → Text → ℕ
unfolding width_two width_three width_four
rune_width b s =
    if ltb b 0xC2
    then 1
    else if leb b 0xDF
    then width_two s
    else if leb b 0xE0
    then width_three 0xA0 0xBF s
    else if leb b 0xEC
    then width_three 0x80 0xBF s
    else if leb b 0xED
    then width_three 0x80 0x9F s
    else if leb b 0xEF
    then width_three 0x80 0xBF s
    else if leb b 0xF0
    then width_four 0x90 0xBF s
    else if leb b 0xF3
    then width_four 0x80 0xBF s
    else if leb b 0xF4
    then width_four 0x80 0x8F s
    else 1

-- The byte offsets that `range` visits, `skip` bytes of the current rune being left.
unfoldable pub range_from : ℕ → ℕ → Text → List ℕ
range_from skip offset [] = []
range_from zero offset (b ∷ s) = offset ∷ range_from (rune_width b s - 1) (offset + 1) s
range_from (suc skip) offset (b ∷ s) = range_from skip (offset + 1) s

-- The encoded runes of a text: what is left of the current rune, and the runes after it.
unfoldable pub split : ℕ → Text → Text × List Text
split skip [] = ([], [])
split zero (b ∷ s) = let (tail, rest) = split (rune_width b s - 1) s in ([], (b ∷ tail) ∷ rest)
split (suc skip) (b ∷ s) = let (tail, rest) = split skip s in (b ∷ tail, rest)

unfoldable pub runes : Text → List Text
unfolding split
runes s = (split 0 s).1
