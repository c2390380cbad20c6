-- ===== src/Strings.antt =====
-- The functions of Go's `strings` and `unicode` packages that the program calls, rune by rune.
-- The Unicode tables (letters, digits, case) are the record `Unicode`, a parameter.
pub mod Every
pub mod Indexed
use factvault.Common.{
  ℕ, zero, suc, ◌+◌, ◌-◌, ◌*◌, ◌/◌, ◌%◌, ◌<◌, ◌≡◌, Bool, true, false, ◌&&◌, ◌||◌, not, Option, none,
  some, List, [], ◌∷◌, ◌++◌, map, Text, lit, concat, leb, ltb, ◌==◌, if◌then◌else◌,
}
use factvault.Utf8.{between, runes}

pub record Unicode : Type 0 where
  pub is_letter : ℕ → Bool
  pub is_digit : ℕ → Bool
  pub to_lower_rune : ℕ → ℕ
  pub to_upper_rune : ℕ → ℕ

-- The code point of an encoded rune; an invalid byte reads as U+FFFD.
unfoldable pub decode_rune : Text → ℕ
decode_rune [] = 0xFFFD
decode_rune (b0 ∷ []) = if ltb b0 0x80 then b0 else 0xFFFD
decode_rune (b0 ∷ b1 ∷ []) = (b0 % 0x20) * 0x40 + b1 % 0x40
decode_rune (b0 ∷ b1 ∷ b2 ∷ []) = (b0 % 0x10) * 0x1000 + b1 % 0x40 * 0x40 + b2 % 0x40
decode_rune (b0 ∷ b1 ∷ b2 ∷ b3 ∷ s) =
    (b0 % 0x08) * 0x40000 + b1 % 0x40 * 0x1000 + b2 % 0x40 * 0x40 + b3 % 0x40

-- The runes of a text, as a `range` loop sees them.
unfoldable pub decode : Text → List ℕ
unfolding decode_rune
decode s = map decode_rune (runes s)

-- `WriteRune`: surrogates and what lies above U+10FFFF are written as U+FFFD.
unfoldable pub encode_rune : ℕ → Text
encode_rune r =
    if ltb r 0x80
    then r ∷ []
    else if ltb r 0x800
    then (0xC0 + r / 0x40) ∷ (0x80 + r % 0x40) ∷ []
    else if between 0xD800 0xDFFF r || ltb 0x10FFFF r
    then 0xEF ∷ 0xBF ∷ 0xBD ∷ []
    else if ltb r 0x10000
    then (0xE0 + r / 0x1000) ∷ (0x80 + r / 0x40 % 0x40) ∷ (0x80 + r % 0x40) ∷ []
    else (0xF0 + r / 0x40000)
      ∷ (0x80 + r / 0x1000 % 0x40)
      ∷ (0x80 + r / 0x40 % 0x40)
      ∷ (0x80 + r % 0x40)
      ∷ []

unfoldable pub encode : List ℕ → Text
unfolding encode_rune
encode [] = []
encode (r ∷ rs) = encode_rune r ++ encode rs

-- `unicode.IsSpace`, whose set is fixed.
unfoldable pub is_space : ℕ → Bool
is_space r =
    between 0x09 0x0D r
    || (r == 0x20
        || (r == 0x85
            || (r == 0xA0
                || (r == 0x1680
                    || (between 0x2000 0x200A r
                        || (r == 0x2028
                            || (r == 0x2029 || (r == 0x202F || (r == 0x205F || r == 0x3000)))))))))

-- `strings.TrimSpace`. It cuts the text where runes begin, so its bytes stay as they are.
unfoldable pub trim_left : List Text → List Text
unfolding decode_rune is_space
trim_left [] = []
trim_left (c ∷ cs) = let rest = trim_left cs in if is_space (decode_rune c) then rest else c ∷ cs

-- A rune before the kept ones: a space is kept only if something follows.
unfoldable pub keep_before : Text → List Text → List Text
unfolding decode_rune is_space
keep_before c [] = if is_space (decode_rune c) then [] else c ∷ []
keep_before c (d ∷ ds) = c ∷ d ∷ ds

unfoldable pub trim_right : List Text → List Text
unfolding keep_before
trim_right [] = []
trim_right (c ∷ cs) = keep_before c (trim_right cs)

unfoldable pub trim_space : Text → Text
unfolding trim_left trim_right
trim_space s = concat (trim_right (trim_left (runes s)))

-- `strings.ToLower` and `strings.ToUpper`.
unfoldable pub to_lower : Unicode → Text → Text
unfolding decode encode
to_lower u s = encode (map u.to_lower_rune (decode s))

pub to_upper : Unicode → Text → Text
unfolding decode encode
to_upper u s = encode (map u.to_upper_rune (decode s))

-- `strings.Fields`: the maximal runs of runes that are no spaces. `word` is the run being read.
unfoldable pub fields_from : List Text → Text → List Text
unfolding decode_rune is_space
fields_from [] [] = []
fields_from [] (b ∷ word) = (b ∷ word) ∷ []
fields_from (c ∷ cs) [] = fields_from cs (if is_space (decode_rune c) then [] else c)
fields_from (c ∷ cs) (b ∷ word) =
    let next = (b ∷ word) ∷ fields_from cs [] in
    let more = fields_from cs ((b ∷ word) ++ c) in if is_space (decode_rune c) then next else more

unfoldable pub fields : Text → List Text
unfolding fields_from
fields s = fields_from (runes s) []

-- `strings.Join`.
unfoldable pub join : List Text → Text → Text
join [] sep = []
join (x ∷ []) sep = x
join (x ∷ y ∷ xs) sep = x ++ (sep ++ join (y ∷ xs) sep)

-- `strings.HasPrefix` and `strings.TrimPrefix`.
unfoldable pub trim_prefix? : Text → Text → Option Text
trim_prefix? s [] = some s
trim_prefix? [] (p ∷ ps) = none
trim_prefix? (b ∷ s) (p ∷ ps) = let rest = trim_prefix? s ps in if b == p then rest else none

-- The tables restricted to ASCII: enough for ASCII texts, and a value of the parameter for tests.
abbrev pub ascii : Unicode
ascii = record {
  is_letter = λ r. between b'a' b'z' r || between b'A' b'Z' r;
  is_digit = λ r. between b'0' b'9' r;
  to_lower_rune = λ r. if between b'A' b'Z' r then r + 32 else r;
  to_upper_rune = λ r. if between b'a' b'z' r then r - 32 else r;
}

-- `strings.Index`.
unfoldable pub index : Text → Text → Option ℕ
index [] phrase = elim (trim_prefix? [] phrase) [ none ↦ none | some s ↦ some 0 ]
index (b ∷ bs) phrase =
    let rest = index bs phrase in
    elim (trim_prefix? (b ∷ bs) phrase) [
      | none ↦ elim rest [ none ↦ none | some i ↦ some (suc i) ]
      | some s ↦ some 0
    ]
