-- ===== src/Pipeline/Html/NoTags.antt =====
-- The text that `stripHTML` leaves.
use factvault.Common.{
  ℕ, ◌≢◌, Bool, true, false, List, [], ◌∷◌, arith, Text, lit, All, All-append, ◌==◌, Bool-cases,
  if◌then◌else◌, inl, inr,
}
use factvault.Strings.{encode_rune, encode, decode, fields, join}
use factvault.Strings.Every.{All-fields, All-join, All-trim_space}
use factvault.Pipeline.Html.{strip_tags, break_lines, strip_html}

abbrev IsNoBracket : ℕ → Type 0
IsNoBracket b = (b ≢ b'<') × (b ≢ b'>')

strip_tags-All : (in_tag : Bool) (rs : List ℕ) → All IsNoBracket (strip_tags in_tag rs)
unfolding strip_tags
strip_tags-All in_tag [] = tt
strip_tags-All in_tag (r ∷ rs) = elim (Bool-cases (r == b'<')) [
  | inl opens ↦ rw opens (strip_tags-All true rs)
  | inr other ↦ rw other (elim (Bool-cases (r == b'>')) [
    | inl closes ↦ rw closes (strip_tags-All false rs)
    | inr plain ↦ rw plain (kept in_tag (ground arith) (strip_tags-All in_tag rs))
  ])
]
  where
    kept :
        (in_tag : Bool)
        → IsNoBracket r
        → All IsNoBracket (strip_tags in_tag rs)
        → All IsNoBracket (if in_tag then strip_tags in_tag rs else r ∷ strip_tags in_tag rs)
    kept true h rest = rest
    kept false h rest = (h, rest)

encode_rune-All : (r : ℕ) → IsNoBracket r → All IsNoBracket (encode_rune r)
unfolding encode_rune
encode_rune-All r h = ground arith

encode-All : (rs : List ℕ) → All IsNoBracket rs → All IsNoBracket (encode rs)
unfolding encode
encode-All [] h = tt
encode-All (r ∷ rs) h =
    All-append IsNoBracket (encode_rune r) (encode rs) (encode_rune-All r h.0) (encode-All rs h.1)

-- No byte of the text that `stripHTML` gives is `<` or `>`, whatever the page holds.
strip_html-IsNoBracket : (html : Text) → All IsNoBracket (strip_html html)
unfolding strip_html
strip_html-IsNoBracket html =
    let plain = encode (strip_tags false (decode (break_lines html))) in
    All-trim_space IsNoBracket (join (fields plain) (lit " ")) (
      All-join IsNoBracket (fields plain) (lit " ")
        (All-fields IsNoBracket plain (
          encode-All (strip_tags false (decode (break_lines html)))
            (strip_tags-All false (decode (break_lines html)))))
        ((omega arith, omega arith), tt))
