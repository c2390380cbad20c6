-- ===== src/Pipeline/Html.antt =====
-- `stripHTML` of internal/workers/source_pipeline.go.
pub mod NoTags
use factvault.Common.{
  ℕ, zero, suc, ◌-◌, Bool, true, false, Option, none, some, List, [], ◌∷◌, ◌++◌, Text, lit, length,
  ◌==◌, if◌then◌else◌,
}
use factvault.Strings.{decode, encode, fields, join, trim_space, trim_prefix?}

-- `strings.ReplaceAll` of a text that is not empty; `skip` counts the bytes of the occurrence just
-- replaced that are still to pass.
unfoldable pub replace_from : Text → Text → ℕ → Text → Text
replace_from old new skip [] = []
replace_from old new (suc skip) (b ∷ s) = replace_from old new skip s
replace_from old new zero (b ∷ s) = elim (trim_prefix? (b ∷ s) old) [
  | none ↦ b ∷ replace_from old new zero s
  | some rest ↦ new ++ replace_from old new (length old - 1) s
]

unfoldable pub break_lines : Text → Text
break_lines s =
    let s1 = replace_from (lit "<br>") (b'\n' ∷ []) 0 s in
    let s2 = replace_from (lit "<br/>") (b'\n' ∷ []) 0 s1 in
    let s3 = replace_from (lit "<br />") (b'\n' ∷ []) 0 s2 in
    let s4 = replace_from (lit "</p>") (b'\n' ∷ []) 0 s3 in
    replace_from (lit "</div>") (b'\n' ∷ []) 0 s4

-- The loop over the runes.
unfoldable pub strip_tags : Bool → List ℕ → List ℕ
strip_tags in_tag [] = []
strip_tags in_tag (r ∷ rs) =
    let rest = strip_tags (if r == b'<' then true else if r == b'>' then false else in_tag) rs in
    if r == b'<' then rest else if r == b'>' then rest else if in_tag then rest else r ∷ rest

unfoldable pub strip_html : Text → Text
strip_html html =
    trim_space (join (fields (encode (strip_tags false (decode (break_lines html))))) (lit " "))
