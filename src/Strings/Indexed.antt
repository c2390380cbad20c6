-- ===== src/Strings/Indexed.antt =====
-- `strings.Index`: what is found lies in the text.
use factvault.Common.{ℕ, ◌+◌, ◌≤◌, ◌≡◌, inr, inl, arith, some, [], ◌∷◌, Text, length, Option-cases}
use factvault.Strings.{trim_prefix?, index}

trim_prefix-length : (s p t : Text) → trim_prefix? s p ≡ some t → length p ≤ length s
unfolding trim_prefix?
trim_prefix-length s [] t h = ground arith
trim_prefix-length [] (b ∷ p) t h = ground arith
trim_prefix-length (c ∷ s) (b ∷ p) t h = ground (arith, trim_prefix-length s p t)

pub index_bound : (s p : Text) (i : ℕ) → index s p ≡ some i → i + length p ≤ length s
unfolding index
index_bound [] p i h = elim (Option-cases (trim_prefix? [] p)) [
  | inl missing ↦ absurd (ground arith)
  | inr (t, found) ↦ ground (arith, trim_prefix-length [] p t found)
]
index_bound (b ∷ s) p i h = elim (Option-cases (trim_prefix? (b ∷ s) p)) [
  | inr (t, found) ↦ ground (arith, trim_prefix-length (b ∷ s) p t found)
  | inl missing ↦ elim (Option-cases (index s p)) [
    | inl never ↦ absurd (ground arith)
    | inr (j, later) ↦ ground (arith, index_bound s p j later)
  ]
]
