-- ===== src/Excerpt/Slices.antt =====
-- Slicing a text between two rune boundaries gives the runes between them.
use native.Mathlib.Nat.{add-zero}
use factvault.Common.{
  ℕ, zero, suc, ◌+◌, ◌-◌, ◌≤◌, ◌≡◌, sym, ap, ◌∙◌, List, [], ◌∷◌, ◌++◌, arith, Text, length, concat,
  take, drop, length-append, take-append-drop, concat-append, take-length_append,
  drop-length_append, take-nil,
}
use factvault.Excerpt.{slice}
use factvault.Excerpt.Seek.{byte_at}

slice_middle : (p m q : Text) → slice (p ++ (m ++ q)) (length p) (length p + length m) ≡ m
slice_middle p m q = cc (
  add_sub (length p) (length m),
  ap (λ (n : ℕ). take (length m) (drop n (p ++ (m ++ q)))) (add-zero (length p)),
  drop-length_append p (m ++ q) 0,
  take-length_append m q,
)
  where
    add_sub : (a b : ℕ) → a + b - a ≡ b
    add_sub a b = omega arith

take_split : (a b : ℕ) (cs : List Text) → a ≤ b → take b cs ≡ take a cs ++ take (b - a) (drop a cs)
take_split zero b cs h = rw (sub_zero b)
  where
    sub_zero : (b : ℕ) → b - 0 ≡ b
    sub_zero b = omega arith
take_split (suc a) zero cs h = absurd (omega arith)
take_split (suc a) (suc b) [] h = sym (take-nil Text (suc b - suc a))
take_split (suc a) (suc b) (c ∷ cs) h =
    rw (suc_sub b a) (ap (λ (r : List Text). c ∷ r) (take_split a b cs (omega arith)))
  where
    suc_sub : (b a : ℕ) → suc b - suc a ≡ b - a
    suc_sub b a = omega arith

concat_three :
    (a d : ℕ) (cs : List Text)
    → concat cs ≡ concat (take a cs) ++ (concat (take d (drop a cs)) ++ concat (drop d (drop a cs)))
concat_three a d cs = cc (
  take-append-drop a cs,
  take-append-drop d (drop a cs),
  concat-append (take a cs) (drop a cs),
  concat-append (take d (drop a cs)) (drop d (drop a cs)),
)

byte_at_add :
    (a b : ℕ) (cs : List Text)
    → a ≤ b
    → byte_at cs b ≡ byte_at cs a + length (concat (take (b - a) (drop a cs)))
byte_at_add a b cs h = cc (
  take_split a b cs h,
  concat-append (take a cs) (take (b - a) (drop a cs)),
  length-append (concat (take a cs)) (concat (take (b - a) (drop a cs))),
)

pub slice-byte_at :
    (cs : List Text) (a b : ℕ)
    → a ≤ b
    → slice (concat cs) (byte_at cs a) (byte_at cs b) ≡ concat (take (b - a) (drop a cs))
slice-byte_at cs a b h = rw (byte_at_add a b cs h) (
    ap
      (λ (t : Text).
        slice t (byte_at cs a) (byte_at cs a + length (concat (take (b - a) (drop a cs)))))
      (concat_three a (b - a) cs)
    ∙ slice_middle (concat (take a cs)) (concat (take (b - a) (drop a cs)))
        (concat (drop (b - a) (drop a cs))))

pub byte_at_mono : (cs : List Text) (a b : ℕ) → a ≤ b → byte_at cs a ≤ byte_at cs b
byte_at_mono cs a b h = omega (arith, byte_at_add a b cs h)

pub byte_at_le : (cs : List Text) (a : ℕ) → byte_at cs a ≤ length (concat cs)
byte_at_le cs a = omega (
  arith,
  ap (λ (t : Text). length t) (concat_three a 0 cs),
  length-append (concat (take a cs)) (concat (take 0 (drop a cs)) ++ concat (drop 0 (drop a cs))),
)
