-- ===== src/Corroborate/Similarity.antt =====
-- Every text is similar to itself.
use factvault.Common.{suc, ◌≡◌, refl, ap, true, List, [], ◌∷◌, arith, All, Text, length, All-map}
use factvault.Corroborate.{Trigram, trigram_eq, has_trigram, trigrams, intersection, is_similar}

trigram_eq_refl : (t : Trigram) → trigram_eq t t ≡ true
unfolding trigram_eq
trigram_eq_refl (a, b, c) = ground arith

AllIn : List Trigram → List Trigram → Type 0
AllIn ts set = All (λ t. has_trigram t set ≡ true) ts

has_trigram-cons :
    (x t : Trigram) (set : List Trigram) → has_trigram t set ≡ true → has_trigram t (x ∷ set) ≡ true
unfolding has_trigram
has_trigram-cons x t set h = ground (arith, h)

all_in_self : (ts : List Trigram) → All (λ t. has_trigram t ts ≡ true) ts
all_in_self [] = tt
all_in_self (t ∷ ts) = (
  unfold has_trigram in ground (arith, trigram_eq_refl t),
  All-map _ _ (λ x h. has_trigram-cons t x ts h) ts (all_in_self ts),
)

intersection_all :
    (ts set : List Trigram)
    → All (λ t. has_trigram t set ≡ true) ts
    → intersection ts set ≡ length ts
unfolding intersection
intersection_all [] set h = refl
intersection_all (t ∷ ts) set h = rw h.0 (ap suc (intersection_all ts set h.1))

pub is_similar_refl : (a : Text) → is_similar a a ≡ true
unfolding is_similar
is_similar_refl a =
    ground (arith, intersection_all (trigrams a) (trigrams a) (all_in_self (trigrams a)))
