-- ===== src/Briefs/Ordered.antt =====
-- internal/briefs/briefs.go: the order of the conflicts.
use factvault.Common.{
  Bool, true, false, not, text_eq, text_eq_iff, ◌≡◌, ◌==◌, inl, inr, arith, IsWeakOrder,
  if◌then◌else◌, Bool-cases, text_lt_asym, text_lt_incomparable, text_lt_connex, All, All_weaken,
  List, [], ◌∷◌, ◌<◌, ◌⊎◌, sym, IsSorted, text_lt, Text,
}
use factvault.Briefs.{Conflict, conflict_less}

-- The order by two texts, one after the other, for elements of one entity.
texts_less : Text → Text → Text → Text → Bool
texts_less s v t w = if not (text_eq s t) then text_lt s t else text_lt v w

texts_less-asym : (s v t w : Text) → texts_less s v t w ≡ true → texts_less t w s v ≡ false
unfolding texts_less
texts_less-asym s v t w h =
    ground (arith, text_eq_iff s t, text_eq_iff t s, text_lt_asym s t, text_lt_asym v w)

texts_less-incomparable :
    (s v t w r x : Text)
    → texts_less s v t w ≡ false
    → texts_less t w r x ≡ false
    → texts_less s v r x ≡ false
unfolding texts_less
texts_less-incomparable s v t w r x h k = elim (Bool-cases (text_eq s t)) [
  | inl one ↦ elim (Bool-cases (text_eq t r)) [
    | inl two ↦
        ground
          (arith, text_eq_iff s t, text_eq_iff t r, text_eq_iff s r, text_lt_incomparable v w x)
    | inr two ↦ ground (arith, text_eq_iff s t, text_eq_iff t r, text_eq_iff s r)
  ]
  | inr one ↦ elim (Bool-cases (text_eq t r)) [
    | inl two ↦ ground (arith, text_eq_iff s t, text_eq_iff t r, text_eq_iff s r)
    | inr two ↦ elim (Bool-cases (text_eq s r)) [
      | inl whole ↦
          (let e = (text_eq_iff s r).0 whole in
            let back : text_lt t s ≡ false = ground arith in
            absurd (ground (arith, text_eq_iff s t, text_lt_connex s t)))
      | inr part ↦ ground (arith, text_lt_incomparable s t r)
    ]
  ]
]

pub conflict_less-IsWeakOrder : IsWeakOrder conflict_less
unfolding conflict_less texts_less
conflict_less-IsWeakOrder = record {
  asymmetric =
      λ x y h. ground (arith, texts_less-asym x.property_slug x.value_a y.property_slug y.value_a);
  incomparable = λ x y z h k. ground (
    arith,
    texts_less-incomparable x.property_slug x.value_a y.property_slug y.value_a z.property_slug
        z.value_a,
  );
}

-- The first conflict may stand before the second: by the entity, then the property, then the first
-- value.
abbrev pub IsBefore : Conflict → Conflict → Type 0
IsBefore a b =
    (a.entity_id < b.entity_id)
    ⊎ ((a.entity_id ≡ b.entity_id)
        × ((text_lt a.property_slug b.property_slug ≡ true)
            ⊎ ((a.property_slug ≡ b.property_slug) × (text_lt b.value_a a.value_a ≡ false))))

conflict_less-IsBefore : (a b : Conflict) → conflict_less b a ≡ false → IsBefore a b
unfolding conflict_less
conflict_less-IsBefore a b h = elim (Bool-cases (b.entity_id == a.entity_id)) [
  | inr apart ↦ inl (ground arith)
  | inl together ↦ elim (Bool-cases (text_eq b.property_slug a.property_slug)) [
    | inl one ↦ inr (
      ground arith,
      inr (sym ((text_eq_iff b.property_slug a.property_slug).0 one), ground arith),
    )
    | inr two ↦ elim (Bool-cases (text_lt a.property_slug b.property_slug)) [
      | inl first ↦ inr (ground arith, inl first)
      | inr neither ↦ absurd (
          ground (
            arith,
            text_eq_iff b.property_slug a.property_slug,
            text_lt_connex b.property_slug a.property_slug,
          ))
    ]
  ]
]

-- Each conflict may stand before all later ones.
abbrev pub AreOrdered : List Conflict → Type 0
AreOrdered [] = Unit
AreOrdered (c ∷ cs) = All (IsBefore c) cs × AreOrdered cs

pub IsSorted-AreOrdered : (cs : List Conflict) → IsSorted conflict_less cs → AreOrdered cs
IsSorted-AreOrdered [] h = tt
IsSorted-AreOrdered (c ∷ cs) h = (
  All_weaken (λ d. conflict_less d c ≡ false) (IsBefore c) (λ d k. conflict_less-IsBefore c d k) cs
      h.0,
  IsSorted-AreOrdered cs h.1,
)
