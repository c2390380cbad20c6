-- ===== src/Confidence/Ceiling.antt =====
-- The confidence that is computed from the sources and their number: internal/assembler/confidence.go.
use factvault.Common.{
  ℕ, ◌≤◌, ◌≡◌, ◌⊎◌, refl, inl, inr, List, [], ◌∷◌, arith, All, ltb, if◌then◌else◌, min,
}
use factvault.Confidence.{
  corroboration_ceiling, largest, per_source_max, compute_confidence, one_source_ceiling,
  multi_source_ceiling,
}

-- `m` is at least each element of the list, and is one of them.
abbrev IsOneOf : ℕ → List ℕ → Type 0
IsOneOf m [] = ⊥
IsOneOf m (c ∷ cs) = (m ≡ c) ⊎ IsOneOf m cs

pub record IsLargest (m : ℕ) (cs : List ℕ) : Type 0 where
  bounds : All (λ c. c ≤ m) cs
  attained : IsOneOf m cs

largest_ge : (m : ℕ) (cs : List ℕ) → m ≤ largest m cs
unfolding largest
largest_ge m [] = omega arith
largest_ge m (c ∷ cs) = ground (arith, largest_ge (if ltb m c then c else m) cs)

largest_bounds : (m : ℕ) (cs : List ℕ) → All (λ c. c ≤ largest m cs) cs
unfolding largest
largest_bounds m [] = tt
largest_bounds m (c ∷ cs) = (
  ground (arith, largest_ge (if ltb m c then c else m) cs),
  largest_bounds (if ltb m c then c else m) cs,
)

largest_attained : (m : ℕ) (cs : List ℕ) → IsOneOf (largest m cs) (m ∷ cs)
unfolding largest
largest_attained m [] = inl refl
largest_attained m (c ∷ cs) = go (largest_attained (if ltb m c then c else m) cs)
  where
    go :
        IsOneOf (largest (if ltb m c then c else m) cs) ((if ltb m c then c else m) ∷ cs)
        → IsOneOf (largest (if ltb m c then c else m) cs) (m ∷ c ∷ cs)
    go (inl e) = ground arith
    go (inr h) = inr (inr h)

per_source_max-IsLargest : (c : ℕ) (cs : List ℕ) → IsLargest (per_source_max (c ∷ cs)) (c ∷ cs)
unfolding per_source_max
per_source_max-IsLargest c cs = record {
  bounds = (largest_ge c cs, largest_bounds c cs);
  attained = largest_attained c cs;
}

one_of_le : (a m : ℕ) (cs : List ℕ) → IsOneOf a cs → All (λ c. c ≤ m) cs → a ≤ m
one_of_le a m [] h b = absurd h
one_of_le a m (c ∷ cs) (inl e) b = omega arith
one_of_le a m (c ∷ cs) (inr h) b = one_of_le a m cs h b.1

-- With at least one source confidence, the confidence is the smaller of the largest source
-- confidence and the ceiling of the number of independent sources.
compute_confidence-min :
    (n m c : ℕ) (cs : List ℕ)
    → IsLargest m (c ∷ cs)
    → compute_confidence n (c ∷ cs) ≡ min m (corroboration_ceiling n)
unfolding compute_confidence
compute_confidence-min n m c cs h =
    let most = per_source_max-IsLargest c cs in
    ground (
      arith,
      one_of_le m (per_source_max (c ∷ cs)) (c ∷ cs) h.attained most.bounds,
      one_of_le (per_source_max (c ∷ cs)) m (c ∷ cs) most.attained h.bounds,
    )

-- More independent sources never lower the confidence.
compute_confidence_mono :
    (m n : ℕ) (cs : List ℕ) → m ≤ n → compute_confidence m cs ≤ compute_confidence n cs
unfolding compute_confidence corroboration_ceiling
compute_confidence_mono m n cs h = ground arith

-- No number of sources gives more than 0.95.
compute_confidence-le : (n : ℕ) (cs : List ℕ) → compute_confidence n cs ≤ multi_source_ceiling
unfolding compute_confidence corroboration_ceiling
compute_confidence-le n cs = ground arith

-- One independent source, or none, never gives more than half.
pub compute_confidence_single :
    (n : ℕ) (cs : List ℕ) → n ≤ 1 → compute_confidence n cs ≤ one_source_ceiling
unfolding compute_confidence corroboration_ceiling
compute_confidence_single n cs h = ground arith
