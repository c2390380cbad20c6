-- ===== src/Confidence.antt =====
-- internal/assembler/confidence.go: the ceiling that the number of independent sources sets.
-- Confidences are thousandths.
pub mod Ceiling
use factvault.Common.{ℕ, List, [], ◌∷◌, leb, ltb, ◌==◌, if◌then◌else◌}

abbrev pub one_source_ceiling : ℕ
one_source_ceiling = 500

abbrev two_source_ceiling : ℕ
two_source_ceiling = 850

abbrev pub multi_source_ceiling : ℕ
multi_source_ceiling = 950

pub corroboration_ceiling : ℕ → ℕ
corroboration_ceiling independent_source_count =
    if leb independent_source_count 1
    then one_source_ceiling
    else if independent_source_count == 2
    then two_source_ceiling
    else multi_source_ceiling

-- The loop for the largest confidence.
pub largest : ℕ → List ℕ → ℕ
largest per_source_max [] = per_source_max
largest per_source_max (confidence ∷ rest) =
    largest (if ltb per_source_max confidence then confidence else per_source_max) rest

pub per_source_max : List ℕ → ℕ
per_source_max [] = multi_source_ceiling
per_source_max (confidence ∷ rest) = largest confidence rest

pub compute_confidence : ℕ → List ℕ → ℕ
compute_confidence independent_source_count source_confidences =
    let ceiling = corroboration_ceiling independent_source_count in
    let most = per_source_max source_confidences in if ltb most ceiling then most else ceiling
