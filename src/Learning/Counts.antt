-- ===== src/Learning/Counts.antt =====
-- What the failure counts of internal/learning/analyzer.go count.
use vibls_assignment.Common.{ℕ, String, ◌&&◌, List, [], ◌∷◌, ◌==◌, if◌then◌else◌, length, keep}
use vibls_assignment.Job.{Job}
use vibls_assignment.Learning.{FailurePattern, failed_somewhere}

-- The count that is reported for a stage, 0 if there is no pattern for it.
abbrev pub reported_count : String → List FailurePattern → ℕ
reported_count stage [] = 0
reported_count stage (x ∷ xs) = if x.stage == stage then x.count else reported_count stage xs

-- The jobs that failed at a stage.
abbrev pub failures_at : String → List Job → ℕ
failures_at stage jobs = length (keep (λ j. failed_somewhere j && j.current_stage == stage) jobs)
