-- ===== src/Learning/Scheduler.antt =====
-- internal/learning/scheduler.go. The log lines are left out.
use vibls_assignment.Common.{ℕ, ◌-◌, ◌*◌, ◌^◌}
use vibls_assignment.Job.{Time}
use vibls_assignment.Store.Rows.{Platform, M}
use vibls_assignment.Learning.{Floating, Recommendation, analyze_completed_jobs}

abbrev pub hours : ℕ → ℕ
hours n = n * 3600 * 10 ^ 9

-- RunAnalysis: the jobs of the last seven days.
unfoldable pub run_analysis : (fl : Floating) → Platform → Time → M (Recommendation fl)
run_analysis fl p now = analyze_completed_jobs fl p (now - hours (7 * 24))
