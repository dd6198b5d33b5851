-- ===== src/Flink/Runtime/Laws.antt =====
-- Which issues of a running job are reported.
use trino_gateway.Prelude.{
  ℕ, ◌*◌, ◌≡◌, ◌<◌, ◌↔◌, Bool, true, false, Option, some, ◌++◌, arith, any, get_or,
}
use trino_gateway.Flink.Runtime.{
  RuntimeIssue, low_parallelism, checkpoint_failures, long_checkpoint, CheckpointCounts,
  CheckpointStats, check_failures, check_duration, analyze_checkpoint_performance,
}

abbrev pub is_failures : RuntimeIssue → Bool
is_failures (checkpoint_failures f c) = true
is_failures (low_parallelism n i) = false
is_failures (long_checkpoint d) = false

abbrev pub is_long : RuntimeIssue → Bool
is_long (long_checkpoint d) = true
is_long (low_parallelism n i) = false
is_long (checkpoint_failures f c) = false

issues_lem :
    (f c d : ℕ)
    → let issues = check_failures f c ++ check_duration d in
      ((any is_failures issues ≡ true) ↔ ((0 < c) × (c < 9 * f)))
      × ((any is_long issues ≡ true) ↔ (60_000 < d))
unfolding check_failures check_duration
issues_lem f c d = ((λ h. ground arith, λ h. ground arith), (λ h. ground arith, λ h. ground arith))

-- Failures of checkpoints are reported exactly if some checkpoint was completed and there are fewer
-- than nine completed ones for each that failed: none are reported where all failed. The duration
-- of the latest checkpoint is reported exactly if it is more than 60,000 ms.
pub analyze_checkpoint_performance-issues :
    (counts : CheckpointCounts) (duration : Option ℕ)
    → let stats : CheckpointStats = record { counts = some counts; duration = duration } in
      let issues = analyze_checkpoint_performance (some stats) in
      let completed = get_or counts.completed 0 in
      ((any is_failures issues ≡ true)
        ↔ ((0 < completed) × (completed < 9 * get_or counts.failed 0)))
      × ((any is_long issues ≡ true) ↔ (60_000 < get_or duration 0))
unfolding analyze_checkpoint_performance check_failures check_duration
analyze_checkpoint_performance-issues counts duration =
    issues_lem (get_or counts.failed 0) (get_or counts.completed 0) (get_or duration 0)
