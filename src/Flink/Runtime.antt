-- ===== src/Flink/Runtime.antt =====
-- analyze_flink_job.py: what the answers of the Flink REST API say of a running job. `fetch_json`,
-- which returns {} where the request fails, is left out: its answers are the arguments.
pub mod Laws
use trino_gateway.Prelude.{
  ℕ, ◌+◌, ◌*◌, Bool, true, false, ◌&&◌, Option, none, some, List, [], ◌∷◌, ◌++◌, String, select,
  ltb, ◌==◌, get_or, str_eq, if◌then◌else◌,
}
use trino_gateway.Prelude.Text.{Text, codes, lower, contains_any}

-- An entry of `jobs`.
pub record Job : Type 0 where
  pub id : Option String
  pub name : Option String
  pub status : Option String

-- From the value of `jobs`, if it is there.
unfoldable pub list_running_jobs : Option (List Job) → List Job
list_running_jobs jobs = select (λ j. str_eq (get_or j.status "") "RUNNING") (get_or jobs [])

pub record Vertex : Type 0 where
  pub id : Option Text
  pub name : Option Text
  pub parallelism : Option ℕ

-- A text of the issues, with what it shows.
pub data RuntimeIssue : Type 0 where
  low_parallelism : Text → Option Text → RuntimeIssue
  checkpoint_failures : ℕ → ℕ → RuntimeIssue
  long_checkpoint : ℕ → RuntimeIssue

abbrev pub heavy_operators : List Text
heavy_operators = codes "aggregat" ∷ codes "window" ∷ codes "join" ∷ codes "reduce" ∷ []

abbrev pub vertex_name : Vertex → Text
vertex_name v = get_or v.name (codes "Unknown")

-- The loop over the vertices of the job.
unfoldable pub analyze_backpressure : List Vertex → List RuntimeIssue
unfolding lower contains_any
analyze_backpressure [] = []
analyze_backpressure (v ∷ vertices) =
    let rest = analyze_backpressure vertices in
    if get_or v.parallelism 1 == 1 && contains_any heavy_operators (lower (vertex_name v))
    then low_parallelism (vertex_name v) v.id ∷ rest
    else rest

pub record CheckpointCounts : Type 0 where
  pub failed : Option ℕ
  pub completed : Option ℕ

-- `duration` is that of the checkpoint at `completed` in `latest`, in milliseconds; without that
-- checkpoint it is absent.
pub record CheckpointStats : Type 0 where
  pub counts : Option CheckpointCounts
  pub duration : Option ℕ

abbrev pub no_counts : CheckpointCounts
no_counts = record { failed = none; completed = none }

-- `failed / (failed + completed) > 0.1`, in whole numbers.
abbrev pub fails_often : ℕ → ℕ → Bool
fails_often failed completed = ltb (failed + completed) (failed * 10)

unfoldable pub check_failures : ℕ → ℕ → List RuntimeIssue
check_failures failed completed =
    if ltb 0 failed && ltb 0 completed && fails_often failed completed
    then checkpoint_failures failed completed ∷ []
    else []

unfoldable pub check_duration : ℕ → List RuntimeIssue
check_duration duration = if ltb 60000 duration then long_checkpoint duration ∷ [] else []

-- Without statistics there are no issues.
unfoldable pub analyze_checkpoint_performance : Option CheckpointStats → List RuntimeIssue
unfolding check_failures check_duration
analyze_checkpoint_performance none = []
analyze_checkpoint_performance (some stats) =
    let counts = get_or stats.counts no_counts in
    check_failures (get_or counts.failed 0) (get_or counts.completed 0)
    ++ check_duration (get_or stats.duration 0)
