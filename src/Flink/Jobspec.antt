-- ===== src/Flink/Jobspec.antt =====
-- analyze_flink_job.py: `analyze_jobspec_yaml`, from the jobspec that the YAML file holds on. A key
-- that is there has a value of its type.
pub mod Laws
use trino_gateway.Prelude.{ℕ, Option, none, some, List, [], ◌∷◌, ◌++◌, String, length, map, get_or}
use trino_gateway.Prelude.Int.{ℤ}
use trino_gateway.Prelude.Text.{Text, codes}
use trino_gateway.Flink.Streams.{
  Source, Operator, Streams, streams_of, DeadStream, dead_streams, MissingStream, missing_streams,
}
use trino_gateway.Flink.Warnings.{
  Memory, written, Checkpointing, MemorySettings, Warning, check_parallelism, check_checkpoints,
  parse_memory, check_memory, check_aggregations,
}

pub record Jobspec : Type 0 where
  pub sources : Option (List Source)
  pub operators : Option (List Operator)
  pub parallelism : Option ℕ
  pub checkpointing : Option Checkpointing
  pub resources : Option MemorySettings

-- A text of `issues` with what it shows.
pub data Issue : Type 0 where
  dead_output : DeadStream → Issue
  missing_input : String → List String → Issue

pub record DagAnalysis : Type 0 where
  pub issues : List Issue
  pub warnings : List Warning
  pub streams : Streams
  pub dead : List DeadStream
  pub missing : List MissingStream
  pub total_streams : ℕ
  pub total_operators : ℕ
  pub total_sources : ℕ

-- What the call returns or raises.
pub data AnalysisResult : Type 0 where
  returned : DagAnalysis → AnalysisResult
  type_error value_error : AnalysisResult

abbrev pub cons_some {ℓ} : {A : Type ℓ} → Option A → Option (List A) → Option (List A)
cons_some none rest = none
cons_some (some a) none = none
cons_some (some a) (some xs) = some (a ∷ xs)

-- `', '.join(names)` raises a TypeError if one of them is None.
unfoldable pub joined : List (Option String) → Option (List String)
joined [] = some []
joined (n ∷ names) = cons_some n (joined names)

abbrev pub missing_issue : String → Option (List String) → Option Issue
missing_issue s none = none
missing_issue s (some names) = some (missing_input s names)

unfoldable pub missing_issues : List MissingStream → Option (List Issue)
unfolding joined
missing_issues [] = some []
missing_issues (m ∷ missing) =
    cons_some (missing_issue m.stream (joined m.consumers)) (missing_issues missing)

abbrev pub no_checkpointing : Checkpointing
no_checkpointing = record { enabled = none; interval = none; checkpoint_timeout = none }

abbrev pub no_resources : MemorySettings
no_resources = record { memory = none; managed_memory = none }

module _ (spec : Jobspec) where
  abbrev pub sources_of : List Source
  sources_of = get_or spec.sources []

  abbrev pub operators_of : List Operator
  operators_of = get_or spec.operators []

  abbrev pub graph_of : Streams
  unfolding streams_of
  graph_of = streams_of sources_of operators_of

  abbrev pub memory_of : Memory
  memory_of = get_or (get_or spec.resources no_resources).memory (written (codes "2gb"))

  abbrev pub managed_memory_of : Memory
  managed_memory_of =
      get_or (get_or spec.resources no_resources).managed_memory (written (codes "512mb"))

  unfoldable pub warnings_of : ℤ → ℤ → List Warning
  unfolding check_parallelism check_checkpoints check_memory check_aggregations
  warnings_of total_mb managed_mb =
      check_parallelism (get_or spec.parallelism 1) operators_of
      ++ (check_checkpoints (get_or spec.checkpointing no_checkpointing)
          ++ (check_memory memory_of managed_memory_of total_mb managed_mb
              ++ check_aggregations operators_of))

  unfoldable pub analysis_of : List Issue → ℤ → ℤ → DagAnalysis
  unfolding graph_of dead_streams missing_streams warnings_of
  analysis_of missing_texts total_mb managed_mb = record {
    issues = map dead_output (dead_streams graph_of) ++ missing_texts;
    warnings = warnings_of total_mb managed_mb;
    streams = graph_of;
    dead = dead_streams graph_of;
    missing = missing_streams graph_of;
    total_streams = length graph_of.all_streams;
    total_operators = length operators_of;
    total_sources = length sources_of;
  }

  abbrev pub with_memory : List Issue → Option ℤ → Option ℤ → AnalysisResult
  unfolding analysis_of
  with_memory issues none managed = value_error
  with_memory issues (some total_mb) none = value_error
  with_memory issues (some total_mb) (some managed_mb) =
      returned (analysis_of issues total_mb managed_mb)

  abbrev pub with_issues : Option (List Issue) → AnalysisResult
  unfolding with_memory parse_memory
  with_issues none = type_error
  with_issues (some issues) =
      with_memory issues (parse_memory memory_of) (parse_memory managed_memory_of)

  unfoldable pub analyze_jobspec_yaml : AnalysisResult
  unfolding graph_of missing_streams missing_issues with_issues
  analyze_jobspec_yaml = with_issues (missing_issues (missing_streams graph_of))
