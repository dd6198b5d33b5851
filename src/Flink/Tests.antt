-- ===== src/Flink/Tests.antt =====
-- Runs of the analysis of Flink jobs, and its theorems at concrete inputs.
use trino_gateway.Prelude.{
  ◌*◌, ◌<◌, ◌≡◌, ◌↔◌, refl, true, false, not, ◌&&◌, ◌||◌, Option, none, some, List, [], ◌∷◌, String,
  any, length, select,
}
use trino_gateway.Prelude.Int.{pos, negsuc}
use trino_gateway.Prelude.Text.{codes}
use trino_gateway.Flink.Streams.{
  Source, Operator, Expr, sql, streams_of, dead_streams, missing_streams,
}
use trino_gateway.Flink.Streams.Laws.{names, writes, reads}
use trino_gateway.Flink.Streams.Dead.{
  is_dead, is_missing, readers, consumers_of, dead_streams-any, missing_streams-any,
  streams_of-readers,
}
use trino_gateway.Flink.Warnings.{
  Memory, written, Warning, low_memory, parse_memory, repeated_patterns,
}
use trino_gateway.Flink.Warnings.Sizes.{is_size}
use trino_gateway.Flink.Warnings.Laws.{size_at, has_condition, repeated_patterns-counts}
use trino_gateway.Flink.Jobspec.{
  Jobspec, AnalysisResult, returned, type_error, value_error, graph_of, memory_of,
  managed_memory_of, analyze_jobspec_yaml,
}
use trino_gateway.Flink.Jobspec.Laws.{has_unnamed, analyze_jobspec_yaml-raises}
use trino_gateway.Flink.Runtime.{CheckpointCounts, CheckpointStats, analyze_checkpoint_performance}
use trino_gateway.Flink.Runtime.Laws.{is_failures, is_long, analyze_checkpoint_performance-issues}

abbrev two_sources : List Source
two_sources = record { name = some "payments" } ∷ record { name = none } ∷ []

abbrev operator_from : String → List String → Option String → Operator
operator_from name inputs output = record {
  name = some name;
  output_stream = output;
  input_streams = inputs;
  kind = some (codes "filter");
  parallelism = none;
  aggregations = [];
}

abbrev three_operators : List Operator
three_operators =
    operator_from "clean" ("payments" ∷ []) (some "cleaned")
    ∷ operator_from "count" ("cleaned" ∷ "refunds" ∷ []) (some "counts")
    ∷ operator_from "alert" ("cleaned" ∷ []) none
    ∷ []

abbrev spec_with : Option Memory → Jobspec
spec_with memory = record {
  sources = some two_sources;
  operators = some three_operators;
  parallelism = none;
  checkpointing = none;
  resources = some (record { memory = memory; managed_memory = none });
}

abbrev warned : AnalysisResult → List Warning
warned (returned a) = a.warnings
warned type_error = []
warned value_error = []

sizes :
    (parse_memory (written (codes "4GB")) ≡ some (pos 4096))
    × (parse_memory (written (codes " 512 mb")) ≡ some (pos 512))
    × (parse_memory (written (codes "8192m")) ≡ some (pos 0))
    × (parse_memory (written (codes "1.5gb")) ≡ none)
    × (parse_memory (written (codes "+4gb")) ≡ some (pos 4096))
    × (parse_memory (written (codes "-1gb")) ≡ some (negsuc 1023))
    × (parse_memory (written (codes "1_024mb")) ≡ some (pos 1024))
    × (parse_memory (written (codes "1__0mb")) ≡ none)
unfolding parse_memory
sizes = (refl, refl, refl, refl, refl, refl, refl, refl)

-- A size in the unit that Flink itself writes is taken for 0.
small_unit :
    warned (analyze_jobspec_yaml (spec_with (some (written (codes "8192m")))))
    ≡ low_memory (written (codes "8192m")) ∷ []
unfolding analyze_jobspec_yaml
small_unit = refl

dead_streams-any_example :
    is_dead "counts" (dead_streams (streams_of two_sources three_operators))
    ≡ (any (writes "counts") three_operators && not (any (reads "counts") three_operators))
dead_streams-any_example = dead_streams-any two_sources three_operators "counts"

missing_streams-any_example :
    is_missing "refunds" (missing_streams (streams_of two_sources three_operators)) ≡ (
      any (reads "refunds") three_operators
      && not (
          any (λ (t : Source). names "refunds" t.name) two_sources
          || any (writes "refunds") three_operators))
missing_streams-any_example = missing_streams-any two_sources three_operators "refunds"

streams_of-readers_example :
    consumers_of "cleaned" (streams_of two_sources three_operators)
    ≡ readers "cleaned" three_operators
streams_of-readers_example = streams_of-readers two_sources three_operators "cleaned"

analyze_jobspec_yaml-raises_example :
    let spec = spec_with (some (written (codes "1.5gb"))) in
    ((analyze_jobspec_yaml spec ≡ type_error)
      ↔ (any has_unnamed (missing_streams (graph_of spec)) ≡ true))
    × ((analyze_jobspec_yaml spec ≡ value_error) ↔ (
        (any has_unnamed (missing_streams (graph_of spec)) ≡ false)
        × ((is_size (memory_of spec) && is_size (managed_memory_of spec)) ≡ false)))
analyze_jobspec_yaml-raises_example =
    analyze_jobspec_yaml-raises (spec_with (some (written (codes "1.5gb"))))

abbrev aggregations_example : List (String × Expr)
aggregations_example =
    ("failed", sql (codes "SUM(CASE WHEN status = 'f' THEN 1 ELSE 0 END)"))
    ∷ ("lost", sql (codes "SUM(CASE WHEN status = 'f' THEN amount END)"))
    ∷ ("total", sql (codes "COUNT(*)"))
    ∷ []

repeated_patterns-counts_example :
    let k = codes "SUM(CASE WHEN status = 'f' " in
    size_at k (repeated_patterns aggregations_example [])
    ≡ length (select (has_condition k) aggregations_example)
repeated_patterns-counts_example =
    repeated_patterns-counts (codes "SUM(CASE WHEN status = 'f' ") aggregations_example

abbrev one_of_ten : CheckpointCounts
one_of_ten = record { failed = some 2; completed = some 9 }

analyze_checkpoint_performance-issues_example :
    let stats : CheckpointStats = record { counts = some one_of_ten; duration = some 60_000 } in
    let issues = analyze_checkpoint_performance (some stats) in
    ((any is_failures issues ≡ true) ↔ ((0 < 9) × (9 < 9 * 2)))
    × ((any is_long issues ≡ true) ↔ (60_000 < 60_000))
analyze_checkpoint_performance-issues_example =
    analyze_checkpoint_performance-issues one_of_ten (some 60_000)
