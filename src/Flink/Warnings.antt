-- ===== src/Flink/Warnings.antt =====
-- analyze_flink_job.py: the warnings of `analyze_jobspec_yaml`. A warning has one constructor for
-- each text, with what the text shows.
pub mod Sizes
pub mod Laws
use trino_gateway.Prelude.{
  ℕ, ◌+◌, ◌*◌, Bool, true, false, ◌||◌, Option, none, some, List, [], ◌∷◌, ◌++◌, String, any,
  length, map, ltb, ◌==◌, get_or, if◌then◌else◌,
}
use trino_gateway.Prelude.Int.{ℤ, pos, times, ltb_ℤ}
use trino_gateway.Prelude.Text.{Text, codes, text_eq, lower, upper, starts_with, contains}
use trino_gateway.Prelude.Slices.{signed_int_of}
use trino_gateway.Regex.Engine.{sub, text}
use trino_gateway.Flink.Streams.{Expr, sql, other, Operator}

-- A size in YAML: a number, or a text such as 2gb.
pub data Memory : Type 0 where
  number : ℤ → Memory
  written : Text → Memory

pub record Checkpointing : Type 0 where
  pub enabled : Option Bool
  pub interval : Option ℕ
  pub checkpoint_timeout : Option ℕ

pub record MemorySettings : Type 0 where
  pub memory : Option Memory
  pub managed_memory : Option Memory

pub data Warning : Type 0 where
  default_parallelism low_parallelism : Option String → Text → Warning
  frequent_checkpoints : ℕ → Warning
  short_timeout : ℕ → ℕ → Warning
  low_memory : Memory → Warning
  low_managed_memory : Memory → Memory → Warning
  many_aggregations similar_conditions : Option String → ℕ → Warning

abbrev pub when : Bool → Warning → List Warning
when b w = if b then w ∷ [] else []

-- `operator.get('type', '').upper()`
abbrev pub type_of : Operator → Text
unfolding upper
type_of o = upper (get_or o.kind [])

abbrev pub is_heavy : Text → Bool
is_heavy t =
    text_eq t (codes "WINDOW_AGGREGATOR")
    || (text_eq t (codes "RULE_EVALUATOR") || text_eq t (codes "RCA_ANALYZER"))

-- The parallelism of the job, then that of the operator.
abbrev pub warn_parallelism : ℕ → Option String → Text → Option ℕ → List Warning
warn_parallelism job name t none = when (job == 1) (default_parallelism name t)
warn_parallelism job name t (some n) = when (n == 1) (low_parallelism name t)

unfoldable pub check_parallelism : ℕ → List Operator → List Warning
unfolding type_of
check_parallelism job [] = []
check_parallelism job (o ∷ operators) =
    (if is_heavy (type_of o) then warn_parallelism job o.name (type_of o) o.parallelism else [])
    ++ check_parallelism job operators

unfoldable pub check_checkpoints : Checkpointing → List Warning
check_checkpoints c =
    let interval = get_or c.interval 60000 in
    let timeout = get_or c.checkpoint_timeout 300000 in
    if get_or c.enabled false
    then when (ltb interval 10000) (frequent_checkpoints interval)
      ++ when (ltb timeout (interval * 3)) (short_timeout timeout interval)
    else []

abbrev pub times_1024 : Option ℤ → Option ℤ
times_1024 none = none
times_1024 (some n) = some (times 1024 n)

-- `int(s.replace(unit, ''))`; `none` is a ValueError.
unfoldable pub int_without : Text → Text → Option ℤ
unfolding sub signed_int_of
int_without unit s = signed_int_of (sub (text unit) [] s)

-- The nested function `parse_memory`; `none` is a ValueError.
unfoldable pub parse_memory : Memory → Option ℤ
unfolding lower contains int_without
parse_memory (number n) = some n
parse_memory (written t) =
    let mem_str = lower t in
    if contains (codes "gb") mem_str
    then times_1024 (int_without (codes "gb") mem_str)
    else if contains (codes "mb") mem_str
    then int_without (codes "mb") mem_str
    else some (pos 0)

-- The two comparisons; `managed_mb < total_mb * 0.2` is exact for the sizes of a memory.
unfoldable pub check_memory : Memory → Memory → ℤ → ℤ → List Warning
check_memory memory managed_memory total_mb managed_mb =
    when (ltb_ℤ total_mb (pos 2048)) (low_memory memory)
    ++ when (ltb_ℤ (times 5 managed_mb) total_mb) (low_managed_memory managed_memory memory)

-- `agg_expr.split('THEN')[0] if 'THEN' in agg_expr else agg_expr`
unfoldable pub before_then : Text → Text
before_then [] = []
before_then (c ∷ s) = if starts_with (codes "THEN") (c ∷ s) then [] else c ∷ before_then s

abbrev pub Conditions : Type 0
Conditions = List (Text × List String)

unfoldable pub append_at : Text → String → Conditions → Conditions
append_at k name [] = (k, name ∷ []) ∷ []
append_at k name ((j, names) ∷ d) =
    let rest = append_at k name d in
    if text_eq j k then (j, names ++ (name ∷ [])) ∷ d else (j, names) ∷ rest

unfoldable pub add_condition : String → Expr → Conditions → Conditions
unfolding upper contains append_at before_then
add_condition name other d = d
add_condition name (sql e) d =
    if contains (codes "CASE WHEN") (upper e) then append_at (before_then e) name d else d

unfoldable pub repeated_patterns : List (String × Expr) → Conditions → Conditions
unfolding add_condition
repeated_patterns [] d = d
repeated_patterns ((name, e) ∷ aggregations) d =
    repeated_patterns aggregations (add_condition name e d)

unfoldable pub warn_repeated : Option String → Conditions → List Warning
warn_repeated name [] = []
warn_repeated name ((condition, agg_names) ∷ d) =
    when (ltb 3 (length agg_names)) (similar_conditions name (length agg_names))
    ++ warn_repeated name d

unfoldable pub check_aggregations : List Operator → List Warning
unfolding type_of repeated_patterns warn_repeated
check_aggregations [] = []
check_aggregations (o ∷ operators) =
    (if text_eq (type_of o) (codes "WINDOW_AGGREGATOR")
      then when (ltb 50 (length o.aggregations)) (many_aggregations o.name (length o.aggregations))
        ++ warn_repeated o.name (repeated_patterns o.aggregations [])
      else [])
    ++ check_aggregations operators
