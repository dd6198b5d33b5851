-- ===== src/Trino/Plan.antt =====
-- .agents/skills/trino-analyzer/scripts/analyze_query_plan.py: `parse_query_plan`. `float` reads a text
-- of digits and points as a number of millionths or raises a ValueError; it is an argument. A plan on
-- which it raises is `none`. The score counts in halves.
pub mod Laws
use trino_gateway.Prelude.{
  ℕ, ◌+◌, ◌*◌, max, Bool, true, false, ◌||◌, Option, none, some, List, [], ◌∷◌, ◌++◌, String,
  get_or, ◌==◌, if◌then◌else◌,
}
use trino_gateway.Prelude.Text.{Text, codes, lower, contains}
use trino_gateway.Prelude.Slices.{split_on, int_of}
use trino_gateway.Trino.Scan.{search_text, rows_at, value_at, table_at}

pub record Features : Type 0 where
  pub has_join : Bool
  pub join_count : ℕ
  pub join_types : List String
  pub has_aggregation : Bool
  pub aggregation_count : ℕ
  pub has_window_functions : Bool
  pub has_table_scan : Bool
  pub table_scan_count : ℕ
  pub scanned_tables : List Text
  pub has_filter : Bool
  pub has_sort : Bool
  pub has_limit : Bool
  pub output_rows_estimate : ℕ
  pub cpu_estimate : ℕ
  pub memory_estimate : ℕ

abbrev pub no_features : Features
no_features = record {
  has_join = false;
  join_count = 0;
  join_types = [];
  has_aggregation = false;
  aggregation_count = 0;
  has_window_functions = false;
  has_table_scan = false;
  table_scan_count = 0;
  scanned_tables = [];
  has_filter = false;
  has_sort = false;
  has_limit = false;
  output_rows_estimate = 0;
  cpu_estimate = 0;
  memory_estimate = 0;
}

abbrev pub has : String → Text → Bool
unfolding contains
has word line_lower = contains (codes word) line_lower

-- The type that a line with a join adds, if it names one.
unfoldable pub join_type : Text → List String
unfolding has
join_type line_lower =
    if has "inner join" line_lower
    then "INNER" ∷ []
    else if has "left join" line_lower
    then "LEFT" ∷ []
    else if has "right join" line_lower
    then "RIGHT" ∷ []
    else if has "cross join" line_lower
    then "CROSS" ∷ []
    else []

unfoldable pub detect_join : Text → Features → Features
unfolding has join_type
detect_join line_lower f =
    if has "join" line_lower
    then record f {
      has_join = true;
      join_count = f.join_count + 1;
      join_types = f.join_types ++ join_type line_lower;
    }
    else f

unfoldable pub detect_aggregation : Text → Features → Features
unfolding has
detect_aggregation line_lower f =
    if has "aggregate" line_lower || has "group by" line_lower
    then record f { has_aggregation = true; aggregation_count = f.aggregation_count + 1 }
    else f

abbrev pub listed : Option Text → List Text
listed none = []
listed (some t) = t ∷ []

unfoldable pub detect_scan : Text → Text → Features → Features
unfolding has search_text table_at
detect_scan line line_lower f =
    if has "tablescan" line_lower || has "scan" line_lower
    then record f {
      has_table_scan = true;
      table_scan_count = f.table_scan_count + 1;
      scanned_tables = f.scanned_tables ++ listed (search_text table_at line);
    }
    else f

-- Window functions, filters, sorting and limits.
unfoldable pub detect_marks : Text → Features → Features
unfolding has
detect_marks line_lower f = record f {
  has_window_functions = f.has_window_functions || has "window" line_lower;
  has_filter = f.has_filter || (has "filter" line_lower || has "where" line_lower);
  has_sort = f.has_sort || (has "sort" line_lower || has "order by" line_lower);
  has_limit = f.has_limit || has "limit" line_lower;
}

-- `int` of the digits that were matched
abbrev pub rows_of : Option Text → ℕ
unfolding int_of
rows_of none = 0
rows_of (some t) = get_or (int_of t) 0

module _ (float : Text → Option ℕ) where
  -- `max(estimate, float(...))` where there is a match
  abbrev pub larger_of : ℕ → Option Text → Option ℕ
  larger_of n none = some n
  larger_of n (some t) = elim (float t) [ none ↦ none | some m ↦ some (max n m) ]

  abbrev pub with_estimates : Features → Option ℕ → Option ℕ → Option Features
  with_estimates f (some cpu) (some memory) =
      some (record f { cpu_estimate = cpu; memory_estimate = memory })
  with_estimates f _ _ = none

  unfoldable pub parse_line : Text → Features → Option Features
  unfolding detect_join detect_aggregation detect_scan detect_marks lower search_text rows_at
      value_at rows_of
  parse_line line f =
      let line_lower = lower line in
      let g =
        detect_marks line_lower (
          detect_scan line line_lower (detect_aggregation line_lower (detect_join line_lower f))) in
      with_estimates
        (record g {
          output_rows_estimate =
              max g.output_rows_estimate (rows_of (search_text rows_at line_lower));
        })
        (larger_of g.cpu_estimate (search_text (value_at (codes "cpu:")) line_lower))
        (larger_of g.memory_estimate (search_text (value_at (codes "memory:")) line_lower))

  abbrev pub go_on : (Features → Option Features) → Option Features → Option Features
  go_on rest none = none
  go_on rest (some f) = rest f

  unfoldable pub parse_lines : List Text → Features → Option Features
  unfolding parse_line
  parse_lines [] f = some f
  parse_lines (line ∷ lines) f = go_on (parse_lines lines) (parse_line line f)

-- The lines of a text.
abbrev pub split_lines : Text → List Text
unfolding split_on
split_lines s = split_on 10 s

unfoldable pub parse_query_plan : (float : Text → Option ℕ) → Text → Option Features
unfolding parse_lines split_on
parse_query_plan float explain_output = parse_lines float (split_lines explain_output) no_features

-- In halves.
unfoldable pub complexity_score : Features → ℕ
complexity_score f =
    f.join_count * 4
    + f.aggregation_count * 3
    + (if f.has_window_functions then 4 else 0)
    + f.table_scan_count
    + (if f.has_sort then 2 else 0)
