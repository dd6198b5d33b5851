-- ===== src/LogScan/Statement.antt =====
-- scan_logs.py: a log statement, and the summary of those that were found. `to_dict` and the JSON
-- between the scripts give an entry of LogVolume/Log that has all keys.
pub mod Laws
use trino_gateway.Prelude.{ℕ, ◌+◌, Bool, Option, some, List, [], ◌∷◌, String, length, if◌then◌else◌}
use trino_gateway.Prelude.Text.{Text, codes, text_eq}
use trino_gateway.LogVolume.Log.{LogEntry}

pub record LogStatement : Type 0 where
  pub file : Text
  pub line : ℕ
  pub column : ℕ
  pub level : Text
  pub message : Text
  pub function : Text
  pub statement : Text
  pub in_loop : Bool
  pub in_error_handler : Bool
  pub language : String
  pub estimated_size_bytes : ℕ
  pub message_template : Text

unfoldable pub to_dict : LogStatement → LogEntry
to_dict log = record {
  file = some log.file;
  line = some log.line;
  level = some log.level;
  function = some log.function;
  message = some log.message;
  message_template = some log.message_template;
  in_loop = some log.in_loop;
  in_error_handler = some log.in_error_handler;
  estimated_size_bytes = some log.estimated_size_bytes;
}

-- `d[k] = d.get(k, 0) + 1`
unfoldable pub increment_at : Text → List (Text × ℕ) → List (Text × ℕ)
increment_at k [] = (k, 1) ∷ []
increment_at k ((j, n) ∷ d) =
    let rest = increment_at k d in if text_eq j k then (j, n + 1) ∷ d else (j, n) ∷ rest

pub record LogSummary : Type 0 where
  pub total_logs : ℕ
  pub by_level : List (Text × ℕ)
  pub by_file : List (Text × ℕ)
  pub in_loops : ℕ
  pub in_error_handlers : ℕ
  pub estimated_daily_bytes : ℕ

abbrev pub bit : Bool → ℕ
bit b = if b then 1 else 0

unfoldable pub count_log : LogSummary → LogStatement → LogSummary
unfolding increment_at
count_log s log = record s {
  by_level = increment_at log.level s.by_level;
  by_file = increment_at log.file s.by_file;
  in_loops = s.in_loops + bit log.in_loop;
  in_error_handlers = s.in_error_handlers + bit log.in_error_handler;
  estimated_daily_bytes = s.estimated_daily_bytes + log.estimated_size_bytes;
}

unfoldable pub count_logs : LogSummary → List LogStatement → LogSummary
unfolding count_log
count_logs s [] = s
count_logs s (log ∷ logs) = count_logs (count_log s log) logs

unfoldable pub generate_summary : List LogStatement → LogSummary
unfolding count_logs
generate_summary logs =
    count_logs
      (record {
        total_logs = length logs;
        by_level = [];
        by_file = [];
        in_loops = 0;
        in_error_handlers = 0;
        estimated_daily_bytes = 0;
      })
      logs
