-- ===== src/LogScan/Lines.antt =====
-- scan_logs.py: the loop over the lines of a file, which `GoLogScanner`, `PHPLogScanner` and
-- `TypeScriptLogScanner` share but for their patterns. A file that cannot be read is `none`; what it
-- holds is decoded, with "\n" at the ends of its lines.
pub mod Scopes
pub mod Statements
use trino_gateway.Prelude.{
  ℕ, ◌+◌, Bool, true, false, ◌&&◌, Option, none, some, List, [], ◌∷◌, ◌++◌, String, length, select,
  get_or, ◌==◌, if◌then◌else◌,
}
use trino_gateway.Prelude.Text.{Text, codes, starts_with}
use trino_gateway.Prelude.Slices.{strip, split_on}
use trino_gateway.Prelude.Int.{ℤ, pos, ◌+ℤ◌, sub_ℕ, leb_ℤ, ltb_ℤ}
use trino_gateway.Regex.Engine.{Re, Match, find, found, or_else}
use trino_gateway.LogScan.Statement.{LogStatement}
use trino_gateway.LogScan.Template.{extract_message_template}

-- What a scanner knows of its language.
pub record Dialect : Type 0 where
  pub language : String
  pub log_patterns : List Re
  pub loop_pattern : Re
  pub error_pattern : Re
  -- the name of the function that a line begins
  pub function_in : Text → Option Text
  pub extract_level : Text → String
  pub extract_message : Text → Text
  pub estimate_size : Text → ℕ

-- The variables of the loop.
pub record State : Type 0 where
  pub current_function : Text
  pub brace_depth : ℤ
  pub in_error_handler : Bool
  pub error_handler_brace_depth : ℤ
  pub loop_start_depths : List ℤ
  pub logs : List LogStatement

-- `line.count(p)`; no occurrence of the texts that are counted overlaps another.
unfoldable pub count_text : Text → Text → ℕ
count_text p [] = 0
count_text p (c ∷ s) = (if starts_with p (c ∷ s) then 1 else 0) + count_text p s

-- The match of the first pattern that has one.
unfoldable pub first_found : List Re → Text → Option Match
unfolding find
first_found [] line = none
first_found (r ∷ rs) line = or_else (find r line) (first_found rs line)

module _ (d : Dialect) where
  -- The function, the braces and the loops.
  unfoldable pub track_scopes : Text → State → State
  unfolding count_text found ◌+ℤ◌
  track_scopes line s =
      let brace_depth =
        s.brace_depth +ℤ sub_ℕ (count_text (codes "{") line) (count_text (codes "}") line) in
      let started =
        if found d.loop_pattern line
        then s.loop_start_depths ++ (brace_depth ∷ [])
        else s.loop_start_depths in
      record s {
        current_function = get_or (d.function_in line) s.current_function;
        brace_depth = brace_depth;
        loop_start_depths = select (λ n. leb_ℤ n brace_depth) started;
      }

  unfoldable pub enter_errors : Text → State → State
  unfolding found
  enter_errors line s =
      if found d.error_pattern line
      then record s { in_error_handler = true; error_handler_brace_depth = s.brace_depth }
      else s

  unfoldable pub leave_errors : State → State
  leave_errors s =
      if s.in_error_handler && ltb_ℤ s.brace_depth s.error_handler_brace_depth
      then record s { in_error_handler = false }
      else s

  abbrev pub is_nonempty : List ℤ → Bool
  is_nonempty [] = false
  is_nonempty (n ∷ ns) = true

  unfoldable pub statement_of : Text → ℕ → Text → State → Match → LogStatement
  unfolding strip extract_message_template
  statement_of file_path line_num line s m =
      let message = d.extract_message line in
      record {
        file = file_path;
        line = line_num;
        column = m.start + 1;
        level = codes (d.extract_level m.text);
        message = message;
        function = s.current_function;
        statement = strip line;
        in_loop = is_nonempty s.loop_start_depths;
        in_error_handler = s.in_error_handler;
        language = d.language;
        estimated_size_bytes = d.estimate_size line;
        message_template = extract_message_template message;
      }

  abbrev pub with_log : Text → ℕ → Text → State → Option Match → State
  unfolding statement_of
  with_log file_path line_num line s none = s
  with_log file_path line_num line s (some m) = record s {
    logs = s.logs ++ (statement_of file_path line_num line s m ∷ []);
  }

  unfoldable pub check_line : Text → ℕ → Text → State → State
  unfolding first_found with_log
  check_line file_path line_num line s =
      with_log file_path line_num line s (first_found d.log_patterns line)

  unfoldable pub scan_line : Text → ℕ → Text → State → State
  unfolding track_scopes enter_errors leave_errors check_line
  scan_line file_path line_num line s =
      check_line file_path line_num line (leave_errors (enter_errors line (track_scopes line s)))

  unfoldable pub scan_lines : Text → ℕ → List Text → State → State
  unfolding scan_line
  scan_lines file_path line_num [] s = s
  scan_lines file_path line_num (line ∷ lines) s =
      scan_lines file_path (line_num + 1) lines (scan_line file_path line_num line s)

  abbrev pub start : State
  start = record {
    current_function = codes "unknown";
    brace_depth = pos 0;
    in_error_handler = false;
    error_handler_brace_depth = pos 0;
    loop_start_depths = [];
    logs = [];
  }

  unfoldable pub scan_file : Text → Option Text → List LogStatement
  unfolding scan_lines split_on
  scan_file file_path none = []
  scan_file file_path (some content) = (scan_lines file_path 1 (split_on 10 content) start).logs
