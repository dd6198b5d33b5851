-- ===== src/LogScan/Python.antt =====
-- scan_logs.py: `PythonLogScanner`. Its loop follows the indentation in place of the braces; the
-- lines keep their "\n".
pub mod Scopes
pub mod Levels
use trino_gateway.Prelude.{
  ℕ, ◌+◌, ◌-◌, Bool, true, false, Option, none, some, List, [], ◌∷◌, ◌++◌, String, any, length, leb,
  get_or, ◌==◌, if◌then◌else◌, ◌||◌,
}
use trino_gateway.Prelude.Text.{Text, codes, starts_with, text_eq, upper}
use trino_gateway.Prelude.Slices.{strip, left_strip, with_head}
use trino_gateway.Regex.{is_word}
use trino_gateway.Regex.Engine.{Re, Match, seq, group, find, itext, text, all_of, many1, spaces1}
use trino_gateway.LogScan.Statement.{LogStatement}
use trino_gateway.LogScan.Template.{extract_message_template}
use trino_gateway.LogScan.Lines.{first_found}
use trino_gateway.LogScan.Go.{ione_of, open_call, captured, text_or_empty}
use trino_gateway.LogScan.Php.{extract_message, size_from}

abbrev pub levels : List String
levels = "debug" ∷ "info" ∷ "warning" ∷ "error" ∷ "critical" ∷ "exception" ∷ []

-- What stands before the level, the level, which is group 1, and the call.
unfoldable pub called : String → Re
unfolding itext ione_of open_call
called before = all_of (itext (codes before) ∷ group 1 (ione_of levels) ∷ open_call ∷ [])

unfoldable pub log_patterns : List Re
unfolding called
log_patterns = called "logging." ∷ called "logger." ∷ called "log." ∷ called "self.logger." ∷ []

unfoldable pub func_pattern : Re
unfolding spaces1 open_call is_word
func_pattern = all_of (text (codes "def") ∷ spaces1 ∷ group 1 (many1 is_word) ∷ open_call ∷ [])

-- The kinds of scope on the stack.
pub data Scope : Type 0 where
  loop except : Scope

abbrev pub is_loop : Scope × ℕ → Bool
is_loop (loop, n) = true
is_loop (except, n) = false

abbrev pub is_except : Scope × ℕ → Bool
is_except (loop, n) = false
is_except (except, n) = true

-- The variables of the loop; the top of the stack is its first entry.
pub record State : Type 0 where
  pub current_function : Text
  pub in_loop : Bool
  pub in_try_except : Bool
  pub indent_stack : List (Scope × ℕ)
  pub logs : List LogStatement

-- `len(line) - len(line.lstrip())`
unfoldable pub indent_of : Text → ℕ
unfolding left_strip
indent_of line = length line - length (left_strip line)

unfoldable pub enter_function : Text → State → State
unfolding find captured func_pattern
enter_function stripped s =
    if starts_with (codes "def ") stripped
    then record s {
      current_function = get_or (captured 1 (find func_pattern stripped)) s.current_function;
    }
    else s

unfoldable pub enter_loop : Text → ℕ → State → State
enter_loop stripped indent s =
    if starts_with (codes "for ") stripped || starts_with (codes "while ") stripped
    then record s { in_loop = true; indent_stack = (loop, indent) ∷ s.indent_stack }
    else s

unfoldable pub enter_except : Text → ℕ → State → State
enter_except stripped indent s =
    if starts_with (codes "except") stripped
    then record s { in_try_except = true; indent_stack = (except, indent) ∷ s.indent_stack }
    else s

-- The flag of a scope that is popped is set by what is left of the stack.
abbrev pub popped : Scope → List (Scope × ℕ) → State → State
popped loop below s = record s { in_loop = any is_loop below; indent_stack = below }
popped except below s = record s { in_try_except = any is_except below; indent_stack = below }

-- `while indent_stack and indent <= indent_stack[-1][1]`, over the stack of the state.
unfoldable pub pop_scopes : ℕ → List (Scope × ℕ) → State → State
pop_scopes indent [] s = s
pop_scopes indent ((scope_type, n) ∷ below) s =
    let later = pop_scopes indent below (popped scope_type below s) in
    if leb indent n then later else s

unfoldable pub level_of : Text → Text
unfolding upper
level_of word =
    let level = upper word in
    if text_eq level (codes "EXCEPTION")
    then codes "ERROR"
    else if text_eq level (codes "CRITICAL")
    then codes "FATAL"
    else level

unfoldable pub statement_of : Text → ℕ → Text → State → Match → LogStatement
unfolding strip captured level_of extract_message extract_message_template size_from
statement_of file_path line_num line s m =
    let message = extract_message line in
    record {
      file = file_path;
      line = line_num;
      column = m.start + 1;
      level = level_of (text_or_empty (captured 1 (some m)));
      message = message;
      function = s.current_function;
      statement = strip line;
      in_loop = s.in_loop;
      in_error_handler = s.in_try_except;
      language = "python";
      estimated_size_bytes = size_from 150 (codes "\"'") line;
      message_template = extract_message_template message;
    }

abbrev pub with_log : Text → ℕ → Text → State → Option Match → State
unfolding statement_of
with_log file_path line_num line s none = s
with_log file_path line_num line s (some m) = record s {
  logs = s.logs ++ (statement_of file_path line_num line s m ∷ []);
}

-- The scopes that a line enters and leaves.
unfoldable pub track_scopes : Text → State → State
unfolding strip indent_of enter_function enter_loop enter_except pop_scopes
track_scopes line s =
    let stripped = strip line in
    let indent = indent_of line in
    let entered =
      enter_except stripped indent (enter_loop stripped indent (enter_function stripped s)) in
    pop_scopes indent entered.indent_stack entered

unfoldable pub scan_line : Text → ℕ → Text → State → State
unfolding track_scopes first_found with_log log_patterns
scan_line file_path line_num line s =
    with_log file_path line_num line (track_scopes line s) (first_found log_patterns line)

unfoldable pub scan_lines : Text → ℕ → List Text → State → State
unfolding scan_line
scan_lines file_path line_num [] s = s
scan_lines file_path line_num (line ∷ lines) s =
    scan_lines file_path (line_num + 1) lines (scan_line file_path line_num line s)

-- `f.readlines()`
unfoldable pub read_lines : Text → List Text
read_lines [] = []
read_lines (c ∷ s) =
    let rest = read_lines s in if c == 10 then (10 ∷ []) ∷ rest else with_head c rest

abbrev pub start : State
start = record {
  current_function = codes "module";
  in_loop = false;
  in_try_except = false;
  indent_stack = [];
  logs = [];
}

unfoldable pub scan_file : Text → Option Text → List LogStatement
unfolding scan_lines read_lines
scan_file file_path none = []
scan_file file_path (some content) = (scan_lines file_path 1 (read_lines content) start).logs
