-- ===== src/LogScan/Php.antt =====
-- scan_logs.py: `PHPLogScanner`.
use trino_gateway.Prelude.{
  ℕ, ◌+◌, ◌||◌, Option, none, some, List, [], ◌∷◌, String, any, ◌==◌, if◌then◌else◌,
}
use trino_gateway.Prelude.Text.{Text, codes, lower, contains}
use trino_gateway.Regex.{is_word}
use trino_gateway.Regex.Engine.{
  Re, edge, one, many, seq, group, find, lit, text, itext, one_of, all_of, many1, but, spaces,
  spaces1,
}
use trino_gateway.LogScan.Statement.{LogStatement}
use trino_gateway.LogScan.Lines.{Dialect, scan_file}
use trino_gateway.LogScan.Go.{ione_of, open_call, captured, quoted, text_or_empty, size_or_50}

abbrev monolog_levels : List String
monolog_levels =
    "debug" ∷ "info" ∷ "notice" ∷ "warning" ∷ "error" ∷ "critical" ∷ "alert" ∷ "emergency" ∷ []

abbrev trace_levels : List String
trace_levels = "debug" ∷ "info" ∷ "warning" ∷ "error" ∷ "critical" ∷ []

-- What stands before the level, the level, and the call.
called : String → List String → Re
unfolding itext ione_of open_call
called before levels = all_of (itext (codes before) ∷ ione_of levels ∷ open_call ∷ [])

-- `[...]` of the given characters
abbrev pub one_among : Text → Re
one_among cs = one (λ c. any (λ d. c == d) cs)

log_patterns : List Re
unfolding called spaces
log_patterns =
    called "Log::" monolog_levels
    ∷ called "$this->log->" monolog_levels
    ∷ called "logger()->" monolog_levels
    ∷ called "$this->trace->" trace_levels
    ∷ called "$trace->" trace_levels
    ∷ all_of (
        itext (codes "app")
        ∷ spaces
        ∷ lit b'('
        ∷ spaces
        ∷ one_among (codes "'\"")
        ∷ itext (codes "trace")
        ∷ one_among (codes "'\"")
        ∷ spaces
        ∷ text (codes ")->")
        ∷ ione_of trace_levels
        ∷ open_call
        ∷ [])
    ∷ called "$logger->" trace_levels
    ∷ called "$this->logger->" trace_levels
    ∷ all_of (itext (codes "error_log") ∷ open_call ∷ [])
    ∷ []

unfoldable pub word_then_call : String → Re
unfolding open_call
word_then_call w = all_of (edge ∷ text (codes w) ∷ open_call ∷ [])

loop_pattern : Re
unfolding word_then_call
loop_pattern =
    one_of (word_then_call "for" ∷ word_then_call "foreach" ∷ word_then_call "while" ∷ [])

-- `if\s*\(\s*w`
unfoldable pub if_begins : String → Re
unfolding spaces open_call
if_begins w = all_of (text (codes "if") ∷ open_call ∷ spaces ∷ text (codes w) ∷ [])

error_pattern : Re
unfolding spaces open_call if_begins
error_pattern = one_of (
    seq (text (codes "catch")) open_call
    ∷ seq (if_begins "$e") spaces
    ∷ if_begins "$exception"
    ∷ [])

func_pattern : Re
unfolding spaces1 open_call is_word
func_pattern = all_of (text (codes "function") ∷ spaces1 ∷ group 1 (many1 is_word) ∷ open_call ∷ [])

unfoldable pub extract_level : Text → String
unfolding lower contains
extract_level match_text =
    let match_lower = lower match_text in
    if contains (codes "emergency") match_lower
      || (contains (codes "critical") match_lower || contains (codes "alert") match_lower)
    then "FATAL"
    else if contains (codes "error") match_lower
    then "ERROR"
    else if contains (codes "warning") match_lower || contains (codes "notice") match_lower
    then "WARN"
    else if contains (codes "info") match_lower
    then "INFO"
    else if contains (codes "debug") match_lower
    then "DEBUG"
    else "INFO"

-- The first group that was captured.
abbrev pub first_text : Option Text → Text → Text
first_text none later = later
first_text (some t) later = t

-- The loop over the two quotes.
unfoldable pub extract_message : Text → Text
unfolding find captured
extract_message line =
    first_text (captured 1 (find (quoted b'"') line))
      (text_or_empty (captured 1 (find (quoted b'\'') line)))

-- A text between any two of the quotes, with none of them in it.
abbrev pub between_any : Text → Re
between_any quotes = all_of (one_among quotes ∷ group 1 (many (but quotes)) ∷ one_among quotes ∷ [])

unfoldable pub size_from : ℕ → Text → Text → ℕ
unfolding find captured
size_from base_overhead quotes line =
    base_overhead + size_or_50 (captured 1 (find (between_any quotes) line))

unfoldable pub function_in : Text → Option Text
unfolding find captured func_pattern
function_in line = captured 1 (find func_pattern line)

unfoldable pub php_scanner : Dialect
unfolding log_patterns loop_pattern error_pattern extract_level extract_message size_from
    function_in
php_scanner = record {
  language = "php";
  log_patterns = log_patterns;
  loop_pattern = loop_pattern;
  error_pattern = error_pattern;
  function_in = function_in;
  extract_level = extract_level;
  extract_message = extract_message;
  estimate_size = size_from 200 (codes "\"'");
}

unfoldable pub scan_php_file : Text → Option Text → List LogStatement
unfolding scan_file php_scanner
scan_php_file = scan_file php_scanner
