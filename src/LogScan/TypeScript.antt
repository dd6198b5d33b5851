-- ===== src/LogScan/TypeScript.antt =====
-- scan_logs.py: `TypeScriptLogScanner`.
use trino_gateway.Prelude.{Option, none, some, List, [], ◌∷◌, String, if◌then◌else◌}
use trino_gateway.Prelude.Text.{Text, codes, lower, contains}
use trino_gateway.Regex.{is_word}
use trino_gateway.Regex.Engine.{
  Re, many, seq, group, Match, find, group_of, lit, text, itext, one_of, all_of, maybe, many1, but,
  spaces, spaces1,
}
use trino_gateway.LogScan.Statement.{LogStatement}
use trino_gateway.LogScan.Lines.{Dialect, scan_file}
use trino_gateway.LogScan.Go.{ione_of, open_call, captured, quoted, text_or_empty}
use trino_gateway.LogScan.Php.{word_then_call, if_begins, one_among, first_text, size_from}

abbrev levels : List String
levels = "debug" ∷ "info" ∷ "warn" ∷ "warning" ∷ "error" ∷ "fatal" ∷ []

called : String → List String → Re
unfolding itext ione_of open_call
called before words = all_of (itext (codes before) ∷ ione_of words ∷ open_call ∷ [])

log_patterns : List Re
unfolding called
log_patterns =
    called "console." ("log" ∷ "debug" ∷ "info" ∷ "warn" ∷ "error" ∷ [])
    ∷ called "logger." levels
    ∷ called "log." levels
    ∷ called "this.logger." levels
    ∷ called "Logger." levels
    ∷ []

method_call : String → Re
unfolding open_call
method_call w = seq (text (codes w)) open_call

-- `for\s*\.\.\.\s*of` and the same with `in`
for_dots : String → Re
unfolding spaces
for_dots w =
    all_of (text (codes "for") ∷ spaces ∷ text (codes "...") ∷ spaces ∷ text (codes w) ∷ [])

loop_pattern : Re
unfolding word_then_call method_call for_dots
loop_pattern = one_of (
    word_then_call "for"
    ∷ word_then_call "while"
    ∷ method_call ".forEach"
    ∷ method_call ".map"
    ∷ method_call ".filter"
    ∷ for_dots "of"
    ∷ for_dots "in"
    ∷ [])

error_pattern : Re
unfolding method_call if_begins spaces
error_pattern = one_of (
    method_call "catch"
    ∷ method_call ".catch"
    ∷ if_begins "error"
    ∷ all_of (if_begins "err" ∷ spaces ∷ lit b')' ∷ [])
    ∷ [])

-- A function, an arrow function or a method.
func_pattern : Re
unfolding spaces spaces1 open_call is_word
func_pattern = one_of (
    all_of (text (codes "function") ∷ spaces1 ∷ group 1 (many1 is_word) ∷ [])
    ∷ all_of (
        group 2 (many1 is_word)
        ∷ spaces
        ∷ one_among (codes "=:")
        ∷ spaces
        ∷ maybe (seq (text (codes "async")) spaces)
        ∷ lit b'('
        ∷ [])
    ∷ all_of (
        group 3 (many1 is_word)
        ∷ open_call
        ∷ many (but (b')' ∷ []))
        ∷ lit b')'
        ∷ spaces
        ∷ lit b'{'
        ∷ [])
    ∷ [])

-- `m.group(1) or m.group(2) or m.group(3) or "anonymous"`; a name is not empty.
name_of : Option Match → Option Text
unfolding group_of
name_of none = none
name_of (some m) = some (
    first_text (group_of 1 m.groups)
      (first_text (group_of 2 m.groups) (first_text (group_of 3 m.groups) (codes "anonymous"))))

unfoldable pub extract_level : Text → String
unfolding lower contains
extract_level match_text =
    let match_lower = lower match_text in
    if contains (codes "fatal") match_lower
    then "FATAL"
    else if contains (codes "error") match_lower
    then "ERROR"
    else if contains (codes "warn") match_lower
    then "WARN"
    else if contains (codes "info") match_lower
    then "INFO"
    else if contains (codes "debug") match_lower
    then "DEBUG"
    else if contains (codes "log") match_lower
    then "INFO"
    else "INFO"

unfoldable pub extract_message : Text → Text
unfolding find captured
extract_message line = first_text (captured 1 (find (quoted b'`') line)) (
    first_text (captured 1 (find (quoted b'"') line))
      (text_or_empty (captured 1 (find (quoted b'\'') line))))

unfoldable pub function_in : Text → Option Text
unfolding find name_of func_pattern
function_in line = name_of (find func_pattern line)

unfoldable pub typescript_scanner : Dialect
unfolding log_patterns loop_pattern error_pattern extract_level extract_message size_from
    function_in
typescript_scanner = record {
  language = "typescript";
  log_patterns = log_patterns;
  loop_pattern = loop_pattern;
  error_pattern = error_pattern;
  function_in = function_in;
  extract_level = extract_level;
  extract_message = extract_message;
  estimate_size = size_from 150 (codes "\"'`");
}

unfoldable pub scan_typescript_file : Text → Option Text → List LogStatement
unfolding scan_file typescript_scanner
scan_typescript_file = scan_file typescript_scanner
