-- ===== src/LogScan/Go.antt =====
-- scan_logs.py: `GoLogScanner`. Groups that nothing reads are left out of its patterns.
use trino_gateway.Prelude.{
  ℕ, ◌+◌, ◌*◌, Option, none, some, List, [], ◌∷◌, String, length, if◌then◌else◌,
}
use trino_gateway.Prelude.Text.{Text, codes, lower, contains}
use trino_gateway.Regex.{is_word}
use trino_gateway.Regex.Engine.{
  Re, edge, many, seq, alt, group, Match, find, group_of, lit, text, ilit, itext, one_of, all_of,
  maybe, many1, but, dot, spaces, spaces1,
}
use trino_gateway.LogScan.Statement.{LogStatement}
use trino_gateway.LogScan.Lines.{Dialect, count_text, scan_file}

-- One of the words, in any case.
unfoldable pub ione_of : List String → Re
unfolding itext
ione_of [] = one_of []
ione_of (w ∷ []) = itext (codes w)
ione_of (w ∷ v ∷ ws) = alt (itext (codes w)) (ione_of (v ∷ ws))

-- `\s*\(`
unfoldable pub open_call : Re
unfolding spaces
open_call = seq spaces (lit b'(')

-- `\s*\([^)]*\)\.`
call_then : Re
unfolding open_call
call_then = all_of (open_call ∷ many (but (b')' ∷ [])) ∷ text (codes ").") ∷ [])

abbrev printed : List String
printed =
    "Print" ∷ "Printf" ∷ "Println" ∷ "Fatal" ∷ "Fatalf" ∷ "Fatalln" ∷ "Panic" ∷ "Panicf" ∷ "Panicln"
    ∷ []

abbrev log_levels : List String
log_levels = "Debug" ∷ "Info" ∷ "Warn" ∷ "Warning" ∷ "Error" ∷ "Fatal" ∷ "Panic" ∷ []

abbrev zap_levels : List String
zap_levels = "Debug" ∷ "Info" ∷ "Warn" ∷ "Error" ∷ "DPanic" ∷ "Panic" ∷ "Fatal" ∷ []

abbrev chained_levels : List String
chained_levels = "Debug" ∷ "Info" ∷ "Warn" ∷ "Error" ∷ "Fatal" ∷ []

unfoldable pub log_patterns : List Re
unfolding itext ilit ione_of open_call call_then
log_patterns =
    all_of (itext (codes "log.") ∷ ione_of printed ∷ open_call ∷ [])
    ∷ all_of (
        ione_of ("log" ∷ "logger" ∷ "lgr" ∷ [])
        ∷ lit b'.'
        ∷ ione_of log_levels
        ∷ maybe (ione_of ("f" ∷ "ln" ∷ []))
        ∷ open_call
        ∷ [])
    ∷ all_of (
        ione_of ("log" ∷ "logger" ∷ "lgr" ∷ [])
        ∷ lit b'.'
        ∷ ione_of zap_levels
        ∷ maybe (ilit b'w')
        ∷ open_call
        ∷ [])
    ∷ all_of (
        ione_of ("logger" ∷ "lgr" ∷ [])
        ∷ lit b'.'
        ∷ ione_of ("Log" ∷ "Logger" ∷ [])
        ∷ call_then
        ∷ ione_of chained_levels
        ∷ maybe (ilit b'w')
        ∷ open_call
        ∷ [])
    ∷ all_of (
        ione_of ("logger" ∷ "lgr" ∷ [])
        ∷ lit b'.'
        ∷ ione_of ("Log" ∷ "Logger" ∷ [])
        ∷ call_then
        ∷ itext (codes "With")
        ∷ many (but (b'.' ∷ []))
        ∷ lit b'.'
        ∷ ione_of chained_levels
        ∷ maybe (ilit b'w')
        ∷ open_call
        ∷ [])
    ∷ []

unfoldable pub loop_pattern : Re
unfolding spaces1
loop_pattern =
    alt (all_of (edge ∷ text (codes "for") ∷ spaces1 ∷ []))
      (all_of (edge ∷ text (codes "range") ∷ spaces1 ∷ []))

unfoldable pub error_pattern : Re
unfolding spaces spaces1
error_pattern =
    alt
      (all_of (
        text (codes "if")
        ∷ spaces1
        ∷ text (codes "err")
        ∷ spaces
        ∷ text (codes "!=")
        ∷ spaces
        ∷ text (codes "nil")
        ∷ []))
      (all_of
        (text (codes "if") ∷ spaces1 ∷ many dot ∷ text (codes "err") ∷ many dot ∷ lit b'{' ∷ []))

unfoldable pub func_pattern : Re
unfolding spaces1 open_call is_word
func_pattern = all_of (
    text (codes "func")
    ∷ spaces1
    ∷ maybe (all_of (lit b'(' ∷ many1 (but (b')' ∷ [])) ∷ lit b')' ∷ spaces1 ∷ []))
    ∷ group 1 (many1 is_word)
    ∷ open_call
    ∷ [])

-- Group `k` of a match.
unfoldable pub captured : ℕ → Option Match → Option Text
unfolding group_of
captured k none = none
captured k (some m) = group_of k m.groups

unfoldable pub extract_level : Text → String
unfolding lower contains
extract_level match_text =
    let match_lower = lower match_text in
    if contains (codes "fatal") match_lower
    then "FATAL"
    else if contains (codes "panic") match_lower
    then "PANIC"
    else if contains (codes "error") match_lower
    then "ERROR"
    else if contains (codes "warn") match_lower
    then "WARN"
    else if contains (codes "info") match_lower
    then "INFO"
    else if contains (codes "debug") match_lower
    then "DEBUG"
    else "INFO"

-- `q([^q]*)q`
abbrev pub quoted : ℕ → Re
quoted q = all_of (lit q ∷ group 1 (many (but (q ∷ []))) ∷ lit q ∷ [])

abbrev pub text_or_empty : Option Text → Text
text_or_empty none = []
text_or_empty (some t) = t

-- `len(m.group(1)) if m else 50`
abbrev pub size_or_50 : Option Text → ℕ
size_or_50 none = 50
size_or_50 (some t) = length t

unfoldable pub extract_message : Text → Text
unfolding find captured
extract_message line = text_or_empty (captured 1 (find (quoted b'"') line))

unfoldable pub estimate_size : Text → ℕ
unfolding find captured count_text
estimate_size line =
    let message_size = size_or_50 (captured 1 (find (quoted b'"') line)) in
    let field_count = count_text (codes "\",") line + count_text (codes "\", ") line in
    200 + message_size + field_count * 50

unfoldable pub function_in : Text → Option Text
unfolding find captured func_pattern
function_in line = captured 1 (find func_pattern line)

unfoldable pub go_scanner : Dialect
unfolding log_patterns loop_pattern error_pattern extract_level extract_message estimate_size
    function_in
go_scanner = record {
  language = "go";
  log_patterns = log_patterns;
  loop_pattern = loop_pattern;
  error_pattern = error_pattern;
  function_in = function_in;
  extract_level = extract_level;
  extract_message = extract_message;
  estimate_size = estimate_size;
}

unfoldable pub scan_go_file : Text → Option Text → List LogStatement
unfolding scan_file go_scanner
scan_go_file = scan_file go_scanner
