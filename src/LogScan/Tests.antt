-- ===== src/LogScan/Tests.antt =====
-- Runs of the scanner, and its theorems at concrete inputs.
use trino_gateway.Prelude.{
  ◌≢◌, ℕ, ◌≤◌, ◌≡◌, ◌≢◌, inl, refl, Bool, true, false, ◌||◌, none, some, List, [], ◌∷◌, ◌++◌, map,
  any, Each, length, select, sum_of, if◌then◌else◌,
}
use trino_gateway.Prelude.Text.{Text, lower, codes, text_eq}
use trino_gateway.Prelude.Slices.{split_on}
use trino_gateway.LogVolume.Decision.Patterns.{contains_keywords}
use trino_gateway.LogVolume.Decision.Rules.{aggregate, sample, get_level, get_message}
use trino_gateway.LogVolume.Decision.{decide}
use trino_gateway.LogScan.Template.{extract_message_template}
use trino_gateway.LogScan.Template.Laws.{IsTidy, extract_message_template-IsTidy}
use trino_gateway.LogScan.Statement.{LogStatement, to_dict, generate_summary}
use trino_gateway.LogScan.Statement.Laws.{count_at, sum_counts, generate_summary-counts}
use trino_gateway.LogScan.Lines.{start, scan_lines, scan_file}
use trino_gateway.LogScan.Lines.Scopes.{IsScoped, scan_lines-IsScoped}
use trino_gateway.LogScan.Lines.Statements.{AreOfLines, scan_file-AreOfLines}
use trino_gateway.LogScan.Go.{go_scanner}
use trino_gateway.LogScan.Php.{php_scanner}
use trino_gateway.LogScan.TypeScript.{typescript_scanner}
use trino_gateway.LogScan.Python as Python
use trino_gateway.LogVolume.Decision.Outcomes.{is_protected}
use trino_gateway.LogScan.Python.Levels.{HasLevel, is_kept, scan_file-HasLevel}
use trino_gateway.LogScan.Python.Scopes.{scan_file-IsPlain}
use trino_gateway.LogScan.Files.{RelPath, Repository, excluded_dirs, get_file_patterns, is_excluded}
use trino_gateway.LogScan.Files.Laws.{ends_with, is_excluded-dir}
use trino_gateway.LogScan.Repository.{scan_repository}
use trino_gateway.LogScan.Repository.Rows.{Row, rows, go_row}
use trino_gateway.LogScan.Repository.Laws.{ScansAs, scan_repository-Has}

templates :
    (extract_message_template (codes "user 1234567 from  10.0.0.12 paid %d")
      ≡ codes "user {id} from {ip} paid {value}")
    × (extract_message_template (codes "mail a.b-c@x-y.example.com") ≡ codes "mail {email}")
    × (extract_message_template (codes "at 2024-05-01T10:00:00.123Z see https://a.b/c?d ${name}")
        ≡ codes "at {time} see {url} {value}")
    × (extract_message_template (codes "id 123e4567-e89b-12d3-a456-426614174000 k12345")
        ≡ codes "id {uuid} k12345")
unfolding extract_message_template
templates = (refl, refl, refl, refl)

abbrev go_source : Text
go_source =
    codes "func (s *Core) Run(ctx context.Context) error {\n"
    ++ (codes "\tfor _, x := range xs {\n\t\tlogger.Log(ctx).Infow(\"PAID %d\", \"id\", x)\n\t}\n"
        ++ (codes
            "\tif err != nil {\n\t\tlog.Printf(\"failed: %v\", err)\n\t}\n\tlgr.Debug(\"done\")\n}\n"))

abbrev brief : LogStatement → ℕ × Text × Text × Bool × Bool
brief l = (l.line, l.level, l.function, l.in_loop, l.in_error_handler)

go_run :
    map brief (scan_file go_scanner (codes "a.go") (some go_source))
    ≡ (3, codes "INFO", codes "Run", true, false)
      ∷ (6, codes "INFO", codes "Run", false, true)
      ∷ (8, codes "DEBUG", codes "Run", false, false)
      ∷ []
unfolding scan_file go_scanner
go_run = refl

abbrev php_source : Text
php_source =
    codes "function pay($x) {\nforeach ($xs as $y) {\n$this->trace->critical('E_PAY', $y);\n}\n}\n"

php_run :
    map brief (scan_file php_scanner (codes "a.php") (some php_source))
    ≡ (3, codes "FATAL", codes "pay", true, false) ∷ []
unfolding scan_file php_scanner
php_run = refl

abbrev typescript_source : Text
typescript_source =
    codes
      "const load = async (id) => {\n  try { get(id) } catch (e) {\n    console.warn(`no ${id}`)\n  }\n}\n"

-- The brackets behind `catch` are taken for those of a method, which is named `catch`.
typescript_run :
    map brief (scan_file typescript_scanner (codes "a.ts") (some typescript_source))
    ≡ (3, codes "WARN", codes "catch", false, true) ∷ []
unfolding scan_file typescript_scanner
typescript_run = refl

abbrev python_source : Text
python_source = codes "def run(xs):\n    for x in xs:\n        logger.exception('no %s', x)\n"

python_run :
    map brief (Python.scan_file (codes "a.py") (some python_source))
    ≡ (3, codes "ERROR", codes "run", false, false) ∷ []
unfolding Python.scan_file
python_run = refl

abbrev go_logs : List LogStatement
unfolding scan_file go_scanner
go_logs = scan_file go_scanner (codes "a.go") (some go_source)

extract_message_template-IsTidy_example :
    let t = extract_message_template (codes "user 1234567  paid %d") in
    (length t ≤ 100) × IsTidy true t
extract_message_template-IsTidy_example =
    extract_message_template-IsTidy (codes "user 1234567  paid %d")

generate_summary-counts_example :
    let q = codes "DEBUG" in
    let r = generate_summary go_logs in
    (sum_counts r.by_level ≡ r.total_logs)
    × (sum_counts r.by_file ≡ r.total_logs)
    × (r.total_logs ≡ length go_logs)
    × (count_at q r.by_level ≡ length (select (λ l. text_eq l.level q) go_logs))
    × (count_at q r.by_file ≡ length (select (λ l. text_eq l.file q) go_logs))
    × (r.in_loops ≡ length (select (λ l. l.in_loop) go_logs))
    × (r.in_error_handlers ≡ length (select (λ l. l.in_error_handler) go_logs))
    × (r.estimated_daily_bytes ≡ sum_of (λ (l : LogStatement). l.estimated_size_bytes) go_logs)
generate_summary-counts_example = generate_summary-counts (codes "DEBUG") go_logs

scan_lines-IsScoped_example :
    IsScoped (scan_lines go_scanner (codes "a.go") 1 (split_on 10 go_source) (start go_scanner))
scan_lines-IsScoped_example =
    scan_lines-IsScoped go_scanner (codes "a.go") 1 (split_on 10 go_source) (start go_scanner)
      (tt, inl refl)

scan_file-AreOfLines_example :
    AreOfLines go_scanner
      (codes "a.go")
      1
      (split_on 10 go_source)
      (scan_file go_scanner (codes "a.go") (some go_source))
scan_file-AreOfLines_example = scan_file-AreOfLines go_scanner (codes "a.go") go_source

scan_file-IsPlain_example :
    Each
      (λ log.
        (log.in_loop ≡ false)
        × (log.in_error_handler ≡ false)
        × ((decide (to_dict log) 200_000).action ≢ aggregate)
        × ((decide (to_dict log) 200_000).action ≢ sample))
      (Python.scan_file (codes "a.py") (some python_source))
scan_file-IsPlain_example = scan_file-IsPlain (codes "a.py") python_source 200_000

is_excluded-dir_example :
    is_excluded
      (get_file_patterns (codes "go")).exclude
      (codes "mux.go" ∷ codes "gorilla" ∷ codes "vendor" ∷ [])
    ≡ (any (λ d. text_eq (codes d) (codes "gorilla")) excluded_dirs
        || (ends_with (codes "_test.go") (codes "mux.go")
            || ends_with (codes "_mock.go") (codes "mux.go")))
is_excluded-dir_example = is_excluded-dir (codes "mux.go") (codes "gorilla") (codes "vendor" ∷ [])

-- A repository with a Go file and two PHP files.
abbrev glob_example : Text → List RelPath
glob_example pattern =
    if text_eq pattern (codes "**/*.go")
    then (codes "a.go" ∷ codes "vendor" ∷ codes "x" ∷ []) ∷ (codes "a.go" ∷ codes "x" ∷ []) ∷ []
    else if text_eq pattern (codes "**/*.php")
    then (codes "a.php" ∷ []) ∷ []
    else []

abbrev small : Repository
small = record {
  glob = glob_example;
  is_file = λ path. true;
  full = λ path. codes "r/a";
  read = λ path. some go_source;
}

small_run :
    map brief (scan_repository small (codes "auto") none none)
    ≡ (3, codes "INFO", codes "Run", true, false)
      ∷ (6, codes "INFO", codes "Run", false, true)
      ∷ (8, codes "DEBUG", codes "Run", false, false)
      ∷ []
unfolding scan_repository
small_run = refl

abbrev IsDebug : LogStatement → Type 0
IsDebug log = log.level ≡ codes "DEBUG"

scan_repository-Has_example :
    let name = lower (codes "Go") in
    Each (λ w. name ≡ codes w.name → ScansAs small IsDebug (codes "Go") w) rows
    × (Each (λ (w : Row). name ≢ codes w.name) rows → ScansAs small IsDebug (codes "Go") go_row)
scan_repository-Has_example = scan_repository-Has small (codes "Go") IsDebug

scan_file-HasLevel_example :
    Each
      (λ log. HasLevel log.level × (is_protected (to_dict log) ≡ is_kept log))
      (Python.scan_file (codes "a.py") (some python_source))
scan_file-HasLevel_example = scan_file-HasLevel (codes "a.py") python_source

abbrev warning_source : Text
warning_source = codes "logger.warning('slow reply')\n"

-- A warning that the decision engine does not protect.
warning_run :
    map
      (λ (log : LogStatement). is_protected (to_dict log))
      (Python.scan_file (codes "a.py") (some warning_source))
    ≡ false ∷ []
unfolding Python.scan_file to_dict get_level contains_keywords get_message
warning_run = refl
