-- ===== src/LogScan/Repository/Rows.antt =====
-- What scan_logs.py means to scan for each language, as a table.
use trino_gateway.Prelude.{List, [], ◌∷◌, ◌++◌, String, map}
use trino_gateway.Prelude.Text.{Text, codes}
use trino_gateway.LogScan.Files.{excluded_dirs}
use trino_gateway.LogScan.Repository.{Scanner}

-- A language by its name in lower case, the class that scans it, and the patterns of its files and of
-- those that are left out beside the common directories.
pub record Row : Type 0 where
  pub name : String
  pub scanner : Scanner
  pub include : List String
  pub exclude : List String

abbrev pub row : String → Scanner → List String → List String → Row
row name scanner include exclude = record {
  name = name;
  scanner = scanner;
  include = include;
  exclude = exclude;
}

-- What a scan of Go does, also for a name that is not known.
abbrev pub go_row : Row
go_row = row "go" Scanner.go ("**/*.go" ∷ []) ("**/*_test.go" ∷ "**/*_mock.go" ∷ [])

abbrev pub php_row : Row
php_row = row "php" Scanner.php ("**/*.php" ∷ []) ("**/*Test.php" ∷ "**/*_test.php" ∷ [])

abbrev pub typescript_row : Row
typescript_row =
    row "typescript" Scanner.typescript ("**/*.ts" ∷ "**/*.tsx" ∷ "**/*.js" ∷ "**/*.jsx" ∷ [])
      ("**/*.test.ts" ∷ "**/*.spec.ts" ∷ "**/*.test.js" ∷ "**/*.spec.js" ∷ "**/*.d.ts" ∷ [])

-- The class is that of TypeScript and the patterns are those of Go.
abbrev pub javascript_row : Row
javascript_row = row "javascript" Scanner.typescript go_row.include go_row.exclude

abbrev pub python_row : Row
python_row =
    row "python" Scanner.python ("**/*.py" ∷ [])
      ("**/test_*.py" ∷ "**/*_test.py" ∷ "**/conftest.py" ∷ [])

abbrev pub rows : List Row
rows = go_row ∷ php_row ∷ typescript_row ∷ javascript_row ∷ python_row ∷ []

abbrev pub excludes_of : Row → List Text
excludes_of w =
    map (λ d. codes "**/" ++ (codes d ++ codes "/**")) excluded_dirs ++ map codes w.exclude
