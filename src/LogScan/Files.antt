-- ===== src/LogScan/Files.antt =====
-- scan_logs.py: the language of a repository, and the files of a language. A path is that of a file
-- below the repository. pathlib's `match` is written out for relative patterns whose only wildcard
-- is `*`, as all those of `get_file_patterns` are; the program gives no other excludes.
pub mod Laws
use mathlib.Core.List.{reverse}
use trino_gateway.Prelude.{
  ℕ, ◌+◌, Bool, true, false, not, ◌&&◌, ◌||◌, Option, none, some, List, [], ◌∷◌, ◌++◌, String, map,
  any, length, leb, select, ◌==◌, if◌then◌else◌,
}
use trino_gateway.Prelude.Text.{Text, codes, lower, text_eq}
use trino_gateway.Prelude.Slices.{split_on}
use trino_gateway.Regex.Engine.{sub, text}

-- The parts of the path from the repository on, the last one first.
abbrev pub RelPath : Type 0
RelPath = List Text

-- What the repository at `repo_path` holds.
pub record Repository : Type 0 where
  -- `repo_path_obj.glob(pattern)`, relative to it
  pub glob : Text → List RelPath
  pub is_file : RelPath → Bool
  -- `str(file_path)`
  pub full : RelPath → Text
  -- what the file holds; `none` if it cannot be opened
  pub read : RelPath → Option Text

abbrev pub excluded_dirs : List String
excluded_dirs =
    "vendor" ∷ "build" ∷ "config" ∷ "bin" ∷ "scripts" ∷ "templates" ∷ "node_modules" ∷ ".git"
    ∷ "dist" ∷ "coverage" ∷ "__pycache__" ∷ "venv" ∷ ".venv" ∷ "testdata" ∷ "mocks" ∷ "mock" ∷ []

pub record Counts : Type 0 where
  pub go : ℕ
  pub php : ℕ
  pub typescript : ℕ
  pub python : ℕ

module _ (r : Repository) where
  abbrev pub count_files : String → ℕ
  count_files ext = length (r.glob (codes "**/*" ++ codes ext))

  unfoldable pub count_languages : Counts
  count_languages = record {
    go = count_files ".go";
    php = count_files ".php";
    typescript = count_files ".ts" + count_files ".tsx" + count_files ".js";
    python = count_files ".py";
  }

-- `max(counts, key=counts.get)`: of the languages with most files the first one.
abbrev pub better : String × ℕ → String × ℕ → String × ℕ
better (l, n) (k, m) = (if leb m n then l else k, if leb m n then n else m)

unfoldable pub most_files : Counts → String × ℕ
most_files c =
    better (better (better ("go", c.go) ("php", c.php)) ("typescript", c.typescript))
      ("python", c.python)

unfoldable pub detect_language : Repository → String
unfolding count_languages most_files
detect_language r =
    let (language, n) = most_files (count_languages r) in if n == 0 then "go" else language

pub record Patterns : Type 0 where
  pub include : List Text
  pub exclude : List Text

abbrev pub common_excludes : List Text
common_excludes = map (λ d. codes "**/" ++ (codes d ++ codes "/**")) excluded_dirs

abbrev pub patterns : List String → List String → Patterns
patterns include exclude = record {
  include = map codes include;
  exclude = common_excludes ++ map codes exclude;
}

abbrev pub go_patterns : Patterns
go_patterns = patterns ("**/*.go" ∷ []) ("**/*_test.go" ∷ "**/*_mock.go" ∷ [])

abbrev pub php_patterns : Patterns
php_patterns = patterns ("**/*.php" ∷ []) ("**/*Test.php" ∷ "**/*_test.php" ∷ [])

abbrev pub typescript_patterns : Patterns
typescript_patterns =
    patterns ("**/*.ts" ∷ "**/*.tsx" ∷ "**/*.js" ∷ "**/*.jsx" ∷ [])
      ("**/*.test.ts" ∷ "**/*.spec.ts" ∷ "**/*.test.js" ∷ "**/*.spec.js" ∷ "**/*.d.ts" ∷ [])

abbrev pub python_patterns : Patterns
python_patterns =
    patterns ("**/*.py" ∷ []) ("**/test_*.py" ∷ "**/*_test.py" ∷ "**/conftest.py" ∷ [])

unfoldable pub get_file_patterns : Text → Patterns
unfolding lower
get_file_patterns language =
    let l = lower language in
    if text_eq l (codes "php")
    then php_patterns
    else if text_eq l (codes "typescript")
    then typescript_patterns
    else if text_eq l (codes "python")
    then python_patterns
    else go_patterns

-- `f s'` for some end `s'` of the text
abbrev pub some_end : (Text → Bool) → Text → Bool
some_end f [] = f []
some_end f (c ∷ s) = f (c ∷ s) || some_end f s

-- Whether the pattern matches a part of a path; its wildcards are `*`.
unfoldable pub match_part : Text → Text → Bool
match_part [] [] = true
match_part [] (c ∷ s) = false
match_part (p ∷ ps) s =
    if p == b'*'
    then some_end (match_part ps) s
    else elim s [ [] ↦ false | c ∷ s ↦ (p == c) && match_part ps s ]

-- The parts of a relative pattern stand for the last parts of the path. Both start with the last one.
unfoldable pub match_parts : List Text → RelPath → Bool
unfolding match_part
match_parts [] path = true
match_parts (p ∷ ps) [] = false
match_parts (p ∷ ps) (s ∷ path) = match_part p s && match_parts ps path

abbrev pub is_nonempty : Text → Bool
is_nonempty [] = false
is_nonempty (c ∷ s) = true

-- The parts of `exc.replace('**/', '')`, the last one first.
unfoldable pub parts_of : Text → List Text
unfolding sub split_on
parts_of exc = reverse (select is_nonempty (split_on b'/' (sub (text (codes "**/")) [] exc)))

-- The loop over `exclude_patterns`, which are patterns as those of `get_file_patterns`: relative, not
-- empty behind the replacement, with no wildcard but `*`.
unfoldable pub is_excluded : List Text → RelPath → Bool
unfolding parts_of match_parts
is_excluded exclude_patterns path = any (λ exc. match_parts (parts_of exc) path) exclude_patterns
