-- ===== src/LogScan/Repository.antt =====
-- scan_logs.py: `scan_repository` and `scan_repository_all_languages`. The arguments that are left
-- out are `none`.
pub mod Rows
pub mod Laws
use trino_gateway.Prelude.{
  Bool, true, false, not, ◌&&◌, Option, none, some, List, [], ◌∷◌, ◌++◌, get_or, if◌then◌else◌,
}
use trino_gateway.Prelude.Text.{Text, codes, lower, text_eq}
use trino_gateway.LogScan.Statement.{LogStatement}
use trino_gateway.LogScan.Python.{scan_file}
use trino_gateway.LogScan.Go.{scan_go_file}
use trino_gateway.LogScan.Php.{scan_php_file}
use trino_gateway.LogScan.TypeScript.{scan_typescript_file}
use trino_gateway.LogScan.Files.{
  RelPath, Repository, Patterns, detect_language, get_file_patterns, is_excluded,
}

-- The classes of scanners.
pub data Scanner : Type 0 where
  go php typescript python : Scanner

unfoldable pub scan_with : Scanner → Text → Option Text → List LogStatement
unfolding scan_go_file scan_php_file scan_typescript_file scan_file
scan_with go = scan_go_file
scan_with php = scan_php_file
scan_with typescript = scan_typescript_file
scan_with python = scan_file

unfoldable pub get_scanner_for_language : Text → Option Scanner
unfolding lower
get_scanner_for_language language =
    let l = lower language in
    if text_eq l (codes "go")
    then some go
    else if text_eq l (codes "php")
    then some php
    else if text_eq l (codes "typescript")
    then some typescript
    else if text_eq l (codes "javascript")
    then some typescript
    else if text_eq l (codes "python")
    then some python
    else none

module _ (r : Repository) where
  unfoldable pub scan_path : Scanner → List Text → RelPath → List LogStatement
  unfolding scan_with is_excluded
  scan_path scanner exclude_patterns path =
      if not (is_excluded exclude_patterns path) && r.is_file path
      then scan_with scanner (r.full path) (r.read path)
      else []

  unfoldable pub scan_paths : Scanner → List Text → List RelPath → List LogStatement
  unfolding scan_path
  scan_paths scanner exclude_patterns [] = []
  scan_paths scanner exclude_patterns (path ∷ paths) =
      scan_path scanner exclude_patterns path ++ scan_paths scanner exclude_patterns paths

  -- The loop over the patterns.
  unfoldable pub scan_patterns : Scanner → List Text → List Text → List LogStatement
  unfolding scan_paths
  scan_patterns scanner exclude_patterns [] = []
  scan_patterns scanner exclude_patterns (pattern ∷ patterns) =
      scan_paths scanner exclude_patterns (r.glob pattern)
      ++ scan_patterns scanner exclude_patterns patterns

  unfoldable pub language_of : Text → Text
  unfolding detect_language
  language_of language =
      if text_eq language (codes "auto") then codes (detect_language r) else language

  -- The scanner, and the language whose patterns are used.
  abbrev pub scanner_of : Text → Option Scanner → Scanner × Text
  scanner_of language (some scanner) = (scanner, language)
  scanner_of language none = (go, codes "go")

  -- `given or default`
  abbrev pub or_default : Option (List Text) → List Text → List Text
  or_default none default = default
  or_default (some []) default = default
  or_default (some (p ∷ ps)) default = p ∷ ps

  -- The default patterns are used only if one of the arguments is left out.
  abbrev pub patterns_of : Option (List Text) → Option (List Text) → Patterns → Patterns
  patterns_of (some include) (some exclude) default = record {
    include = include;
    exclude = exclude;
  }
  patterns_of none exclude default = record {
    include = default.include;
    exclude = or_default exclude default.exclude;
  }
  patterns_of (some include) none default = record {
    include = or_default (some include) default.include;
    exclude = default.exclude;
  }

  unfoldable pub scan_repository :
      Text → Option (List Text) → Option (List Text) → List LogStatement
  unfolding language_of get_scanner_for_language get_file_patterns scan_patterns
  scan_repository language include_patterns exclude_patterns =
      let asked = language_of language in
      let (scanner, known) = scanner_of asked (get_scanner_for_language asked) in
      let p = patterns_of include_patterns exclude_patterns (get_file_patterns known) in
      scan_patterns scanner p.exclude p.include

  -- One round of the loop over the languages, each of which has a scanner.
  abbrev pub scan_language : Text → Option Scanner → List LogStatement
  unfolding get_file_patterns scan_patterns
  scan_language language none = []
  scan_language language (some scanner) =
      let p = get_file_patterns language in scan_patterns scanner p.exclude p.include

  unfoldable pub scan_languages : List Text → List LogStatement
  unfolding get_scanner_for_language scan_language
  scan_languages [] = []
  scan_languages (language ∷ languages) =
      scan_language language (get_scanner_for_language language) ++ scan_languages languages

  unfoldable pub scan_repository_all_languages : List LogStatement
  unfolding scan_languages
  scan_repository_all_languages =
      scan_languages (codes "go" ∷ codes "php" ∷ codes "typescript" ∷ codes "python" ∷ [])
