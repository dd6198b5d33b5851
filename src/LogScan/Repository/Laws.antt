-- ===== src/LogScan/Repository/Laws.antt =====
-- What a scan of a repository finds.
use trino_gateway.Prelude.{
  if◌then◌else◌, ap, ◌∙◌, map, some, Each, ◌≢◌, or-false, and-true, ◌≡◌, refl, ◌↔◌, inl, inr, true,
  false, not, ◌&&◌, Option, none, List, [], String, ◌∷◌, ◌++◌, iff_trans, either_iff, Bool-cases,
  Has, Has-append, arith,
}
use trino_gateway.Prelude.Text.{Text, codes, lower, text_eq, text_eq_iff}
use trino_gateway.LogScan.Statement.{LogStatement}
use trino_gateway.LogScan.Files.{
  detect_language, Patterns, match_parts, parts_of, RelPath, Repository, get_file_patterns,
  is_excluded,
}
use trino_gateway.LogScan.Repository.Rows.{
  Row, go_row, php_row, typescript_row, javascript_row, python_row, rows, excludes_of,
}
use trino_gateway.LogScan.Repository.{
  Scanner, scan_with, get_scanner_for_language, scan_path, scan_paths, scan_patterns, language_of,
  scanner_of, patterns_of, scan_repository, scan_languages, scan_repository_all_languages,
}

-- A scan for all languages finds what the scans for the four languages find with their own patterns,
-- one scan behind the other.
scan_repository_all_languages-scan_repository :
    (r : Repository)
    → let scan = λ (language : String). scan_repository r (codes language) none none in
      scan_repository_all_languages r
      ≡ scan "go" ++ (scan "php" ++ (scan "typescript" ++ (scan "python" ++ [])))
unfolding scan_repository_all_languages scan_languages scan_repository language_of
    get_scanner_for_language
scan_repository_all_languages-scan_repository r = refl

is_excluded-Each :
    (exclude : List Text) (path : RelPath)
    → (is_excluded exclude path ≡ false)
      ↔ Each (λ exc. match_parts (parts_of exc) path ≡ false) exclude
unfolding is_excluded
is_excluded-Each [] path = (λ h. tt, λ h. refl)
is_excluded-Each (e ∷ es) path =
    let later = is_excluded-Each es path in
    (
      λ h.
          let (a, b) = or-false (match_parts (parts_of e) path) (is_excluded es path) h in
          (a, later.0 b),
      λ h. let rest = later.1 h.1 in rw (h.0, rest) refl,
    )

module _ (r : Repository) (scanner : Scanner) (exclude : List Text)
    (P : LogStatement → Type 0) where
  -- No exclude matches the file, and there is a statement in it that satisfies `P`.
  abbrev pub IsScanned : RelPath → Type 0
  IsScanned path =
      Each (λ exc. match_parts (parts_of exc) path ≡ false) exclude
      × (r.is_file path ≡ true)
      × Has P (scan_with scanner (r.full path) (r.read path))

  scan_path-Has : (path : RelPath) → Has P (scan_path r scanner exclude path) ↔ IsScanned path
  unfolding scan_path
  scan_path-Has path = elim (Bool-cases (not (is_excluded exclude path) && r.is_file path)) [
    | inl scanned ↦
        let (a, b) = and-true (not (is_excluded exclude path)) (r.is_file path) scanned in
        rw scanned (λ h. ((is_excluded-Each exclude path).0 (ground arith), b, h), λ k. k.2)
    | inr skipped ↦ rw skipped (
      λ h. absurd h,
      λ k. absurd (ground (arith, (is_excluded-Each exclude path).1 k.0, k.1, skipped)),
    )
  ]

  scan_paths-Has :
      (paths : List RelPath) → Has P (scan_paths r scanner exclude paths) ↔ Has IsScanned paths
  unfolding scan_paths
  scan_paths-Has [] = (λ h. h, λ h. h)
  scan_paths-Has (path ∷ paths) =
      iff_trans
        (Has-append P (scan_path r scanner exclude path) (scan_paths r scanner exclude paths))
        (either_iff (scan_path-Has path) (scan_paths-Has paths))

  scan_patterns-Has :
      (patterns : List Text)
      → Has P (scan_patterns r scanner exclude patterns)
        ↔ Has (λ pattern. Has IsScanned (r.glob pattern)) patterns
  unfolding scan_patterns
  scan_patterns-Has [] = (λ h. h, λ h. h)
  scan_patterns-Has (pattern ∷ patterns) =
      iff_trans
        (Has-append P (scan_paths r scanner exclude (r.glob pattern))
          (scan_patterns r scanner exclude patterns))
        (either_iff (scan_paths-Has (r.glob pattern)) (scan_patterns-Has patterns))

module _ (r : Repository) (P : LogStatement → Type 0) where
  -- With the class of the row there is such a statement in a file of one of the patterns.
  abbrev pub Finds : List Text → Row → Type 0
  Finds include w =
      Has (λ pattern. Has (IsScanned r w.scanner (excludes_of w) P) (r.glob pattern)) include

  -- A scan with the patterns of the row, and one with patterns that were asked for.
  abbrev pub ScansAs : Text → Row → Type 0
  ScansAs language w =
      (Has P (scan_repository r language none none) ↔ Finds (map codes w.include) w)
      × ((i : Text) (is : List Text)
          → Has P (scan_repository r language (some (i ∷ is)) none) ↔ Finds (i ∷ is) w)

  -- The class and the default patterns, once they are known.
  module _ (w : Row) (language known : Text)
      (scanner : scanner_of r
          (language_of r language)
          (get_scanner_for_language (language_of r language))
        ≡ (w.scanner, known))
      (found : get_file_patterns known
        ≡ record { include = map codes w.include; exclude = excludes_of w }) where
    scan_with_row :
        (include : Option (List Text))
        → let default : Patterns = record {
          include = map codes w.include;
          exclude = excludes_of w;
        } in
          let p = patterns_of r include none default in
          scan_repository r language include none ≡ scan_patterns r w.scanner p.exclude p.include
    unfolding scan_repository
    scan_with_row include =
        ap
          (λ (x : Scanner × Text).
            let p = patterns_of r include none (get_file_patterns x.1) in
            scan_patterns r x.0 p.exclude p.include)
          scanner
        ∙ ap
            (λ (d : Patterns).
              let p = patterns_of r include none d in scan_patterns r w.scanner p.exclude p.include)
            found

    scans_as : ScansAs language w
    scans_as = (
      rw (scan_with_row none)
          (scan_patterns-Has r w.scanner (excludes_of w) P (map codes w.include)),
      λ i is.
          rw (scan_with_row (some (i ∷ is)))
            (scan_patterns-Has r w.scanner (excludes_of w) P (i ∷ is)),
    )

differs : (s t : Text) → s ≢ t → text_eq s t ≡ false
differs s t h = elim (Bool-cases (text_eq s t)) [
  | inl same ↦ absurd (h ((text_eq_iff s t).0 same))
  | inr unlike ↦ unlike
]

unknown_lem :
    (r : Repository) (asked : Text)
    → Each (λ (w : Row). lower asked ≢ codes w.name) rows
    → scanner_of r asked (get_scanner_for_language asked) ≡ (Scanner.go, codes "go")
unfolding get_scanner_for_language
unknown_lem r asked (a, (b, (c, (d, (e, _))))) =
    rw
      (
        differs (lower asked) (codes "go") a,
        differs (lower asked) (codes "php") b,
        differs (lower asked) (codes "typescript") c,
        differs (lower asked) (codes "javascript") d,
        differs (lower asked) (codes "python") e,
      )
      refl

-- What a scan finds, for the language that was asked for or, for "auto", detected, by its name in
-- lower case: with the class and the patterns that the table has for that name, and with those of Go
-- if it has none, a statement with some property is found exactly if a file has one that one of the
-- patterns gives and none of the excludes matches. Patterns that are asked for replace those of the
-- table; its excludes remain.
pub scan_repository-Has :
    (r : Repository) (language : Text) (P : LogStatement → Type 0)
    → let asked = if text_eq language (codes "auto") then codes (detect_language r) else language in
      let name = lower asked in
      Each (λ w. name ≡ codes w.name → ScansAs r P language w) rows
      × (Each (λ (w : Row). name ≢ codes w.name) rows → ScansAs r P language go_row)
unfolding language_of get_scanner_for_language get_file_patterns
scan_repository-Has r language P =
    let asked = language_of r language in
    (
      (
        λ h. scans_as r P go_row language asked (rw h refl) (rw h refl),
        (
          λ h. scans_as r P php_row language asked (rw h refl) (rw h refl),
          (
            λ h. scans_as r P typescript_row language asked (rw h refl) (rw h refl),
            (
              λ h. scans_as r P javascript_row language asked (rw h refl) (rw h refl),
              (λ h. scans_as r P python_row language asked (rw h refl) (rw h refl), tt),
            ),
          ),
        ),
      ),
      λ h. scans_as r P go_row language (codes "go") (unknown_lem r asked h) refl,
    )
