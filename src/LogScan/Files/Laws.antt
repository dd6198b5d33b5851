-- ===== src/LogScan/Files/Laws.antt =====
-- Which files are left out, and which language is detected.
use trino_gateway.Prelude.{
  ℕ, ◌≤◌, ◌≡◌, refl, ap, ◌∙◌, Bool, true, false, ◌||◌, or-false, List, [], ◌∷◌, ◌++◌, String, map,
  any, all, not, arith, leb, leb→le, Bool-cases, ◌==◌, if◌then◌else◌, str_eq, inl, inr,
}
use trino_gateway.Prelude.Text.{Text, codes, text_eq}
use trino_gateway.LogScan.Files.{
  RelPath, Repository, Counts, count_languages, most_files, better, detect_language, excluded_dirs,
  get_file_patterns, some_end, match_part, match_parts, parts_of, is_excluded,
}

-- `s.endswith(p)`, with the suffix first
abbrev pub ends_with : Text → Text → Bool
ends_with p s = some_end (text_eq p) s

some_end-empty : (f : Text → Bool) (s : Text) → f [] ≡ true → some_end f s ≡ true
some_end-empty f [] h = h
some_end-empty f (c ∷ s) h = let later = some_end-empty f s h in ground arith

some_end-ap :
    (f g : Text → Bool) (s : Text) → ((t : Text) → f t ≡ g t) → some_end f s ≡ some_end g s
some_end-ap f g [] h = h []
some_end-ap f g (c ∷ s) h = rw (h (c ∷ s), some_end-ap f g s h) refl

-- A pattern with no wildcard matches itself.
match_part-text_eq : (p s : Text) → any (λ c. c == b'*') p ≡ false → match_part p s ≡ text_eq p s
unfolding match_part
match_part-text_eq [] [] h = refl
match_part-text_eq [] (c ∷ s) h = refl
match_part-text_eq (p ∷ ps) [] h =
    let (a, b) = or-false (p == b'*') (any (λ c. c == b'*') ps) h in rw a refl
match_part-text_eq (p ∷ ps) (c ∷ s) h =
    let (a, b) = or-false (p == b'*') (any (λ c. c == b'*') ps) h in
    rw (a, match_part-text_eq ps s b) refl

match_part-stars : (s : Text) → match_part (codes "**") s ≡ true
unfolding match_part
match_part-stars s = some_end-empty (λ t. some_end (match_part []) t) s refl

match_part-ends_with :
    (p s : Text) → any (λ c. c == b'*') p ≡ false → match_part (b'*' ∷ p) s ≡ ends_with p s
unfolding match_part
match_part-ends_with p s h =
    some_end-ap (match_part p) (text_eq p) s (λ t. match_part-text_eq p t h)

-- The excludes by their parts.
any_parts :
    (es : List Text) (path : RelPath)
    → is_excluded es path ≡ any (λ q. match_parts q path) (map parts_of es)
unfolding is_excluded
any_parts [] path = refl
any_parts (e ∷ es) path = ap (λ b. match_parts (parts_of e) path || b) (any_parts es path)

abbrev go_rest : List (List Text)
go_rest = (codes "*_test.go" ∷ []) ∷ (codes "*_mock.go" ∷ []) ∷ []

go_parts :
    map parts_of (get_file_patterns (codes "go")).exclude
    ≡ map (λ d. codes "**" ∷ codes d ∷ []) excluded_dirs ++ go_rest
unfolding parts_of get_file_patterns
go_parts = refl

no_wildcards : (all (λ d. not (any (λ c. c == b'*') (codes d))) excluded_dirs) ≡ true
no_wildcards = refl

module _ (name dir : Text) (above : RelPath) where
  dir_lem :
      (d : Text)
      → any (λ c. c == b'*') d ≡ false
      → match_parts (codes "**" ∷ d ∷ []) (name ∷ dir ∷ above) ≡ text_eq d dir
  unfolding match_parts
  dir_lem d h = rw (match_part-stars name, match_part-text_eq d dir h) (ground arith)

  dirs_lem :
      (ds : List String)
      → all (λ d. not (any (λ c. c == b'*') (codes d))) ds ≡ true
      → (rest : List (List Text))
      → any
          (λ q. match_parts q (name ∷ dir ∷ above))
          (map (λ d. codes "**" ∷ codes d ∷ []) ds ++ rest)
        ≡ (any (λ d. text_eq (codes d) dir) ds
            || any (λ q. match_parts q (name ∷ dir ∷ above)) rest)
  dirs_lem [] h rest = refl
  dirs_lem (d ∷ ds) h rest =
      let plain : any (λ c. c == b'*') (codes d) ≡ false = ground arith in
      let others : all (λ e. not (any (λ c. c == b'*') (codes e))) ds ≡ true = ground arith in
      rw (dir_lem (codes d) plain, dirs_lem ds others rest) (ground arith)

  suffix_lem :
      (p : Text)
      → any (λ c. c == b'*') p ≡ false
      → match_parts ((b'*' ∷ p) ∷ []) (name ∷ dir ∷ above) ≡ ends_with p name
  unfolding match_parts
  suffix_lem p h = rw (match_part-ends_with p name h) (ground arith)

  names_lem :
      any (λ q. match_parts q (name ∷ dir ∷ above)) go_rest
      ≡ (ends_with (codes "_test.go") name || ends_with (codes "_mock.go") name)
  names_lem =
      rw (suffix_lem (codes "_test.go") refl, suffix_lem (codes "_mock.go") refl) (ground arith)

  -- Of the Go files in a directory `dir` of the repository those are left out whose own directory
  -- has an excluded name, and the tests and mocks; the directories above that one play no part, so
  -- a file deeper in `vendor` is scanned.
  pub is_excluded-dir :
      is_excluded (get_file_patterns (codes "go")).exclude (name ∷ dir ∷ above) ≡ (
        any (λ d. text_eq (codes d) dir) excluded_dirs
        || (ends_with (codes "_test.go") name || ends_with (codes "_mock.go") name))
  is_excluded-dir =
      any_parts (get_file_patterns (codes "go")).exclude (name ∷ dir ∷ above)
      ∙ (ap (any (λ q. match_parts q (name ∷ dir ∷ above))) go_parts
          ∙ (dirs_lem excluded_dirs no_wildcards go_rest
              ∙ ap (λ b. any (λ d. text_eq (codes d) dir) excluded_dirs || b) names_lem))

-- The files that are counted for a language.
abbrev pub files_of : Counts → String → ℕ
files_of c l =
    if str_eq l "go"
    then c.go
    else if str_eq l "php"
    then c.php
    else if str_eq l "typescript"
    then c.typescript
    else c.python

better-IsBest :
    (f : String → ℕ) (l k : String) (n m : ℕ)
    → f l ≡ n
    → f k ≡ m
    → let p = better (l, n) (k, m) in (f p.0 ≡ p.1) × (n ≤ p.1) × (m ≤ p.1)
better-IsBest f l k n m a b = elim (Bool-cases (leb m n)) [
  | inl keeps ↦ rw keeps (a, omega arith, leb→le m n keeps)
  | inr takes ↦ rw takes (b, ground arith, omega arith)
]

most_files-IsMost :
    (c : Counts)
    → let p = most_files c in
      (files_of c p.0 ≡ p.1)
      × (c.go ≤ p.1)
      × (c.php ≤ p.1)
      × (c.typescript ≤ p.1)
      × (c.python ≤ p.1)
unfolding most_files
most_files-IsMost c =
    let p = better ("go", c.go) ("php", c.php) in
    let q = better p ("typescript", c.typescript) in
    let (e, a, b) = better-IsBest (files_of c) "go" "php" c.go c.php refl refl in
    let (f, d, t) = better-IsBest (files_of c) p.0 "typescript" p.1 c.typescript e refl in
    let (g, h, i) = better-IsBest (files_of c) q.0 "python" q.1 c.python f refl in
    (g, omega arith, omega arith, omega arith, i)

-- The language that is detected has at least as many files as each of the four.
detect_language-IsMost :
    (r : Repository)
    → let c = count_languages r in
      let n = files_of c (detect_language r) in
      (c.go ≤ n) × (c.php ≤ n) × (c.typescript ≤ n) × (c.python ≤ n)
unfolding detect_language
detect_language-IsMost r =
    let c = count_languages r in
    let p = most_files c in
    let (e, a, b, t, y) = most_files-IsMost c in
    elim (Bool-cases (p.1 == 0)) [
      | inl nothing ↦ rw nothing (omega arith, ground arith, ground arith, ground arith)
      | inr something ↦ rw (something, e) (a, b, t, y)
    ]
