-- ===== src/LogScan/Lines/Statements.antt =====
-- Which statements the loop over the lines finds.
use trino_gateway.Prelude.{
  ℕ, ◌+◌, ◌≤◌, ◌≡◌, refl, sym, ap, ◌∙◌, ◌⊎◌, inl, inr, Option, none, some, List, [], ◌∷◌, ◌++◌,
  append-nil, append_assoc, length, length-append, arith,
}
use trino_gateway.Prelude.Text.{Text}
use trino_gateway.Prelude.Slices.{strip, split_on}
use trino_gateway.Regex.Engine.{Re, Match, find}
use trino_gateway.Regex.Engine.Laws.{IsPart, find-IsPart, or_else_cases}
use trino_gateway.LogScan.Statement.{LogStatement}
use trino_gateway.LogScan.Template.{extract_message_template}
use trino_gateway.LogScan.Lines.{
  Dialect, State, first_found, track_scopes, enter_errors, leave_errors, with_log, statement_of,
  check_line, scan_line, scan_lines, start, scan_file,
}

first_found-some :
    (rs : List Re) (line : Text) (m : Match) → first_found rs line ≡ some m → IsPart 0 line m
unfolding first_found
first_found-some [] line m h = ground arith
first_found-some (r ∷ rs) line m h = elim (or_else_cases (find r line) (first_found rs line) m h) [
  | inl hit ↦ find-IsPart r line m hit
  | inr later ↦ first_found-some rs line m later
]

module _ (d : Dialect) where
  -- The statement is of that line: it is what the line holds, and its column lies in the line.
  abbrev pub IsOfLine : Text → Text → LogStatement → Type 0
  unfolding strip extract_message_template
  IsOfLine file line log =
      (log.file ≡ file)
      × (log.statement ≡ strip line)
      × (1 ≤ log.column)
      × (log.column ≤ length line + 1)
      × (log.message ≡ d.extract_message line)
      × (log.message_template ≡ extract_message_template log.message)

  -- The statements are of different lines, in the order of the lines, which have the numbers from
  -- `n` on.
  abbrev pub AreOfLines : Text → ℕ → List Text → List LogStatement → Type 0
  AreOfLines file n lines [] = Unit
  AreOfLines file n [] (log ∷ logs) = ⊥
  AreOfLines file n (line ∷ lines) (log ∷ logs) =
      ((log.line ≡ n) × IsOfLine file line log × AreOfLines file (n + 1) lines logs)
      ⊎ AreOfLines file (n + 1) lines (log ∷ logs)

  with_log_lem :
      (file line : Text) (n : ℕ) (s : State) (m : Option Match) (logs : List LogStatement)
      → s.logs ≡ logs
      → ((k : Match) → m ≡ some k → IsPart 0 line k)
      → ((with_log d file n line s m).logs ≡ logs)
        ⊎ ((log : LogStatement) × ((with_log d file n line s m).logs ≡ logs ++ (log ∷ []))
            × (log.line ≡ n)
            × IsOfLine file line log)
  unfolding with_log IsOfLine
  with_log_lem file line n s none logs same part = inl same
  with_log_lem file line n s (some m) logs same part =
      let (a, b, e, at) = part m refl in
      let size : length line ≡ length a + (length m.text + length b) =
        omega (arith, ap length e, length-append a (m.text ++ b), length-append m.text b) in
      let log = statement_of d file n line s m in
      inr (
        log,
        ap (λ t. t ++ (log ∷ [])) same,
        refl,
        (refl, refl, omega arith, omega (arith, at, size), refl, refl),
      )

  keeps_logs :
      (line : Text) (s : State)
      → (leave_errors d (enter_errors d line (track_scopes d line s))).logs ≡ s.logs
  unfolding track_scopes enter_errors leave_errors
  keeps_logs line s = ground arith

  later-AreOfLines :
      (file line : Text) (n : ℕ) (lines : List Text) (logs : List LogStatement)
      → AreOfLines file (n + 1) lines logs
      → AreOfLines file n (line ∷ lines) logs
  later-AreOfLines file line n lines [] h = tt
  later-AreOfLines file line n lines (log ∷ logs) h = inr h

  scan_line-logs :
      (file line : Text) (n : ℕ) (s : State)
      → ((scan_line d file n line s).logs ≡ s.logs)
        ⊎ ((log : LogStatement) × ((scan_line d file n line s).logs ≡ s.logs ++ (log ∷ []))
            × (log.line ≡ n)
            × IsOfLine file line log)
  unfolding scan_line check_line
  scan_line-logs file line n s =
      with_log_lem file line n (leave_errors d (enter_errors d line (track_scopes d line s)))
        (first_found d.log_patterns line) s.logs (keeps_logs line s)
        (first_found-some d.log_patterns line)

  scan_lines-logs :
      (file : Text) (n : ℕ) (lines : List Text) (s : State)
      → (new : List LogStatement) × ((scan_lines d file n lines s).logs ≡ s.logs ++ new)
        × AreOfLines file n lines new
  unfolding scan_lines
  scan_lines-logs file n [] s = ([], sym (append-nil s.logs), tt)
  scan_lines-logs file n (line ∷ lines) s =
      let (new, e, h) = scan_lines-logs file (n + 1) lines (scan_line d file n line s) in
      elim (scan_line-logs file line n s) [
        | inl none_here ↦
            (new, e ∙ ap (λ t. t ++ new) none_here, later-AreOfLines file line n lines new h)
        | inr (log, one_here, at, of_line) ↦ (
          log ∷ new,
          e ∙ (ap (λ t. t ++ new) one_here ∙ append_assoc s.logs (log ∷ []) new),
          inl (at, of_line, h),
        )
      ]

  -- The statements that a scanner finds in a file that can be read: at most one for each line, with
  -- the number of its line from 1 on, in the order of the lines; each holds its line without the
  -- blanks at its ends, a column inside it, and the line's message with its template.
  pub scan_file-AreOfLines :
      (file content : Text)
      → AreOfLines file 1 (split_on 10 content) (scan_file d file (some content))
  unfolding scan_file
  scan_file-AreOfLines file content =
      let (new, e, h) = scan_lines-logs file 1 (split_on 10 content) (start d) in rw e h
