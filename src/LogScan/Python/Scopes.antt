-- ===== src/LogScan/Python/Scopes.antt =====
-- What the scanner of Python sources knows of loops and error handlers.
use trino_gateway.Prelude.{
  ℕ, ◌+◌, ◌≡◌, ◌≢◌, refl, sym, ap, ◌∙◌, ◌≤◌, ◌||◌, any, le→leb, inl, inr, false, Option, none, some,
  List, [], ◌∷◌, arith, Each, Each-snoc, Bool-cases,
}
use trino_gateway.Prelude.Text.{Text, codes, starts_with}
use trino_gateway.Prelude.Slices.{strip}
use trino_gateway.Regex.Engine.{Match}
use trino_gateway.LogVolume.Decision.Rules.{aggregate, sample}
use trino_gateway.LogVolume.Decision.{decide}
use trino_gateway.LogVolume.Decision.Outcomes.{engine}
use trino_gateway.LogScan.Statement.{LogStatement, to_dict}
use trino_gateway.LogScan.Lines.{first_found}
use trino_gateway.LogScan.Python.{
  State, Scope, loop, except, is_loop, is_except, popped, log_patterns, indent_of, enter_function,
  enter_loop, enter_except, pop_scopes, track_scopes, statement_of, with_log, scan_line, scan_lines,
  read_lines, start, scan_file,
}

-- No scope is open, and the flags say so.
abbrev pub IsOutside : State → Type 0
IsOutside s = (s.indent_stack ≡ []) × (s.in_loop ≡ false) × (s.in_try_except ≡ false)

-- The flags of a state whose stack is `stack` agree with it.
abbrev IsFlagged : List (Scope × ℕ) → State → Type 0
IsFlagged stack s =
    (s.indent_stack ≡ stack)
    × (s.in_loop ≡ any is_loop stack)
    × (s.in_try_except ≡ any is_except stack)

pop_scopes-IsOutside :
    (indent : ℕ) (stack : List (Scope × ℕ)) (s : State)
    → Each (λ p. indent ≤ p.1) stack
    → IsFlagged stack s
    → IsOutside (pop_scopes indent stack s)
unfolding pop_scopes
pop_scopes-IsOutside indent [] s low h = h
pop_scopes-IsOutside indent ((loop, n) ∷ below) s (here, low) (e, l, x) =
    rw (le→leb indent n here)
      (pop_scopes-IsOutside indent below (popped loop below s) low (refl, refl, x))
pop_scopes-IsOutside indent ((except, n) ∷ below) s (here, low) (e, l, x) =
    rw (le→leb indent n here)
      (pop_scopes-IsOutside indent below (popped except below s) low (refl, l, refl))

enter_function-IsOutside :
    (stripped : Text) (s : State) → IsOutside s → IsOutside (enter_function stripped s)
unfolding enter_function
enter_function-IsOutside stripped s h = elim (Bool-cases (starts_with (codes "def ") stripped)) [
  | inl begins ↦ rw begins h
  | inr other ↦ rw other h
]

-- The scopes that a line opens have its indentation.
abbrev AreAt : ℕ → State → Type 0
AreAt indent s = Each (λ p. indent ≤ p.1) s.indent_stack × IsFlagged s.indent_stack s

enter_loop-AreAt :
    (stripped : Text) (indent : ℕ) (s : State)
    → AreAt indent s
    → AreAt indent (enter_loop stripped indent s)
unfolding enter_loop
enter_loop-AreAt stripped indent s (low, (e, l, x)) =
    elim (Bool-cases
      (starts_with (codes "for ") stripped || starts_with (codes "while ") stripped)) [
        | inl begins ↦ rw begins ((omega arith, low), (refl, refl, x))
        | inr other ↦ rw other (low, (e, l, x))
      ]

enter_except-AreAt :
    (stripped : Text) (indent : ℕ) (s : State)
    → AreAt indent s
    → AreAt indent (enter_except stripped indent s)
unfolding enter_except
enter_except-AreAt stripped indent s (low, (e, l, x)) =
    elim (Bool-cases (starts_with (codes "except") stripped)) [
      | inl begins ↦ rw begins ((omega arith, low), (refl, l, refl))
      | inr other ↦ rw other (low, (e, l, x))
    ]

outside-AreAt : (indent : ℕ) (s : State) → IsOutside s → AreAt indent s
outside-AreAt indent s (e, l, x) =
    (rw e tt, (refl, l ∙ ap (any is_loop) (sym e), x ∙ ap (any is_except) (sym e)))

-- A scope that a line opens is closed on the same line, since its indentation is that line's.
track_scopes-IsOutside : (line : Text) (s : State) → IsOutside s → IsOutside (track_scopes line s)
unfolding track_scopes
track_scopes-IsOutside line s h =
    let stripped = strip line in
    let indent = indent_of line in
    let inside = enter_function stripped s in
    let looped = enter_loop stripped indent inside in
    let (low, flags) = enter_except-AreAt stripped indent looped (
      enter_loop-AreAt stripped indent inside
        (outside-AreAt indent inside (enter_function-IsOutside stripped s h))) in
    let entered = enter_except stripped indent looped in
    pop_scopes-IsOutside indent entered.indent_stack entered low flags

-- The statement is of no loop and of no error handler.
abbrev pub IsPlain : LogStatement → Type 0
IsPlain log = (log.in_loop ≡ false) × (log.in_error_handler ≡ false)

with_log-IsPlain :
    (file line : Text) (n : ℕ) (s : State) (m : Option Match)
    → IsOutside s
    → Each IsPlain s.logs
    → let r = with_log file n line s m in IsOutside r × Each IsPlain r.logs
unfolding with_log statement_of
with_log-IsPlain file line n s none h k = (h, k)
with_log-IsPlain file line n s (some m) (e, l, x) k =
    ((e, l, x), Each-snoc IsPlain s.logs (statement_of file n line s m) k (l, x))

pop_scopes-logs :
    (indent : ℕ) (stack : List (Scope × ℕ)) (s : State) → (pop_scopes indent stack s).logs ≡ s.logs
unfolding pop_scopes
pop_scopes-logs indent [] s = refl
pop_scopes-logs indent ((loop, n) ∷ below) s =
    let later = pop_scopes-logs indent below (popped loop below s) in ground arith
pop_scopes-logs indent ((except, n) ∷ below) s =
    let later = pop_scopes-logs indent below (popped except below s) in ground arith

pub keeps_logs : (line : Text) (s : State) → (track_scopes line s).logs ≡ s.logs
unfolding track_scopes enter_function enter_loop enter_except
keeps_logs line s =
    let stripped = strip line in
    let indent = indent_of line in
    let entered =
      enter_except stripped indent (enter_loop stripped indent (enter_function stripped s)) in
    let popping = pop_scopes-logs indent entered.indent_stack entered in ground arith

scan_lines-IsPlain :
    (file : Text) (n : ℕ) (lines : List Text) (s : State)
    → IsOutside s
    → Each IsPlain s.logs
    → Each IsPlain (scan_lines file n lines s).logs
unfolding scan_lines scan_line
scan_lines-IsPlain file n [] s h k = k
scan_lines-IsPlain file n (line ∷ lines) s h k =
    let tracked = track_scopes line s in
    let (h2, k2) =
      with_log-IsPlain file line n tracked (first_found log_patterns line)
        (track_scopes-IsOutside line s h) (rw (keeps_logs line s) k) in
    scan_lines-IsPlain file (n + 1) lines (scan_line file n line s) h2 k2

plain-decide :
    (frequency : ℕ) (log : LogStatement)
    → IsPlain log
    → let action = (decide (to_dict log) frequency).action in
      (action ≢ aggregate) × (action ≢ sample)
unfolding to_dict engine
plain-decide frequency log h = (λ a. ground arith, λ b. ground arith)

plain-Each :
    (frequency : ℕ) (logs : List LogStatement)
    → Each IsPlain logs
    → Each
        (λ log.
          (log.in_loop ≡ false)
          × (log.in_error_handler ≡ false)
          × ((decide (to_dict log) frequency).action ≢ aggregate)
          × ((decide (to_dict log) frequency).action ≢ sample))
        logs
plain-Each frequency [] h = tt
plain-Each frequency (log ∷ logs) ((l, x), h) =
    let (a, b) = plain-decide frequency log (l, x) in ((l, x, a, b), plain-Each frequency logs h)

pub scan_file-scopes : (file content : Text) → Each IsPlain (scan_file file (some content))
unfolding scan_file
scan_file-scopes file content =
    scan_lines-IsPlain file 1 (read_lines content) start (refl, refl, refl) tt

-- No statement of a Python source is known to be of a loop or of an error handler, whatever the
-- source is, and so the decision engine aggregates and samples none of them, at any frequency.
pub scan_file-IsPlain :
    (file content : Text) (frequency : ℕ)
    → Each
        (λ log.
          (log.in_loop ≡ false)
          × (log.in_error_handler ≡ false)
          × ((decide (to_dict log) frequency).action ≢ aggregate)
          × ((decide (to_dict log) frequency).action ≢ sample))
        (scan_file file (some content))
scan_file-IsPlain file content frequency =
    plain-Each frequency (scan_file file (some content)) (scan_file-scopes file content)
