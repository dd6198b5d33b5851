-- ===== src/LogScan/Python/Levels.antt =====
-- Which levels the scanner of Python sources gives.
use trino_gateway.Prelude.{
  ℕ, ◌+◌, ◌≡◌, refl, sym, ap, ◌∙◌, inl, inr, Bool, true, false, ◌||◌, Option, none, some, List, [],
  ◌∷◌, String, arith, Each, Each-snoc, Has, ==_iff, map, Option-cases,
}
use trino_gateway.Prelude.Text.{Text, codes, text_eq, to_lower, to_upper, upper}
use trino_gateway.Regex.Engine.{ilit, itext, Match, find, group_of, spaces}
use trino_gateway.Regex.Engine.Laws.{or_else_cases}
use trino_gateway.Regex.Engine.Language.{Stands, HasGroup, find-IsMatch, group_of-Has}
use trino_gateway.Regex.Engine.Groups.{captures, find-captures}
use trino_gateway.LogVolume.Decision.Patterns.{error_keywords, business_keywords, contains_keywords}
use trino_gateway.LogVolume.Decision.Rules.{get_level, get_message, has_level}
use trino_gateway.LogVolume.Decision.Outcomes.{is_protected}
use trino_gateway.LogScan.Statement.{LogStatement, to_dict}
use trino_gateway.LogScan.Lines.{first_found}
use trino_gateway.LogScan.Go.{ione_of, open_call, captured, text_or_empty}
use trino_gateway.LogScan.Python.Scopes.{IsPlain, keeps_logs, scan_file-scopes}
use trino_gateway.LogScan.Python.{
  State, levels, called, log_patterns, track_scopes, level_of, statement_of, with_log, scan_line,
  scan_lines, read_lines, start, scan_file,
}

-- The same text up to the case of its letters.
abbrev SameWord : Text → Text → Type 0
unfolding to_lower
SameWord w t = map to_lower t ≡ map to_lower w

itext-SameWord : (w t : Text) → Stands (itext w) t → SameWord w t
unfolding itext ilit SameWord
itext-SameWord [] t h = ap (map to_lower) h
itext-SameWord (c ∷ []) t (d, e, h) = rw (e, (==_iff (to_lower d) (to_lower c)).0 h) refl
itext-SameWord (c ∷ d ∷ w) t (u, v, e, (x, f, h), k) =
    rw (e, f, (==_iff (to_lower x) (to_lower c)).0 h, itext-SameWord (d ∷ w) v k) refl

itext-HasGroup : (w : Text) (g : ℕ × Text) → HasGroup (itext w) g → ⊥
unfolding itext ilit
itext-HasGroup [] g h = h
itext-HasGroup (c ∷ []) g h = h
itext-HasGroup (c ∷ d ∷ w) g (inl h) = h
itext-HasGroup (c ∷ d ∷ w) g (inr h) = itext-HasGroup (d ∷ w) g h

ione_of-SameWord :
    (ws : List String) (t : Text) → Stands (ione_of ws) t → Has (λ w. SameWord (codes w) t) ws
unfolding ione_of
ione_of-SameWord [] t (c, e, h) = absurd (ground (arith, h))
ione_of-SameWord (w ∷ []) t h = inl (itext-SameWord (codes w) t h)
ione_of-SameWord (w ∷ v ∷ ws) t (inl h) = inl (itext-SameWord (codes w) t h)
ione_of-SameWord (w ∷ v ∷ ws) t (inr h) = inr (ione_of-SameWord (v ∷ ws) t h)

ione_of-HasGroup : (ws : List String) (g : ℕ × Text) → HasGroup (ione_of ws) g → ⊥
unfolding ione_of
ione_of-HasGroup [] g h = h
ione_of-HasGroup (w ∷ []) g h = itext-HasGroup (codes w) g h
ione_of-HasGroup (w ∷ v ∷ ws) g (inl h) = itext-HasGroup (codes w) g h
ione_of-HasGroup (w ∷ v ∷ ws) g (inr h) = ione_of-HasGroup (v ∷ ws) g h

to_upper-to_lower : (t : Text) → map to_upper (map to_lower t) ≡ map to_upper t
unfolding to_upper to_lower
to_upper-to_lower [] = refl
to_upper-to_lower (c ∷ t) =
    let here : to_upper (to_lower c) ≡ to_upper c = ground arith in cc (here, to_upper-to_lower t)

upper-SameWord : (w t : Text) → SameWord w t → upper t ≡ upper w
unfolding upper SameWord
upper-SameWord w t h = sym (to_upper-to_lower t) ∙ (ap (map to_upper) h ∙ to_upper-to_lower w)

-- The levels of Python statements.
abbrev pub python_levels : List String
python_levels = "DEBUG" ∷ "INFO" ∷ "WARNING" ∷ "ERROR" ∷ "FATAL" ∷ []

abbrev pub HasLevel : Text → Type 0
HasLevel level = Has (λ l. level ≡ codes l) python_levels

level_of-SameWord : (w : String) (t : Text) → SameWord (codes w) t → level_of t ≡ level_of (codes w)
unfolding level_of
level_of-SameWord w t h = rw (upper-SameWord (codes w) t h) refl

level_of-HasLevel : (t : Text) → Has (λ w. SameWord (codes w) t) levels → HasLevel (level_of t)
unfolding level_of upper to_upper
level_of-HasLevel t (inl h) = inl (level_of-SameWord "debug" t h)
level_of-HasLevel t (inr (inl h)) = inr (inl (level_of-SameWord "info" t h))
level_of-HasLevel t (inr (inr (inl h))) = inr (inr (inl (level_of-SameWord "warning" t h)))
level_of-HasLevel t (inr (inr (inr (inl h)))) =
    inr (inr (inr (inl (level_of-SameWord "error" t h))))
level_of-HasLevel t (inr (inr (inr (inr (inl h))))) =
    inr (inr (inr (inr (inl (level_of-SameWord "critical" t h)))))
level_of-HasLevel t (inr (inr (inr (inr (inr (inl h)))))) =
    inr (inr (inr (inl (level_of-SameWord "exception" t h))))
level_of-HasLevel t (inr (inr (inr (inr (inr (inr h)))))) = absurd h

-- The only group of a pattern is the level.
called-HasGroup :
    (before : String) (t : Text)
    → HasGroup (called before) (1, t)
    → Has (λ w. SameWord (codes w) t) levels
unfolding called open_call spaces
called-HasGroup before t (inl h) = absurd (itext-HasGroup (codes before) (1, t) h)
called-HasGroup before t (inr (inl (inl (e, h)))) = ione_of-SameWord levels t h
called-HasGroup before t (inr (inl (inr h))) = absurd (ione_of-HasGroup levels (1, t) h)
called-HasGroup before t (inr (inr (inl h))) = absurd h
called-HasGroup before t (inr (inr (inr h))) = absurd h

called-captures : (before : String) → captures 1 (called before) ≡ true
unfolding called
called-captures before = ground arith

called-HasLevel :
    (before : String) (line : Text) (m : Match)
    → find (called before) line ≡ some m
    → HasLevel (level_of (text_or_empty (captured 1 (some m))))
unfolding captured
called-HasLevel before line m h =
    let (stands, groups) = find-IsMatch (called before) line m h in
    elim (Option-cases (group_of 1 m.groups)) [
      | inl missing ↦ absurd (
          ground
            (arith, missing, find-captures 1 (called before) line m (called-captures before) h))
      | inr (t, e) ↦ rw e (
          level_of-HasLevel t (
            called-HasGroup before t
              (group_of-Has (HasGroup (called before)) 1 m.groups t groups e)))
    ]

first_found-HasLevel :
    (befores : List String) (line : Text) (m : Match)
    → first_found (map called befores) line ≡ some m
    → HasLevel (level_of (text_or_empty (captured 1 (some m))))
unfolding first_found
first_found-HasLevel [] line m h = ground arith
first_found-HasLevel (b ∷ befores) line m h =
    elim (or_else_cases (find (called b) line) (first_found (map called befores) line) m h) [
      | inl here ↦ called-HasLevel b line m here
      | inr later ↦ first_found-HasLevel befores line m later
    ]

abbrev befores : List String
befores = "logging." ∷ "logger." ∷ "log." ∷ "self.logger." ∷ []

with_log-HasLevel :
    (file line : Text) (n : ℕ) (s : State) (o : Option Match)
    → first_found (map called befores) line ≡ o
    → Each (λ log. HasLevel log.level) s.logs
    → Each (λ log. HasLevel log.level) (with_log file n line s o).logs
unfolding with_log statement_of
with_log-HasLevel file line n s none e h = h
with_log-HasLevel file line n s (some m) e h =
    Each-snoc (λ log. HasLevel log.level) s.logs (statement_of file n line s m) h
      (first_found-HasLevel befores line m e)

scan_lines-HasLevel :
    (file : Text) (n : ℕ) (lines : List Text) (s : State)
    → Each (λ log. HasLevel log.level) s.logs
    → Each (λ log. HasLevel log.level) (scan_lines file n lines s).logs
unfolding scan_lines scan_line log_patterns
scan_lines-HasLevel file n [] s h = h
scan_lines-HasLevel file n (line ∷ lines) s h =
    let tracked = track_scopes line s in
    scan_lines-HasLevel file (n + 1) lines (scan_line file n line s) (
      with_log-HasLevel file line n tracked (first_found log_patterns line) refl
        (rw (keeps_logs line s) h))

not_warn : (level : Text) → HasLevel level → text_eq (upper level) (codes "WARN") ≡ false
unfolding upper to_upper
not_warn level (inl e) = rw e refl
not_warn level (inr (inl e)) = rw e refl
not_warn level (inr (inr (inl e))) = rw e refl
not_warn level (inr (inr (inr (inl e)))) = rw e refl
not_warn level (inr (inr (inr (inr (inl e))))) = rw e refl
not_warn level (inr (inr (inr (inr (inr h))))) = absurd h

two_false :
    (a b w h j k : Bool)
    → w ≡ false
    → h ≡ false
    → (a || b || w || h || j || k) ≡ (a || (b || (j || k)))
two_false a b w h j k e f = ground (arith, e, f)

-- The tests for the level and for the words of the message, but not that for WARN.
abbrev pub is_kept : LogStatement → Bool
unfolding to_dict contains_keywords get_message get_level
is_kept log =
    let entry = to_dict log in
    has_level entry "ERROR"
    || (has_level entry "FATAL"
        || (contains_keywords (get_message entry) error_keywords
            || contains_keywords (get_message entry) business_keywords))

unprotected :
    (log : LogStatement)
    → HasLevel log.level
    → log.in_error_handler ≡ false
    → is_protected (to_dict log) ≡ is_kept log
unfolding to_dict get_level is_kept
unprotected log h e =
    let entry = to_dict log in
    two_false (has_level entry "ERROR") (has_level entry "FATAL") (has_level entry "WARN")
      log.in_error_handler (contains_keywords (get_message entry) error_keywords)
      (contains_keywords (get_message entry) business_keywords) (not_warn log.level h) e

levels_lem :
    (logs : List LogStatement)
    → Each (λ log. HasLevel log.level) logs
    → Each IsPlain logs
    → Each (λ log. HasLevel log.level × (is_protected (to_dict log) ≡ is_kept log)) logs
levels_lem [] h k = tt
levels_lem (log ∷ logs) (l, h) ((p, q), k) = ((l, unprotected log l q), levels_lem logs h k)

-- The level of a statement of a Python source is DEBUG, INFO, WARNING, ERROR or FATAL, and of those
-- the decision engine protects, by the level, only ERROR and FATAL: a statement at WARNING is
-- protected only if a word of an error or of the business is in its message.
pub scan_file-HasLevel :
    (file content : Text)
    → Each
        (λ log. HasLevel log.level × (is_protected (to_dict log) ≡ is_kept log))
        (scan_file file (some content))
unfolding scan_file
scan_file-HasLevel file content =
    levels_lem (scan_file file (some content))
      (scan_lines-HasLevel file 1 (read_lines content) start tt) (scan_file-scopes file content)
