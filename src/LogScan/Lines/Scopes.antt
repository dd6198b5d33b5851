-- ===== src/LogScan/Lines/Scopes.antt =====
-- What the loop over the lines keeps of the scopes.
use trino_gateway.Prelude.{
  ℕ, ◌+◌, ◌≡◌, refl, ◌⊎◌, inl, inr, Bool, true, false, ◌&&◌, Option, none, some, List, [], ◌∷◌,
  ◌++◌, arith, Each, select, Bool-cases, if◌then◌else◌,
}
use trino_gateway.Prelude.Text.{Text}
use trino_gateway.Prelude.Int.{ℤ, ◌≤ℤ◌, leb_ℤ, ltb_ℤ}
use trino_gateway.Regex.Engine.{Match, found}
use trino_gateway.LogScan.Lines.{
  Dialect, State, first_found, track_scopes, enter_errors, leave_errors, with_log, check_line,
  scan_line, scan_lines,
}

-- Every loop that is open began at a depth that the braces have not fallen below, and so did the
-- error handler, if the state is in one.
abbrev pub IsScoped : State → Type 0
IsScoped s =
    Each (λ n. n ≤ℤ s.brace_depth) s.loop_start_depths
    × (s.in_error_handler ≡ false ⊎ (s.error_handler_brace_depth ≤ℤ s.brace_depth))

select-Each : (b : ℤ) (ns : List ℤ) → Each (λ n. n ≤ℤ b) (select (λ n. leb_ℤ n b) ns)
select-Each b [] = tt
select-Each b (n ∷ ns) = elim (Bool-cases (leb_ℤ n b)) [
  | inl low ↦ rw low (ground arith, select-Each b ns)
  | inr high ↦ rw high (select-Each b ns)
]

still_inside : (b : Bool) (x y : ℤ) → (b && ltb_ℤ x y) ≡ false → (b ≡ false) ⊎ (y ≤ℤ x)
still_inside true x y h = inr (ground arith)
still_inside false x y h = inl refl

module _ (d : Dialect) where
  enter_errors-Each :
      (line : Text) (s : State)
      → Each (λ n. n ≤ℤ s.brace_depth) s.loop_start_depths
      → let r = enter_errors d line s in Each (λ n. n ≤ℤ r.brace_depth) r.loop_start_depths
  unfolding enter_errors
  enter_errors-Each line s h = elim (Bool-cases (found d.error_pattern line)) [
    | inl enters ↦ rw enters h
    | inr stays ↦ rw stays h
  ]

  leave_errors-IsScoped :
      (s : State) → Each (λ n. n ≤ℤ s.brace_depth) s.loop_start_depths → IsScoped (leave_errors d s)
  unfolding leave_errors
  leave_errors-IsScoped s h =
      elim (Bool-cases (s.in_error_handler && ltb_ℤ s.brace_depth s.error_handler_brace_depth)) [
        | inl leaves ↦ rw leaves (h, inl refl)
        | inr stays ↦
            rw stays
              (h, still_inside s.in_error_handler s.brace_depth s.error_handler_brace_depth stays)
      ]

  track_scopes-Each :
      (line : Text) (s : State)
      → let r = track_scopes d line s in Each (λ n. n ≤ℤ r.brace_depth) r.loop_start_depths
  unfolding track_scopes
  track_scopes-Each line s =
      let r = track_scopes d line s in
      select-Each r.brace_depth (
        if found d.loop_pattern line
        then s.loop_start_depths ++ (r.brace_depth ∷ [])
        else s.loop_start_depths)

  with_log-IsScoped :
      (file line : Text) (n : ℕ) (s : State) (m : Option Match)
      → IsScoped s
      → IsScoped (with_log d file n line s m)
  unfolding with_log
  with_log-IsScoped file line n s none h = h
  with_log-IsScoped file line n s (some m) h = h

  scan_line-IsScoped : (file line : Text) (n : ℕ) (s : State) → IsScoped (scan_line d file n line s)
  unfolding scan_line check_line
  scan_line-IsScoped file line n s =
      let tracked = track_scopes d line s in
      let entered = enter_errors d line tracked in
      with_log-IsScoped file line n (leave_errors d entered) (first_found d.log_patterns line)
        (leave_errors-IsScoped entered (enter_errors-Each line tracked (track_scopes-Each line s)))

  -- Behind any lines, of whatever file, the scopes are sound: no open loop and no error handler
  -- began deeper in braces than the scanner stands.
  pub scan_lines-IsScoped :
      (file : Text) (n : ℕ) (lines : List Text) (s : State)
      → IsScoped s
      → IsScoped (scan_lines d file n lines s)
  unfolding scan_lines
  scan_lines-IsScoped file n [] s h = h
  scan_lines-IsScoped file n (line ∷ lines) s h =
      scan_lines-IsScoped file (n + 1) lines (scan_line d file n line s)
        (scan_line-IsScoped file line n s)
