-- ===== src/LogScan/Statement/Laws.antt =====
-- The summary counts each statement once.
use trino_gateway.Prelude.{
  ℕ, ◌+◌, ◌≡◌, refl, List, [], ◌∷◌, length, select, arith, sum_of, if◌then◌else◌,
}
use trino_gateway.Prelude.Text.{Text, text_eq, text_eq_iff}
use trino_gateway.LogScan.Statement.{
  LogStatement, increment_at, LogSummary, bit, count_log, count_logs, generate_summary,
}

abbrev pub sum_counts : List (Text × ℕ) → ℕ
sum_counts d = sum_of (λ (x : Text × ℕ). x.1) d

-- `d.get(k, 0)`
abbrev pub count_at : Text → List (Text × ℕ) → ℕ
count_at k [] = 0
count_at k ((j, n) ∷ d) = if text_eq j k then n else count_at k d

sum_counts-increment_at :
    (k : Text) (d : List (Text × ℕ)) → sum_counts (increment_at k d) ≡ sum_counts d + 1
unfolding increment_at
sum_counts-increment_at k [] = refl
sum_counts-increment_at k ((j, n) ∷ d) = ground (arith, sum_counts-increment_at k d)

count_at-increment_at :
    (q k : Text) (d : List (Text × ℕ))
    → count_at q (increment_at k d) ≡ count_at q d + bit (text_eq k q)
unfolding increment_at
count_at-increment_at q k [] = ground arith
count_at-increment_at q k ((j, n) ∷ d) =
    ground (arith, count_at-increment_at q k d, text_eq_iff j k, text_eq_iff j q, text_eq_iff k q)

count_logs_lem :
    (q : Text) (s : LogSummary) (logs : List LogStatement)
    → let r = count_logs s logs in
      (sum_counts r.by_level ≡ sum_counts s.by_level + length logs)
      × (sum_counts r.by_file ≡ sum_counts s.by_file + length logs)
      × (count_at q r.by_level
          ≡ count_at q s.by_level + length (select (λ l. text_eq l.level q) logs))
      × (count_at q r.by_file ≡ count_at q s.by_file + length (select (λ l. text_eq l.file q) logs))
      × (r.in_loops ≡ s.in_loops + length (select (λ l. l.in_loop) logs))
      × (r.in_error_handlers ≡ s.in_error_handlers + length (select (λ l. l.in_error_handler) logs))
      × (r.estimated_daily_bytes
          ≡ s.estimated_daily_bytes + sum_of (λ (l : LogStatement). l.estimated_size_bytes) logs)
      × (r.total_logs ≡ s.total_logs)
unfolding count_logs count_log
count_logs_lem q s [] = omega arith
count_logs_lem q s (l ∷ logs) =
    let r = count_logs_lem q (count_log s l) logs in
    let a = sum_counts-increment_at l.level s.by_level in
    let b = sum_counts-increment_at l.file s.by_file in
    let c = count_at-increment_at q l.level s.by_level in
    let d = count_at-increment_at q l.file s.by_file in
    (
      omega (arith, r, a),
      omega (arith, r, b),
      ground (arith, r, c),
      ground (arith, r, d),
      ground (arith, r),
      ground (arith, r),
      omega (arith, r),
      ground (arith, r),
    )

-- The summary of a list of log statements: the counts by level and those by file each add up to
-- their number, the count of a level or of a file is the number of the statements that have it, and
-- so are those in loops and in error handlers; the bytes are the sum of the estimated sizes.
pub generate_summary-counts :
    (q : Text) (logs : List LogStatement)
    → let r = generate_summary logs in
      (sum_counts r.by_level ≡ r.total_logs)
      × (sum_counts r.by_file ≡ r.total_logs)
      × (r.total_logs ≡ length logs)
      × (count_at q r.by_level ≡ length (select (λ l. text_eq l.level q) logs))
      × (count_at q r.by_file ≡ length (select (λ l. text_eq l.file q) logs))
      × (r.in_loops ≡ length (select (λ l. l.in_loop) logs))
      × (r.in_error_handlers ≡ length (select (λ l. l.in_error_handler) logs))
      × (r.estimated_daily_bytes ≡ sum_of (λ (l : LogStatement). l.estimated_size_bytes) logs)
unfolding generate_summary
generate_summary-counts q logs =
    let start : LogSummary = record {
      total_logs = length logs;
      by_level = [];
      by_file = [];
      in_loops = 0;
      in_error_handlers = 0;
      estimated_daily_bytes = 0;
    } in
    let r = count_logs_lem q start logs in omega (arith, r)
