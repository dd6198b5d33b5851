-- ===== src/Trino/Plan/Laws.antt =====
-- What the features of a plan say of its lines.
use trino_gateway.Prelude.{
  ℕ, ◌+◌, ◌≤◌, ◌<◌, ◌≡◌, sym, ◌↔◌, inl, inr, true, Option, none, some, List, [], max, ◌∷◌, length,
  length-append, arith, Option-cases,
}
use trino_gateway.Prelude.Text.{Text, lower}
use trino_gateway.Trino.Scan.{search_text, table_at, rows_at}
use trino_gateway.Trino.Plan.{
  Features, no_features, join_type, detect_join, detect_aggregation, detect_scan, detect_marks,
  listed, parse_line, parse_lines, split_lines, parse_query_plan, with_estimates, rows_of,
}

-- The flags say whether the counts are above 0; no more join types or tables are listed than joins
-- or scans were counted, and no more joins, aggregations and scans than the three numbers.
abbrev pub IsCounted : ℕ → ℕ → ℕ → Features → Type 0
IsCounted a b c f =
    ((f.has_join ≡ true) ↔ (0 < f.join_count))
    × ((f.has_aggregation ≡ true) ↔ (0 < f.aggregation_count))
    × ((f.has_table_scan ≡ true) ↔ (0 < f.table_scan_count))
    × (length f.join_types ≤ f.join_count)
    × (length f.scanned_tables ≤ f.table_scan_count)
    × (f.join_count ≤ a)
    × (f.aggregation_count ≤ b)
    × (f.table_scan_count ≤ c)

length-join_type : (line : Text) → length (join_type line) ≤ 1
unfolding join_type
length-join_type line = ground arith

length-listed : (t : Option Text) → length (listed t) ≤ 1
length-listed none = omega arith
length-listed (some t) = omega arith

module _ (a b c : ℕ) (f : Features) (h : IsCounted a b c f) where
  detect_join-IsCounted : (l : Text) → IsCounted (a + 1) b c (detect_join l f)
  unfolding detect_join
  detect_join-IsCounted l =
      ground (arith, length-append f.join_types (join_type l), length-join_type l)

  detect_aggregation-IsCounted : (l : Text) → IsCounted a (b + 1) c (detect_aggregation l f)
  unfolding detect_aggregation
  detect_aggregation-IsCounted l = ground arith

  detect_scan-IsCounted : (line l : Text) → IsCounted a b (c + 1) (detect_scan line l f)
  unfolding detect_scan
  detect_scan-IsCounted line l =
      let t = search_text table_at line in
      ground (arith, length-append f.scanned_tables (listed t), length-listed t)

  detect_marks-IsCounted : (l : Text) → IsCounted a b c (detect_marks l f)
  unfolding detect_marks
  detect_marks-IsCounted l = h

  with_estimates-IsCounted :
      (float : Text → Option ℕ) (x y : Option ℕ) (g : Features)
      → with_estimates float f x y ≡ some g
      → IsCounted a b c g
  with_estimates-IsCounted float (some x) (some y) g e = ground arith
  with_estimates-IsCounted float none y g e = ground arith
  with_estimates-IsCounted float (some x) none g e = ground arith

module _ (float : Text → Option ℕ) where
  parse_line-IsCounted :
      (n : ℕ) (line : Text) (f g : Features)
      → IsCounted n n n f
      → parse_line float line f ≡ some g
      → IsCounted (n + 1) (n + 1) (n + 1) g
  unfolding parse_line
  parse_line-IsCounted n line f g h e =
      let l = lower line in
      let f1 = detect_join l f in
      let f2 = detect_aggregation l f1 in
      let f3 = detect_scan line l f2 in
      let h1 = detect_join-IsCounted n n n f h l in
      let h2 = detect_aggregation-IsCounted (n + 1) n n f1 h1 l in
      let h3 = detect_scan-IsCounted (n + 1) (n + 1) n f2 h2 line l in
      let h4 = detect_marks-IsCounted (n + 1) (n + 1) (n + 1) f3 h3 l in
      with_estimates-IsCounted (n + 1) (n + 1) (n + 1)
        (record (detect_marks l f3) {
          output_rows_estimate =
              max (detect_marks l f3).output_rows_estimate (rows_of (search_text rows_at l));
        })
        h4 float _ _ g e

  parse_lines-IsCounted :
      (n : ℕ) (lines : List Text) (f g : Features)
      → IsCounted n n n f
      → parse_lines float lines f ≡ some g
      → let m = n + length lines in IsCounted m m m g
  unfolding parse_lines
  parse_lines-IsCounted n [] f g h e =
      let same : f ≡ g = cc e in let zero : n + 0 ≡ n = omega arith in rw (zero, sym same) h
  parse_lines-IsCounted n (line ∷ lines) f g h e = elim (Option-cases (parse_line float line f)) [
    | inl failed ↦ let bad : none ≡ some g = rw failed at e in ground arith
    | inr (k, parsed) ↦
        let step = parse_line-IsCounted n line f k h parsed in
        let rest = parse_lines-IsCounted (n + 1) lines k g step (rw parsed at e) in
        let shift : n + length (line ∷ lines) ≡ n + 1 + length lines = omega arith in rw shift rest
  ]

  -- The features of a plan: each of the three flags says whether its count is above 0, no more join
  -- types or tables are listed than joins or scans counted, and no count is above the number of lines.
  pub parse_query_plan-IsCounted :
      (explain_output : Text) (f : Features)
      → parse_query_plan float explain_output ≡ some f
      → let n = length (split_lines explain_output) in IsCounted n n n f
  unfolding parse_query_plan
  parse_query_plan-IsCounted explain_output f e =
      let start : IsCounted 0 0 0 no_features = ground arith in
      let n = length (split_lines explain_output) in
      let all = parse_lines-IsCounted 0 (split_lines explain_output) no_features f start e in
      let shift : 0 + n ≡ n = omega arith in rw shift at all
