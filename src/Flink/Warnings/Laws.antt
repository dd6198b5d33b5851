-- ===== src/Flink/Warnings/Laws.antt =====
-- What the warning on similar conditions counts.
use trino_gateway.Prelude.{
  ap, sym, ◌∙◌, ==_iff, not, true, ◌||◌, ◌==◌, ◌++◌, refl, and-true, ℕ, ◌+◌, ◌≡◌, inl, inr, Bool,
  false, ◌&&◌, List, [], ◌∷◌, String, length, length-append, select, Bool-cases, arith,
  if◌then◌else◌,
}
use trino_gateway.Prelude.Text.{
  Text, starts_with, starts_with_sound, codes, text_eq, text_eq_iff, upper, contains,
}
use trino_gateway.Flink.Streams.{Expr, sql, other}
use trino_gateway.Flink.Warnings.{
  Conditions, append_at, before_then, add_condition, repeated_patterns,
}

-- How many names stand at the condition.
abbrev pub size_at : Text → Conditions → ℕ
size_at k [] = 0
size_at k ((j, names) ∷ d) = if text_eq j k then length names else size_at k d

-- `k` has no THEN, and with a THEN behind it begins the text, or is all of it.
abbrev pub ends_at_then : Text → Text → Bool
unfolding contains
ends_at_then k e =
    not (contains (codes "THEN") k) && (starts_with (k ++ codes "THEN") e || text_eq e k)

-- The aggregation has a CASE WHEN, in any case, and `k` is what stands before its first THEN.
abbrev pub has_condition : Text → String × Expr → Bool
unfolding upper ends_at_then
has_condition k (name, other) = false
has_condition k (name, sql e) = contains (codes "CASE WHEN") (upper e) && ends_at_then k e

starts_with-prefix :
    (p k q e : Text)
    → starts_with p k ≡ true
    → starts_with (k ++ q) e ≡ true
    → starts_with p e ≡ true
starts_with-prefix [] k q e h m = refl
starts_with-prefix (c ∷ p) [] q e h m = cc
starts_with-prefix (c ∷ p) (d ∷ k) q [] h m = cc
starts_with-prefix (c ∷ p) (d ∷ k) q (x ∷ e) h m =
    let (a, b) = and-true (c == d) (starts_with p k) h in
    let (f, g) = and-true (d == x) (starts_with (k ++ q) e) m in
    rw (starts_with-prefix p k q e b g) (ground arith)

four_lem :
    (a b c d : ℕ) (x y z : Bool)
    → false ≡ (
        not (b'T' == a && (b'H' == b && (b'E' == c && (b'N' == d && true))) || z)
        && (a == b'T' && (b == b'H' && (c == b'E' && (d == b'N' && x)))
            || b'T' == a && (b'H' == b && (b'E' == c && (b'N' == d && y)))))
four_lem a b c d x y z = ground arith

-- Of the texts that begin with THEN, only the empty one stands before it.
at_then : (k r : Text) → text_eq [] k ≡ ends_at_then k (codes "THEN" ++ r)
unfolding contains
at_then [] r = ground arith
at_then (a ∷ []) r = ground arith
at_then (a ∷ b ∷ []) r = ground arith
at_then (a ∷ b ∷ c ∷ []) r = ground arith
at_then (a ∷ b ∷ c ∷ d ∷ k) r =
    four_lem a b c d (starts_with (k ++ codes "THEN") r) (text_eq r k)
      (contains (codes "THEN") (b ∷ c ∷ d ∷ k))

false_not_true : ¬ (◌≡◌ {A = Bool} false true)
false_not_true h = cc

-- A `k` that begins with THEN stands before the first THEN of no text that begins with none.
then_first :
    (c j : ℕ) (k s : Text)
    → starts_with (codes "THEN") (c ∷ s) ≡ false
    → starts_with (codes "THEN") (j ∷ k) ≡ true
    → (c == j && (starts_with (k ++ codes "THEN") s || text_eq s k)) ≡ false
then_first c j k s h begins = elim (Bool-cases (c == j)) [
  | inr unlike ↦ rw unlike refl
  | inl same ↦
      let e = (==_iff c j).0 same in
      elim (Bool-cases (starts_with (k ++ codes "THEN") s)) [
        | inl more ↦
            let whole : starts_with ((j ∷ k) ++ codes "THEN") (c ∷ s) ≡ true =
              rw (sym e, (==_iff c c).1 refl, more) refl in
            let found =
              starts_with-prefix (codes "THEN") (j ∷ k) (codes "THEN") (c ∷ s) begins whole in
            absurd (false_not_true (sym h ∙ found))
        | inr less ↦ elim (Bool-cases (text_eq s k)) [
          | inl equal ↦
              let found : starts_with (codes "THEN") (c ∷ s) ≡ starts_with (codes "THEN") (j ∷ k) =
                λ i. starts_with (codes "THEN") (e i ∷ (text_eq_iff s k).0 equal i) in
              absurd (false_not_true (sym h ∙ (found ∙ begins)))
          | inr differ ↦ rw (less, differ) (ground arith)
        ]
      ]
]

before_later :
    (c j : ℕ) (k s : Text)
    → starts_with (codes "THEN") (c ∷ s) ≡ false
    → (c == j && ends_at_then k s) ≡ ends_at_then (j ∷ k) (c ∷ s)
unfolding contains
before_later c j k s h = elim (Bool-cases (starts_with (codes "THEN") (j ∷ k))) [
  | inl begins ↦ ground (arith, then_first c j k s h begins, begins)
  | inr plain ↦ ground (arith, plain)
]

-- What stands before the first THEN of a text, or all of a text that has none.
before_then-ends_at_then : (k e : Text) → text_eq (before_then e) k ≡ ends_at_then k e
unfolding before_then contains
before_then-ends_at_then [] [] = refl
before_then-ends_at_then (j ∷ k) [] = ground arith
before_then-ends_at_then [] (c ∷ s) = elim (Bool-cases (starts_with (codes "THEN") (c ∷ s))) [
  | inl here ↦ rw here refl
  | inr later ↦ rw later refl
]
before_then-ends_at_then (j ∷ k) (c ∷ s) = elim (Bool-cases (starts_with (codes "THEN") (c ∷ s))) [
  | inl here ↦
      let (r, e) = starts_with_sound (codes "THEN") (c ∷ s) here in
      rw here (at_then (j ∷ k) r ∙ ap (ends_at_then (j ∷ k)) (sym e))
  | inr later ↦ rw (later, before_then-ends_at_then k s) (before_later c j k s later)
]

size_at-append_at :
    (k j : Text) (name : String) (d : Conditions)
    → size_at k (append_at j name d) ≡ size_at k d + (if text_eq j k then 1 else 0)
unfolding append_at
size_at-append_at k j name [] = ground arith
size_at-append_at k j name ((i, names) ∷ d) = ground (
  arith,
  size_at-append_at k j name d,
  text_eq_iff i j,
  text_eq_iff i k,
  text_eq_iff j k,
  length-append names (name ∷ []),
)

size_at-repeated_patterns :
    (k : Text) (aggregations : List (String × Expr)) (d : Conditions)
    → size_at k (repeated_patterns aggregations d)
      ≡ size_at k d + length (select (has_condition k) aggregations)
unfolding repeated_patterns add_condition has_condition
size_at-repeated_patterns k [] d = omega arith
size_at-repeated_patterns k ((name, other) ∷ aggregations) d =
    size_at-repeated_patterns k aggregations d
size_at-repeated_patterns k ((name, sql e) ∷ aggregations) d =
    elim (Bool-cases (contains (codes "CASE WHEN") (upper e))) [
      | inl found ↦ rw found (
          rw
            (
              size_at-repeated_patterns k aggregations (append_at (before_then e) name d),
              size_at-append_at k (before_then e) name d,
              before_then-ends_at_then k e,
            )
            (ground arith))
      | inr missing ↦ rw missing (size_at-repeated_patterns k aggregations d)
    ]

-- At each condition the table of an operator has as many names as there are aggregations with a
-- CASE WHEN, in any case, and that text before their first THEN, or as their whole text without one.
pub repeated_patterns-counts :
    (k : Text) (aggregations : List (String × Expr))
    → size_at k (repeated_patterns aggregations []) ≡ length (select (has_condition k) aggregations)
repeated_patterns-counts k aggregations = omega (arith, size_at-repeated_patterns k aggregations [])
