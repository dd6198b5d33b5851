-- ===== src/Trino/Optimize/Patterns.antt =====
-- identify_optimizations.py: the regular expressions of `QueryOptimizer`.
use trino_gateway.Prelude.{◌||◌, [], ◌∷◌, ◌==◌}
use trino_gateway.Prelude.Text.{Text, codes}
use trino_gateway.Regex.Engine.{
  Re, edge, one, few, lit, text, one_of, all_of, many1, spaces, spaces1, but, dot,
}

-- `select\s+\*\s+from`
unfoldable pub select_star_pattern : Re
unfolding spaces1
select_star_pattern =
    all_of (text (codes "select") ∷ spaces1 ∷ lit b'*' ∷ spaces1 ∷ text (codes "from") ∷ [])

-- `cross\s+join`
unfoldable pub cross_join_pattern : Re
unfolding spaces1
cross_join_pattern = all_of (text (codes "cross") ∷ spaces1 ∷ text (codes "join") ∷ [])

-- `\b(count|sum|avg|max|min)\s*\(`
unfoldable pub aggregation_pattern : Re
unfolding spaces
aggregation_pattern = all_of (
    edge
    ∷ one_of (
        text (codes "count")
        ∷ text (codes "sum")
        ∷ text (codes "avg")
        ∷ text (codes "max")
        ∷ text (codes "min")
        ∷ [])
    ∷ spaces
    ∷ lit b'('
    ∷ [])

-- `count\s*\(\s*distinct`
unfoldable pub count_distinct_pattern : Re
unfolding spaces
count_distinct_pattern =
    all_of (text (codes "count") ∷ spaces ∷ lit b'(' ∷ spaces ∷ text (codes "distinct") ∷ [])

-- `\bor\b` and `\bwith\b`
unfoldable pub whole_word : Text → Re
whole_word w = all_of (edge ∷ text w ∷ edge ∷ [])

-- `(id|number|count)\s*=\s*['"]`
unfoldable pub conversion_pattern : Re
unfolding spaces
conversion_pattern = all_of (
    one_of (text (codes "id") ∷ text (codes "number") ∷ text (codes "count") ∷ [])
    ∷ spaces
    ∷ lit b'='
    ∷ spaces
    ∷ one (λ c. c == b'\'' || c == b'"')
    ∷ [])

-- `select[^from]+(select\s+.*?\s+from)`
unfoldable pub subquery_pattern : Re
unfolding spaces1
subquery_pattern = all_of (
    text (codes "select")
    ∷ many1 (but (codes "from"))
    ∷ text (codes "select")
    ∷ spaces1
    ∷ few dot
    ∷ spaces1
    ∷ text (codes "from")
    ∷ [])

-- `select.*?from\s*\(`
unfoldable pub nested_pattern : Re
unfolding spaces
nested_pattern =
    all_of (text (codes "select") ∷ few dot ∷ text (codes "from") ∷ spaces ∷ lit b'(' ∷ [])
