-- ===== src/Trino/Scan.antt =====
-- The regular expressions of .agents/skills/trino-analyzer/scripts/analyze_query_plan.py, each as a
-- search for the first place where it matches, with its group. Digits and blanks are those of ASCII;
-- no shorter run of a class can match where the longest does not, since what follows a run is never
-- of its class.
use trino_gateway.Prelude.{ℕ, Bool, not, ◌||◌, Option, none, some, [], ◌∷◌, ◌==◌, if◌then◌else◌}
use trino_gateway.Prelude.Text.{Text, codes, starts_with}
use trino_gateway.Prelude.Slices.{digit, is_blank, after_prefix}

unfoldable pub take_while : (ℕ → Bool) → Text → Text
take_while p [] = []
take_while p (c ∷ s) = let rest = take_while p s in if p c then c ∷ rest else []

unfoldable pub drop_while : (ℕ → Bool) → Text → Text
drop_while p [] = []
drop_while p (c ∷ s) = let rest = drop_while p s in if p c then rest else c ∷ s

abbrev pub nonempty : Text → Option Text
nonempty [] = none
nonempty (c ∷ s) = some (c ∷ s)

abbrev pub first_of : Option Text → Option Text → Option Text
first_of (some t) later = some t
first_of none later = later

-- `re.search`: the first place where `at` matches, and its group.
unfoldable pub search_text : (Text → Option Text) → Text → Option Text
search_text at [] = none
search_text at (c ∷ s) = first_of (at (c ∷ s)) (search_text at s)

-- `(\d+)\s*rows`
unfoldable pub rows_at : Text → Option Text
unfolding take_while drop_while
rows_at s =
    if starts_with (codes "rows") (drop_while is_blank (drop_while digit s))
    then nonempty (take_while digit s)
    else none

abbrev pub value_after : Option Text → Option Text
unfolding take_while drop_while
value_after none = none
value_after (some s) = nonempty (take_while (λ c. digit c || c == b'.') (drop_while is_blank s))

-- `cpu:\s*([\d.]+)` and `memory:\s*([\d.]+)`
unfoldable pub value_at : Text → Text → Option Text
unfolding after_prefix take_while drop_while value_after
value_at key s = value_after (after_prefix key s)

abbrev pub name_after : Option Text → Option Text
unfolding take_while drop_while
name_after none = none
name_after (some s) =
    nonempty (take_while (λ c. not (is_blank c || c == b',' || c == b']')) (drop_while is_blank s))

abbrev pub equals_after : Option Text → Option Text
unfolding drop_while after_prefix
equals_after none = none
equals_after (some s) = after_prefix (codes "=") (drop_while is_blank s)

-- `table\s*=\s*([^\s,\]]+)`
unfoldable pub table_at : Text → Option Text
unfolding after_prefix name_after equals_after
table_at s = name_after (equals_after (after_prefix (codes "table") s))
