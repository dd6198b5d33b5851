-- ===== src/Prelude/Slices.antt =====
-- Python's tests and slices at the ends of a string: `strip`, `endswith`, `split`, `rsplit("-", 1)`,
-- `isdigit`, `int` and `float`. `signed_int_of` is Python's `int` of a text; for `int_of` and
-- `float_of` a number is unsigned: digits, for `float_of` with a point; signs, exponents, spaces and
-- underscores inside a number are refused by these two, where Python takes them.
pub mod Laws
use trino_gateway.Prelude.Tests.{leb, ◌==◌, if◌then◌else◌}
use trino_gateway.Prelude.Lists.{all}
use trino_gateway.Prelude.Int.{ℤ, pos, sub_ℕ}
use trino_gateway.Prelude.Text.{Text}
use Prim.Native.Nat.{ℕ, ◌+◌, ◌-◌, ◌*◌}
use mathlib.Core.Bool.{Bool, true, false, ◌&&◌, ◌||◌}
use mathlib.Core.Option.{Option, none, some}
use mathlib.Core.List.{◌++◌, List, [], ◌∷◌, reverse}

abbrev pub is_blank : ℕ → Bool
is_blank c = leb 9 c && leb c 13 || leb 28 c && leb c 32

abbrev pub digit : ℕ → Bool
digit c = leb b'0' c && leb c b'9'

-- `s.lstrip()`
unfoldable pub left_strip : Text → Text
left_strip [] = []
left_strip (c ∷ s) = if is_blank c then left_strip s else c ∷ s

abbrev pub cons_unless_blank : ℕ → Text → Text
cons_unless_blank c [] = if is_blank c then [] else c ∷ []
cons_unless_blank c (d ∷ s) = c ∷ d ∷ s

-- `s.rstrip()`
unfoldable pub right_strip : Text → Text
right_strip [] = []
right_strip (c ∷ s) = cons_unless_blank c (right_strip s)

-- `s.strip()`
unfoldable pub strip : Text → Text
unfolding left_strip right_strip
strip s = right_strip (left_strip s)

unfoldable pub after_prefix : Text → Text → Option Text
after_prefix [] s = some s
after_prefix (p ∷ ps) [] = none
after_prefix (p ∷ ps) (c ∷ s) = let rest = after_prefix ps s in if p == c then rest else none

abbrev pub reversed : Option Text → Option Text
reversed none = none
reversed (some r) = some (reverse r)

-- The text before a suffix, if it has the suffix: `s[:-len(p)]` under `s.endswith(p)`. The ends are
-- compared from behind.
unfoldable pub before_suffix : Text → Text → Option Text
unfolding after_prefix
before_suffix p s = reversed (after_prefix (reverse p) (reverse s))

-- `s.isdigit()`
unfoldable pub is_digits : Text → Bool
is_digits [] = false
is_digits (c ∷ s) = all digit (c ∷ s)

unfoldable pub int_from : ℕ → Text → Option ℕ
int_from n [] = some n
int_from n (c ∷ s) = let rest = int_from (n * 10 + (c - 48)) s in if digit c then rest else none

-- `int(s)` of digits
unfoldable pub int_of : Text → Option ℕ
unfolding int_from
int_of [] = none
int_of (c ∷ s) = int_from 0 (c ∷ s)

-- Digits, with single underscores between two of them; `after` says whether a digit stands before.
unfoldable pub digits_from : Bool → ℕ → Text → Option ℕ
digits_from after n [] = if after then some n else none
digits_from after n (c ∷ s) =
    let more = digits_from true (n * 10 + (c - 48)) s in
    let skipped = digits_from false n s in
    if digit c then more else (if c == b'_' && after then skipped else none)

abbrev pub positive : Option ℕ → Option ℤ
positive none = none
positive (some n) = some (pos n)

abbrev pub negative : Option ℕ → Option ℤ
negative none = none
negative (some n) = some (sub_ℕ 0 n)

-- A number with at most one sign.
unfoldable pub signed_from : Text → Option ℤ
unfolding digits_from
signed_from [] = none
signed_from (c ∷ s) =
    if c == b'+'
    then positive (digits_from false 0 s)
    else if c == b'-'
    then negative (digits_from false 0 s)
    else positive (digits_from false 0 (c ∷ s))

-- `int(s)`; `none` is a ValueError. Python refuses more than 4300 digits too.
unfoldable pub signed_int_of : Text → Option ℤ
unfolding signed_from strip
signed_int_of s = signed_from (strip s)

-- A decimal number: its digits, and how many of them stand behind the point.
pub record Decimal : Type 0 where
  pub digits : ℕ
  pub places : ℕ

unfoldable pub fraction_from : ℕ → ℕ → Text → Option Decimal
fraction_from n places [] = some (record { digits = n; places = places })
fraction_from n places (c ∷ s) =
    let rest = fraction_from (n * 10 + (c - 48)) (places + 1) s in if digit c then rest else none

unfoldable pub float_from : ℕ → Text → Option Decimal
unfolding fraction_from
float_from n [] = some (record { digits = n; places = 0 })
float_from n (c ∷ s) =
    let rest = float_from (n * 10 + (c - 48)) s in
    if c == b'.' then fraction_from n 0 s else (if digit c then rest else none)

abbrev pub has_digit : Text → Bool
has_digit [] = false
has_digit (c ∷ s) = digit c || has_digit s

-- `float(s)`
unfoldable pub float_of : Text → Option Decimal
unfolding float_from
float_of s = if has_digit s then float_from 0 s else none

-- `s.rsplit("-", 1)` in two parts: what stands before the last dash and behind it.
unfoldable pub split_last_dash : Text → Option (Text × Text)
split_last_dash [] = none
split_last_dash (c ∷ s) = elim (split_last_dash s) [
  | some (a, b) ↦ some (c ∷ a, b)
  | none ↦ if c == b'-' then some ([], s) else none
]

abbrev pub with_head : ℕ → List Text → List Text
with_head c [] = (c ∷ []) ∷ []
with_head c (part ∷ parts) = (c ∷ part) ∷ parts

-- `s.split(d)` for one character
unfoldable pub split_on : ℕ → Text → List Text
split_on d [] = [] ∷ []
split_on d (c ∷ s) = let rest = split_on d s in if c == d then [] ∷ rest else with_head c rest

abbrev pub begins_blank : Text → Bool
begins_blank [] = true
begins_blank (c ∷ s) = is_blank c

-- `s.split()`: the runs of characters that are not blank.
unfoldable pub words : Text → List Text
words [] = []
words (c ∷ s) =
    let rest = words s in
    if is_blank c then rest else (if begins_blank s then (c ∷ []) ∷ rest else with_head c rest)

-- `separator.join(parts)`
unfoldable pub join : Text → List Text → Text
join separator [] = []
join separator (p ∷ []) = p
join separator (p ∷ q ∷ parts) = p ++ (separator ++ join separator (q ∷ parts))
