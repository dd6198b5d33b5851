-- ===== src/Prelude/Counter.antt =====
-- A dict from strings to numbers that the scripts count with.
use mathlib.Core.Path.{◌≡◌, refl}
use mathlib.Core.List.{List, [], ◌∷◌}
use Prim.Native.Nat.{ℕ, ◌+◌}
use Prim.Native.String.{String}
use native.Mathlib.Omega.{arith}
use text.Mathlib.Text.{◌==◌}
use text.Mathlib.TextEquality.{eq_iff}
use trino_gateway.Prelude.Tests.{if◌then◌else◌}

abbrev pub Counter : Type 0
Counter = List (String × ℕ)

-- `d.get(k, 0)`
unfoldable pub count_of : String → Counter → ℕ
count_of k [] = 0
count_of k ((j, n) ∷ d) = if j == k then n else count_of k d

-- `d[k] = d.get(k, 0) + 1`: a new key goes to the end.
unfoldable pub increment : String → Counter → Counter
increment k [] = (k, 1) ∷ []
increment k ((j, n) ∷ d) = if j == k then (j, n + 1) ∷ d else (j, n) ∷ increment k d

-- The sum of all the counts.
unfoldable pub total_count : Counter → ℕ
total_count [] = 0
total_count ((j, n) ∷ d) = n + total_count d

pub total_count-increment :
    (k : String) (d : Counter) → total_count (increment k d) ≡ total_count d + 1
unfolding total_count increment
total_count-increment k [] = refl
total_count-increment k ((j, n) ∷ d) = ground (arith, total_count-increment k d)

pub count_of-increment :
    (k j : String) (d : Counter)
    → count_of j (increment k d) ≡ (if k == j then count_of j d + 1 else count_of j d)
unfolding count_of increment
count_of-increment k j [] = ground (arith, eq_iff k j)
count_of-increment k j ((i, n) ∷ d) =
    ground (arith, eq_iff k j, eq_iff i k, eq_iff i j, count_of-increment k j d)
