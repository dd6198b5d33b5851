-- ===== src/Prelude/Dict.antt =====
-- Python's dict with strings for keys: its items in the order in which the keys were first set.
use mathlib.Core.Path.{◌≡◌, refl}
use mathlib.Core.Logic.{inl, inr}
use mathlib.Core.Bool.{Bool, true, false, ◌||◌}
use mathlib.Core.Option.{Option, none, some}
use mathlib.Core.List.{List, [], ◌∷◌}
use Prim.Native.String.{String}
use native.Mathlib.Omega.{arith}
use text.Mathlib.Text.{◌==◌}
use text.Mathlib.TextEquality.{eq_iff}
use trino_gateway.Prelude.Tests.{if◌then◌else◌, Bool-cases}
use trino_gateway.Prelude.Lists.{any}

abbrev pub Dict {ℓ} : Type ℓ → Type ℓ
Dict A = List (String × A)

module _ {ℓ} {A : Type ℓ} where
  -- `d.get(k)`
  unfoldable pub get : String → Dict A → Option A
  get k [] = none
  get k ((j, a) ∷ d) = if j == k then some a else get k d

  -- `d[k] = a`
  unfoldable pub put : String → A → Dict A → Dict A
  put k a [] = (k, a) ∷ []
  put k a ((j, b) ∷ d) = let rest = put k a d in if j == k then (j, a) ∷ d else (j, b) ∷ rest

  abbrev pub keys : Dict A → List String
  keys [] = []
  keys ((k, a) ∷ d) = k ∷ keys d

  abbrev pub is_some : Option A → Bool
  is_some none = false
  is_some (some a) = true

  -- `k in d`
  unfoldable pub has_key : String → Dict A → Bool
  unfolding get
  has_key k d = is_some (get k d)

  pub get-put :
      (k j : String) (a : A) (d : Dict A) → get j (put k a d) ≡ (if k == j then some a else get j d)
  unfolding get put
  get-put k j a [] = refl
  get-put k j a ((i, b) ∷ d) = elim (Bool-cases (i == k)) [
    | inl here ↦ rw here (ground (arith, eq_iff i j, eq_iff k j, eq_iff i k))
    | inr later ↦ rw (later, get-put k j a d) (ground (arith, eq_iff i j, eq_iff k j, eq_iff i k))
  ]

  pub has_key-put :
      (k j : String) (a : A) (d : Dict A) → has_key j (put k a d) ≡ (k == j || has_key j d)
  unfolding has_key
  has_key-put k j a d = rw (get-put k j a d) (ground arith)

  pub has_key-keys : (k : String) (d : Dict A) → has_key k d ≡ any (λ j. j == k) (keys d)
  unfolding has_key get
  has_key-keys k [] = refl
  has_key-keys k ((j, a) ∷ d) = ground (arith, has_key-keys k d)
