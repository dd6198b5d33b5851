-- ===== src/PodResources/Quantity.antt =====
-- .agents/skills/k8s-resource-analyzer/scripts/main.py: what is read out of a pod, its deployment's
-- name and the resources of its first container. A `ValueError` of `int` or `float` is a result.
pub mod Laws
use trino_gateway.Prelude.{
  ℕ, ◌*◌, ◌/◌, ◌^◌, Bool, true, false, ◌||◌, Option, none, some, List, [], ◌∷◌, String, get_or,
  length, ◌==◌, str_eq, if◌then◌else◌,
}
use trino_gateway.Prelude.Text.{Text, codes, text_eq}
use trino_gateway.Prelude.Slices.{
  strip, before_suffix, is_digits, int_of, Decimal, float_of, split_last_dash,
}
use trino_gateway.PodResources.Usage.{ResourceSpec}

pub data Result {ℓ} (A : Type ℓ) : Type ℓ where
  ok : A → Result A
  value_error : Result A

infixl 5 ◌>>=◌
abbrev pub ◌>>=◌ {ℓ κ} : {A : Type ℓ} {B : Type κ} → Result A → (A → Result B) → Result B
ok a >>= f = f a
value_error >>= f = value_error

abbrev to_result : Option ℕ → Result ℕ
to_result none = value_error
to_result (some n) = ok n

-- `int(s)`
abbrev pub int : Text → Result ℕ
int s = to_result (int_of s)

-- `int(float(s) * m)`
abbrev pub scaled_of : Option Decimal → ℕ → Result ℕ
scaled_of none m = value_error
scaled_of (some d) m = ok (d.digits * m / 10 ^ d.places)

unfoldable pub scaled : Text → ℕ → Result ℕ
unfolding float_of
scaled s m = scaled_of (float_of s) m

abbrev pub mebi : ℕ
mebi = 1024 * 1024

abbrev pub multipliers : List (Text × ℕ)
multipliers =
    (codes "Ki", 1)
    ∷ (codes "Mi", 1)
    ∷ (codes "Gi", 1024)
    ∷ (codes "Ti", mebi)
    ∷ (codes "K", 1)
    ∷ (codes "M", 1)
    ∷ (codes "G", 1024)
    ∷ (codes "T", mebi)
    ∷ []

-- The loop over `multipliers`, and the default behind it.
unfoldable pub by_suffix : List (Text × ℕ) → Text → Result ℕ
unfolding before_suffix scaled
by_suffix [] value = scaled value 1
by_suffix ((suffix, mult) ∷ rest) value =
    let others = by_suffix rest value in
    elim (before_suffix suffix value) [ none ↦ others | some num ↦ scaled num mult ]

unfoldable pub cpu_value : Text → Result ℕ
unfolding before_suffix scaled int_of
cpu_value value = elim (before_suffix (codes "m") value) [
  | some milli ↦ int milli
  | none ↦ elim (before_suffix (codes "n") value) [
    | some nano ↦ int nano >>= λ n. ok (n / 1_000_000)
    | none ↦ scaled value 1000
  ]
]

abbrev present : Result ℕ → Result (Option ℕ)
present r = r >>= λ n. ok (some n)

unfoldable pub parse_stripped : Text → String → Result (Option ℕ)
unfolding by_suffix cpu_value
parse_stripped value resource_type =
    if str_eq resource_type "cpu"
    then present (cpu_value value)
    else if str_eq resource_type "memory"
    then present (by_suffix multipliers value)
    else ok none

unfoldable pub parse_resource_value : Option Text → String → Result (Option ℕ)
unfolding strip parse_stripped
parse_resource_value none resource_type = ok none
parse_resource_value (some value) resource_type =
    if text_eq value [] then ok none else parse_stripped (strip value) resource_type

-- The dicts "requests" and "limits" of a container's resources.
pub record Quantities : Type 0 where
  pub cpu : Option Text
  pub memory : Option Text

-- `{}`
abbrev pub no_quantities : Quantities
no_quantities = record { cpu = none; memory = none }

pub record Resources : Type 0 where
  pub requests : Option Quantities
  pub limits : Option Quantities

pub record Container : Type 0 where
  pub name : Option Text
  pub image : Option Text
  pub resources : Resources

unfoldable pub extract_resource_spec : List Container → Result ResourceSpec
unfolding parse_resource_value
extract_resource_spec [] = ok (record {
  requested_cpu_m = none;
  requested_memory_mi = none;
  limit_cpu_m = none;
  limit_memory_mi = none;
})
extract_resource_spec (container ∷ rest) = do
  let requests = get_or container.resources.requests no_quantities
  requested_cpu ← parse_resource_value (some (get_or requests.cpu (codes "100m"))) "cpu"
  requested_memory ← parse_resource_value (some (get_or requests.memory (codes "128Mi"))) "memory"
  let limits = get_or container.resources.limits no_quantities
  limit_cpu ← parse_resource_value limits.cpu "cpu"
  limit_memory ← parse_resource_value limits.memory "memory"
  ok (record {
    requested_cpu_m = requested_cpu;
    requested_memory_mi = requested_memory;
    limit_cpu_m = limit_cpu;
    limit_memory_mi = limit_memory;
  })

abbrev pub looks_like_hash : Text → Bool
looks_like_hash s = length s == 5 || is_digits s

unfoldable pub extract_deployment_name : Text → Text
unfolding split_last_dash is_digits
extract_deployment_name pod_name = elim (split_last_dash pod_name) [
  | none ↦ pod_name
  | some (before, after) ↦ if looks_like_hash after then before else pod_name
]
