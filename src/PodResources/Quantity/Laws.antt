-- ===== src/PodResources/Quantity/Laws.antt =====
-- How quantities and names are read.
use trino_gateway.Prelude.{
  ◌≤◌, ◌<◌, ◌⊎◌, ◌↔◌, inl, inr, length, all, true, or-true, and-true, ==_iff, Bool-cases, ℕ, ◌*◌,
  ◌/◌, ◌≡◌, refl, ap, ◌∙◌, false, none, some, List, [], ◌∷◌, ◌++◌, String, arith, Each, ◌==◌,
}
use mathlib.Core.List.{reverse, reverse-append}
use trino_gateway.Prelude.Text.{Text, codes}
use trino_gateway.Prelude.Decimal.{decimal}
use trino_gateway.Prelude.Slices.{
  digit, is_digits, before_suffix, split_last_dash, is_blank, after_prefix,
}
use trino_gateway.Prelude.Slices.Laws.{
  decimal-ne-nil, int_of-decimal, float_of-decimal, strip-decimal, before_suffix-append,
}
use trino_gateway.PodResources.Quantity.{
  ok, mebi, multipliers, by_suffix, cpu_value, scaled, parse_stripped, parse_resource_value,
  looks_like_hash, extract_deployment_name,
}

split_last_dash-none : (s : Text) → Each (λ c. (c == b'-') ≡ false) s → split_last_dash s ≡ none
unfolding split_last_dash
split_last_dash-none [] h = refl
split_last_dash-none (c ∷ s) h = rw (split_last_dash-none s h.1, h.0)

split_last_dash-append :
    (a b : Text)
    → Each (λ c. (c == b'-') ≡ false) b
    → split_last_dash (a ++ (b'-' ∷ b)) ≡ some (a, b)
unfolding split_last_dash
split_last_dash-append [] b h = rw (split_last_dash-none b h)
split_last_dash-append (c ∷ a) b h = rw (split_last_dash-append a b h)

-- Five characters, or a number: at least one digit and nothing else.
abbrev pub IsHashOrNumber : Text → Type 0
IsHashOrNumber s = (length s ≡ 5) ⊎ ((0 < length s) × Each (λ c. (b'0' ≤ c) × (c ≤ b'9')) s)

all-digit : (s : Text) → (all digit s ≡ true) ↔ Each (λ c. (b'0' ≤ c) × (c ≤ b'9')) s
all-digit [] = (λ h. tt, λ h. refl)
all-digit (c ∷ s) =
    let later = all-digit s in
    (
      λ h. let (a, b) = and-true (digit c) (all digit s) h in (ground arith, later.0 b),
      λ h. let (a, b) = h in let rest = later.1 b in ground arith,
    )

is_digits_lem :
    (s : Text) → (is_digits s ≡ true) ↔ ((0 < length s) × Each (λ c. (b'0' ≤ c) × (c ≤ b'9')) s)
unfolding is_digits
is_digits_lem [] = (λ h. cc, λ h. absurd (omega (arith, h.0)))
is_digits_lem (c ∷ s) =
    (λ h. (omega arith, (all-digit (c ∷ s)).0 h), λ h. (all-digit (c ∷ s)).1 h.1)

looks_like_hash_lem : (s : Text) → (looks_like_hash s ≡ true) ↔ IsHashOrNumber s
looks_like_hash_lem s = (
  λ h. elim (or-true (length s == 5) (is_digits s) h) [
    | inl five ↦ inl ((==_iff (length s) 5).0 five)
    | inr number ↦ inr ((is_digits_lem s).0 number)
  ],
  λ h. elim h [
    | inl five ↦ rw five refl
    | inr number ↦ let digits = (is_digits_lem s).1 number in ground (arith, digits)
  ],
)

-- Of a pod's name with a dash, what stands behind the last dash is dropped if it has five characters
-- or is a number, and else the whole name is the deployment's; a name with no dash stays.
pub extract_deployment_name_lem :
    (base last : Text)
    → Each (λ c. (c == b'-') ≡ false) last
    → (IsHashOrNumber last → extract_deployment_name (base ++ (b'-' ∷ last)) ≡ base)
      × (¬ IsHashOrNumber last
          → extract_deployment_name (base ++ (b'-' ∷ last)) ≡ base ++ (b'-' ∷ last))
      × (extract_deployment_name last ≡ last)
unfolding extract_deployment_name
extract_deployment_name_lem base last h =
    let split = split_last_dash-append base last h in
    (
      λ hash. rw (split, extract_deployment_name, (looks_like_hash_lem last).1 hash) refl,
      λ plain. elim (Bool-cases (looks_like_hash last)) [
        | inl hash ↦ absurd (plain ((looks_like_hash_lem last).0 hash))
        | inr other ↦ rw (split, extract_deployment_name, other) refl
      ],
      rw (split_last_dash-none last h, extract_deployment_name),
    )

-- A printed number with a unit: `strip` and the test on the empty text do nothing.
with_unit :
    (n : ℕ) (u : Text) (c : ℕ) (type : String)
    → is_blank c ≡ false
    → parse_resource_value (some (decimal n ++ (u ++ (c ∷ [])))) type
      ≡ parse_stripped (decimal n ++ (u ++ (c ∷ []))) type
unfolding parse_resource_value
with_unit n u c type h = rw (decimal-ne-nil n (u ++ (c ∷ [])), strip-decimal n u c h)

scaled-decimal : (n m : ℕ) → scaled (decimal n) m ≡ ok (n * m)
unfolding scaled
scaled-decimal n m = rw (float_of-decimal n) (ap ok (omega arith))

-- The ends of a number with a unit, from behind.
not_suffix :
    (n : ℕ) (p u : Text)
    → ((r : Text) → after_prefix (reverse p) (reverse u ++ r) ≡ none)
    → before_suffix p (decimal n ++ u) ≡ none
unfolding before_suffix
not_suffix n p u h =
    let e : after_prefix (reverse p) (reverse (decimal n ++ u)) ≡ none =
      rw (reverse-append (decimal n) u) (h (reverse (decimal n))) in
    rw e

by_suffix-skip :
    (p : Text) (m : ℕ) (rest : List (Text × ℕ)) (v : Text)
    → before_suffix p v ≡ none
    → by_suffix ((p, m) ∷ rest) v ≡ by_suffix rest v
unfolding by_suffix
by_suffix-skip p m rest v h = rw (h, by_suffix)

by_suffix-hit :
    (n : ℕ) (p : Text) (m : ℕ) (rest : List (Text × ℕ))
    → by_suffix ((p, m) ∷ rest) (decimal n ++ p) ≡ ok (n * m)
unfolding by_suffix
by_suffix-hit n p m rest = rw (before_suffix-append (decimal n) p, by_suffix) (scaled-decimal n m)

-- A quantity of memory, once its unit is found.
memory_lem :
    (n k : ℕ) (u : Text) (c : ℕ)
    → is_blank c ≡ false
    → by_suffix multipliers (decimal n ++ (u ++ (c ∷ []))) ≡ ok k
    → parse_resource_value (some (decimal n ++ (u ++ (c ∷ [])))) "memory" ≡ ok (some k)
unfolding parse_stripped
memory_lem n k u c blank found = with_unit n u c "memory" blank ∙ (rw found refl)

-- Memory in Ti is 1024 times that in Gi, and that is 1024 times the same number of Mi; but a number
-- of Ki is read as that number of Mi.
pub parse_resource_value-memory :
    (n : ℕ)
    → let memory =
        λ (unit : String). parse_resource_value (some (decimal n ++ codes unit)) "memory" in
      (memory "Mi" ≡ ok (some n))
      × (memory "Gi" ≡ ok (some (n * 1024)))
      × (memory "Ti" ≡ ok (some (n * (1024 * 1024))))
      × (memory "Ki" ≡ ok (some n))
unfolding after_prefix
parse_resource_value-memory n =
    let skip =
      λ (p u : String) (m : ℕ) (rest : List (Text × ℕ))
          (h : (r : Text) → after_prefix (reverse (codes p)) (reverse (codes u) ++ r) ≡ none).
        by_suffix-skip (codes p) m rest (decimal n ++ codes u)
          (not_suffix n (codes p) (codes u) h) in
    (
      memory_lem n n (codes "M") b'i' refl (
          skip "Ki" "Mi" 1 _ (λ r. refl)
          ∙ (by_suffix-hit n (codes "Mi") 1 _ ∙ ap ok (omega arith))),
      memory_lem n (n * 1024) (codes "G") b'i' refl (
          skip "Ki" "Gi" 1 _ (λ r. refl)
          ∙ (skip "Mi" "Gi" 1 _ (λ r. refl) ∙ by_suffix-hit n (codes "Gi") 1024 _)),
      memory_lem n (n * (1024 * 1024)) (codes "T") b'i' refl (
          skip "Ki" "Ti" 1 _ (λ r. refl)
          ∙ (skip "Mi" "Ti" 1 _ (λ r. refl)
              ∙ (skip "Gi" "Ti" 1024 _ (λ r. refl) ∙ by_suffix-hit n (codes "Ti") mebi _))),
      memory_lem n n (codes "K") b'i' refl (by_suffix-hit n (codes "Ki") 1 _ ∙ ap ok (omega arith)),
    )

cpu_lem :
    (n k : ℕ) (c : ℕ)
    → is_blank c ≡ false
    → cpu_value (decimal n ++ (c ∷ [])) ≡ ok k
    → parse_resource_value (some (decimal n ++ (c ∷ []))) "cpu" ≡ ok (some k)
unfolding parse_stripped
cpu_lem n k c blank found = with_unit n [] c "cpu" blank ∙ (rw found refl)

cpu_milli : (n : ℕ) → cpu_value (decimal n ++ codes "m") ≡ ok n
unfolding cpu_value
cpu_milli n = rw (before_suffix-append (decimal n) (codes "m"), cpu_value) (rw (int_of-decimal n))

cpu_nano : (n : ℕ) → cpu_value (decimal n ++ codes "n") ≡ ok (n / 1_000_000)
unfolding cpu_value after_prefix
cpu_nano n =
    rw
      (
        not_suffix n (codes "m") (codes "n") (λ r. refl),
        before_suffix-append (decimal n) (codes "n"),
        cpu_value,
      )
      (rw (int_of-decimal n))

-- A number of millicores is read as it is, and one of nanocores as the whole millicores in it.
pub parse_resource_value-cpu :
    (n : ℕ)
    → (parse_resource_value (some (decimal n ++ codes "m")) "cpu" ≡ ok (some n))
      × (parse_resource_value (some (decimal n ++ codes "n")) "cpu" ≡ ok (some (n / 1_000_000)))
parse_resource_value-cpu n =
    (cpu_lem n n b'm' refl (cpu_milli n), cpu_lem n (n / 1_000_000) b'n' refl (cpu_nano n))
