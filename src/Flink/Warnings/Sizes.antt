-- ===== src/Flink/Warnings/Sizes.antt =====
-- Which sizes of a memory can be read.
use trino_gateway.Prelude.{
  ℕ, ◌+◌, ◌-◌, ◌*◌, ◌≡◌, refl, ◌∙◌, inl, inr, Bool, true, false, not, ◌&&◌, ◌||◌, Option, none,
  some, [], ◌∷◌, all, Bool-cases, arith, ◌==◌, if◌then◌else◌,
}
use trino_gateway.Prelude.Int.{ℤ}
use trino_gateway.Prelude.Dict.{is_some}
use trino_gateway.Prelude.Text.{Text, codes, lower, contains}
use trino_gateway.Prelude.Slices.{
  digit, strip, digits_from, positive, negative, signed_from, signed_int_of,
}
use trino_gateway.Regex.Engine.{sub, text}
use trino_gateway.Flink.Warnings.{Memory, number, written, times_1024, int_without, parse_memory}

abbrev pub begins_digit : Text → Bool
begins_digit [] = false
begins_digit (c ∷ s) = digit c

abbrev pub ends_underscore : Text → Bool
ends_underscore [] = false
ends_underscore (c ∷ []) = c == b'_'
ends_underscore (c ∷ d ∷ s) = ends_underscore (d ∷ s)

-- Digits and underscores, none of which is the last character or beside another.
abbrev pub are_digits : Text → Bool
unfolding contains
are_digits s =
    all (λ c. digit c || c == b'_') s && (not (contains (codes "__") s) && not (ends_underscore s))

-- A digit first, and behind it digits and single underscores.
abbrev pub is_number : Text → Bool
unfolding are_digits
is_number s = begins_digit s && are_digits s

-- A number with blanks around it and at most one sign before it.
abbrev pub without_sign : Text → Text
without_sign [] = []
without_sign (c ∷ s) = if c == b'+' || c == b'-' then s else c ∷ s

abbrev pub is_int_text : Text → Bool
unfolding strip is_number
is_int_text s = is_number (without_sign (strip s))

-- A number, a text without a unit that is known, or one that is an integer without it.
abbrev pub is_size : Memory → Bool
unfolding lower contains sub is_int_text
is_size (number n) = true
is_size (written t) =
    let s = lower t in
    if contains (codes "gb") s
    then is_int_text (sub (text (codes "gb")) [] s)
    else if contains (codes "mb") s
    then is_int_text (sub (text (codes "mb")) [] s)
    else true

-- A digit goes on, and so does an underscore behind a digit.
goes_on : Bool → ℕ → Text → Bool
unfolding are_digits
goes_on after c s =
    if digit c
    then are_digits s
    else (if c == b'_' && after then begins_digit s && are_digits s else false)

goes_on_lem :
    (after : Bool) (c : ℕ) (s : Text)
    → goes_on after c s ≡ ((after || digit c) && are_digits (c ∷ s))
unfolding goes_on are_digits contains
goes_on_lem after c [] = ground arith
goes_on_lem after c (d ∷ s) = ground arith

digits_from_step :
    (after : Bool) (n c : ℕ) (s : Text)
    → is_some (digits_from after n (c ∷ s)) ≡ (
        if digit c
        then is_some (digits_from true (n * 10 + (c - 48)) s)
        else (if c == b'_' && after then is_some (digits_from false n s) else false))
unfolding digits_from
digits_from_step after n c s = ground arith

digits_from-nil : (after : Bool) (n : ℕ) → is_some (digits_from after n []) ≡ after
unfolding digits_from
digits_from-nil true n = refl
digits_from-nil false n = refl

digits_from-is_some :
    (after : Bool) (n : ℕ) (s : Text)
    → is_some (digits_from after n s) ≡ ((after || begins_digit s) && are_digits s)
unfolding are_digits contains goes_on
digits_from-is_some after n [] = digits_from-nil after n ∙ ground arith
digits_from-is_some after n (c ∷ s) =
    rw
      (
        digits_from_step after n c s,
        digits_from-is_some true (n * 10 + (c - 48)) s,
        digits_from-is_some false n s,
      )
      (goes_on_lem after c s)

positive-is_some : (o : Option ℕ) → is_some (positive o) ≡ is_some o
positive-is_some none = refl
positive-is_some (some n) = refl

negative-is_some : (o : Option ℕ) → is_some (negative o) ≡ is_some o
negative-is_some none = refl
negative-is_some (some n) = refl

times_1024-is_some : (o : Option ℤ) → is_some (times_1024 o) ≡ is_some o
times_1024-is_some none = refl
times_1024-is_some (some n) = refl

signed_from-is_some : (s : Text) → is_some (signed_from s) ≡ is_number (without_sign s)
unfolding signed_from is_number
signed_from-is_some [] = refl
signed_from-is_some (c ∷ s) =
    let plus = positive-is_some (digits_from false 0 s) ∙ digits_from-is_some false 0 s in
    let minus = negative-is_some (digits_from false 0 s) ∙ digits_from-is_some false 0 s in
    let plain =
      positive-is_some (digits_from false 0 (c ∷ s)) ∙ digits_from-is_some false 0 (c ∷ s) in
    elim (Bool-cases (c == b'+')) [
      | inl here ↦ rw (here, plus) refl
      | inr unlike ↦ elim (Bool-cases (c == b'-')) [
        | inl here ↦ rw (unlike, here, minus) refl
        | inr bare ↦ rw (unlike, bare, plain) refl
      ]
    ]

int_without-is_some :
    (unit s : Text) → is_some (int_without unit s) ≡ is_int_text (sub (text unit) [] s)
unfolding int_without signed_int_of is_int_text is_number
int_without-is_some unit s = signed_from-is_some (strip (sub (text unit) [] s))

-- A size is read exactly if it is a number, names neither unit, or is an integer without its unit.
pub parse_memory-is_some : (m : Memory) → is_some (parse_memory m) ≡ is_size m
unfolding parse_memory is_size
parse_memory-is_some (number n) = refl
parse_memory-is_some (written t) = elim (Bool-cases (contains (codes "gb") (lower t))) [
  | inl gb ↦ rw gb (
      times_1024-is_some (int_without (codes "gb") (lower t))
      ∙ int_without-is_some (codes "gb") (lower t))
  | inr not_gb ↦ elim (Bool-cases (contains (codes "mb") (lower t))) [
    | inl mb ↦ rw (not_gb, mb) (int_without-is_some (codes "mb") (lower t))
    | inr neither ↦ rw (not_gb, neither) refl
  ]
]
