-- ===== src/Regex/Engine/Laws.antt =====
-- A match is a part of the text.
use trino_gateway.Prelude.{
  ℕ, zero, suc, ◌+◌, ◌-◌, ◌≡◌, refl, sym, ap, ◌∙◌, ◌⊎◌, inl, inr, Bool, false, Option, none, some,
  List, [], ◌∷◌, ◌++◌, map, length, length-append, take, arith, Each, append_assoc, Bool-cases,
}
use trino_gateway.Prelude.Text.{Text}
use trino_gateway.Regex.{is_word, begins_word, differ}
use trino_gateway.Regex.Engine.{
  Re, empty, edge, one, many, few, few_from, upto, seq, alt, group, Place, place, up_to, one_from,
  many_from, upto_from, concat_map, capture, outcomes, Match, match_of, match_here, search_at, find,
  or_else,
}

-- What stands at the place is an end of the text.
abbrev pub IsEnd : Text → Place → Type 0
IsEnd s o = (m : Text) × (s ≡ m ++ o.rest)

pub Each-append {ℓ} :
    {A : Type 0} (P : A → Type ℓ) (xs ys : List A) → Each P xs → Each P ys → Each P (xs ++ ys)
Each-append P [] ys a b = b
Each-append P (x ∷ xs) ys a b = (a.0, Each-append P xs ys a.1 b)

Each-map :
    (P : Place → Type 0) (f : Place → Place) (xs : List Place)
    → ((x : Place) → P x → P (f x))
    → Each P xs
    → Each P (map f xs)
Each-map P f [] h each = tt
Each-map P f (x ∷ xs) h each = (h x each.0, Each-map P f xs h each.1)

pub Each-imp :
    {A : Type 0} {P Q : A → Type 0} (xs : List A) → ((x : A) → P x → Q x) → Each P xs → Each Q xs
Each-imp [] h each = tt
Each-imp (x ∷ xs) h each = (h x each.0, Each-imp xs h each.1)

IsEnd-cons : (c : ℕ) (s : Text) (o : Place) → IsEnd s o → IsEnd (c ∷ s) o
IsEnd-cons c s o (m, e) = (c ∷ m, cc e)

IsEnd-trans : (s : Text) (a b : Place) → IsEnd s a → IsEnd a.rest b → IsEnd s b
IsEnd-trans s a b (m, e) (n, f) = (m ++ n, e ∙ (ap (λ t. m ++ t) f ∙ sym (append_assoc m n b.rest)))

many_from-IsEnd :
    (p : ℕ → Bool) (g : List (ℕ × Text)) (w : Bool) (s : Text) → Each (IsEnd s) (many_from p g w s)
unfolding many_from
many_from-IsEnd p g w [] = (([], refl), tt)
many_from-IsEnd p g w (c ∷ s) = elim (Bool-cases (p c)) [
  | inl more ↦ rw more (
      Each-append (IsEnd (c ∷ s)) (many_from p g (is_word c) s) (place w g (c ∷ s) ∷ [])
        (Each-imp (many_from p g (is_word c) s) (IsEnd-cons c s)
          (many_from-IsEnd p g (is_word c) s))
        (([], refl), tt))
  | inr done ↦ rw done (([], refl), tt)
]

few_from-IsEnd :
    (p : ℕ → Bool) (g : List (ℕ × Text)) (w : Bool) (s : Text) → Each (IsEnd s) (few_from p g w s)
unfolding few_from
few_from-IsEnd p g w [] = (([], refl), tt)
few_from-IsEnd p g w (c ∷ s) = elim (Bool-cases (p c)) [
  | inl more ↦ rw more (
    ([], refl),
    Each-imp (few_from p g (is_word c) s) (IsEnd-cons c s) (few_from-IsEnd p g (is_word c) s),
  )
  | inr done ↦ rw done (([], refl), tt)
]

upto_from-IsEnd :
    (n : ℕ) (p : ℕ → Bool) (g : List (ℕ × Text)) (w : Bool) (s : Text)
    → Each (IsEnd s) (upto_from n p g w s)
unfolding upto_from
upto_from-IsEnd zero p g w s = (([], refl), tt)
upto_from-IsEnd (suc n) p g w [] = (([], refl), tt)
upto_from-IsEnd (suc n) p g w (c ∷ s) = elim (Bool-cases (p c)) [
  | inl more ↦ rw more (
      Each-append (IsEnd (c ∷ s)) (upto_from n p g (is_word c) s) (place w g (c ∷ s) ∷ [])
        (Each-imp (upto_from n p g (is_word c) s) (IsEnd-cons c s)
          (upto_from-IsEnd n p g (is_word c) s))
        (([], refl), tt))
  | inr done ↦ rw done (([], refl), tt)
]

one_from-IsEnd : (p : ℕ → Bool) (g : List (ℕ × Text)) (s : Text) → Each (IsEnd s) (one_from p g s)
unfolding one_from
one_from-IsEnd p g [] = tt
one_from-IsEnd p g (c ∷ s) = elim (Bool-cases (p c)) [
  | inl yes_it ↦ rw yes_it ((c ∷ [], refl), tt)
  | inr not_it ↦ rw not_it tt
]

concat_map-IsEnd :
    (f : Place → List Place) (s : Text) (os : List Place)
    → ((o : Place) → Each (IsEnd o.rest) (f o))
    → Each (IsEnd s) os
    → Each (IsEnd s) (concat_map f os)
unfolding concat_map
concat_map-IsEnd f s [] h each = tt
concat_map-IsEnd f s (o ∷ os) h each =
    Each-append (IsEnd s) (f o) (concat_map f os)
      (Each-imp (f o) (λ b. IsEnd-trans s o b each.0) (h o)) (concat_map-IsEnd f s os h each.1)

pub outcomes-IsEnd : (r : Re) (o : Place) → Each (IsEnd o.rest) (outcomes r o)
unfolding outcomes
outcomes-IsEnd empty o = (([], refl), tt)
outcomes-IsEnd edge o = elim (Bool-cases (differ o.word (begins_word o.rest))) [
  | inl here ↦ rw here (([], refl), tt)
  | inr elsewhere ↦ rw elsewhere tt
]
outcomes-IsEnd (one p) o = one_from-IsEnd p o.groups o.rest
outcomes-IsEnd (many p) o = many_from-IsEnd p o.groups o.word o.rest
outcomes-IsEnd (few p) o = few_from-IsEnd p o.groups o.word o.rest
outcomes-IsEnd (upto n p) o = upto_from-IsEnd n p o.groups o.word o.rest
outcomes-IsEnd (seq a b) o =
    concat_map-IsEnd (outcomes b) o.rest (outcomes a o) (outcomes-IsEnd b) (outcomes-IsEnd a o)
outcomes-IsEnd (alt a b) o =
    Each-append (IsEnd o.rest) (outcomes a o) (outcomes b o) (outcomes-IsEnd a o)
      (outcomes-IsEnd b o)
outcomes-IsEnd (group k a) o =
    Each-map (IsEnd o.rest) (capture k o.rest) (outcomes a o) (λ x h. h) (outcomes-IsEnd a o)

take-append : (m r : Text) → take (length m) (m ++ r) ≡ m
take-append [] r = refl
take-append (c ∷ m) r = ap (λ t. c ∷ t) (take-append m r)

pub up_to-append : (s m rest : Text) → s ≡ m ++ rest → up_to s rest ≡ m
up_to-append s m rest e =
    let n : length s - length rest ≡ length m = omega (arith, ap length e, length-append m rest) in
    rw (n, e) (take-append m rest)

up_to-IsEnd : (s : Text) (o : Place) → IsEnd s o → s ≡ up_to s o.rest ++ o.rest
up_to-IsEnd s o (m, e) = rw (up_to-append s m o.rest e) e

-- A match is a part of the text: `start` characters, then its text, then the rest.
abbrev pub IsPart : ℕ → Text → Match → Type 0
IsPart i s m = (a b : Text) × (s ≡ a ++ (m.text ++ b)) × (m.start ≡ i + length a)

match_of-IsPart :
    (i : ℕ) (s : Text) (os : List Place) (m : Match)
    → Each (IsEnd s) os
    → match_of i s os ≡ some m
    → IsPart i s m
match_of-IsPart i s [] m each h = ground arith
match_of-IsPart i s (o ∷ os) m each h =
    ([], o.rest, ground (arith, up_to-IsEnd s o each.0), ground arith)

match_here-IsPart :
    (r : Re) (i : ℕ) (w : Bool) (s : Text) (m : Match) → match_here r i w s ≡ some m → IsPart i s m
unfolding match_here
match_here-IsPart r i w s m h =
    match_of-IsPart i s (outcomes r (place w [] s)) m (outcomes-IsEnd r (place w [] s)) h

pub or_else_cases :
    (a b : Option Match) (m : Match) → or_else a b ≡ some m → (a ≡ some m) ⊎ (b ≡ some m)
or_else_cases none b m h = inr h
or_else_cases (some x) b m h = inl h

search_at-IsPart :
    (r : Re) (i : ℕ) (w : Bool) (s : Text) (m : Match) → search_at r i w s ≡ some m → IsPart i s m
unfolding search_at
search_at-IsPart r i w [] m h = match_here-IsPart r i w [] m h
search_at-IsPart r i w (c ∷ s) m h =
    elim (or_else_cases (match_here r i w (c ∷ s)) (search_at r (i + 1) (is_word c) s) m h) [
      | inl here ↦ match_here-IsPart r i w (c ∷ s) m here
      | inr later ↦
          let (a, b, e, n) = search_at-IsPart r (i + 1) (is_word c) s m later in
          (c ∷ a, b, cc e, omega (arith, n))
    ]

-- What `re.search` finds is a part of the text that begins at `start`.
pub find-IsPart : (r : Re) (s : Text) (m : Match) → find r s ≡ some m → IsPart 0 s m
unfolding find
find-IsPart r s m h = search_at-IsPart r 0 false s m h
