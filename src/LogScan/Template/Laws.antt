-- ===== src/LogScan/Template/Laws.antt =====
-- The shape of a template.
use trino_gateway.Prelude.{
  ℕ, zero, suc, ◌≤◌, ◌<◌, ◌≡◌, refl, ◌⊎◌, inl, inr, Bool, true, false, List, [], ◌∷◌, ◌++◌, length,
  take, arith, Each, Bool-cases,
}
use trino_gateway.Prelude.Text.{Text, codes}
use trino_gateway.Prelude.Slices.{is_blank, begins_blank, with_head, words, join}
use trino_gateway.LogScan.Template.{substitute, substitutions, extract_message_template}

-- The only blank is the space, and no blank stands first, where `after` is true, or behind another.
abbrev pub IsTidy : Bool → Text → Type 0
IsTidy after [] = Unit
IsTidy after (c ∷ s) = (is_blank c ≡ false ⊎ ((c ≡ 32) × (after ≡ false))) × IsTidy (is_blank c) s

abbrev IsWord : Text → Type 0
IsWord w = (0 < length w) × Each (λ c. is_blank c ≡ false) w

with_head-IsWord :
    (c : ℕ) (ws : List Text) → is_blank c ≡ false → Each IsWord ws → Each IsWord (with_head c ws)
with_head-IsWord c [] h each = ((omega arith, (h, tt)), tt)
with_head-IsWord c (w ∷ ws) h each = ((omega arith, (h, each.0.1)), each.1)

words-IsWord : (s : Text) → Each IsWord (words s)
unfolding words
words-IsWord [] = tt
words-IsWord (c ∷ s) = elim (Bool-cases (is_blank c)) [
  | inl blank ↦ rw blank (words-IsWord s)
  | inr solid ↦ elim (Bool-cases (begins_blank s)) [
    | inl ends ↦ rw (solid, ends) ((omega arith, (solid, tt)), words-IsWord s)
    | inr goes_on ↦ rw (solid, goes_on) (with_head-IsWord c (words s) solid (words-IsWord s))
  ]
]

word_then : (after : Bool) (w s : Text) → IsWord w → IsTidy false s → IsTidy after (w ++ s)
word_then after [] s h rest = absurd (omega (arith, h.0))
word_then after (c ∷ []) s h rest = (inl h.1.0, rw (h.1.0) rest)
word_then after (c ∷ d ∷ w) s h rest =
    (inl h.1.0, word_then (is_blank c) (d ∷ w) s (omega arith, h.1.1) rest)

word_alone : (after : Bool) (w : Text) → Each (λ c. is_blank c ≡ false) w → IsTidy after w
word_alone after [] h = tt
word_alone after (c ∷ w) h = (inl h.0, word_alone (is_blank c) w h.1)

join-IsTidy : (after : Bool) (ws : List Text) → Each IsWord ws → IsTidy after (join (32 ∷ []) ws)
unfolding join
join-IsTidy after [] each = tt
join-IsTidy after (w ∷ []) each = word_alone after w each.0.1
join-IsTidy after (w ∷ v ∷ ws) each =
    word_then after w (32 ∷ join (32 ∷ []) (v ∷ ws)) each.0
      (inr (refl, refl), join-IsTidy true (v ∷ ws) each.1)

take-IsTidy : (after : Bool) (n : ℕ) (s : Text) → IsTidy after s → IsTidy after (take n s)
take-IsTidy after zero s h = tt
take-IsTidy after (suc n) [] h = tt
take-IsTidy after (suc n) (c ∷ s) h = (h.0, take-IsTidy (is_blank c) n s h.1)

length-take-le : (n : ℕ) (s : Text) → length (take n s) ≤ n
length-take-le zero s = omega arith
length-take-le (suc n) [] = omega arith
length-take-le (suc n) (c ∷ s) = omega (arith, length-take-le n s)

-- The template of a message has at most 100 characters; its only blanks are single spaces, none of
-- them at its start.
pub extract_message_template-IsTidy :
    (message : Text)
    → (length (extract_message_template message) ≤ 100)
      × IsTidy true (extract_message_template message)
unfolding extract_message_template
extract_message_template-IsTidy [] = (omega arith, tt)
extract_message_template-IsTidy (c ∷ message) =
    let ws = words (substitute substitutions (c ∷ message)) in
    (
      length-take-le 100 (join (codes " ") ws),
      take-IsTidy true 100 (join (codes " ") ws)
          (join-IsTidy true ws (words-IsWord (substitute substitutions (c ∷ message)))),
    )
