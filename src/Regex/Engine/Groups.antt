-- ===== src/Regex/Engine/Groups.antt =====
-- The groups that every match of a pattern captures.
use trino_gateway.Prelude.{
  ℕ, ◌+◌, ◌≡◌, refl, inl, inr, Bool, true, false, ◌&&◌, ◌||◌, some, List, [], ◌∷◌, ◌++◌, map, arith,
  Each, Bool-cases, or-true, and-true, ◌==◌,
}
use trino_gateway.Prelude.Text.{Text}
use trino_gateway.Prelude.Dict.{is_some}
use trino_gateway.Regex.{is_word}
use trino_gateway.Regex.Engine.{
  Re, empty, edge, one, many, few, upto, seq, alt, group, Place, place, up_to, concat_map, capture,
  outcomes, Match, match_of, match_here, search_at, find, group_of,
}
use trino_gateway.Regex.Engine.Laws.{Each-append, Each-imp, or_else_cases}
use trino_gateway.Regex.Engine.Language.{outcomes-Reaches}

-- Each match of the pattern passes through a group of that number.
abbrev pub captures : ℕ → Re → Bool
captures k empty = false
captures k edge = false
captures k (one p) = false
captures k (many p) = false
captures k (few p) = false
captures k (upto n p) = false
captures k (seq a b) = captures k a || captures k b
captures k (alt a b) = captures k a && captures k b
captures k (group j a) = (j == k) || captures k a

abbrev IsCaptured : ℕ → Place → Type 0
unfolding group_of
IsCaptured k o = is_some (group_of k o.groups) ≡ true

group_of-append :
    (k : ℕ) (new gs : List (ℕ × Text))
    → is_some (group_of k gs) ≡ true
    → is_some (group_of k (new ++ gs)) ≡ true
unfolding group_of
group_of-append k [] gs h = h
group_of-append k ((j, t) ∷ new) gs h =
    let later = group_of-append k new gs h in
    elim (Bool-cases (j == k)) [ inl here ↦ rw here refl | inr other ↦ rw other later ]

keeps_group : (k : ℕ) (r : Re) (o : Place) → IsCaptured k o → Each (IsCaptured k) (outcomes r o)
unfolding IsCaptured
keeps_group k r o h =
    Each-imp (outcomes r o)
      (λ x reached. let (t, new, e, i, f, j) = reached in rw f (group_of-append k new o.groups h))
      (outcomes-Reaches r o)

concat_map-Each :
    (P Q : Place → Type 0) (f : Place → List Place) (xs : List Place)
    → ((x : Place) → P x → Each Q (f x))
    → Each P xs
    → Each Q (concat_map f xs)
unfolding concat_map
concat_map-Each P Q f [] h each = tt
concat_map-Each P Q f (x ∷ xs) h each =
    Each-append Q (f x) (concat_map f xs) (h x each.0) (concat_map-Each P Q f xs h each.1)

Each-Unit : (xs : List Place) → Each (λ x. Unit {0}) xs
Each-Unit [] = tt
Each-Unit (x ∷ xs) = (tt, Each-Unit xs)

capture-group :
    (k j : ℕ) (o : Place) (xs : List Place)
    → (j == k) ≡ true
    → Each (IsCaptured k) (map (capture j o.rest) xs)
unfolding IsCaptured group_of
capture-group k j o [] same = tt
capture-group k j o (x ∷ xs) same = (rw same refl, capture-group k j o xs same)

capture-keeps :
    (k j : ℕ) (o : Place) (xs : List Place)
    → Each (IsCaptured k) xs
    → Each (IsCaptured k) (map (capture j o.rest) xs)
unfolding IsCaptured
capture-keeps k j o [] h = tt
capture-keeps k j o (x ∷ xs) (a, h) =
    (group_of-append k ((j, up_to o.rest x.rest) ∷ []) x.groups a, capture-keeps k j o xs h)

outcomes-captures :
    (k : ℕ) (r : Re) (o : Place) → captures k r ≡ true → Each (IsCaptured k) (outcomes r o)
unfolding outcomes
outcomes-captures k empty o h = cc
outcomes-captures k edge o h = cc
outcomes-captures k (one p) o h = cc
outcomes-captures k (many p) o h = cc
outcomes-captures k (few p) o h = cc
outcomes-captures k (upto n p) o h = cc
outcomes-captures k (seq a b) o h = elim (or-true (captures k a) (captures k b) h) [
  | inl first ↦
      concat_map-Each (IsCaptured k) (IsCaptured k) (outcomes b) (outcomes a o)
        (λ x. keeps_group k b x) (outcomes-captures k a o first)
  | inr second ↦
      concat_map-Each (λ x. Unit {0}) (IsCaptured k) (outcomes b) (outcomes a o)
        (λ x u. outcomes-captures k b x second) (Each-Unit (outcomes a o))
]
outcomes-captures k (alt a b) o h =
    let (x, y) = and-true (captures k a) (captures k b) h in
    Each-append (IsCaptured k) (outcomes a o) (outcomes b o) (outcomes-captures k a o x)
      (outcomes-captures k b o y)
outcomes-captures k (group j a) o h = elim (or-true (j == k) (captures k a) h) [
  | inl same ↦ capture-group k j o (outcomes a o) same
  | inr below ↦ capture-keeps k j o (outcomes a o) (outcomes-captures k a o below)
]

match_of-captures :
    (k i : ℕ) (s : Text) (os : List Place) (m : Match)
    → Each (IsCaptured k) os
    → match_of i s os ≡ some m
    → is_some (group_of k m.groups) ≡ true
unfolding IsCaptured
match_of-captures k i s [] m each h = ground arith
match_of-captures k i s (o ∷ os) m (a, each) h =
    let groups_at : m.groups ≡ o.groups = ground arith in rw groups_at a

search_at-captures :
    (k : ℕ) (r : Re) (i : ℕ) (w : Bool) (s : Text) (m : Match)
    → captures k r ≡ true
    → search_at r i w s ≡ some m
    → is_some (group_of k m.groups) ≡ true
unfolding search_at match_here
search_at-captures k r i w [] m c h =
    match_of-captures k i [] (outcomes r (place w [] [])) m
      (outcomes-captures k r (place w [] []) c) h
search_at-captures k r i w (d ∷ s) m c h =
    elim (or_else_cases (match_here r i w (d ∷ s)) (search_at r (i + 1) (is_word d) s) m h) [
      | inl here ↦
          match_of-captures k i (d ∷ s) (outcomes r (place w [] (d ∷ s))) m
            (outcomes-captures k r (place w [] (d ∷ s)) c) here
      | inr later ↦ search_at-captures k r (i + 1) (is_word d) s m c later
    ]

-- A match has the group, if each match of the pattern passes through it.
pub find-captures :
    (k : ℕ) (r : Re) (s : Text) (m : Match)
    → captures k r ≡ true
    → find r s ≡ some m
    → is_some (group_of k m.groups) ≡ true
unfolding find
find-captures k r s m c h = search_at-captures k r 0 false s m c h
