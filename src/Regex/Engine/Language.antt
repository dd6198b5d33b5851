-- ===== src/Regex/Engine/Language.antt =====
-- The texts that a pattern stands for, told without an engine, and that the engine finds only these.
use trino_gateway.Prelude.{
  ℕ, zero, suc, ◌+◌, ◌≤◌, ◌≡◌, refl, sym, ap, ◌∙◌, ◌⊎◌, inl, inr, Bool, true, false, some, all,
  List, [], ◌∷◌, ◌++◌, map, length, arith, Each, append_assoc, append-nil, Bool-cases, ◌==◌, ==_iff,
}
use trino_gateway.Prelude.Text.{Text}
use trino_gateway.Regex.{is_word, begins_word, differ}
use trino_gateway.Regex.Engine.{
  Re, empty, edge, one, many, few, few_from, upto, seq, alt, group, Place, place, up_to, one_from,
  many_from, upto_from, concat_map, capture, outcomes, Match, match_of, match_here, search_at, find,
  group_of,
}
use trino_gateway.Regex.Engine.Laws.{Each-append, Each-imp, up_to-append, or_else_cases}

-- The pattern stands for the text; of a word boundary only its text is told, which is empty.
abbrev pub Stands : Re → Text → Type 0
Stands empty t = t ≡ []
Stands edge t = t ≡ []
Stands (one p) t = (c : ℕ) × (t ≡ c ∷ []) × (p c ≡ true)
Stands (many p) t = all p t ≡ true
Stands (few p) t = all p t ≡ true
Stands (upto n p) t = (all p t ≡ true) × (length t ≤ n)
Stands (seq a b) t = (u v : Text) × (t ≡ u ++ v) × Stands a u × Stands b v
Stands (alt a b) t = Stands a t ⊎ Stands b t
Stands (group k a) t = Stands a t

-- The pattern has a group of that number that stands for that text.
abbrev pub HasGroup : Re → ℕ × Text → Type 0
HasGroup empty g = ⊥
HasGroup edge g = ⊥
HasGroup (one p) g = ⊥
HasGroup (many p) g = ⊥
HasGroup (few p) g = ⊥
HasGroup (upto n p) g = ⊥
HasGroup (seq a b) g = HasGroup a g ⊎ HasGroup b g
HasGroup (alt a b) g = HasGroup a g ⊎ HasGroup b g
HasGroup (group k a) g = ((k ≡ g.0) × Stands a g.1) ⊎ HasGroup a g

-- From a place the engine comes to another one behind a text that the pattern stands for, and has
-- captured only texts that groups of the pattern stand for.
abbrev pub Reaches : Re → Place → Place → Type 0
Reaches r o x =
    (t : Text) × (new : List (ℕ × Text)) × (o.rest ≡ t ++ x.rest)
    × Stands r t
    × (x.groups ≡ new ++ o.groups)
    × Each (HasGroup r) new

many_from-Reaches :
    (p : ℕ → Bool) (g : List (ℕ × Text)) (w : Bool) (s : Text)
    → Each (Reaches (many p) (place w g s)) (many_from p g w s)
unfolding many_from
many_from-Reaches p g w [] = (([], [], refl, refl, refl, tt), tt)
many_from-Reaches p g w (c ∷ s) = elim (Bool-cases (p c)) [
  | inl more ↦ rw more (
      Each-append (Reaches (many p) (place w g (c ∷ s))) (many_from p g (is_word c) s)
        (place w g (c ∷ s) ∷ [])
        (Each-imp (many_from p g (is_word c) s)
          (λ x r. let (t, new, e, h, f, k) = r in (c ∷ t, new, cc e, ground (arith, more, h), f, k))
          (many_from-Reaches p g (is_word c) s))
        (([], [], refl, refl, refl, tt), tt))
  | inr done ↦ rw done (([], [], refl, refl, refl, tt), tt)
]

few_from-Reaches :
    (p : ℕ → Bool) (g : List (ℕ × Text)) (w : Bool) (s : Text)
    → Each (Reaches (few p) (place w g s)) (few_from p g w s)
unfolding few_from
few_from-Reaches p g w [] = (([], [], refl, refl, refl, tt), tt)
few_from-Reaches p g w (c ∷ s) = elim (Bool-cases (p c)) [
  | inl more ↦ rw more (
    ([], [], refl, refl, refl, tt),
    Each-imp (few_from p g (is_word c) s)
        (λ x r. let (t, new, e, h, f, k) = r in (c ∷ t, new, cc e, ground (arith, more, h), f, k))
        (few_from-Reaches p g (is_word c) s),
  )
  | inr done ↦ rw done (([], [], refl, refl, refl, tt), tt)
]

upto_from-Reaches :
    (n : ℕ) (p : ℕ → Bool) (g : List (ℕ × Text)) (w : Bool) (s : Text)
    → Each (Reaches (upto n p) (place w g s)) (upto_from n p g w s)
unfolding upto_from
upto_from-Reaches zero p g w s = (([], [], refl, (refl, omega arith), refl, tt), tt)
upto_from-Reaches (suc n) p g w [] = (([], [], refl, (refl, omega arith), refl, tt), tt)
upto_from-Reaches (suc n) p g w (c ∷ s) = elim (Bool-cases (p c)) [
  | inl more ↦ rw more (
      Each-append (Reaches (upto (suc n) p) (place w g (c ∷ s))) (upto_from n p g (is_word c) s)
        (place w g (c ∷ s) ∷ [])
        (Each-imp (upto_from n p g (is_word c) s)
          (λ x r.
            let (t, new, e, (h, m), f, k) = r in
            (c ∷ t, new, cc e, (ground (arith, more, h), omega (arith, m)), f, k))
          (upto_from-Reaches n p g (is_word c) s))
        (([], [], refl, (refl, omega arith), refl, tt), tt))
  | inr done ↦ rw done (([], [], refl, (refl, omega arith), refl, tt), tt)
]

one_from-Reaches :
    (p : ℕ → Bool) (g : List (ℕ × Text)) (w : Bool) (s : Text)
    → Each (Reaches (one p) (place w g s)) (one_from p g s)
unfolding one_from
one_from-Reaches p g w [] = tt
one_from-Reaches p g w (c ∷ s) = elim (Bool-cases (p c)) [
  | inl fits ↦ rw fits ((c ∷ [], [], refl, (c, refl, fits), refl, tt), tt)
  | inr other ↦ rw other tt
]

seq-Reaches : (a b : Re) (o x y : Place) → Reaches a o x → Reaches b x y → Reaches (seq a b) o y
seq-Reaches a b o x y (t, new, e, h, f, k) (u, later, e2, h2, f2, k2) = (
  t ++ u,
  later ++ new,
  e ∙ (ap (λ s. t ++ s) e2 ∙ sym (append_assoc t u y.rest)),
  (t, u, refl, h, h2),
  f2 ∙ (ap (λ l. later ++ l) f ∙ sym (append_assoc later new o.groups)),
  Each-append (HasGroup (seq a b)) later new (Each-imp later (λ g i. inr i) k2)
      (Each-imp new (λ g i. inl i) k),
)

concat_map-Reaches :
    (a b : Re) (o : Place) (xs : List Place)
    → ((x : Place) → Each (Reaches b x) (outcomes b x))
    → Each (Reaches a o) xs
    → Each (Reaches (seq a b) o) (concat_map (outcomes b) xs)
unfolding concat_map
concat_map-Reaches a b o [] h each = tt
concat_map-Reaches a b o (x ∷ xs) h each =
    Each-append (Reaches (seq a b) o) (outcomes b x) (concat_map (outcomes b) xs)
      (Each-imp (outcomes b x) (λ y. seq-Reaches a b o x y each.0) (h x))
      (concat_map-Reaches a b o xs h each.1)

alt-Reaches :
    (a b : Re) (o : Place) (xs ys : List Place)
    → Each (Reaches a o) xs
    → Each (Reaches b o) ys
    → Each (Reaches (alt a b) o) (xs ++ ys)
alt-Reaches a b o xs ys h k =
    Each-append (Reaches (alt a b) o) xs ys
      (Each-imp xs
        (λ x r.
          let (t, new, e, i, f, j) = r in (t, new, e, inl i, f, Each-imp new (λ g l. inl l) j))
        h)
      (Each-imp ys
        (λ x r.
          let (t, new, e, i, f, j) = r in (t, new, e, inr i, f, Each-imp new (λ g l. inr l) j))
        k)

group-Reaches :
    (n : ℕ) (a : Re) (o : Place) (xs : List Place)
    → Each (Reaches a o) xs
    → Each (Reaches (group n a) o) (map (capture n o.rest) xs)
group-Reaches n a o [] h = tt
group-Reaches n a o (x ∷ xs) ((t, new, e, i, f, j), h) = (
  (
    t,
    (n, up_to o.rest x.rest) ∷ new,
    e,
    i,
    ap (λ l. (n, up_to o.rest x.rest) ∷ l) f,
    (inl (refl, rw (up_to-append o.rest t x.rest e) i), Each-imp new (λ g l. inr l) j),
  ),
  group-Reaches n a o xs h,
)

pub outcomes-Reaches : (r : Re) (o : Place) → Each (Reaches r o) (outcomes r o)
unfolding outcomes
outcomes-Reaches empty o = (([], [], refl, refl, refl, tt), tt)
outcomes-Reaches edge o = elim (Bool-cases (differ o.word (begins_word o.rest))) [
  | inl here ↦ rw here (([], [], refl, refl, refl, tt), tt)
  | inr elsewhere ↦ rw elsewhere tt
]
outcomes-Reaches (one p) o = one_from-Reaches p o.groups o.word o.rest
outcomes-Reaches (many p) o = many_from-Reaches p o.groups o.word o.rest
outcomes-Reaches (few p) o = few_from-Reaches p o.groups o.word o.rest
outcomes-Reaches (upto n p) o = upto_from-Reaches n p o.groups o.word o.rest
outcomes-Reaches (seq a b) o =
    concat_map-Reaches a b o (outcomes a o) (outcomes-Reaches b) (outcomes-Reaches a o)
outcomes-Reaches (alt a b) o =
    alt-Reaches a b o (outcomes a o) (outcomes b o) (outcomes-Reaches a o) (outcomes-Reaches b o)
outcomes-Reaches (group k a) o = group-Reaches k a o (outcomes a o) (outcomes-Reaches a o)

-- The match is a text of the pattern, and its groups are those of the pattern.
abbrev pub IsMatch : Re → Match → Type 0
IsMatch r m = Stands r m.text × Each (HasGroup r) m.groups

match_of-IsMatch :
    (r : Re) (i : ℕ) (w : Bool) (s : Text) (os : List Place) (m : Match)
    → Each (Reaches r (place w [] s)) os
    → match_of i s os ≡ some m
    → IsMatch r m
match_of-IsMatch r i w s [] m each h = ground arith
match_of-IsMatch r i w s (o ∷ os) m ((t, new, e, j, f, k), each) h =
    let text_at : m.text ≡ up_to s o.rest = ground arith in
    let groups_at : m.groups ≡ o.groups = ground arith in
    (rw (text_at, up_to-append s t o.rest e) j, rw (groups_at, f, append-nil new) k)

search_at-IsMatch :
    (r : Re) (i : ℕ) (w : Bool) (s : Text) (m : Match) → search_at r i w s ≡ some m → IsMatch r m
unfolding search_at match_here
search_at-IsMatch r i w [] m h =
    match_of-IsMatch r i w [] (outcomes r (place w [] [])) m (outcomes-Reaches r (place w [] [])) h
search_at-IsMatch r i w (c ∷ s) m h =
    elim (or_else_cases (match_here r i w (c ∷ s)) (search_at r (i + 1) (is_word c) s) m h) [
      | inl here ↦
          match_of-IsMatch r i w (c ∷ s) (outcomes r (place w [] (c ∷ s))) m
            (outcomes-Reaches r (place w [] (c ∷ s))) here
      | inr later ↦ search_at-IsMatch r (i + 1) (is_word c) s m later
    ]

-- What a search finds is a text that the pattern stands for, and each of its groups is one that a
-- group of that number stands for.
pub find-IsMatch : (r : Re) (s : Text) (m : Match) → find r s ≡ some m → IsMatch r m
unfolding find
find-IsMatch r s m h = search_at-IsMatch r 0 false s m h

pub group_of-Has :
    (P : ℕ × Text → Type 0) (k : ℕ) (gs : List (ℕ × Text)) (t : Text)
    → Each P gs
    → group_of k gs ≡ some t
    → P (k, t)
unfolding group_of
group_of-Has P k [] t each h = ground arith
group_of-Has P k ((j, u) ∷ gs) t (here, each) h = elim (Bool-cases (j == k)) [
  | inl same ↦
      let number : j ≡ k = (==_iff j k).0 same in
      let text_at : u ≡ t = ground (arith, same, h) in rw (← number, ← text_at) here
  | inr other ↦ group_of-Has P k gs t each (ground (arith, other, h))
]
