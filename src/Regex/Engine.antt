-- ===== src/Regex/Engine.antt =====
-- Python's `re` on the patterns of the scripts that capture or replace: classes, sequences,
-- alternatives, greedy and lazy repetitions of a class, word boundaries and groups. A pattern gives the places
-- where a match may end in the order in which the engine tries them; the first one is its match. The
-- classes \w, \d and \s are those of ASCII.
pub mod Laws
pub mod Language
pub mod Groups
use trino_gateway.Prelude.{
  ℕ, zero, suc, ◌+◌, ◌-◌, Bool, true, false, not, ◌&&◌, ◌||◌, Option, none, some, List, [], ◌∷◌,
  ◌++◌, String, map, length, take, ◌==◌, if◌then◌else◌,
}
use trino_gateway.Prelude.Text.{Text, codes, to_lower}
use trino_gateway.Regex.{is_word, is_space, is_digit, begins_word, differ}

pub data Re : Type 0 where
  empty edge : Re
  one many few : (ℕ → Bool) → Re
  upto : ℕ → (ℕ → Bool) → Re
  seq alt : Re → Re → Re
  group : ℕ → Re → Re

-- Where the engine stands: whether a word character is behind it, the groups that were captured, the
-- last one first, and the rest of the text.
pub record Place : Type 0 where
  pub word : Bool
  pub groups : List (ℕ × Text)
  pub rest : Text

abbrev pub place : Bool → List (ℕ × Text) → Text → Place
place w g s = record { word = w; groups = g; rest = s }

-- The text from `s` up to its end `rest`.
abbrev pub up_to : Text → Text → Text
up_to s rest = take (length s - length rest) s

unfoldable pub one_from : (ℕ → Bool) → List (ℕ × Text) → Text → List Place
unfolding is_word
one_from p g [] = []
one_from p g (c ∷ s) = if p c then place (is_word c) g s ∷ [] else []

-- The longest run first.
unfoldable pub many_from : (ℕ → Bool) → List (ℕ × Text) → Bool → Text → List Place
unfolding is_word
many_from p g w [] = place w g [] ∷ []
many_from p g w (c ∷ s) =
    let longer = many_from p g (is_word c) s ++ (place w g (c ∷ s) ∷ []) in
    if p c then longer else place w g (c ∷ s) ∷ []

-- The shortest run first: `p*?`.
unfoldable pub few_from : (ℕ → Bool) → List (ℕ × Text) → Bool → Text → List Place
unfolding is_word
few_from p g w [] = place w g [] ∷ []
few_from p g w (c ∷ s) =
    let longer = few_from p g (is_word c) s in place w g (c ∷ s) ∷ (if p c then longer else [])

unfoldable pub upto_from : ℕ → (ℕ → Bool) → List (ℕ × Text) → Bool → Text → List Place
unfolding is_word
upto_from zero p g w s = place w g s ∷ []
upto_from (suc n) p g w [] = place w g [] ∷ []
upto_from (suc n) p g w (c ∷ s) =
    let longer = upto_from n p g (is_word c) s ++ (place w g (c ∷ s) ∷ []) in
    if p c then longer else place w g (c ∷ s) ∷ []

unfoldable pub concat_map {ℓ} : {A : Type ℓ} → (A → List A) → List A → List A
concat_map f [] = []
concat_map f (x ∷ xs) = f x ++ concat_map f xs

abbrev pub capture : ℕ → Text → Place → Place
capture k s o = record o { groups = (k, up_to s o.rest) ∷ o.groups }

unfoldable pub outcomes : Re → Place → List Place
unfolding one_from many_from few_from upto_from concat_map begins_word
outcomes empty o = o ∷ []
outcomes edge o = if differ o.word (begins_word o.rest) then o ∷ [] else []
outcomes (one p) o = one_from p o.groups o.rest
outcomes (many p) o = many_from p o.groups o.word o.rest
outcomes (few p) o = few_from p o.groups o.word o.rest
outcomes (upto n p) o = upto_from n p o.groups o.word o.rest
outcomes (seq a b) o = concat_map (outcomes b) (outcomes a o)
outcomes (alt a b) o = outcomes a o ++ outcomes b o
outcomes (group k a) o = map (capture k o.rest) (outcomes a o)

-- A match object: where it starts, its text, and its groups.
pub record Match : Type 0 where
  pub start : ℕ
  pub text : Text
  pub groups : List (ℕ × Text)

abbrev pub match_of : ℕ → Text → List Place → Option Match
match_of i s [] = none
match_of i s (o ∷ later) = some (record { start = i; text = up_to s o.rest; groups = o.groups })

unfoldable pub match_here : Re → ℕ → Bool → Text → Option Match
unfolding outcomes
match_here r i w s = match_of i s (outcomes r (place w [] s))

abbrev pub or_else : Option Match → Option Match → Option Match
or_else (some m) later = some m
or_else none later = later

unfoldable pub search_at : Re → ℕ → Bool → Text → Option Match
unfolding match_here is_word
search_at r i w [] = match_here r i w []
search_at r i w (c ∷ s) = or_else (match_here r i w (c ∷ s)) (search_at r (i + 1) (is_word c) s)

-- `re.search(r, s)`
unfoldable pub find : Re → Text → Option Match
unfolding search_at
find r s = search_at r 0 false s

unfoldable pub found : Re → Text → Bool
unfolding find
found r s = elim (find r s) [ none ↦ false | some m ↦ true ]

-- `m.group(k)`, the last capture; a group that was not in the match is missing.
unfoldable pub group_of : ℕ → List (ℕ × Text) → Option Text
group_of k [] = none
group_of k ((j, t) ∷ gs) = if j == k then some t else group_of k gs

-- Of a match that starts here: how many characters behind its first one it takes. An empty match is
-- none; the patterns that are replaced have no empty matches.
abbrev pub more_taken : Text → List Place → Option ℕ
more_taken s [] = none
more_taken s (o ∷ later) =
    if length s - length o.rest == 0 then none else some (length s - length o.rest - 1)

-- `re.sub(r, replacement, s)`; the number counts the characters of the last match that are left.
unfoldable pub sub_from : Re → Text → ℕ → Bool → Text → Text
unfolding outcomes is_word
sub_from r replacement n w [] = []
sub_from r replacement (suc n) w (c ∷ s) = sub_from r replacement n (is_word c) s
sub_from r replacement zero w (c ∷ s) =
    elim (more_taken (c ∷ s) (outcomes r (place w [] (c ∷ s)))) [
      | none ↦ c ∷ sub_from r replacement 0 (is_word c) s
      | some n ↦ replacement ++ sub_from r replacement n (is_word c) s
    ]

-- `len(re.findall(r, s))`, of a pattern that has no empty matches.
unfoldable pub count_from : Re → Text → ℕ → Bool → ℕ
unfolding outcomes is_word
count_from r [] n w = 0
count_from r (c ∷ s) (suc n) w = count_from r s n (is_word c)
count_from r (c ∷ s) zero w = elim (more_taken (c ∷ s) (outcomes r (place w [] (c ∷ s)))) [
  | none ↦ count_from r s 0 (is_word c)
  | some n ↦ 1 + count_from r s n (is_word c)
]

unfoldable pub count_matches : Re → Text → ℕ
unfolding count_from
count_matches r s = count_from r s 0 false

unfoldable pub sub : Re → Text → Text → Text
unfolding sub_from
sub r replacement s = sub_from r replacement 0 false s

-- Patterns are written with these.
abbrev pub lit : ℕ → Re
lit c = one (λ d. d == c)

abbrev pub text : Text → Re
text [] = empty
text (c ∷ []) = lit c
text (c ∷ d ∷ s) = seq (lit c) (text (d ∷ s))

-- A character and a word in any case.
unfoldable pub ilit : ℕ → Re
unfolding to_lower
ilit c = one (λ d. to_lower d == to_lower c)

unfoldable pub itext : Text → Re
unfolding ilit
itext [] = empty
itext (c ∷ []) = ilit c
itext (c ∷ d ∷ s) = seq (ilit c) (itext (d ∷ s))

abbrev pub never : Re
never = one (λ _. false)

abbrev pub one_of : List Re → Re
one_of [] = never
one_of (r ∷ []) = r
one_of (r ∷ q ∷ rs) = alt r (one_of (q ∷ rs))

abbrev pub all_of : List Re → Re
all_of [] = empty
all_of (r ∷ []) = r
all_of (r ∷ q ∷ rs) = seq r (all_of (q ∷ rs))

abbrev pub maybe : Re → Re
maybe r = alt r empty

abbrev pub many1 : (ℕ → Bool) → Re
many1 p = seq (one p) (many p)

-- `p{n}`
abbrev pub times : ℕ → (ℕ → Bool) → Re
times zero p = empty
times (suc n) p = seq (one p) (times n p)

unfoldable pub spaces : Re
unfolding is_space
spaces = many is_space

unfoldable pub spaces1 : Re
unfolding is_space
spaces1 = many1 is_space

unfoldable pub digit1 : Re
unfolding is_digit
digit1 = many1 is_digit

-- `[^...]`
abbrev pub but : List ℕ → ℕ → Bool
but [] c = true
but (d ∷ ds) c = not (c == d) && but ds c

-- `.`
abbrev pub dot : ℕ → Bool
dot = but (10 ∷ [])
