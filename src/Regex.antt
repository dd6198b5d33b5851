-- ===== src/Regex.antt =====
-- The regular expressions that the scripts give to Python's `re.search`, as sequences of items: word
-- boundaries, literal characters, an optional character, `\s+` and `\d+`, over ASCII text.
pub mod Words
pub mod Engine
use trino_gateway.Prelude.{
  ℕ, Bool, true, false, not, ◌&&◌, ◌||◌, List, [], ◌∷◌, ◌++◌, map, leb, ◌==◌, if◌then◌else◌,
}
use trino_gateway.Prelude.Text.{Text, to_lower, lower}

pub data Item : Type 0 where
  boundary spaces digits : Item
  lit opt : ℕ → Item

abbrev pub Pattern : Type 0
Pattern = List Item

-- `\w`
unfoldable pub is_word : ℕ → Bool
is_word c =
    leb b'a' c && leb c b'z' || leb b'A' c && leb c b'Z' || leb b'0' c && leb c b'9' || c == b'_'

-- `\s`
unfoldable pub is_space : ℕ → Bool
is_space c = leb 9 c && leb c 13 || leb 28 c && leb c 32

-- `\d`
unfoldable pub is_digit : ℕ → Bool
is_digit c = leb b'0' c && leb c b'9'

-- Whether the text goes on with a word character.
unfoldable pub begins_word : Text → Bool
unfolding is_word
begins_word [] = false
begins_word (c ∷ s) = is_word c

-- Whether the character before the rest is a word character, after the text `s` that follows `w`.
unfoldable pub ends_word : Bool → Text → Bool
unfolding is_word
ends_word w [] = w
ends_word w (c ∷ s) = ends_word (is_word c) s

abbrev pub differ : Bool → Bool → Bool
differ a b = if a then not b else b

-- A match of the whole pattern at this position; `w` says whether a word character stands before it.
unfoldable pub match_at : Pattern → Bool → Text → Bool
unfolding begins_word is_space is_digit
match_at [] w s = true
match_at (boundary ∷ p) w s = differ w (begins_word s) && match_at p w s
match_at (lit c ∷ p) w [] = false
match_at (lit c ∷ p) w (d ∷ s) = c == d && match_at p (is_word d) s
match_at (opt c ∷ p) w [] = match_at p w []
match_at (opt c ∷ p) w (d ∷ s) = c == d && match_at p (is_word d) s || match_at p w (d ∷ s)
match_at (spaces ∷ p) w [] = false
match_at (spaces ∷ p) w (d ∷ s) =
    is_space d && (match_at p (is_word d) s || match_at (spaces ∷ p) (is_word d) s)
match_at (digits ∷ p) w [] = false
match_at (digits ∷ p) w (d ∷ s) =
    is_digit d && (match_at p (is_word d) s || match_at (digits ∷ p) (is_word d) s)

-- The first position that matches, from left to right.
unfoldable pub search_from : Pattern → Bool → Text → Bool
unfolding match_at
search_from p w [] = match_at p w []
search_from p w (c ∷ s) = match_at p w (c ∷ s) || search_from p (is_word c) s

-- `re.search(p, s)` as a test
unfoldable pub re_search : Pattern → Text → Bool
unfolding search_from
re_search p s = search_from p false s

-- A letter of the pattern in lower case; the classes and `\b` have letters in both cases.
abbrev pub lower_item : Item → Item
unfolding to_lower
lower_item boundary = boundary
lower_item spaces = spaces
lower_item digits = digits
lower_item (lit c) = lit (to_lower c)
lower_item (opt c) = opt (to_lower c)

-- `re.search(p, s, re.IGNORECASE)` as a test: letters are compared in lower case.
unfoldable pub search_ignoring_case : Pattern → Text → Bool
unfolding lower re_search lower_item
search_ignoring_case p s = re_search (map lower_item p) (lower s)

abbrev pub lits : Text → Pattern
lits w = map lit w

-- `\bw\b`
abbrev pub word : Text → Pattern
word w = boundary ∷ (lits w ++ (boundary ∷ []))
