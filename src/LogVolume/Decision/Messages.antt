-- ===== src/LogVolume/Decision/Messages.antt =====
-- What the two tests of `DecisionEngine` on a message say of its text.
use trino_gateway.Prelude.{
  ℕ, ap, refl, ◌∙◌, ◌≡◌, ◌↔◌, ◌⊎◌, inl, inr, true, List, [], ◌∷◌, ◌++◌, map, arith, any, or-true,
  Each,
}
use trino_gateway.Prelude.Text.{
  Text, to_lower, lower_idem, lower, contains, contains_any, contains_sound, contains_complete,
}
use trino_gateway.Regex.{
  Pattern, lit, boundary, lower_item, is_word, ends_word, lits, search_ignoring_case, word,
}
use trino_gateway.Regex.Words.{IsWholeWord, re_search-word}
use trino_gateway.LogVolume.Decision.Patterns.{matches_patterns, contains_keywords}

-- One of the texts satisfies `P`.
abbrev pub OneOf : (Text → Type 0) → List Text → Type 0
OneOf P [] = ⊥
OneOf P (t ∷ ts) = P t ⊎ OneOf P ts

-- Letters, digits and underscores, at least one. A regular expression takes such a word as it is.
abbrev pub IsProper : Text → Type 0
IsProper [] = ⊥
IsProper (c ∷ w) = (is_word c ≡ true) × Each (λ d. is_word d ≡ true) w

pub record IsPart (part whole : Text) : Type 0 where
  pub before : Text
  pub after : Text
  pub split : whole ≡ before ++ (part ++ after)

is_word-to_lower : (c : ℕ) → is_word c ≡ true → is_word (to_lower c) ≡ true
unfolding is_word to_lower
is_word-to_lower c h = ground arith

ends_word-lower : (w : Text) → Each (λ d. is_word d ≡ true) w → ends_word true (lower w) ≡ true
unfolding ends_word lower
ends_word-lower [] h = refl
ends_word-lower (c ∷ w) h =
    ap (λ b. ends_word b (lower w)) (is_word-to_lower c h.0) ∙ ends_word-lower w h.1

lower_item-lits :
    (w : Text) (p : Pattern) → map lower_item (lits w ++ p) ≡ lits (lower w) ++ map lower_item p
unfolding lower
lower_item-lits [] p = refl
lower_item-lits (c ∷ w) p = ap (λ q. lit (to_lower c) ∷ q) (lower_item-lits w p)

search_word :
    (w s : Text)
    → IsProper w
    → (search_ignoring_case (word w) (lower s) ≡ true) ↔ IsWholeWord (lower w) (lower s)
unfolding search_ignoring_case lower
search_word [] s h = absurd h
search_word (c ∷ w) s h =
    rw (lower_idem s, lower_item-lits (c ∷ w) (boundary ∷ []))
      (re_search-word (to_lower c) (lower w) (is_word-to_lower c h.0) (ends_word-lower w h.1)
        (lower s))

any-word :
    (s : Text) (ws : List Text)
    → Each IsProper ws
    → (any (λ p. search_ignoring_case p (lower s)) (map word ws) ≡ true)
      ↔ OneOf (λ w. IsWholeWord (lower w) (lower s)) ws
any-word s [] h = (λ e. cc, λ e. absurd e)
any-word s (w ∷ ws) h =
    let here = search_word w s h.0 in
    let later = any-word s ws h.1 in
    (
      λ e.
          elim (or-true (search_ignoring_case (word w) (lower s))
            (any (λ p. search_ignoring_case p (lower s)) (map word ws)) e) [
              | inl a ↦ inl (here.0 a)
              | inr b ↦ inr (later.0 b)
            ],
      λ o. elim o [ inl a ↦ rw (here.1 a) | inr b ↦ ground (arith, later.1 b) ],
    )

-- For words of letters, digits and underscores, `_matches_patterns` with the patterns `\bw\b` succeeds
-- exactly when one of the words stands in the text as a whole word, both in lower case.
pub matches_patterns-words :
    (text : Text) (ws : List Text)
    → Each IsProper ws
    → (matches_patterns text (map word ws) ≡ true)
      ↔ OneOf (λ w. IsWholeWord (lower w) (lower text)) ws
unfolding matches_patterns
matches_patterns-words text ws h = any-word text ws h

any-keyword :
    (s : Text) (ks : List Text) → (any (λ k. contains k s) ks ≡ true) ↔ OneOf (λ k. IsPart k s) ks
any-keyword s [] = (λ e. cc, λ e. absurd e)
any-keyword s (k ∷ ks) =
    let later = any-keyword s ks in
    (
      λ e. elim (or-true (contains k s) (any (λ k. contains k s) ks) e) [
        | inl a ↦
            let (b, c, split) = contains_sound k s a in
            inl (record { before = b; after = c; split = split })
        | inr b ↦ inr (later.0 b)
      ],
      λ o. elim o [
        | inl p ↦ rw p.split (rw (contains_complete k p.before p.after))
        | inr b ↦ ground (arith, later.1 b)
      ],
    )

-- `_contains_keywords` succeeds exactly when one of the keywords is a part of the lowered text, within
-- a word or not.
contains_keywords-parts :
    (text : Text) (ks : List Text)
    → (contains_keywords text ks ≡ true) ↔ OneOf (λ k. IsPart k (lower text)) ks
unfolding contains_keywords contains_any
contains_keywords-parts text ks = any-keyword (lower text) ks
