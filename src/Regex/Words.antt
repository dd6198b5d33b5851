-- ===== src/Regex/Words.antt =====
-- What `\bw\b` finds: the word as a whole, with no word character on either side.
use trino_gateway.Prelude.{
  ℕ, ◌≡◌, refl, ◌↔◌, inl, inr, Bool, true, false, ◌&&◌, [], ◌∷◌, ◌++◌, arith, ◌==◌, ==_iff,
  and-true, or-true,
}
use trino_gateway.Prelude.Text.{Text}
use trino_gateway.Regex.{
  Pattern, boundary, is_word, begins_word, ends_word, differ, match_at, search_from, re_search,
  lits, word,
}

-- `w` stands in `s` with no word character just before or just behind it.
pub record IsWholeWord (w s : Text) : Type 0 where
  pub before : Text
  pub after : Text
  pub split : s ≡ before ++ (w ++ after)
  pub free_before : ends_word false before ≡ false
  pub free_after : begins_word after ≡ false

lits_sound :
    (w : Text) (p : Pattern) (b : Bool) (s : Text)
    → match_at (lits w ++ p) b s ≡ true
    → (r : Text) × (s ≡ w ++ r) × (match_at p (ends_word b w) r ≡ true)
unfolding match_at ends_word
lits_sound [] p b s h = (s, refl, h)
lits_sound (c ∷ w) p b [] h = cc
lits_sound (c ∷ w) p b (d ∷ s) h =
    let parts = and-true (c == d) (match_at (lits w ++ p) (is_word d) s) h in
    let (r, e, m) = lits_sound w p (is_word d) s parts.1 in
    (r, cc (e, (==_iff c d).0 parts.0), cc (m, (==_iff c d).0 parts.0))

lits_complete :
    (w : Text) (p : Pattern) (b : Bool) (r : Text)
    → match_at p (ends_word b w) r ≡ true
    → match_at (lits w ++ p) b (w ++ r) ≡ true
unfolding match_at ends_word
lits_complete [] p b r h = h
lits_complete (c ∷ w) p b r h = ground (arith, lits_complete w p (is_word c) r h)

-- A match of `\bw\b` at one position, for a word `c ∷ w` that begins and ends with word characters.
module _ (c : ℕ) (w : Text) (first : is_word c ≡ true) (last : ends_word true w ≡ true) where
  word_sound :
      (b : Bool) (s : Text)
      → match_at (word (c ∷ w)) b s ≡ true
      → (r : Text) × (s ≡ (c ∷ w) ++ r) × (b ≡ false) × (begins_word r ≡ false)
  unfolding match_at ends_word
  word_sound b s h =
      let parts =
        and-true (differ b (begins_word s)) (match_at (lits (c ∷ w) ++ (boundary ∷ [])) b s) h in
      let (r, e, m) = lits_sound (c ∷ w) (boundary ∷ []) b s parts.1 in
      let starts : differ b true ≡ true = cc (parts.0, e, first) in
      let ends : (differ true (begins_word r) && true) ≡ true = cc (m, first, last) in
      (r, e, ground arith, ground arith)

  word_complete :
      (r : Text) → begins_word r ≡ false → match_at (word (c ∷ w)) false ((c ∷ w) ++ r) ≡ true
  unfolding match_at ends_word
  word_complete r h =
      let ends : match_at (boundary ∷ []) (ends_word false (c ∷ w)) r ≡ true =
        rw (first, last, h) in
      ground (arith, lits_complete (c ∷ w) (boundary ∷ []) false r ends)

  search_from_sound :
      (b : Bool) (s : Text)
      → search_from (word (c ∷ w)) b s ≡ true
      → (a : Text) × (r : Text) × (s ≡ a ++ ((c ∷ w) ++ r))
        × (ends_word b a ≡ false)
        × (begins_word r ≡ false)
  unfolding search_from ends_word
  search_from_sound b [] h = let (r, e, f, g) = word_sound b [] h in ([], r, e, f, g)
  search_from_sound b (d ∷ s) h =
      elim (or-true (match_at (word (c ∷ w)) b (d ∷ s)) (search_from (word (c ∷ w)) (is_word d) s)
        h) [
          | inl here ↦ let (r, e, f, g) = word_sound b (d ∷ s) here in ([], r, e, f, g)
          | inr later ↦
              let (a, r, e, f, g) = search_from_sound (is_word d) s later in (d ∷ a, r, cc e, f, g)
        ]

  search_from_complete :
      (b : Bool) (a r : Text)
      → ends_word b a ≡ false
      → begins_word r ≡ false
      → search_from (word (c ∷ w)) b (a ++ ((c ∷ w) ++ r)) ≡ true
  unfolding search_from ends_word
  search_from_complete b [] r f g = rw f (ground (arith, word_complete r g))
  search_from_complete b (d ∷ a) r f g = ground (arith, search_from_complete (is_word d) a r f g)

  -- `re.search(r'\bw\b', s)` succeeds exactly when `w` stands in `s` as a whole word, for every `w`
  -- that begins and ends with a word character.
  pub re_search-word : (s : Text) → (re_search (word (c ∷ w)) s ≡ true) ↔ IsWholeWord (c ∷ w) s
  unfolding re_search
  re_search-word s = (
    λ h.
        let (a, r, e, f, g) = search_from_sound false s h in
        record { before = a; after = r; split = e; free_before = f; free_after = g },
    λ v. rw v.split (search_from_complete false v.before v.after v.free_before v.free_after),
  )
