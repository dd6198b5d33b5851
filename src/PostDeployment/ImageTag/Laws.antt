-- ===== src/PostDeployment/ImageTag/Laws.antt =====
-- The commit that is read from an image tag.
use trino_gateway.Prelude.{
  ℕ, ◌≡◌, refl, sym, ap, ◌∙◌, inl, inr, Bool, true, false, ◌&&◌, ◌||◌, none, some, [], ◌∷◌, ◌++◌,
  all, any, length, leb, ◌==◌, ==_iff, arith, Bool-cases, and-true, or-false,
}
use trino_gateway.Prelude.Text.{Text}
use trino_gateway.PostDeployment.ImageTag.{
  is_hex, is_commit, after_last, dash_commit, commit_of_tag, tag_commit, parse_commit_from_image,
}

-- The character is in the text.
abbrev pub has_char : ℕ → Text → Bool
has_char c s = any (λ d. d == c) s

after_last-none : (c : ℕ) (s : Text) → has_char c s ≡ false → after_last c s ≡ none
unfolding after_last
after_last-none c [] h = refl
after_last-none c (d ∷ s) h =
    let (a, b) = or-false (d == c) (has_char c s) h in rw (after_last-none c s b, a) refl

after_last-append :
    (c : ℕ) (a b : Text) → has_char c b ≡ false → after_last c (a ++ (c ∷ b)) ≡ some b
unfolding after_last
after_last-append c [] b h = rw (after_last-none c b h, (==_iff c c).1 refl) refl
after_last-append c (d ∷ a) b h = rw (after_last-append c a b h) refl

has_char-append : (c : ℕ) (a b : Text) → has_char c (a ++ b) ≡ (has_char c a || has_char c b)
has_char-append c [] b = refl
has_char-append c (d ∷ a) b = ground (arith, has_char-append c a b)

not_both : {x y : Bool} → x ≡ y → x ≡ true → y ≡ false → ⊥
not_both e a n = let clash = sym a ∙ e ∙ n in ground arith

-- A character that is no digit of a commit is in no list of them.
hex-has_char : (c : ℕ) (s : Text) → is_hex c ≡ false → all is_hex s ≡ true → has_char c s ≡ false
hex-has_char c [] n h = refl
hex-has_char c (d ∷ s) n h =
    let (a, b) = and-true (is_hex d) (all is_hex s) h in
    let later = hex-has_char c s n b in
    elim (Bool-cases (d == c)) [
      | inl same ↦ absurd (not_both (ap is_hex ((==_iff d c).0 same)) a n)
      | inr differ ↦ rw (differ, later) refl
    ]

dash_not_hex : (a b : Text) → all is_hex (a ++ (b'-' ∷ b)) ≡ false
dash_not_hex [] b = refl
dash_not_hex (c ∷ a) b = ground (arith, dash_not_hex a b)

dash_commit-append : (v s : Text) → is_commit s ≡ true → dash_commit (v ++ (b'-' ∷ s)) ≡ some s
unfolding dash_commit
dash_commit-append [] s h = rw h refl
dash_commit-append (c ∷ v) s h = rw (dash_commit-append v s h, dash_not_hex v s) (ground arith)

-- A commit of 7 to 40 digits behind a dash is read back from an image tag: from the registry, which
-- may have slashes, a name without slashes and a version without slashes and colons.
pub parse_commit_from_image-roundtrip :
    (registry name version commit : Text)
    → is_commit commit ≡ true
    → has_char b'/' name ≡ false
    → has_char b'/' version ≡ false
    → has_char b':' version ≡ false
    → parse_commit_from_image (registry ++ (b'/' ∷ (name ++ (b':' ∷ (version ++ (b'-' ∷ commit))))))
      ≡ commit
unfolding parse_commit_from_image tag_commit commit_of_tag
parse_commit_from_image-roundtrip registry name version commit c n v w =
    let (digits, size) =
      and-true (all is_hex commit) (leb 7 (length commit) && leb (length commit) 40) c in
    let no_slash = hex-has_char b'/' commit refl digits in
    let no_colon = hex-has_char b':' commit refl digits in
    let rest : has_char b'/' (name ++ (b':' ∷ (version ++ (b'-' ∷ commit)))) ≡ false =
      rw
        (
          has_char-append b'/' name (b':' ∷ (version ++ (b'-' ∷ commit))),
          n,
          has_char-append b'/' version (b'-' ∷ commit),
          v,
          no_slash,
        )
        refl in
    let tag : has_char b':' (version ++ (b'-' ∷ commit)) ≡ false =
      rw (has_char-append b':' version (b'-' ∷ commit), w, no_colon) refl in
    rw
      (
        after_last-append b'/' registry (name ++ (b':' ∷ (version ++ (b'-' ∷ commit)))) rest,
        after_last-append b':' name (version ++ (b'-' ∷ commit)) tag,
        dash_commit-append version commit c,
      )
      refl
