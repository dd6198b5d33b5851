-- ===== src/Prelude/Text.antt =====
-- Python's `str` where the program walks it: a list of code points. `lower` and `upper` are those
-- of ASCII, which is what log messages, levels, pod names and query plans hold.
use Prim.Native.Nat.{ℕ, ◌+◌, ◌-◌}
use Prim.Native.Char.{code}
use Prim.Native.String.{String}
use mathlib.Core.Path.{◌≡◌, refl}
use mathlib.Core.Logic.{◌↔◌, inl, inr}
use mathlib.Core.Bool.{Bool, true, false, ◌&&◌, ◌||◌}
use mathlib.Core.List.{List, [], ◌∷◌, ◌++◌, map}
use native.Mathlib.Omega.{arith}
use trino_gateway.Prelude.Tests.{leb, ltb, ◌==◌, ==_iff, if◌then◌else◌, or-true, and-true}
use trino_gateway.Prelude.Lists.{any}

abbrev pub Text : Type 0
Text = List ℕ

-- The code points of a literal. `String` has its own `[]` and `∷`.
abbrev pub codes : String → Text
codes String.[] = []
codes (String.◌∷◌ c s) = code c ∷ codes s

unfoldable pub to_lower : ℕ → ℕ
to_lower c = if leb b'A' c && leb c b'Z' then c + 32 else c

unfoldable pub to_upper : ℕ → ℕ
to_upper c = if leb b'a' c && leb c b'z' then c - 32 else c

-- `s.lower()`
unfoldable pub lower : Text → Text
unfolding to_lower
lower s = map to_lower s

-- `s.upper()`
unfoldable pub upper : Text → Text
unfolding to_upper
upper s = map to_upper s

-- `s == t`
abbrev pub text_eq : Text → Text → Bool
text_eq [] [] = true
text_eq [] (d ∷ t) = false
text_eq (c ∷ s) [] = false
text_eq (c ∷ s) (d ∷ t) = c == d && text_eq s t

-- `s < t`: by the first code point that differs, and a prefix before its extensions
unfoldable pub text_lt : Text → Text → Bool
text_lt s [] = false
text_lt [] (d ∷ t) = true
text_lt (c ∷ s) (d ∷ t) = ltb c d || c == d && text_lt s t

-- `s.startswith(p)`, with the prefix first
abbrev pub starts_with : Text → Text → Bool
starts_with [] s = true
starts_with (p ∷ ps) [] = false
starts_with (p ∷ ps) (c ∷ s) = p == c && starts_with ps s

-- `p in s`
unfoldable pub contains : Text → Text → Bool
contains p [] = starts_with p []
contains p (c ∷ s) = starts_with p (c ∷ s) || contains p s

-- `any(k in s for k in keys)`
unfoldable pub contains_any : List Text → Text → Bool
unfolding contains
contains_any keys s = any (λ k. contains k s) keys

pub text_eq_iff : (s t : Text) → (text_eq s t ≡ true) ↔ (s ≡ t)
text_eq_iff [] [] = (λ _. refl, λ _. refl)
text_eq_iff [] (d ∷ t) = (λ h. cc, λ h. cc)
text_eq_iff (c ∷ s) [] = (λ h. cc, λ h. cc)
text_eq_iff (c ∷ s) (d ∷ t) = ground (arith, text_eq_iff s t)

to_lower_idem : (c : ℕ) → to_lower (to_lower c) ≡ to_lower c
unfolding to_lower
to_lower_idem c = ground arith

pub lower_idem : (s : Text) → lower (lower s) ≡ lower s
unfolding lower
lower_idem [] = refl
lower_idem (c ∷ s) = cc (to_lower_idem c, lower_idem s)

pub starts_with_sound : (p s : Text) → starts_with p s ≡ true → (r : Text) × (s ≡ p ++ r)
starts_with_sound [] s h = (s, refl)
starts_with_sound (p ∷ ps) [] h = cc
starts_with_sound (p ∷ ps) (c ∷ s) h =
    let parts = and-true (p == c) (starts_with ps s) h in
    let (r, e) = starts_with_sound ps s parts.1 in (r, cc (e, (==_iff p c).0 parts.0))

pub starts_with-append : (p r : Text) → starts_with p (p ++ r) ≡ true
starts_with-append [] r = refl
starts_with-append (p ∷ ps) r = ground (arith, starts_with-append ps r)

-- A text that holds `p` is some text, then `p`, then the rest.
pub contains_sound :
    (p s : Text) → contains p s ≡ true → (a : Text) × (b : Text) × (s ≡ a ++ (p ++ b))
unfolding contains
contains_sound p [] h = let (r, e) = starts_with_sound p [] h in ([], r, e)
contains_sound p (c ∷ s) h = elim (or-true (starts_with p (c ∷ s)) (contains p s) h) [
  | inl here ↦ let (r, e) = starts_with_sound p (c ∷ s) here in ([], r, e)
  | inr later ↦ let (a, b, e) = contains_sound p s later in (c ∷ a, b, cc e)
]

pub contains_complete : (p a b : Text) → contains p (a ++ (p ++ b)) ≡ true
unfolding contains
contains_complete [] [] [] = refl
contains_complete [] [] (c ∷ b) = refl
contains_complete (p ∷ ps) [] b = ground (arith, starts_with-append (p ∷ ps) b)
contains_complete p (c ∷ a) b = ground (arith, contains_complete p a b)
