-- ===== src/LogScan/Template.antt =====
-- scan_logs.py: `extract_message_template`, which replaces what varies in a message.
pub mod Laws
use trino_gateway.Prelude.{ℕ, Bool, not, ◌&&◌, ◌||◌, List, [], ◌∷◌, leb, take, any, ◌==◌}
use trino_gateway.Prelude.Text.{Text, codes}
use trino_gateway.Prelude.Slices.{words, join}
use trino_gateway.Regex.{is_word, is_space, is_digit}
use trino_gateway.Regex.Engine.{
  Re, edge, one, many, upto, seq, alt, sub, text, lit, all_of, maybe, many1, times, but, digit1,
}

abbrev hex : ℕ → Bool
unfolding is_digit
hex c = is_digit c || (leb b'a' c && leb c b'f' || leb b'A' c && leb c b'F')

-- A character of the literal, as a class.
abbrev among : Text → ℕ → Bool
among cs c = any (λ d. c == d) cs

abbrev uuid_pattern : Re
unfolding hex
uuid_pattern = all_of (
    times 8 hex
    ∷ lit b'-'
    ∷ times 4 hex
    ∷ lit b'-'
    ∷ times 4 hex
    ∷ lit b'-'
    ∷ times 4 hex
    ∷ lit b'-'
    ∷ times 12 hex
    ∷ [])

abbrev hex_id_pattern : Re
unfolding hex
hex_id_pattern = times 24 hex

abbrev name_or_dot : ℕ → Bool
unfolding is_word
name_or_dot c = is_word c || (c == b'.' || c == b'-')

abbrev email_pattern : Re
unfolding is_word name_or_dot
email_pattern =
    all_of (many1 name_or_dot ∷ lit b'@' ∷ many1 name_or_dot ∷ lit b'.' ∷ many1 is_word ∷ [])

abbrev not_quoted : ℕ → Bool
unfolding is_space
not_quoted c = but (b'\'' ∷ b'"' ∷ []) c && not (is_space c)

abbrev url_pattern : Re
unfolding not_quoted
url_pattern =
    all_of (text (codes "http") ∷ maybe (lit b's') ∷ text (codes "://") ∷ many1 not_quoted ∷ [])

abbrev octet : Re
unfolding is_digit
octet = seq (one is_digit) (upto 2 is_digit)

abbrev ip_pattern : Re
unfolding octet
ip_pattern = all_of (octet ∷ lit b'.' ∷ octet ∷ lit b'.' ∷ octet ∷ lit b'.' ∷ octet ∷ [])

abbrev time_pattern : Re
unfolding is_digit
time_pattern = all_of (
    times 4 is_digit
    ∷ lit b'-'
    ∷ times 2 is_digit
    ∷ lit b'-'
    ∷ times 2 is_digit
    ∷ one (among (codes "T "))
    ∷ times 2 is_digit
    ∷ lit b':'
    ∷ times 2 is_digit
    ∷ lit b':'
    ∷ times 2 is_digit
    ∷ many (λ c. c == b'.' || is_digit c)
    ∷ maybe (lit b'Z')
    ∷ [])

abbrev long_number_pattern : Re
unfolding is_digit
long_number_pattern = all_of (edge ∷ times 6 is_digit ∷ many is_digit ∷ edge ∷ [])

abbrev verb_pattern : Re
unfolding is_digit
verb_pattern = all_of (
    lit b'%'
    ∷ many (λ c. among (codes "+#-.") c || is_digit c)
    ∷ one (among (codes "vTtbcdoqxXUeEfFgGsp"))
    ∷ [])

abbrev dollar_pattern : Re
dollar_pattern = all_of (text (codes "${") ∷ many1 (but (b'}' ∷ [])) ∷ lit b'}' ∷ [])

abbrev braces_pattern : Re
braces_pattern = all_of (text (codes "{{") ∷ many1 (but (b'}' ∷ [])) ∷ text (codes "}}") ∷ [])

-- The replacements, in their order.
abbrev pub substitutions : List (Re × Text)
unfolding uuid_pattern hex_id_pattern email_pattern url_pattern ip_pattern time_pattern
    long_number_pattern verb_pattern
substitutions =
    (uuid_pattern, codes "{uuid}")
    ∷ (hex_id_pattern, codes "{id}")
    ∷ (email_pattern, codes "{email}")
    ∷ (url_pattern, codes "{url}")
    ∷ (ip_pattern, codes "{ip}")
    ∷ (time_pattern, codes "{time}")
    ∷ (long_number_pattern, codes "{id}")
    ∷ (verb_pattern, codes "{value}")
    ∷ (dollar_pattern, codes "{value}")
    ∷ (braces_pattern, codes "{value}")
    ∷ []

unfoldable pub substitute : List (Re × Text) → Text → Text
unfolding sub
substitute [] template = template
substitute ((pattern_of, placeholder) ∷ rest) template =
    substitute rest (sub pattern_of placeholder template)

unfoldable pub extract_message_template : Text → Text
unfolding substitute words join substitutions
extract_message_template [] = []
extract_message_template (c ∷ message) =
    take 100 (join (codes " ") (words (substitute substitutions (c ∷ message))))
