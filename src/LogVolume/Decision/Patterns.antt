-- ===== src/LogVolume/Decision/Patterns.antt =====
-- The keyword and pattern tables of `DecisionEngine`, and its two tests on a message.
use trino_gateway.Prelude.{Bool, List, [], ◌∷◌, ◌++◌, any, String, map}
use trino_gateway.Prelude.Text.{Text, codes, lower, contains_any}
use trino_gateway.Regex.{Pattern, boundary, spaces, digits, opt, lits, word, search_ignoring_case}

abbrev texts : List String → List Text
texts words = map codes words

abbrev pub error_keywords : List Text
error_keywords =
    texts ("failed" ∷ "error" ∷ "timeout" ∷ "panic" ∷ "exception" ∷ "fatal" ∷ "crash" ∷ [])

abbrev pub business_keywords : List Text
business_keywords =
    texts
      ("payment" ∷ "transaction" ∷ "settlement" ∷ "refund" ∷ "order" ∷ "invoice" ∷ "payout" ∷ [])

abbrev words : List String → List Pattern
words ws = map (λ w. word (codes w)) ws

abbrev pub entry_exit_patterns : List Pattern
entry_exit_patterns = words (
    "entering" ∷ "exiting" ∷ "starting" ∷ "completed" ∷ "begin" ∷ "end" ∷ "start" ∷ "finish"
    ∷ "init" ∷ "initialized" ∷ "shutdown" ∷ "started" ∷ "stopped" ∷ [])

abbrev pub success_patterns : List Pattern
success_patterns =
    words
      ("successfully" ∷ "success" ∷ "done" ∷ "complete" ∷ "finished" ∷ "processed" ∷ "handled" ∷ [])

-- `\bw\s+\d+`
abbrev counted : String → Pattern
counted w = boundary ∷ (lits (codes w) ++ (spaces ∷ digits ∷ []))

-- `\brequests?\s+per\b`
abbrev requests_per : Pattern
requests_per =
    boundary
    ∷ (lits (codes "request") ++ (opt b's' ∷ spaces ∷ (lits (codes "per") ++ (boundary ∷ []))))

abbrev pub metrics_patterns : List Pattern
metrics_patterns =
    word (codes "count")
    ∷ word (codes "total")
    ∷ counted "processed"
    ∷ word (codes "duration")
    ∷ word (codes "latency")
    ∷ counted "took"
    ∷ word (codes "ms")
    ∷ word (codes "time")
    ∷ word (codes "throughput")
    ∷ requests_per
    ∷ word (codes "rate")
    ∷ []

abbrev pub secrets_patterns : List Pattern
secrets_patterns = words (
    "password" ∷ "token" ∷ "secret" ∷ "key" ∷ "credential" ∷ "api_key" ∷ "access_token" ∷ "auth"
    ∷ "private" ∷ [])

-- Both tests lower the text once more.
unfoldable pub matches_patterns : Text → List Pattern → Bool
unfolding lower search_ignoring_case
matches_patterns text patterns = any (λ p. search_ignoring_case p (lower text)) patterns

unfoldable pub contains_keywords : Text → List Text → Bool
unfolding lower contains_any
contains_keywords text keywords = contains_any keywords (lower text)
