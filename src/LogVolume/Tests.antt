-- ===== src/LogVolume/Tests.antt =====
-- Runs of the log volume scripts on small inputs, and the theorems at inputs that meet their
-- hypotheses.
use trino_gateway.Prelude.{
  ℕ, ◌+◌, ◌≤◌, ◌<◌, ◌≡◌, refl, ◌↔◌, ◌⊎◌, true, false, ◌&&◌, ◌||◌, none, some, List, [], ◌∷◌, String,
  map, arith, get_or, leb, Each, length,
}
use trino_gateway.Prelude.Text.{Text, codes, lower}
use trino_gateway.Prelude.Counter.{count_of, total_count}
use trino_gateway.Regex.{word, is_word}
use trino_gateway.Regex.Words.{IsWholeWord}
use trino_gateway.LogVolume.Log.{LogEntry, empty_entry}
use trino_gateway.LogVolume.Decision.{rules, decide}
use trino_gateway.LogVolume.Decision.Patterns.{
  entry_exit_patterns, success_patterns, metrics_patterns, secrets_patterns, matches_patterns,
  contains_keywords,
}
use trino_gateway.LogVolume.Decision.Rules.{
  keep, aggregate, sample, flag_review, get_level, get_message, has_level, high_freq_threshold,
  loop_aggregate_threshold, loop_sample_threshold,
}
use trino_gateway.LogVolume.Decision.FirstMatch.{IsFirstMatch, decide-IsFirstMatch}
use trino_gateway.LogVolume.Decision.Outcomes.{
  engine, is_protected, decide-protected, decide-loop, decide-flag_review,
}
use trino_gateway.LogVolume.Decision.Messages.{OneOf, matches_patterns-words}
use trino_gateway.LogVolume.Batch.{
  DecisionDict, LogWithDecision, Frequencies, decision_dict, batch_decide,
}
use trino_gateway.LogVolume.Batch.Laws.{batch_decide-protected}
use trino_gateway.LogVolume.Summary.{summarize_decisions}
use trino_gateway.LogVolume.Summary.Laws.{
  with_action, summarize_decisions-counts, summarize_decisions-savings-le,
}

abbrev info : String → LogEntry
info message = record empty_entry { level = some (codes "info"); message = some (codes message) }

abbrev failure : LogEntry
failure = info "Payment Failed"

abbrev loop_entry : LogEntry
loop_entry = record empty_entry {
  level = some (codes "INFO");
  message = some (codes "row");
  in_loop = some true;
}

abbrev secret : LogEntry
secret = info "the token was read"

program : Unit {0}
unfolding engine get_level get_message matches_patterns contains_keywords
program = tt

failure_protected : is_protected failure ≡ true
unfolding program
failure_protected = refl

failure_kept : (decide failure 2_000_000).reason ≡ codes "Message indicates error condition"
unfolding program
failure_kept = refl

loop_unprotected : is_protected loop_entry ≡ false
unfolding program
loop_unprotected = refl

loop_sampled : (decide loop_entry 12_345).reason ≡ codes "In loop with 12,345/day - add 1% sampling"
unfolding program
loop_sampled = refl

secret_flagged : (decide secret 0).action ≡ flag_review
unfolding program
secret_flagged = refl

request_metric : (decide (info "12 requests  per second") 0).rule_id ≡ 11
unfolding program
request_metric = refl

decide-IsFirstMatch_example : IsFirstMatch rules loop_entry 12_345 (decide loop_entry 12_345)
decide-IsFirstMatch_example = decide-IsFirstMatch loop_entry 12_345

decide-protected_example :
    ((decide failure 2_000_000).action ≡ keep)
    × ((decide failure 2_000_000).estimated_savings_pct ≡ 0)
    × ((decide failure 2_000_000).rule_id ≤ 5)
decide-protected_example = decide-protected failure 2_000_000 failure_protected

decide-loop_example :
    (get_or loop_entry.in_loop false ≡ true
      → (loop_aggregate_threshold ≤ 12_345 → (decide loop_entry 12_345).action ≡ aggregate)
        × (loop_sample_threshold ≤ 12_345
            → 12_345 < loop_aggregate_threshold
            → (decide loop_entry 12_345).action ≡ sample))
    × ((decide loop_entry 12_345).action ≡ aggregate ⊎ (decide loop_entry 12_345).action ≡ sample
        → (get_or loop_entry.in_loop false ≡ true) × (loop_sample_threshold ≤ 12_345))
decide-loop_example = decide-loop loop_entry 12_345 loop_unprotected

decide-flag_review_example : ((decide secret 0).action ≡ flag_review) ↔ (
    (is_protected secret ≡ false)
    × ((get_or secret.in_loop false && leb loop_sample_threshold 0) ≡ false)
    × ((has_level secret "INFO"
          && (matches_patterns (get_message secret) entry_exit_patterns
              || matches_patterns (get_message secret) success_patterns
              || leb high_freq_threshold 0))
        ≡ false)
    × (matches_patterns (get_message secret) metrics_patterns ≡ false)
    × (matches_patterns (get_message secret) secrets_patterns ≡ true))
decide-flag_review_example = decide-flag_review secret 0

matches_patterns-words_example :
    (matches_patterns (codes "Job DONE") (map word (codes "Done" ∷ [])) ≡ true)
    ↔ OneOf (λ w. IsWholeWord (lower w) (lower (codes "Job DONE"))) (codes "Done" ∷ [])
unfolding program is_word
matches_patterns-words_example =
    matches_patterns-words (codes "Job DONE") (codes "Done" ∷ [])
      ((refl, (refl, (refl, (refl, tt)))), tt)

done_found : matches_patterns (codes "Job DONE") (map word (codes "Done" ∷ [])) ≡ true
unfolding program
done_found = refl

abbrev batch : List LogEntry
batch = failure ∷ loop_entry ∷ secret ∷ []

abbrev known : Frequencies
known = (codes "row", 12_345) ∷ []

abbrev production : Text → ℕ
production message = length message

abbrev IsKept : LogWithDecision → Type 0
IsKept r =
    is_protected r.log ≡ true
    → (d : DecisionDict) × (r.decision ≡ some d)
      × (d.action ≡ some "KEEP")
      × (d.estimated_savings_pct ≡ some 0)

batch_decide-protected_example : Each IsKept (batch_decide batch known none)
batch_decide-protected_example = batch_decide-protected none known batch

abbrev outputs : List LogWithDecision
outputs =
    record {
      log = loop_entry;
      decision = some (
          decision_dict
            (record {
              action = sample;
              rule_id = 7;
              reason = codes "";
              confidence = "medium";
              estimated_savings_pct = 99;
            })
            (12_345, "manual"));
    }
    ∷ record { log = failure; decision = none }
    ∷ []

summary_run : (summarize_decisions outputs).estimated_total_savings_pct ≡ 990
unfolding summarize_decisions
summary_run = refl

summarize_decisions-counts_example :
    let s = summarize_decisions outputs in
    (total_count s.by_action ≡ s.total)
    × (total_count s.by_confidence ≡ s.total)
    × ((a : String) → count_of a s.by_action ≡ with_action a outputs)
    × (s.actionable + with_action "KEEP" outputs ≡ s.total)
    × (s.total ≡ length outputs)
summarize_decisions-counts_example = summarize_decisions-counts outputs

summarize_decisions-savings-le_example :
    (summarize_decisions outputs).estimated_total_savings_pct ≤ 1000
summarize_decisions-savings-le_example = summarize_decisions-savings-le outputs (omega arith)
