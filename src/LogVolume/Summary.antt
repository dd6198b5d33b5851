-- ===== src/LogVolume/Summary.antt =====
-- .agents/skills/log-volume-optimizer/scripts/decision_engine.py: `summarize_decisions`.
pub mod Laws
use trino_gateway.Prelude.{
  ℕ, ◌+◌, ◌*◌, Option, none, some, List, [], ◌∷◌, String, get_or, ltb, length, str_eq,
  if◌then◌else◌,
}
use trino_gateway.Prelude.Counter.{Counter, increment}
use trino_gateway.Prelude.Round.{round_div}
use trino_gateway.LogVolume.Batch.{DecisionDict, LogWithDecision}

-- `estimated_total_savings_pct` is in tenths of a percent.
pub record Summary : Type 0 where
  pub total : ℕ
  pub by_action : Counter
  pub by_confidence : Counter
  pub actionable : ℕ
  pub estimated_total_savings_pct : ℕ

-- The variables of the loop.
pub record Tally : Type 0 where
  pub by_action : Counter
  pub by_confidence : Counter
  pub actionable_count : ℕ
  pub total_savings : ℕ

-- `log.get('decision', {})`
abbrev pub decision_of_log : LogWithDecision → DecisionDict
decision_of_log r = get_or r.decision (record {
  action = none;
  rule_id = none;
  reason = none;
  confidence = none;
  estimated_savings_pct = none;
  frequency = none;
  frequency_source = none;
})

abbrev pub action_in : LogWithDecision → String
action_in r = get_or (decision_of_log r).action "KEEP"

abbrev pub confidence_in : LogWithDecision → String
confidence_in r = get_or (decision_of_log r).confidence "low"

abbrev pub savings_in : LogWithDecision → ℕ
savings_in r = get_or (decision_of_log r).estimated_savings_pct 0

-- The body of the loop.
unfoldable pub tally : Tally → LogWithDecision → Tally
tally t r =
    let counted = record t {
      by_action = increment (action_in r) t.by_action;
      by_confidence = increment (confidence_in r) t.by_confidence;
    } in
    if str_eq (action_in r) "KEEP" then counted else record counted {
      actionable_count = t.actionable_count + 1;
      total_savings = t.total_savings + savings_in r;
    }

unfoldable pub tally_all : Tally → List LogWithDecision → Tally
unfolding tally
tally_all t [] = t
tally_all t (r ∷ rs) = tally_all (tally t r) rs

abbrev pub start : Tally
start = record {
  by_action = [];
  by_confidence = ("high", 0) ∷ ("medium", 0) ∷ ("low", 0) ∷ [];
  actionable_count = 0;
  total_savings = 0;
}

unfoldable pub summarize_decisions : List LogWithDecision → Summary
unfolding tally_all round_div
summarize_decisions logs =
    let t = tally_all start logs in
    record {
      total = length logs;
      by_action = t.by_action;
      by_confidence = t.by_confidence;
      actionable = t.actionable_count;
      estimated_total_savings_pct =
          if ltb 0 t.actionable_count
          then round_div (10 * t.total_savings) t.actionable_count
          else 0;
    }
