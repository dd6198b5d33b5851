-- ===== src/LogVolume/Decision.antt =====
-- .agents/skills/log-volume-optimizer/scripts/decision_engine.py: the rules and `decide`. The
-- theorems stand in the modules below.
pub mod Patterns
pub mod Rules
pub mod FirstMatch
pub mod Outcomes
pub mod Messages
use trino_gateway.Prelude.{ℕ, String, Option, none, some, List, [], ◌∷◌}
use trino_gateway.Prelude.Text.{Text, codes}
use trino_gateway.LogVolume.Log.{LogEntry}
use Rules.{
  Action, keep, Outcome, Rule, rule_error_fatal, rule_warn, rule_error_handler, rule_error_keywords,
  rule_business_critical, rule_loop_aggregate, rule_loop_sample, rule_entry_exit,
  rule_success_pattern, rule_high_freq_info, rule_metrics_pattern, rule_secrets, rule_debug,
  rule_default,
}

pub record Decision : Type 0 where
  pub action : Action
  pub rule_id : ℕ
  pub reason : Text
  pub confidence : String
  pub estimated_savings_pct : ℕ

-- A rule with its number and its name.
pub record Numbered : Type 0 where
  pub rule_id : ℕ
  pub rule_name : String
  pub rule_func : Rule

abbrev pub numbered : ℕ → String → Rule → Numbered
numbered i n r = record { rule_id = i; rule_name = n; rule_func = r }

-- `_build_rules`
abbrev pub rules : List Numbered
rules =
    numbered 1 "ERROR/FATAL level always kept" rule_error_fatal
    ∷ numbered 2 "WARN level always kept" rule_warn
    ∷ numbered 3 "In error handler context" rule_error_handler
    ∷ numbered 4 "Message contains error keywords" rule_error_keywords
    ∷ numbered 5 "Business-critical event" rule_business_critical
    ∷ numbered 6 "In loop with very high frequency - aggregate" rule_loop_aggregate
    ∷ numbered 7 "In loop with high frequency - sample" rule_loop_sample
    ∷ numbered 8 "Entry/exit pattern" rule_entry_exit
    ∷ numbered 9 "Success confirmation pattern" rule_success_pattern
    ∷ numbered 10 "High-frequency INFO log" rule_high_freq_info
    ∷ numbered 11 "Metrics pattern - convert to metric" rule_metrics_pattern
    ∷ numbered 12 "Contains secrets/PII" rule_secrets
    ∷ numbered 13 "DEBUG level already" rule_debug
    ∷ numbered 14 "Default - keep" rule_default
    ∷ []

abbrev pub decision_of : ℕ → Outcome → Decision
decision_of i o = record {
  action = o.action;
  rule_id = i;
  reason = o.reason;
  confidence = o.confidence;
  estimated_savings_pct = o.savings;
}

-- What `decide` returns behind its loop.
abbrev pub fallback : Decision
fallback = record {
  action = keep;
  rule_id = 14;
  reason = codes "Default: no matching rule";
  confidence = "low";
  estimated_savings_pct = 0;
}

-- The loop of `decide`.
unfoldable pub first_match : List Numbered → LogEntry → ℕ → Decision
first_match [] e frequency = fallback
first_match (r ∷ rest) e frequency =
    let later = first_match rest e frequency in
    elim (r.rule_func e frequency) [ none ↦ later | some o ↦ decision_of r.rule_id o ]

unfoldable pub decide : LogEntry → ℕ → Decision
unfolding first_match
decide e frequency = first_match rules e frequency
