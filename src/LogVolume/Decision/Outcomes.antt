-- ===== src/LogVolume/Decision/Outcomes.antt =====
-- What the decision of an entry depends on.
use trino_gateway.Prelude.{
  ℕ, ◌≡◌, ◌≢◌, ◌↔◌, ◌≤◌, ◌<◌, ◌⊎◌, Bool, true, false, ◌&&◌, ◌||◌, arith, get_or, leb,
}
use trino_gateway.LogVolume.Log.{LogEntry}
use trino_gateway.LogVolume.Decision.Patterns.{
  error_keywords, business_keywords, entry_exit_patterns, success_patterns, metrics_patterns,
  secrets_patterns, contains_keywords, matches_patterns,
}
use trino_gateway.LogVolume.Decision.Rules.{
  keep, remove, aggregate, sample, flag_review, get_message, has_level, high_freq_threshold,
  loop_aggregate_threshold, loop_sample_threshold, rule_error_fatal, rule_warn, rule_error_handler,
  rule_error_keywords, rule_business_critical, rule_loop_aggregate, rule_loop_sample,
  rule_entry_exit, rule_success_pattern, rule_high_freq_info, rule_metrics_pattern, rule_secrets,
  rule_debug, rule_default,
}
use trino_gateway.LogVolume.Decision.{decide}

-- An entry that the team never drops: an error or warning, an entry of an error handler, or a
-- message with a word of an error or of the business.
abbrev pub is_protected : LogEntry → Bool
is_protected e =
    has_level e "ERROR"
    || has_level e "FATAL"
    || has_level e "WARN"
    || get_or e.in_error_handler false
    || contains_keywords (get_message e) error_keywords
    || contains_keywords (get_message e) business_keywords

-- All the rules, opened together.
unfoldable pub engine : Unit {0}
unfolding decide rule_error_fatal rule_warn rule_error_handler rule_error_keywords
    rule_business_critical rule_loop_aggregate rule_loop_sample rule_entry_exit rule_success_pattern
    rule_high_freq_info rule_metrics_pattern rule_secrets rule_debug rule_default
engine = tt

module _ (e : LogEntry) (frequency : ℕ) where
  -- An entry at level ERROR, FATAL or WARN, of an error handler, or with a word of an error or of
  -- the business in its message is kept at every frequency, by one of the first five rules, and no
  -- savings are counted for it.
  pub decide-protected :
      is_protected e ≡ true
      → ((decide e frequency).action ≡ keep)
        × ((decide e frequency).estimated_savings_pct ≡ 0)
        × ((decide e frequency).rule_id ≤ 5)
  unfolding engine
  decide-protected h = ground arith

  -- An entry of a loop that is not protected is aggregated from 100,000 a day on, and sampled from
  -- 10,000 up to that; only entries of loops are aggregated or sampled.
  pub decide-loop :
      is_protected e ≡ false
      → (get_or e.in_loop false ≡ true
          → (loop_aggregate_threshold ≤ frequency → (decide e frequency).action ≡ aggregate)
            × (loop_sample_threshold ≤ frequency
                → frequency < loop_aggregate_threshold
                → (decide e frequency).action ≡ sample))
        × ((decide e frequency).action ≡ aggregate ⊎ (decide e frequency).action ≡ sample
            → (get_or e.in_loop false ≡ true) × (loop_sample_threshold ≤ frequency))
  unfolding engine
  decide-loop h = (λ l. (λ a. ground arith, λ b c. ground arith), λ r. ground arith)

  -- The savings of a decision are at most 100 percent, they are 0 exactly for entries that are kept
  -- or flagged, and no entry is removed.
  pub decide-savings :
      ((decide e frequency).estimated_savings_pct ≤ 100)
      × (((decide e frequency).estimated_savings_pct ≡ 0)
          ↔ ((decide e frequency).action ≡ keep ⊎ (decide e frequency).action ≡ flag_review))
      × ((decide e frequency).action ≢ remove)
  unfolding engine
  decide-savings = (ground arith, (λ z. ground arith, λ a. ground arith), λ r. ground arith)

  -- An entry is flagged for its secrets only if the message has a secret's word and no rule before
  -- the twelfth takes it: it is not protected, not of a busy loop, of no metric, and, at level INFO,
  -- of no entry, exit or success pattern and below 1,000,000 a day.
  pub decide-flag_review : ((decide e frequency).action ≡ flag_review) ↔ (
      (is_protected e ≡ false)
      × ((get_or e.in_loop false && leb loop_sample_threshold frequency) ≡ false)
      × ((has_level e "INFO"
            && (matches_patterns (get_message e) entry_exit_patterns
                || matches_patterns (get_message e) success_patterns
                || leb high_freq_threshold frequency))
          ≡ false)
      × (matches_patterns (get_message e) metrics_patterns ≡ false)
      × (matches_patterns (get_message e) secrets_patterns ≡ true))
  unfolding engine
  decide-flag_review = (λ f. ground arith, λ c. ground arith)
