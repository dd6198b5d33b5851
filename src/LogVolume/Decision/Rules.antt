-- ===== src/LogVolume/Decision/Rules.antt =====
-- The fourteen rules of `DecisionEngine`.
use trino_gateway.Prelude.{
  ℕ, Bool, false, not, ◌&&◌, ◌||◌, Option, none, some, String, get_or, leb, if◌then◌else◌, ◌++◌,
}
use trino_gateway.Prelude.Text.{Text, codes, lower, upper, text_eq}
use trino_gateway.Prelude.Decimal.{thousands}
use trino_gateway.LogVolume.Log.{LogEntry}
use trino_gateway.LogVolume.Decision.Patterns.{
  error_keywords, business_keywords, entry_exit_patterns, success_patterns, metrics_patterns,
  secrets_patterns, matches_patterns, contains_keywords,
}

pub data Action : Type 0 where
  keep downgrade_to_debug remove aggregate sample use_metric flag_review : Action

-- `Action.value`
abbrev pub value : Action → String
value keep = "KEEP"
value downgrade_to_debug = "DOWNGRADE_TO_DEBUG"
value remove = "REMOVE"
value aggregate = "AGGREGATE"
value sample = "SAMPLE"
value use_metric = "USE_METRIC"
value flag_review = "FLAG_REVIEW"

-- The tuple that a rule returns when it matches.
pub record Outcome : Type 0 where
  pub action : Action
  pub reason : Text
  pub confidence : String
  pub savings : ℕ

abbrev pub outcome : Action → Text → String → ℕ → Outcome
outcome a r c s = record { action = a; reason = r; confidence = c; savings = s }

-- `None` is that the rule does not match.
abbrev pub Rule : Type 0
Rule = LogEntry → ℕ → Option Outcome

abbrev pub high_freq_threshold : ℕ
high_freq_threshold = 1_000_000

abbrev pub loop_aggregate_threshold : ℕ
loop_aggregate_threshold = 100_000

abbrev pub loop_sample_threshold : ℕ
loop_sample_threshold = 10_000

-- `log_entry.get('level', '').upper()`
unfoldable pub get_level : LogEntry → Text
unfolding upper
get_level e = upper (get_or e.level (codes ""))

-- `log_entry.get('message', '').lower()`
unfoldable pub get_message : LogEntry → Text
unfolding lower
get_message e = lower (get_or e.message (codes ""))

abbrev pub has_level : LogEntry → String → Bool
has_level e l = text_eq (get_level e) (codes l)

unfoldable pub rule_error_fatal : Rule
rule_error_fatal e frequency =
    if has_level e "ERROR" || has_level e "FATAL"
    then some (outcome keep (get_level e ++ codes " level must be preserved") "high" 0)
    else none

unfoldable pub rule_warn : Rule
rule_warn e frequency =
    if has_level e "WARN"
    then some (outcome keep (codes "WARN level indicates potential issues") "high" 0)
    else none

unfoldable pub rule_error_handler : Rule
rule_error_handler e frequency =
    if get_or e.in_error_handler false
    then some (outcome keep (codes "In error handler - context needed for debugging") "high" 0)
    else none

unfoldable pub rule_error_keywords : Rule
rule_error_keywords e frequency =
    if contains_keywords (get_message e) error_keywords
    then some (outcome keep (codes "Message indicates error condition") "high" 0)
    else none

unfoldable pub rule_business_critical : Rule
rule_business_critical e frequency =
    if contains_keywords (get_message e) business_keywords
    then some (outcome keep (codes "Business-critical event logging") "high" 0)
    else none

unfoldable pub rule_loop_aggregate : Rule
unfolding thousands
rule_loop_aggregate e frequency =
    if get_or e.in_loop false && leb loop_aggregate_threshold frequency
    then some (
        outcome aggregate
          (codes "In loop with " ++ (thousands frequency ++ codes "/day - aggregate to summary"))
          "high" 90)
    else none

unfoldable pub rule_loop_sample : Rule
unfolding thousands
rule_loop_sample e frequency =
    if get_or e.in_loop false && leb loop_sample_threshold frequency
    then some (
        outcome sample
          (codes "In loop with " ++ (thousands frequency ++ codes "/day - add 1% sampling"))
          "medium" 99)
    else none

unfoldable pub rule_entry_exit : Rule
rule_entry_exit e frequency =
    if has_level e "INFO" && matches_patterns (get_message e) entry_exit_patterns
    then some
        (outcome downgrade_to_debug (codes "Entry/exit log - not needed in production") "high" 95)
    else none

unfoldable pub rule_success_pattern : Rule
rule_success_pattern e frequency =
    if has_level e "INFO" && matches_patterns (get_message e) success_patterns
    then (if not (contains_keywords (get_message e) business_keywords)
        then some (
            outcome downgrade_to_debug (codes "Success confirmation - absence indicates failure")
              "high" 95)
        else none)
    else none

unfoldable pub rule_high_freq_info : Rule
unfolding thousands
rule_high_freq_info e frequency =
    if has_level e "INFO" && leb high_freq_threshold frequency
    then some (
        outcome downgrade_to_debug
          (codes "High frequency INFO (" ++ (thousands frequency ++ codes "/day) - too verbose"))
          "medium" 95)
    else none

unfoldable pub rule_metrics_pattern : Rule
rule_metrics_pattern e frequency =
    if matches_patterns (get_message e) metrics_patterns
    then some (
        outcome use_metric (codes "Counting/timing pattern - should be Prometheus metric") "medium"
          100)
    else none

unfoldable pub rule_secrets : Rule
rule_secrets e frequency =
    if matches_patterns (get_message e) secrets_patterns
    then some
        (outcome flag_review (codes "Potential secrets/PII in log - needs human review") "high" 0)
    else none

unfoldable pub rule_debug : Rule
rule_debug e frequency =
    if has_level e "DEBUG" then some (outcome keep (codes "Already DEBUG level") "high" 0) else none

unfoldable pub rule_default : Rule
rule_default e frequency =
    some (outcome keep (codes "No optimization rule matched - keeping") "low" 0)
