-- ===== src/LogVolume/Batch.antt =====
-- .agents/skills/log-volume-optimizer/scripts/decision_engine.py: `batch_decide`. An instance of
-- CoralogixData is here its method `get_daily_frequency`.
pub mod Laws
use trino_gateway.Prelude.{
  ℕ, Bool, Option, none, some, List, [], ◌∷◌, ◌++◌, String, get_or, ltb, ◌==◌, take, if◌then◌else◌,
}
use trino_gateway.Prelude.Text.{Text, codes, text_eq}
use trino_gateway.Prelude.Counter.{Counter, increment}
use trino_gateway.LogVolume.Log.{LogEntry}
use trino_gateway.LogVolume.Decision.{Decision, decide}
use trino_gateway.LogVolume.Decision.Rules.{value}

-- The dict under the key 'decision'; a summary reads it with defaults, so each key may be absent.
pub record DecisionDict : Type 0 where
  pub action : Option String
  pub rule_id : Option ℕ
  pub reason : Option Text
  pub confidence : Option String
  pub estimated_savings_pct : Option ℕ
  pub frequency : Option ℕ
  pub frequency_source : Option String

pub record LogWithDecision : Type 0 where
  pub log : LogEntry
  pub decision : Option DecisionDict

abbrev pub Frequencies : Type 0
Frequencies = List (Text × ℕ)

-- `frequencies.get(message, 0)`
unfoldable pub frequency_in : Frequencies → Text → ℕ
frequency_in [] message = 0
frequency_in ((m, n) ∷ rest) message = if text_eq m message then n else frequency_in rest message

abbrev is_empty : Text → Bool
is_empty t = text_eq t (codes "")

-- `log.get('message', '') or log.get('message_template', '')`
unfoldable pub message_or_template : LogEntry → Text
message_or_template log =
    let message = get_or log.message (codes "") in
    if is_empty message then get_or log.message_template (codes "") else message

-- The first priority: what Coralogix has seen, if there is such data and it is positive.
unfoldable pub coralogix_frequency : Option (Text → ℕ) → LogEntry → ℕ × String
unfolding message_or_template
coralogix_frequency none log = (0, "none")
coralogix_frequency (some get_daily_frequency) log =
    let real_freq = get_daily_frequency (message_or_template log) in
    if ltb 0 real_freq then (real_freq, "coralogix") else (0, "none")

-- The second priority, where no frequency is known yet: the dict, by the first 100 characters.
unfoldable pub manual_frequency : Frequencies → LogEntry → ℕ × String → ℕ × String
unfolding frequency_in
manual_frequency [] log (freq, source) = (freq, source)
manual_frequency (f ∷ fs) log (freq, source) =
    let found = frequency_in (f ∷ fs) (take 100 (get_or log.message (codes ""))) in
    if freq == 0 then (found, if ltb 0 found then "manual" else source) else (freq, source)

unfoldable pub frequency_of : Option (Text → ℕ) → Frequencies → LogEntry → ℕ × String
unfolding coralogix_frequency manual_frequency
frequency_of coralogix_data frequencies log =
    manual_frequency frequencies log (coralogix_frequency coralogix_data log)

abbrev pub decision_dict : Decision → ℕ × String → DecisionDict
decision_dict d (freq, source) = record {
  action = some (value d.action);
  rule_id = some d.rule_id;
  reason = some d.reason;
  confidence = some d.confidence;
  estimated_savings_pct = some d.estimated_savings_pct;
  frequency = some freq;
  frequency_source = some source;
}

-- The body of the loop: the entry with its decision, and the source of its frequency.
unfoldable pub decide_log : Option (Text → ℕ) → Frequencies → LogEntry → LogWithDecision × String
unfolding frequency_of
decide_log coralogix_data frequencies log =
    let (freq, source) = frequency_of coralogix_data frequencies log in
    (record { log = log; decision = some (decision_dict (decide log freq) (freq, source)) }, source)

-- The loop of `batch_decide` over `results` and `freq_sources`.
unfoldable pub batch_from :
    Option (Text → ℕ)
    → Frequencies
    → List LogWithDecision × Counter
    → List LogEntry
    → List LogWithDecision × Counter
unfolding decide_log
batch_from coralogix_data frequencies (results, freq_sources) [] = (results, freq_sources)
batch_from coralogix_data frequencies (results, freq_sources) (log ∷ logs) =
    let (decided, source) = decide_log coralogix_data frequencies log in
    batch_from coralogix_data frequencies (results ++ (decided ∷ []), increment source freq_sources)
      logs

abbrev pub no_sources : Counter
no_sources = ("coralogix", 0) ∷ ("manual", 0) ∷ ("none", 0) ∷ []

unfoldable pub batch_decide : List LogEntry → Frequencies → Option (Text → ℕ) → List LogWithDecision
unfolding batch_from
batch_decide logs frequencies coralogix_data =
    (batch_from coralogix_data frequencies ([], no_sources) logs).0
