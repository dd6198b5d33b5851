-- ===== src/LogVolume/Batch/Laws.antt =====
-- What `batch_decide` returns.
use trino_gateway.Prelude.{
  String, if◌then◌else◌, ltb, ℕ, ◌≡◌, refl, sym, ◌∙◌, Option, none, some, List, [], ◌∷◌, ◌++◌, Each,
  map, append_assoc, append-nil, get_or, take, true,
}
use trino_gateway.Prelude.Text.{Text, text_eq}
use trino_gateway.Prelude.Counter.{Counter}
use trino_gateway.LogVolume.Log.{LogEntry}
use trino_gateway.LogVolume.Decision.{decide}
use trino_gateway.LogVolume.Decision.Outcomes.{is_protected, decide-protected}
use trino_gateway.LogVolume.Decision.Rules.{value}
use trino_gateway.LogVolume.Batch.{
  DecisionDict, LogWithDecision, Frequencies, frequency_in, frequency_of, decision_dict, decide_log,
  batch_from, no_sources, batch_decide,
}

module _ (coralogix_data : Option (Text → ℕ)) (frequencies : Frequencies) where
  abbrev pub decided : LogEntry → LogWithDecision
  decided log = (decide_log coralogix_data frequencies log).0

  batch_from-map :
      (results : List LogWithDecision) (sources : Counter) (logs : List LogEntry)
      → (batch_from coralogix_data frequencies (results, sources) logs).0
        ≡ results ++ map decided logs
  unfolding batch_from
  batch_from-map results sources [] = sym (append-nil results)
  batch_from-map results sources (log ∷ logs) =
      let (d, source) = decide_log coralogix_data frequencies log in
      batch_from-map (results ++ (d ∷ [])) _ logs ∙ append_assoc results (d ∷ []) (map decided logs)

  pub batch_decide-decided :
      (logs : List LogEntry) → batch_decide logs frequencies coralogix_data ≡ map decided logs
  unfolding batch_decide
  batch_decide-decided logs = batch_from-map [] no_sources logs

  -- What Coralogix knows of the message, or of the template if the message is empty; 0 without it.
  abbrev pub real_frequency : LogEntry → ℕ
  real_frequency log = elim coralogix_data [
    | none ↦ 0
    | some get_daily_frequency ↦ get_daily_frequency (
        if text_eq (get_or log.message []) []
        then get_or log.message_template []
        else get_or log.message [])
  ]

  -- What the dict has at the first 100 characters of the message, 0 if they are no key.
  abbrev pub known_frequency : LogEntry → ℕ
  unfolding frequency_in
  known_frequency log = frequency_in frequencies (take 100 (get_or log.message []))

  -- A positive frequency from Coralogix goes before one from the dict.
  abbrev pub best_frequency : LogEntry → ℕ
  best_frequency log =
      if ltb 0 (real_frequency log) then real_frequency log else known_frequency log

  abbrev pub best_source : LogEntry → String
  best_source log =
      if ltb 0 (real_frequency log)
      then "coralogix"
      else (if ltb 0 (known_frequency log) then "manual" else "none")

  -- The decision at that frequency, as it is written.
  abbrev pub best_decision : LogEntry → DecisionDict
  best_decision log =
      let d = decide log (best_frequency log) in
      record {
        action = some (value d.action);
        rule_id = some d.rule_id;
        reason = some d.reason;
        confidence = some d.confidence;
        estimated_savings_pct = some d.estimated_savings_pct;
        frequency = some (best_frequency log);
        frequency_source = some (best_source log);
      }

  keeps_protected :
      (logs : List LogEntry)
      → Each
          (λ r.
            is_protected r.log ≡ true
            → (d : DecisionDict) × (r.decision ≡ some d)
              × (d.action ≡ some "KEEP")
              × (d.estimated_savings_pct ≡ some 0))
          (map decided logs)
  unfolding decide_log
  keeps_protected [] = tt
  keeps_protected (log ∷ logs) = (
    λ h.
        let (freq, source) = frequency_of coralogix_data frequencies log in
        let (kept, saved, _) = decide-protected log freq h in
        (decision_dict (decide log freq) (freq, source), refl, rw kept, rw saved),
    keeps_protected logs,
  )

  -- In the output of `batch_decide` every entry at level ERROR, FATAL or WARN, of an error handler,
  -- or with a word of an error or of the business in its message is marked "KEEP" with no savings,
  -- whatever frequencies are known.
  pub batch_decide-protected :
      (logs : List LogEntry)
      → Each
          (λ r.
            is_protected r.log ≡ true
            → (d : DecisionDict) × (r.decision ≡ some d)
              × (d.action ≡ some "KEEP")
              × (d.estimated_savings_pct ≡ some 0))
          (batch_decide logs frequencies coralogix_data)
  unfolding batch_decide
  batch_decide-protected logs = rw (batch_from-map [] no_sources logs) (keeps_protected logs)
