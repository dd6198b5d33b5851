-- ===== src/LogVolume/Summary/Laws.antt =====
-- What `summarize_decisions` counts.
use trino_gateway.Prelude.{
  ℕ, ◌+◌, ◌*◌, ◌≤◌, ◌≡◌, refl, List, [], ◌∷◌, String, arith, length, Each, str_eq, if◌then◌else◌,
  Bool-cases, inl, inr, sum_of, ltb, ltb→lt, Option, map,
}
use trino_gateway.Prelude.Counter.{
  count_of, total_count, increment, total_count-increment, count_of-increment,
}
use trino_gateway.Prelude.Round.{round_div-le}
use trino_gateway.Prelude.Text.{Text}
use trino_gateway.LogVolume.Log.{LogEntry}
use trino_gateway.LogVolume.Decision.Outcomes.{decide-savings}
use trino_gateway.LogVolume.Batch.{
  LogWithDecision, Frequencies, frequency_of, decide_log, batch_decide,
}
use trino_gateway.LogVolume.Batch.Laws.{decided, batch_decide-decided}
use trino_gateway.LogVolume.Summary.{
  Tally, action_in, confidence_in, savings_in, tally, tally_all, start, summarize_decisions,
}

-- How many of the logs have the action.
abbrev pub with_action : String → List LogWithDecision → ℕ
with_action a logs = sum_of (λ r. if str_eq (action_in r) a then 1 else 0) logs

by_action-tally :
    (t : Tally) (r : LogWithDecision) → (tally t r).by_action ≡ increment (action_in r) t.by_action
unfolding tally
by_action-tally t r = ground arith

by_confidence-tally :
    (t : Tally) (r : LogWithDecision)
    → (tally t r).by_confidence ≡ increment (confidence_in r) t.by_confidence
unfolding tally
by_confidence-tally t r = ground arith

tally_all-total_count :
    (t : Tally) (logs : List LogWithDecision)
    → (total_count (tally_all t logs).by_action ≡ total_count t.by_action + length logs)
      × (total_count (tally_all t logs).by_confidence ≡ total_count t.by_confidence + length logs)
unfolding tally_all
tally_all-total_count t [] = (omega arith, omega arith)
tally_all-total_count t (r ∷ rs) = ground (
  arith,
  tally_all-total_count (tally t r) rs,
  by_action-tally t r,
  by_confidence-tally t r,
  total_count-increment (action_in r) t.by_action,
  total_count-increment (confidence_in r) t.by_confidence,
)

tally_all-count_of :
    (a : String) (t : Tally) (logs : List LogWithDecision)
    → count_of a (tally_all t logs).by_action ≡ count_of a t.by_action + with_action a logs
unfolding tally_all
tally_all-count_of a t [] = omega arith
tally_all-count_of a t (r ∷ rs) = ground (
  arith,
  tally_all-count_of a (tally t r) rs,
  by_action-tally t r,
  count_of-increment (action_in r) a t.by_action,
)

tally_all-actionable :
    (t : Tally) (logs : List LogWithDecision)
    → (tally_all t logs).actionable_count + with_action "KEEP" logs
      ≡ t.actionable_count + length logs
unfolding tally_all
tally_all-actionable t [] = omega arith
tally_all-actionable t (r ∷ rs) = ground (arith, tally_all-actionable (tally t r) rs)

tally_all-savings :
    (t : Tally) (logs : List LogWithDecision)
    → Each (λ r. savings_in r ≤ 100) logs
    → t.total_savings ≤ 100 * t.actionable_count
    → (tally_all t logs).total_savings ≤ 100 * (tally_all t logs).actionable_count
unfolding tally_all
tally_all-savings t [] each h = h
tally_all-savings t (r ∷ rs) each h =
    tally_all-savings (tally t r) rs each.1 (ground (arith, each.0))

-- The counts by action and those by confidence each add up to `total`, the number of logs; the count
-- of each action is the number of logs that have it; and `actionable` is the number of logs whose
-- action is not "KEEP".
pub summarize_decisions-counts :
    (logs : List LogWithDecision)
    → let s = summarize_decisions logs in
      (total_count s.by_action ≡ s.total)
      × (total_count s.by_confidence ≡ s.total)
      × ((a : String) → count_of a s.by_action ≡ with_action a logs)
      × (s.actionable + with_action "KEEP" logs ≡ s.total)
      × (s.total ≡ length logs)
unfolding summarize_decisions total_count count_of
summarize_decisions-counts logs =
    let (actions, confidences) = tally_all-total_count start logs in
    (
      omega arith,
      omega arith,
      λ a. omega (arith, tally_all-count_of a start logs),
      omega (arith, tally_all-actionable start logs),
      refl,
    )

-- If no log claims more than 100 percent, the estimate of all is at most 100.0 percent.
pub summarize_decisions-savings-le :
    (logs : List LogWithDecision)
    → Each (λ r. savings_in r ≤ 100) logs
    → (summarize_decisions logs).estimated_total_savings_pct ≤ 1000
unfolding summarize_decisions
summarize_decisions-savings-le logs each =
    let t = tally_all start logs in
    let total : t.total_savings ≤ 100 * t.actionable_count =
      tally_all-savings start logs each (omega arith) in
    elim (Bool-cases (ltb 0 t.actionable_count)) [
      | inl some_logs ↦ rw some_logs (
          round_div-le (10 * t.total_savings) t.actionable_count 1000
            (ltb→lt 0 t.actionable_count some_logs) (omega arith))
      | inr no_logs ↦ rw no_logs (omega arith)
    ]

savings-decided :
    (coralogix_data : Option (Text → ℕ)) (frequencies : Frequencies) (logs : List LogEntry)
    → Each (λ r. savings_in r ≤ 100) (map (decided coralogix_data frequencies) logs)
unfolding decide_log
savings-decided c f [] = tt
savings-decided c f (log ∷ logs) =
    ((decide-savings log (frequency_of c f log).0).0, savings-decided c f logs)

-- The estimate that is made of what `batch_decide` returns is at most 100.0 percent, for every
-- batch of logs and all frequencies.
summarize_decisions-batch_decide :
    (coralogix_data : Option (Text → ℕ)) (frequencies : Frequencies) (logs : List LogEntry)
    → (summarize_decisions
        (batch_decide logs frequencies coralogix_data)).estimated_total_savings_pct
      ≤ 1000
summarize_decisions-batch_decide c f logs =
    summarize_decisions-savings-le (batch_decide logs f c)
      (rw (batch_decide-decided c f logs) (savings-decided c f logs))
