-- ===== src/LogVolume/Estimate.antt =====
-- .agents/skills/log-volume-optimizer/scripts/estimate_volume.py: `VolumeEstimator`. The floats are
-- exact here, as whole multiples of a small unit: a rate or a multiplier of a thousandth, a
-- probability of a millionth. So daily invocations and bytes come in units of 10 ^ -12, and daily
-- units, a millionth of the bytes, in units of 10 ^ -18.
pub mod Laws
use trino_gateway.Prelude.{
  ℕ, ◌*◌, ◌^◌, Bool, false, ◌&&◌, ◌||◌, Option, none, some, List, [], ◌∷◌, ◌++◌, String, get_or,
  ltb, leb, ◌==◌, if◌then◌else◌,
}
use trino_gateway.Prelude.Text.{Text, codes, lower, upper, text_eq, contains_any}
use trino_gateway.Prelude.Round.{round_div}
use trino_gateway.Prelude.Sort.{sort_desc}
use trino_gateway.LogVolume.Log.{LogEntry}

pub record VolumeEstimator : Type 0 where
  pub avg_rps : ℕ
  pub peak_rps : ℕ
  pub error_rate : ℕ
  pub loop_multiplier : ℕ

-- The rate is in millionths, the invocations and bytes are rounded to hundredths, and the units to
-- ten-thousandths.
pub record LogVolumeEstimate : Type 0 where
  pub file : Text
  pub line : ℕ
  pub level : Text
  pub function : Text
  pub message : Text
  pub trigger_probability : ℕ
  pub rps : ℕ
  pub log_size_bytes : ℕ
  pub daily_invocations : ℕ
  pub daily_bytes : ℕ
  pub daily_units : ℕ
  pub impact_category : String
  pub in_loop : Bool
  pub in_error_handler : Bool
  pub optimization_potential : String

abbrev pub seconds_per_day : ℕ
seconds_per_day = 86400

-- A probability of 1, and one daily unit.
abbrev pub certain : ℕ
certain = 1_000_000

abbrev pub one_unit : ℕ
one_unit = 1_000_000_000_000_000_000

abbrev pub level_or_info : LogEntry → Text
level_or_info log = upper (get_or log.level (codes "INFO"))

abbrev pub level_is : LogEntry → String → Bool
level_is log l = text_eq (level_or_info log) (codes l)

unfoldable pub calculate_trigger_probability : VolumeEstimator → LogEntry → ℕ
calculate_trigger_probability v log =
    if get_or log.in_error_handler false
    then v.error_rate
    else if level_is log "ERROR" || level_is log "FATAL" || level_is log "PANIC"
    then v.error_rate
    else if level_is log "WARN"
    then 100_000
    else if level_is log "DEBUG"
    then 0
    else certain

unfoldable pub categorize_impact : ℕ → String
categorize_impact daily_units =
    if leb (100 * one_unit) daily_units
    then "CRITICAL"
    else if leb (10 * one_unit) daily_units
    then "HIGH"
    else if leb one_unit daily_units
    then "MEDIUM"
    else "LOW"

abbrev pub entry_exit_words : List Text
entry_exit_words =
    codes "entering" ∷ codes "entered" ∷ codes "exiting" ∷ codes "exit" ∷ codes "starting" ∷ []

abbrev pub success_words : List Text
success_words = codes "success" ∷ codes "completed" ∷ codes "done" ∷ []

abbrev pub message_has : LogEntry → List Text → Bool
message_has log words = contains_any words (lower (get_or log.message (codes "")))

unfoldable pub assess_optimization : LogEntry → ℕ → String
assess_optimization log daily_units =
    if get_or log.in_loop false
    then "CONSOLIDATE_LOOP"
    else if message_has log entry_exit_words && level_is log "INFO"
    then "CHANGE_TO_DEBUG"
    else if message_has log success_words && ltb (10 * one_unit) daily_units
    then "USE_METRICS"
    else if level_is log "INFO" && ltb (50 * one_unit) daily_units
    then "ADD_SAMPLING"
    else if (level_is log "ERROR" || level_is log "FATAL") && get_or log.in_error_handler false
    then "KEEP"
    else if ltb daily_units one_unit
    then "KEEP"
    else "REVIEW"

-- `route_rps or self.avg_rps`: a rate of 0 is false, too.
unfoldable pub base_rps : VolumeEstimator → Option ℕ → ℕ
base_rps v none = v.avg_rps
base_rps v (some r) = if r == 0 then v.avg_rps else r

unfoldable pub effective_rps : VolumeEstimator → LogEntry → Option ℕ → ℕ
unfolding base_rps
effective_rps v log route_rps =
    if get_or log.in_loop false
    then base_rps v route_rps * v.loop_multiplier
    else base_rps v route_rps * 1000

abbrev pub log_size : LogEntry → ℕ
log_size log = get_or log.estimated_size_bytes 300

-- `daily_invocations`, `daily_bytes` and `daily_units` before they are rounded. The last two are the
-- same number, in the units of the header.
unfoldable pub invocations : VolumeEstimator → LogEntry → Option ℕ → ℕ
unfolding effective_rps calculate_trigger_probability
invocations v log route_rps =
    effective_rps v log route_rps * seconds_per_day * calculate_trigger_probability v log

unfoldable pub volume : VolumeEstimator → LogEntry → Option ℕ → ℕ
unfolding invocations
volume v log route_rps = invocations v log route_rps * log_size log

unfoldable pub estimate_log : VolumeEstimator → LogEntry → Option ℕ → LogVolumeEstimate
unfolding volume categorize_impact assess_optimization round_div
estimate_log v log route_rps = record {
  file = get_or log.file (codes "");
  line = get_or log.line 0;
  level = get_or log.level (codes "INFO");
  function = get_or log.function (codes "unknown");
  message = get_or log.message (codes "");
  trigger_probability = calculate_trigger_probability v log;
  rps = effective_rps v log route_rps;
  log_size_bytes = log_size log;
  daily_invocations = round_div (invocations v log route_rps) (10 ^ 10);
  daily_bytes = round_div (volume v log route_rps) (10 ^ 10);
  daily_units = round_div (volume v log route_rps) (10 ^ 14);
  impact_category = categorize_impact (volume v log route_rps);
  in_loop = get_or log.in_loop false;
  in_error_handler = get_or log.in_error_handler false;
  optimization_potential = assess_optimization log (volume v log route_rps);
}

-- `route_rps_map.get(function)`
unfoldable pub route_rps_of : List (Text × ℕ) → Text → Option ℕ
route_rps_of [] function = none
route_rps_of ((f, r) ∷ rest) function =
    if text_eq f function then some r else route_rps_of rest function

-- An empty map, like no map, gives no rate.
unfoldable pub route_rps_for : Option (List (Text × ℕ)) → LogEntry → Option ℕ
unfolding route_rps_of
route_rps_for none log = none
route_rps_for (some routes) log = route_rps_of routes (get_or log.function (codes ""))

-- The loop of `estimate_all`.
unfoldable pub estimate_from :
    VolumeEstimator
    → Option (List (Text × ℕ))
    → List LogVolumeEstimate
    → List LogEntry
    → List LogVolumeEstimate
unfolding estimate_log route_rps_for
estimate_from v routes estimates [] = estimates
estimate_from v routes estimates (log ∷ logs) =
    estimate_from v routes (estimates ++ (estimate_log v log (route_rps_for routes log) ∷ [])) logs

unfoldable pub estimate_all :
    VolumeEstimator → List LogEntry → Option (List (Text × ℕ)) → List LogVolumeEstimate
unfolding estimate_from sort_desc
estimate_all v logs routes = sort_desc (λ e. e.daily_units) (estimate_from v routes [] logs)
