-- ===== src/PodResources/Tests/Runs.antt =====
-- Runs on the inputs, the usage, and the analysis of a namespace.
use trino_gateway.Prelude.{
  ℕ, ◌≤◌, ◌≡◌, ◌⊎◌, refl, ◌↔◌, true, false, Option, none, some, List, [], ◌∷◌, length, Each, sum_of,
  if◌then◌else◌,
}
use trino_gateway.Prelude.Text.{Text, codes, text_eq}
use trino_gateway.Prelude.Slices.{split_on, strip}
use trino_gateway.PodResources.Usage.{Usage}
use trino_gateway.PodResources.Quantity.{Result, ok, value_error}
use trino_gateway.PodResources.Pods.{known_cluster}
use trino_gateway.PodResources.Inputs.{Config, without_eks, clusters_of, parse_inputs}
use trino_gateway.PodResources.Inputs.Laws.{parse_inputs-accepts}
use trino_gateway.PodResources.Metrics.{
  PrometheusResponse, is_success, parse_prometheus_response, calculate_percentiles,
}
use trino_gateway.PodResources.Metrics.Laws.{IsQuantile, calculate_percentiles-IsQuantile}
use trino_gateway.PodResources.Metrics.Answers.{IsMeasured, parse_prometheus_response-IsMeasured}
use trino_gateway.PodResources.Analyze.{Analysis}
use trino_gateway.PodResources.Namespace.{
  Deployment, Outcome, success, group_pods, analyze_namespace,
}
use trino_gateway.PodResources.Namespace.Laws.{
  IsOfNamespace, kept_pods, analyze_namespace-IsOfNamespace,
}
use trino_gateway.PodResources.Tests.{kubectl, prod_green, payments, fromisoformat, api_pod}

abbrev both_named : Text
both_named = codes " prod-white-eks,prod-green,prod-white"

selected : clusters_of (some both_named) ≡ ok (codes "prod-white" ∷ codes "prod-green" ∷ [])
unfolding clusters_of
selected = refl

parse_inputs-accepts_example :
    ((config : Config) × (parse_inputs payments (some both_named) 48 ≡ ok config)) ↔ (
      (text_eq payments [] ≡ false)
      × (1 ≤ 48)
      × (48 ≤ 720)
      × Each (λ c. known_cluster (without_eks 0 (strip c)) ≡ true) (split_on b',' both_named))
parse_inputs-accepts_example = parse_inputs-accepts payments both_named 48

abbrev inputs : Config
inputs = record {
  namespace = payments;
  clusters = codes "prod-white" ∷ codes "prod-green" ∷ [];
  hours = 48;
}

inputs_read : parse_inputs payments (some both_named) 48 ≡ ok inputs
unfolding parse_inputs
inputs_read = refl

calculate_percentiles-IsQuantile_example :
    (u : Usage) × (calculate_percentiles (300 ∷ 100 ∷ 200 ∷ []) ≡ some u)
    × IsQuantile (300 ∷ 100 ∷ 200 ∷ []) 50 u.p50
    × IsQuantile (300 ∷ 100 ∷ 200 ∷ []) 75 u.p75
    × IsQuantile (300 ∷ 100 ∷ 200 ∷ []) 90 u.p90
    × IsQuantile (300 ∷ 100 ∷ 200 ∷ []) 95 u.p95
    × IsQuantile (300 ∷ 100 ∷ 200 ∷ []) 99 u.p99
calculate_percentiles-IsQuantile_example = calculate_percentiles-IsQuantile 300 (100 ∷ 200 ∷ [])

three_values :
    calculate_percentiles (300 ∷ 100 ∷ 200 ∷ [])
    ≡ some (record {
      p50 = some 200;
      p75 = some 300;
      p90 = some 300;
      p95 = some 300;
      p99 = some 300;
      min = some 100;
      max = some 300;
      average = some 200;
      std_dev = some 100;
    })
unfolding calculate_percentiles
three_values = refl

-- Reads "3" as three units, and nothing else.
abbrev float : Text → Option ℕ
float t = if text_eq t (codes "3") then some 3_000_000 else none

-- A pod with a value, one whose value is no number, and one of another deployment.
abbrev answer : PrometheusResponse
answer = record {
  status = some (codes "success");
  result = some (
      record { pod = some (codes "api-live-1"); values = some ((0, codes "3") ∷ []) }
      ∷ record { pod = some (codes "api-live-2"); values = some ((0, codes "x") ∷ []) }
      ∷ record { pod = some (codes "other-1"); values = some ((0, codes "3") ∷ []) }
      ∷ []);
}

parse_prometheus_response-IsMeasured_example :
    Each IsMeasured (parse_prometheus_response float answer)
    × ((is_success float answer.status ≡ true) ⊎ (parse_prometheus_response float answer ≡ []))
parse_prometheus_response-IsMeasured_example = parse_prometheus_response-IsMeasured float answer

abbrev grouped : Result (List Deployment) → List Deployment
grouped value_error = []
grouped (ok ds) = ds

abbrev one_group : List Deployment
unfolding group_pods
one_group = grouped (group_pods prod_green (api_pod ∷ api_pod ∷ []) [])

one_group_lem : group_pods prod_green (api_pod ∷ api_pod ∷ []) [] ≡ ok one_group
unfolding one_group
one_group_lem = refl

abbrev run : Outcome
unfolding analyze_namespace
run =
    analyze_namespace kubectl fromisoformat 1_714_557_600 float (λ query. some answer) payments
      (some prod_green) 48

abbrev details_of : Outcome → List (Text × Analysis)
details_of (success config summary details) = details
details_of _ = []

abbrev details : List (Text × Analysis)
unfolding run
details = details_of run

abbrev run_inputs : Config
run_inputs = record { namespace = payments; clusters = prod_green ∷ []; hours = 48 }

run_lem : run ≡ success run_inputs (codes "2 running (2 web) = 2 total") details
unfolding run details
run_lem = refl

analyze_namespace-IsOfNamespace_example :
    Each (IsOfNamespace float (λ query. some answer) payments) details
    × (sum_of (λ (x : Text × Analysis). x.1.pod_count) details
        ≡ sum_of
            (λ c. length (kept_pods kubectl fromisoformat 1_714_557_600 payments c))
            (prod_green ∷ []))
unfolding run
analyze_namespace-IsOfNamespace_example =
    analyze_namespace-IsOfNamespace kubectl fromisoformat 1_714_557_600 float (λ query. some answer)
      payments (some prod_green) 48 run_inputs (codes "2 running (2 web) = 2 total") details run_lem
