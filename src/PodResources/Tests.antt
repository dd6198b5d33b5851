-- ===== src/PodResources/Tests.antt =====
-- Names, quantities and pods of a namespace with two pods that are ready and one that is not.
pub mod Runs
use trino_gateway.Prelude.{
  if◌then◌else◌, ℕ, ◌+◌, ◌*◌, ◌/◌, ◌≤◌, ◌<◌, ◌≡◌, refl, sym, ◌↔◌, ◌⊎◌, inl, inr, Bool, true, false,
  not, ◌&&◌, Option, none, some, List, [], ◌∷◌, ◌++◌, String, length, arith, Each, select, sum_of,
  if◌then◌else◌,
}
use trino_gateway.Prelude.Text.{Text, codes, text_eq}
use trino_gateway.Prelude.Decimal.{decimal}
use trino_gateway.Prelude.Slices.{strip}
use trino_gateway.PodResources.Usage.{Usage}
use trino_gateway.PodResources.Quantity.{
  Result, ok, value_error, Quantities, Resources, Container, extract_deployment_name,
  looks_like_hash, parse_resource_value,
}
use trino_gateway.PodResources.Quantity.Laws.{
  IsHashOrNumber, extract_deployment_name_lem, parse_resource_value-memory,
  parse_resource_value-cpu,
}
use trino_gateway.PodResources.Pods.{
  ContainerStatus, PodItem, Pod, Response, dict, Moment, known_cluster, not_ready,
  fetch_pods_from_cluster, filter_pods,
}
use trino_gateway.PodResources.Pods.Laws.{
  IsNamed, IsZulu, has_shape, time_shape, has_shape-append, fetch_pods_from_cluster-IsNamed,
  filter_pods-ignores_age,
}
use trino_gateway.PodResources.Categories.{categorize_pods, summarize_pod_categories}
use trino_gateway.PodResources.Categories.Laws.{
  categorize_pods-count, summarize_pod_categories-total,
}
use trino_gateway.PodResources.Inputs.{Config, without_eks, clusters_of, parse_inputs}
use trino_gateway.PodResources.Inputs.Laws.{
  IsSelection, parse_inputs-accepts, parse_inputs-IsSelection,
}
use trino_gateway.PodResources.Metrics.{
  Series, PrometheusResponse, is_success, parse_prometheus_response, calculate_percentiles,
}
use trino_gateway.PodResources.Metrics.Laws.{
  IsQuantile, calculate_percentiles-IsQuantile, calculate_percentiles-order,
}
use trino_gateway.PodResources.Metrics.Answers.{IsMeasured, parse_prometheus_response-IsMeasured}
use trino_gateway.PodResources.Analyze.{Analysis}
use trino_gateway.PodResources.Namespace.{
  Deployment, Outcome, success, error, group_pods, analyze_namespace,
}
use trino_gateway.PodResources.Namespace.Groups.{IsGroup, pod_count, group_pods-IsGroup}
use trino_gateway.PodResources.Namespace.Laws.{
  IsOfNamespace, kept_pods, analyze_namespace-IsOfNamespace,
}

-- The docstring has "payments-api" and "ledger-service" for the first two.
names_of_deployments :
    (extract_deployment_name (codes "payments-api-live-1") ≡ codes "payments-api-live")
    × (extract_deployment_name (codes "ledger-service-abc123") ≡ codes "ledger-service-abc123")
    × (extract_deployment_name (codes "fraud-detector") ≡ codes "fraud-detector")
unfolding extract_deployment_name
names_of_deployments = (refl, refl, refl)

quantities :
    (parse_resource_value (some (codes "512Ki")) "memory" ≡ ok (some 512))
    × (parse_resource_value (some (codes "1.5Gi")) "memory" ≡ ok (some 1536))
    × (parse_resource_value (some (codes " 0.5 ")) "cpu" ≡ ok (some 500))
    × (parse_resource_value (some (codes "1.5m")) "cpu" ≡ value_error)
unfolding parse_resource_value
quantities = (refl, refl, refl, refl)

extract_deployment_name_example :
    let pod_name = codes "api-live" ++ (b'-' ∷ codes "x2b9k") in
    (IsHashOrNumber (codes "x2b9k") → extract_deployment_name pod_name ≡ codes "api-live")
    × (¬ IsHashOrNumber (codes "x2b9k") → extract_deployment_name pod_name ≡ pod_name)
    × (extract_deployment_name (codes "x2b9k") ≡ codes "x2b9k")
extract_deployment_name_example =
    extract_deployment_name_lem (codes "api-live") (codes "x2b9k")
      (refl, (refl, (refl, (refl, (refl, tt)))))

parse_resource_value-memory_example :
    let memory =
      λ (unit : String). parse_resource_value (some (decimal 512 ++ codes unit)) "memory" in
    (memory "Mi" ≡ ok (some 512))
    × (memory "Gi" ≡ ok (some (512 * 1024)))
    × (memory "Ti" ≡ ok (some (512 * (1024 * 1024))))
    × (memory "Ki" ≡ ok (some 512))
parse_resource_value-memory_example = parse_resource_value-memory 512

abbrev limited : Container
limited = record {
  name = some (codes "app");
  image = none;
  resources = record {
    requests = some (record { cpu = some (codes "500m"); memory = some (codes "256Mi") });
    limits = some (record { cpu = some (codes "1"); memory = none });
  };
}

abbrev item_named : Text → Bool → PodItem
item_named name ready = record {
  name = some name;
  namespace = some (codes "payments");
  labels = [];
  containers = some (limited ∷ []);
  restart_policy = none;
  termination_grace_period = none;
  phase = some (codes "Running");
  pod_ip = none;
  host_ip = none;
  start_time = some (codes "2024-05-01T10:00:00Z");
  container_statuses = some (record { ready = some ready; terminated = false } ∷ []);
}

-- Two pods that are ready, and one that is not.
abbrev pub kubectl : Text → Option Response
kubectl query = some (
    dict (
      some (
        item_named (codes "api-live-1") true
        ∷ item_named (codes "api-live-2") true
        ∷ item_named (codes "worker-x") false
        ∷ [])))

abbrev pub prod_green : Text
prod_green = codes "prod-green"

abbrev pub payments : Text
payments = codes "payments"

-- Reads a date and a time to the second, with a zone or without one.
abbrev pub fromisoformat : Text → Option Moment
fromisoformat t =
    if has_shape (time_shape ++ codes "+dd:dd") t
    then some (record { aware = true; seconds = 1_714_557_600 })
    else if has_shape time_shape t
    then some (record { aware = false; seconds = 1_714_557_600 })
    else none

fromisoformat_zone :
    (t : Text) (m : Moment)
    → has_shape time_shape t ≡ true
    → fromisoformat (t ++ codes "+00:00") ≡ some m
    → m.aware ≡ true
fromisoformat_zone t m shape read =
    let zoned : has_shape (time_shape ++ codes "+dd:dd") (t ++ codes "+00:00") ≡ true =
      has_shape-append time_shape (codes "+dd:dd") t (codes "+00:00") shape refl in
    let found = rw zoned at (read) in cc found

abbrev pub api_pod : Pod
api_pod = record {
  name = codes "api-live-1";
  namespace = payments;
  cluster = prod_green;
  labels = [];
  containers = limited ∷ [];
  restart_policy = codes "Always";
  termination_grace_period = 30;
  phase = none;
  pod_ip = none;
  host_ip = none;
  start_time = some (codes "2024-05-01T10:00:00Z");
  container_statuses = record { ready = some true; terminated = false } ∷ [];
}

api_pod-IsZulu : IsZulu api_pod
api_pod-IsZulu = inr (codes "2024-05-01T10:00:00", refl, refl)

-- The pod started this very second.
filter_pods-ignores_age_example :
    filter_pods fromisoformat 1_714_557_600 (api_pod ∷ []) false 1 true
    ≡ select (λ p. not (true && not_ready p)) (api_pod ∷ [])
filter_pods-ignores_age_example =
    filter_pods-ignores_age fromisoformat fromisoformat_zone 1_714_557_600 1 (api_pod ∷ []) false
      true (api_pod-IsZulu, tt)

summary_of_two :
    summarize_pod_categories (api_pod ∷ api_pod ∷ []) ≡ codes "2 running (2 web) = 2 total"
unfolding summarize_pod_categories
summary_of_two = refl
