-- ===== src/PodResources/Namespace.antt =====
-- .agents/skills/k8s-resource-analyzer/scripts/main.py: `analyze_namespace`, which fetches the pods of
-- a namespace, groups them by deployment, and analyses each. The answers of kubectl and of Grafana,
-- the clock, `fromisoformat` and `float` are arguments; the test for the services and the report,
-- whose text nothing else uses, are left out.
pub mod Groups
pub mod Laws
use trino_gateway.Prelude.{
  ℕ, ◌+◌, Bool, true, false, Option, none, some, List, [], ◌∷◌, ◌++◌, get_or, length, map, any,
  if◌then◌else◌,
}
use trino_gateway.Prelude.Text.{Text, codes, text_eq}
use trino_gateway.PodResources.Usage.{ResourceSpec}
use trino_gateway.PodResources.Quantity.{
  Result, ok, value_error, ◌>>=◌, extract_resource_spec, extract_deployment_name,
}
use trino_gateway.PodResources.Inputs.{Config, parse_inputs}
use trino_gateway.PodResources.Pods.{Pod, Response, Moment, fetch_pods_from_cluster, filter_pods}
use trino_gateway.PodResources.Categories.{summarize_pod_categories}
use trino_gateway.PodResources.Metrics.{PrometheusResponse, fetch_metrics_from_prometheus}
use trino_gateway.PodResources.Analyze.{Analysis, analyze_deployment_metrics}

-- An entry of `all_pods_by_deployment`: the set of clusters in the order of insertion, and the spec,
-- which is {} until the first pod sets it.
pub record Deployment : Type 0 where
  pub name : Text
  pub clusters : List Text
  pub pods : List Pod
  pub spec : Option ResourceSpec

abbrev pub add_cluster : Text → List Text → List Text
add_cluster c clusters = if any (λ d. text_eq d c) clusters then clusters else clusters ++ (c ∷ [])

-- `if not spec: spec = extract_resource_spec(pod)`
abbrev pub spec_of : Option ResourceSpec → Pod → Result ResourceSpec
unfolding extract_resource_spec
spec_of (some spec) pod = ok spec
spec_of none pod = extract_resource_spec pod.containers

unfoldable pub add_pod : Text → Pod → Deployment → Result Deployment
unfolding extract_resource_spec
add_pod cluster_name pod d = spec_of d.spec pod >>= λ spec. ok (record d {
  clusters = add_cluster cluster_name d.clusters;
  pods = d.pods ++ (pod ∷ []);
  spec = some spec;
})

-- The empty spec, which has no keys.
abbrev pub no_spec : ResourceSpec
no_spec = record {
  requested_cpu_m = none;
  requested_memory_mi = none;
  limit_cpu_m = none;
  limit_memory_mi = none;
}

abbrev pub new_deployment : Text → Deployment
new_deployment dep_name = record { name = dep_name; clusters = []; pods = []; spec = none }

-- The body of the loop "Group by deployment".
unfoldable pub group_pod : Text → Pod → Text → List Deployment → Result (List Deployment)
unfolding add_pod
group_pod cluster_name pod dep_name [] =
    add_pod cluster_name pod (new_deployment dep_name) >>= λ d. ok (d ∷ [])
group_pod cluster_name pod dep_name (d ∷ ds) =
    let later = group_pod cluster_name pod dep_name ds in
    if text_eq d.name dep_name
    then (add_pod cluster_name pod d >>= λ e. ok (e ∷ ds))
    else (later >>= λ es. ok (d ∷ es))

unfoldable pub group_pods : Text → List Pod → List Deployment → Result (List Deployment)
unfolding group_pod extract_deployment_name
group_pods cluster_name [] ds = ok ds
group_pods cluster_name (pod ∷ pods) ds =
    group_pod cluster_name pod (extract_deployment_name pod.name) ds >>= λ es.
    group_pods cluster_name pods es

-- What the loop over the clusters fills: the deployments, and all pods.
pub record Fetched : Type 0 where
  pub deployments : List Deployment
  pub total_pods : List Pod

pub data Outcome : Type 0 where
  no_data : Text → List Text → Outcome
  error : Outcome
  success : Config → (pod_summary : Text) → (details : List (Text × Analysis)) → Outcome

module _ (float : Text → Option ℕ) (range_query : Text → Option PrometheusResponse) where
  -- The metrics are never empty, and no deployment is left without a spec.
  unfoldable pub analyze_group : Text → Deployment → Text × Analysis
  unfolding fetch_metrics_from_prometheus analyze_deployment_metrics
  analyze_group namespace d =
      let metrics =
        fetch_metrics_from_prometheus float range_query namespace (map (λ p. p.name) d.pods) in
      (
        d.name,
        analyze_deployment_metrics d.name (length d.pods) (get_or d.spec no_spec) metrics.aggregated
            d.clusters,
      )

  unfoldable pub analyze_deployments : Config → Text → List Deployment → Outcome
  unfolding analyze_group
  analyze_deployments config pod_summary [] = no_data config.namespace config.clusters
  analyze_deployments config pod_summary (d ∷ ds) =
      success config pod_summary (map (analyze_group config.namespace) (d ∷ ds))

  unfoldable pub analyze_fetched : Config → Fetched → Outcome
  unfolding analyze_deployments summarize_pod_categories
  analyze_fetched config f =
      analyze_deployments config (summarize_pod_categories f.total_pods) f.deployments

abbrev pub outcome_of : Result Outcome → Outcome
outcome_of (ok o) = o
outcome_of value_error = error

module _ (call_friday_mcp : Text → Option Response) (fromisoformat : Text → Option Moment)
    (now : ℕ) where
  -- A cluster with no pods, or with none after filtering, changes nothing here either.
  unfoldable pub fetch_clusters : Text → List Text → Fetched → Result Fetched
  unfolding fetch_pods_from_cluster filter_pods group_pods
  fetch_clusters namespace [] f = ok f
  fetch_clusters namespace (cluster_name ∷ clusters) f =
      let fetched = fetch_pods_from_cluster call_friday_mcp namespace cluster_name in
      let pods = filter_pods fromisoformat now fetched false 1 true in
      group_pods cluster_name pods f.deployments >>= λ deployments.
      fetch_clusters namespace clusters
        (record { deployments = deployments; total_pods = f.total_pods ++ pods })

  module _ (float : Text → Option ℕ) (range_query : Text → Option PrometheusResponse) where
    unfoldable pub analyze_namespace : Text → Option Text → ℕ → Outcome
    unfolding parse_inputs fetch_clusters analyze_fetched
    analyze_namespace namespace cluster hours = outcome_of (
        parse_inputs namespace cluster hours >>= λ config.
        fetch_clusters config.namespace config.clusters
          (record { deployments = []; total_pods = [] })
        >>= λ f. ok (analyze_fetched float range_query config f))
