-- ===== src/PodResources/Namespace/Laws.antt =====
-- What the analysis of a namespace says of its deployments.
use trino_gateway.Prelude.{
  ℕ, ◌+◌, ◌≡◌, refl, sym, ◌∙◌, inl, inr, true, false, Option, none, some, List, [], ◌∷◌, ◌++◌,
  get_or, length, map, arith, Each, sum_of,
}
use trino_gateway.Prelude.Text.{Text}
use trino_gateway.PodResources.Usage.{ResourceSpec, Usage, Aggregated}
use trino_gateway.PodResources.Quantity.{ok, value_error}
use trino_gateway.PodResources.Inputs.{Config, parse_inputs}
use trino_gateway.PodResources.Pods.{Pod, Response, Moment, fetch_pods_from_cluster, filter_pods}
use trino_gateway.PodResources.Metrics.{
  PrometheusResponse, fetch_metrics_from_prometheus, calculate_percentiles,
}
use trino_gateway.PodResources.Metrics.Laws.{calculate_percentiles-order}
use trino_gateway.PodResources.Analyze.{Analysis, analyze_deployment_metrics}
use trino_gateway.PodResources.Namespace.{
  Deployment, Fetched, error, success, fetch_clusters, analyze_group, analyze_fetched,
  analyze_deployments, analyze_namespace, no_spec, group_pods,
}
use trino_gateway.PodResources.Namespace.Groups.{
  IsGroup, pod_count, Result-cases, group_pods-IsGroup,
}

-- The 95th percentile is there, if anything was measured.
IsFull : Option Usage → Type 0
IsFull none = Unit
IsFull (some u) = (n : ℕ) × (u.p95 ≡ some n)

no_percentiles : calculate_percentiles [] ≡ none
unfolding calculate_percentiles
no_percentiles = refl

calculate_percentiles-IsFull : (values : List ℕ) → IsFull (calculate_percentiles values)
unfolding IsFull
calculate_percentiles-IsFull [] = rw no_percentiles tt
calculate_percentiles-IsFull (x ∷ xs) =
    let (lo, a, b, c, d, e, hi, av, dev, eq, _, _, _, _, _, _, _, _, _, _) =
      calculate_percentiles-order x xs in
    rw eq (d, refl)

analyze_deployment_metrics-keeps :
    (name : Text) (n : ℕ) (spec : ResourceSpec) (a : Aggregated) (clusters : List Text)
    → IsFull a.cpu_m
    → IsFull a.memory_mi
    → let r = analyze_deployment_metrics name n spec a clusters in
      (r.metrics_cpu ≡ a.cpu_m) × (r.metrics_memory ≡ a.memory_mi) × (r.pod_count ≡ n)
unfolding analyze_deployment_metrics IsFull
analyze_deployment_metrics-keeps name n spec a clusters f g = ground arith

module _ (float : Text → Option ℕ) (range_query : Text → Option PrometheusResponse) where
  -- The usage of everything that runs in the namespace.
  abbrev pub usage_of : Text → Aggregated
  unfolding fetch_metrics_from_prometheus
  usage_of namespace = (fetch_metrics_from_prometheus float range_query namespace []).aggregated

  analyze_group_lem :
      (namespace : Text) (d : Deployment)
      → let (name, a) = analyze_group float range_query namespace d in
        (name ≡ d.name)
        × (a.pod_count ≡ length d.pods)
        × (a.metrics_cpu ≡ (usage_of namespace).cpu_m)
        × (a.metrics_memory ≡ (usage_of namespace).memory_mi)
  unfolding analyze_group
  analyze_group_lem namespace d =
      let a = usage_of namespace in
      let (cpu, memory, count) =
        analyze_deployment_metrics-keeps d.name (length d.pods) (get_or d.spec no_spec) a d.clusters
          (calculate_percentiles-IsFull _) (calculate_percentiles-IsFull _) in
      (refl, count, cpu, memory)

  -- The analysis was of the usage of the namespace.
  abbrev pub IsOfNamespace : Text → Text × Analysis → Type 0
  unfolding fetch_metrics_from_prometheus
  IsOfNamespace namespace (name, a) =
      (a.metrics_cpu ≡ (usage_of namespace).cpu_m)
      × (a.metrics_memory ≡ (usage_of namespace).memory_mi)

  analyze_groups-IsOfNamespace :
      (namespace : Text) (ds : List Deployment)
      → Each (IsOfNamespace namespace) (map (analyze_group float range_query namespace) ds)
        × (sum_of
              (λ (x : Text × Analysis). x.1.pod_count)
              (map (analyze_group float range_query namespace) ds)
            ≡ pod_count ds)
  unfolding IsOfNamespace
  analyze_groups-IsOfNamespace namespace [] = (tt, refl)
  analyze_groups-IsOfNamespace namespace (d ∷ ds) =
      let (name, count, cpu, memory) = analyze_group_lem namespace d in
      let (each, total) = analyze_groups-IsOfNamespace namespace ds in
      (((cpu, memory), each), omega (arith, count, total))

  analyze_deployments_lem :
      (config c : Config) (ds : List Deployment) (summary shown : Text)
      (details : List (Text × Analysis))
      → analyze_deployments float range_query config shown ds ≡ success c summary details
      → (config ≡ c) × (map (analyze_group float range_query config.namespace) ds ≡ details)
  unfolding analyze_deployments
  analyze_deployments_lem config c [] summary shown details h = ground arith
  analyze_deployments_lem config c (d ∷ ds) summary shown details h = (cc h, cc h)

module _ (call_friday_mcp : Text → Option Response) (fromisoformat : Text → Option Moment)
    (now : ℕ) where
  -- The pods of a cluster that are analysed.
  abbrev pub kept_pods : Text → Text → List Pod
  unfolding fetch_pods_from_cluster filter_pods
  kept_pods namespace cluster_name =
      filter_pods fromisoformat now (fetch_pods_from_cluster call_friday_mcp namespace cluster_name)
        false 1 true

  fetch_clusters-IsGroup :
      (namespace : Text) (clusters : List Text) (f g : Fetched)
      → Each IsGroup f.deployments
      → fetch_clusters call_friday_mcp fromisoformat now namespace clusters f ≡ ok g
      → Each IsGroup g.deployments
        × (pod_count g.deployments
            ≡ pod_count f.deployments + sum_of (λ c. length (kept_pods namespace c)) clusters)
  unfolding fetch_clusters kept_pods
  fetch_clusters-IsGroup namespace [] f g each h =
      let same : f ≡ g = cc h in rw (sym same) (each, omega arith)
  fetch_clusters-IsGroup namespace (c ∷ clusters) f g each h =
      let pods = kept_pods namespace c in
      elim (Result-cases (group_pods c pods f.deployments)) [
        | inl failed ↦ let bad : value_error ≡ ok g = rw failed at h in ground arith
        | inr (ds, grouped) ↦
            let next : Fetched = record { deployments = ds; total_pods = f.total_pods ++ pods } in
            let (groups, count) = group_pods-IsGroup c pods f.deployments ds each grouped in
            let (all, total) =
              fetch_clusters-IsGroup namespace clusters next g groups (rw grouped at h) in
            (all, omega (arith, count, total))
      ]

analyze_fetched_lem :
    (float : Text → Option ℕ) (range_query : Text → Option PrometheusResponse) (config c : Config)
    (f : Fetched) (summary : Text) (details : List (Text × Analysis))
    → analyze_fetched float range_query config f ≡ success c summary details
    → (config ≡ c)
      × (map (analyze_group float range_query config.namespace) f.deployments ≡ details)
unfolding analyze_fetched
analyze_fetched_lem float range_query config c f summary details h =
    analyze_deployments_lem float range_query config c f.deployments summary _ details h

module _ (call_friday_mcp : Text → Option Response) (fromisoformat : Text → Option Moment) (now : ℕ)
    (float : Text → Option ℕ) (range_query : Text → Option PrometheusResponse) where
  -- Where an analysis succeeds, that of each deployment shows the usage of all that runs in the
  -- namespace, as the names of its pods are not used, and the pods of the deployments are together as
  -- many as those that were kept in the chosen clusters.
  pub analyze_namespace-IsOfNamespace :
      (namespace : Text) (cluster : Option Text) (hours : ℕ) (config : Config) (summary : Text)
      (details : List (Text × Analysis))
      → analyze_namespace call_friday_mcp fromisoformat now float range_query namespace cluster
          hours
        ≡ success config summary details
      → Each (IsOfNamespace float range_query config.namespace) details
        × (sum_of (λ (x : Text × Analysis). x.1.pod_count) details
            ≡ sum_of
                (λ c. length (kept_pods call_friday_mcp fromisoformat now config.namespace c))
                config.clusters)
  unfolding analyze_namespace
  analyze_namespace-IsOfNamespace namespace cluster hours config summary details h =
      elim (Result-cases (parse_inputs namespace cluster hours)) [
        | inl failed ↦
            let bad : error ≡ success config summary details = rw failed at h in ground arith
        | inr (c, parsed) ↦
            let start : Fetched = record { deployments = []; total_pods = [] } in
            elim (Result-cases
              (fetch_clusters call_friday_mcp fromisoformat now c.namespace c.clusters start)) [
                | inl failed ↦
                    let bad : error ≡ success config summary details = rw (parsed, failed) at h in
                    ground arith
                | inr (f, fetched) ↦
                    let done : analyze_fetched float range_query c f
                        ≡ success config summary details =
                      rw (parsed, fetched) at h in
                    let (same, all) =
                      analyze_fetched_lem float range_query c config f summary details done in
                    let (groups, count) =
                      fetch_clusters-IsGroup call_friday_mcp fromisoformat now c.namespace
                        c.clusters start f tt fetched in
                    let plain : pod_count f.deployments
                        ≡ sum_of
                            (λ c2.
                              length (kept_pods call_friday_mcp fromisoformat now c.namespace c2))
                            c.clusters =
                      omega (arith, count) in
                    let (each, total) =
                      analyze_groups-IsOfNamespace float range_query c.namespace f.deployments in
                    rw (sym same, sym all) (each, total ∙ plain)
              ]
      ]
