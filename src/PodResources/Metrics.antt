-- ===== src/PodResources/Metrics.antt =====
-- .agents/skills/k8s-resource-analyzer/scripts/fetch_metrics.py: from the answers of Prometheus to
-- the usage of a deployment. What Grafana returns for a query is an argument, and so is `float`,
-- which reads a text as a number of millionths or raises. Values are not negative; quotients and
-- roots are rounded down to a millionth.
pub mod Laws
pub mod Answers
use trino_gateway.Prelude.{
  ℕ, ◌+◌, ◌-◌, ◌*◌, ◌/◌, Bool, true, false, ◌&&◌, Option, none, some, List, [], ◌∷◌, ◌++◌, get_or,
  length, map, get_elem?, sum_of, ltb, leb, if◌then◌else◌, min, max,
}
use trino_gateway.Prelude.Text.{Text, codes, text_eq}
use trino_gateway.Prelude.Sort.Ascending.{sort_asc}
use trino_gateway.Prelude.Sqrt.{root}
use trino_gateway.PodResources.Usage.{Usage, Aggregated}

-- A dict from pods to something.
abbrev pub ByPod : Type 0 → Type 0
ByPod A = List (Text × A)

-- `d[k] = v`: a key that is there keeps its place.
unfoldable pub set : {A : Type 0} → Text → A → ByPod A → ByPod A
set k v [] = (k, v) ∷ []
set k v ((j, w) ∷ d) = let rest = set k v d in if text_eq j k then (j, v) ∷ d else (j, w) ∷ rest

-- One entry of "result": its label "pod", and its "values" with their times.
pub record Series : Type 0 where
  pub pod : Option Text
  pub values : Option (List (ℕ × Text))

pub record PrometheusResponse : Type 0 where
  pub status : Option Text
  pub result : Option (List Series)

module _ (float : Text → Option ℕ) where
  unfoldable pub numeric_values : List (ℕ × Text) → List ℕ
  numeric_values [] = []
  numeric_values ((timestamp, value_str) ∷ values) =
      let rest = numeric_values values in
      elim (float value_str) [ none ↦ rest | some value ↦ value ∷ rest ]

  abbrev pub set_values : ByPod (List ℕ) → Text → List ℕ → ByPod (List ℕ)
  unfolding set
  set_values data_dict pod_name [] = data_dict
  set_values data_dict pod_name (v ∷ vs) = set pod_name (v ∷ vs) data_dict

  unfoldable pub parse_series : ByPod (List ℕ) → Series → ByPod (List ℕ)
  unfolding numeric_values
  parse_series data_dict result = elim result.pod [
    | none ↦ data_dict
    | some pod_name ↦
        if text_eq pod_name []
        then data_dict
        else set_values data_dict pod_name (numeric_values (get_or result.values []))
  ]

  unfoldable pub parse_results : ByPod (List ℕ) → List Series → ByPod (List ℕ)
  unfolding parse_series
  parse_results data_dict [] = data_dict
  parse_results data_dict (result ∷ results) = parse_results (parse_series data_dict result) results

  abbrev pub is_success : Option Text → Bool
  is_success none = false
  is_success (some status) = text_eq status (codes "success")

  unfoldable pub parse_prometheus_response : PrometheusResponse → ByPod (List ℕ)
  unfolding parse_results
  parse_prometheus_response response =
      if is_success response.status then parse_results [] (get_or response.result []) else []

abbrev pub convert : (ℕ → ℕ) → Text × List ℕ → Text × List ℕ
convert f (pod_name, values) = (pod_name, map f values)

abbrev pub cpu_query : Text → Text
cpu_query namespace =
    codes "\n    sum(rate(container_cpu_usage_seconds_total{\n      namespace=\""
    ++ (namespace ++ codes "\",\n      container!=\"POD\"\n    }[2m])) by (pod)\n    ")

abbrev pub memory_query : Text → Text
memory_query namespace =
    codes "\n    sum(container_memory_working_set_bytes{\n      namespace=\""
    ++ (namespace ++ codes "\"\n    }) by (pod)\n    ")

-- The dict of a pod: its values under "cpu" and "memory".
pub record PodMetrics : Type 0 where
  pub cpu : Option (List ℕ)
  pub memory : Option (List ℕ)

abbrev pub no_metrics : PodMetrics
no_metrics = record { cpu = none; memory = none }

-- `pods.get(k, {})`
unfoldable pub metrics_of : Text → ByPod PodMetrics → PodMetrics
metrics_of k [] = no_metrics
metrics_of k ((j, m) ∷ d) = if text_eq j k then m else metrics_of k d

-- The loops over `cpu_data` and over `mem_data`.
unfoldable pub merge_cpu : ByPod PodMetrics → ByPod (List ℕ) → ByPod PodMetrics
unfolding set metrics_of
merge_cpu pods [] = pods
merge_cpu pods ((pod_name, values) ∷ rest) =
    merge_cpu (set pod_name (record (metrics_of pod_name pods) { cpu = some values }) pods) rest

unfoldable pub merge_memory : ByPod PodMetrics → ByPod (List ℕ) → ByPod PodMetrics
unfolding set metrics_of
merge_memory pods [] = pods
merge_memory pods ((pod_name, values) ∷ rest) =
    merge_memory (set pod_name (record (metrics_of pod_name pods) { memory = some values }) pods)
      rest

-- `min(values)` and `max(values)`
abbrev pub min_of : ℕ → List ℕ → ℕ
min_of x [] = x
min_of x (y ∷ ys) = min_of (min x y) ys

abbrev pub max_of : ℕ → List ℕ → ℕ
max_of x [] = x
max_of x (y ∷ ys) = max_of (max x y) ys

-- `mean(values)` and `stdev(values)`, the root of the sum of squares over n - 1
abbrev pub mean : List ℕ → ℕ
mean values = sum_of (λ x. x) values / length values

unfoldable pub stdev : List ℕ → ℕ
unfolding root
stdev values =
    let n = length values in
    let sum = sum_of (λ x. x) values in
    root ((n * sum_of (λ x. x * x) values - sum * sum) / (n * (n - 1)))

-- `sorted_values[int(n * 0.95)]`, and so on.
abbrev pub percentile : List ℕ → ℕ → Option ℕ
unfolding sort_asc
percentile values q = get_elem? (sort_asc values) (length values * q / 100)

-- The empty dict is `none`.
unfoldable pub calculate_percentiles : List ℕ → Option Usage
unfolding sort_asc stdev
calculate_percentiles [] = none
calculate_percentiles (x ∷ xs) =
    let values = x ∷ xs in
    some (record {
      p50 = percentile values 50;
      p75 = percentile values 75;
      p90 = percentile values 90;
      p95 = percentile values 95;
      p99 = percentile values 99;
      min = some (min_of x xs);
      max = some (max_of x xs);
      average = some (mean values);
      std_dev = some (if ltb 1 (length values) then stdev values else 0);
    })

-- What the loop of `aggregate_metrics` collects.
unfoldable pub all_values : (PodMetrics → Option (List ℕ)) → ByPod PodMetrics → List ℕ
all_values kind [] = []
all_values kind ((pod_name, metrics) ∷ pods) = get_or (kind metrics) [] ++ all_values kind pods

unfoldable pub aggregate_metrics : ByPod PodMetrics → Aggregated
unfolding all_values calculate_percentiles
aggregate_metrics pods = record {
  cpu_m = calculate_percentiles (all_values (λ m. m.cpu) pods);
  memory_mi = calculate_percentiles (all_values (λ m. m.memory) pods);
}

pub record Metrics : Type 0 where
  pub namespace : Text
  pub pod_names : List Text
  pub pods : ByPod PodMetrics
  pub aggregated : Aggregated

-- No answer, and one that is empty, are `none`. The time range of the queries is that of the
-- argument.
module _ (float : Text → Option ℕ) (range_query : Text → Option PrometheusResponse) where
  abbrev pub data_of : Option PrometheusResponse → ByPod (List ℕ)
  unfolding parse_prometheus_response
  data_of none = []
  data_of (some response) = parse_prometheus_response float response

  -- Cores become millicores.
  unfoldable pub fetch_cpu_metrics : Text → ByPod (List ℕ)
  unfolding parse_prometheus_response
  fetch_cpu_metrics namespace =
      map (convert (λ v. v * 1000)) (data_of (range_query (cpu_query namespace)))

  -- Bytes become MiB.
  unfoldable pub fetch_memory_metrics : Text → ByPod (List ℕ)
  unfolding parse_prometheus_response
  fetch_memory_metrics namespace =
      map (convert (λ v. v / (1024 * 1024))) (data_of (range_query (memory_query namespace)))

  unfoldable pub fetch_metrics_from_prometheus : Text → List Text → Metrics
  unfolding fetch_cpu_metrics fetch_memory_metrics merge_cpu merge_memory aggregate_metrics
  fetch_metrics_from_prometheus namespace pod_names =
      let with_cpu = merge_cpu [] (fetch_cpu_metrics namespace) in
      let pods = merge_memory with_cpu (fetch_memory_metrics namespace) in
      record {
        namespace = namespace;
        pod_names = pod_names;
        pods = pods;
        aggregated = aggregate_metrics pods;
      }
