-- ===== src/PodResources/Usage.antt =====
-- What the modules of k8s-resource-analyzer/scripts hand to each other: the resources of a pod and
-- the usage that Prometheus measured. A measured value counts in millionths of a millicore or of a
-- MiB; requests and limits are whole millicores and MiB.
use trino_gateway.Prelude.{ℕ, Option, none}

-- A key that is missing, and `None`, are `none`.
pub record ResourceSpec : Type 0 where
  pub requested_cpu_m : Option ℕ
  pub requested_memory_mi : Option ℕ
  pub limit_cpu_m : Option ℕ
  pub limit_memory_mi : Option ℕ

-- The dict of `calculate_percentiles`.
pub record Usage : Type 0 where
  pub p50 : Option ℕ
  pub p75 : Option ℕ
  pub p90 : Option ℕ
  pub p95 : Option ℕ
  pub p99 : Option ℕ
  pub min : Option ℕ
  pub max : Option ℕ
  pub average : Option ℕ
  pub std_dev : Option ℕ

-- `{}`
abbrev pub no_usage : Usage
no_usage = record {
  p50 = none;
  p75 = none;
  p90 = none;
  p95 = none;
  p99 = none;
  min = none;
  max = none;
  average = none;
  std_dev = none;
}

-- `metrics["aggregated"]`: an empty dict under a key is `none`.
pub record Aggregated : Type 0 where
  pub cpu_m : Option Usage
  pub memory_mi : Option Usage

-- One of the measured units, in millionths.
abbrev pub one : ℕ
one = 1_000_000
