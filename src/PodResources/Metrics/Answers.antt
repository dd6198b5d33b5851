-- ===== src/PodResources/Metrics/Answers.antt =====
-- What is left of an answer of Prometheus.
use trino_gateway.Prelude.{
  true, ℕ, ◌<◌, ◌≡◌, ◌⊎◌, inl, inr, false, Option, List, [], ◌∷◌, get_or, length, arith, Each,
  Bool-cases, Option-cases,
}
use trino_gateway.Prelude.Text.{Text, text_eq}
use trino_gateway.PodResources.Metrics.{
  ByPod, set, Series, PrometheusResponse, numeric_values, parse_series, parse_results,
  parse_prometheus_response, set_values, is_success,
}

-- The pod has a name, and at least one value.
abbrev pub IsMeasured : Text × List ℕ → Type 0
IsMeasured (pod_name, values) = (text_eq pod_name [] ≡ false) × (0 < length values)

set-IsMeasured :
    (k : Text) (v : List ℕ) (d : ByPod (List ℕ))
    → IsMeasured (k, v)
    → Each IsMeasured d
    → Each IsMeasured (set k v d)
unfolding set
set-IsMeasured k v [] h each = (h, tt)
set-IsMeasured k v ((j, w) ∷ d) h each = elim (Bool-cases (text_eq j k)) [
  | inl same ↦ rw same ((each.0.0, h.1), each.1)
  | inr different ↦ rw different (each.0, set-IsMeasured k v d h each.1)
]

module _ (float : Text → Option ℕ) where
  set_values-IsMeasured :
      (d : ByPod (List ℕ)) (name : Text) (values : List ℕ)
      → text_eq name [] ≡ false
      → Each IsMeasured d
      → Each IsMeasured (set_values float d name values)
  unfolding set_values
  set_values-IsMeasured d name [] h each = each
  set_values-IsMeasured d name (v ∷ vs) h each =
      set-IsMeasured name (v ∷ vs) d (h, omega arith) each

  parse_series-IsMeasured :
      (d : ByPod (List ℕ)) (r : Series)
      → Each IsMeasured d
      → Each IsMeasured (parse_series float d r)
  unfolding parse_series
  parse_series-IsMeasured d r each = elim (Option-cases r.pod) [
    | inl missing ↦ rw missing each
    | inr (name, is_name) ↦ elim (Bool-cases (text_eq name [])) [
      | inl empty ↦ rw (is_name, empty) each
      | inr full ↦
          rw (is_name, full)
            (set_values-IsMeasured d name (numeric_values float (get_or r.values [])) full each)
    ]
  ]

  parse_results-IsMeasured :
      (d : ByPod (List ℕ)) (rs : List Series)
      → Each IsMeasured d
      → Each IsMeasured (parse_results float d rs)
  unfolding parse_results
  parse_results-IsMeasured d [] each = each
  parse_results-IsMeasured d (r ∷ rs) each =
      parse_results-IsMeasured (parse_series float d r) rs (parse_series-IsMeasured d r each)

  -- Each pod in the parsed answer has a name that is not empty and at least one value; an answer
  -- whose status is not "success" gives no pods.
  pub parse_prometheus_response-IsMeasured :
      (response : PrometheusResponse)
      → Each IsMeasured (parse_prometheus_response float response)
        × ((is_success float response.status ≡ true)
            ⊎ (parse_prometheus_response float response ≡ []))
  unfolding parse_prometheus_response
  parse_prometheus_response-IsMeasured response = (
    elim (Bool-cases (is_success float response.status)) [
      | inl success ↦ rw success (parse_results-IsMeasured [] (get_or response.result []) tt)
      | inr failure ↦ rw failure tt
    ],
    elim (Bool-cases (is_success float response.status)) [
      | inl success ↦ inl success
      | inr failure ↦ inr (rw failure)
    ],
  )
