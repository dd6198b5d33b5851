-- ===== src/PodResources/Pods.antt =====
-- .agents/skills/k8s-resource-analyzer/scripts/fetch_pods.py: from the answer of kubectl to the pods
-- that are analysed. What kubectl or the Friday service returns for a query, and what `datetime`
-- reads out of a text, are arguments. The JSON has the shape that kubectl documents.
pub mod Laws
use trino_gateway.Prelude.{
  ℕ, ◌+◌, ◌-◌, ◌*◌, Bool, true, false, not, ◌&&◌, ◌||◌, Option, none, some, List, [], ◌∷◌, ◌++◌,
  String, get_or, length, ltb, ◌==◌, all, if◌then◌else◌,
}
use trino_gateway.Prelude.Text.{Text, codes, lower, text_eq, contains, contains_any}
use trino_gateway.Prelude.Decimal.{decimal}
use trino_gateway.PodResources.Quantity.{Container}

pub record ContainerStatus : Type 0 where
  pub ready : Option Bool
  -- whether `state` has a "terminated" that is not empty
  pub terminated : Bool

-- A pod as kubectl prints it: its "metadata", "spec" and "status".
pub record PodItem : Type 0 where
  pub name : Option Text
  pub namespace : Option Text
  pub labels : List (Text × Text)
  pub containers : Option (List Container)
  pub restart_policy : Option Text
  pub termination_grace_period : Option ℕ
  pub phase : Option Text
  pub pod_ip : Option Text
  pub host_ip : Option Text
  pub start_time : Option Text
  pub container_statuses : Option (List ContainerStatus)

pub record Pod : Type 0 where
  pub name : Text
  pub namespace : Text
  pub cluster : Text
  pub labels : List (Text × Text)
  pub containers : List Container
  pub restart_policy : Text
  pub termination_grace_period : ℕ
  pub phase : Option Text
  pub pod_ip : Option Text
  pub host_ip : Option Text
  pub start_time : Option Text
  pub container_statuses : List ContainerStatus

-- A dict, with its "items", or another value.
pub data Response : Type 0 where
  dict : Option (List PodItem) → Response
  other : Response

-- `not x` for a string that may be missing
abbrev pub blank : Option Text → Bool
blank none = true
blank (some t) = text_eq t []

unfoldable pub parse_pod_item : PodItem → Text → Option Pod
parse_pod_item item cluster =
    if blank item.name || blank item.namespace
    then none
    else some (record {
      name = get_or item.name [];
      namespace = get_or item.namespace [];
      cluster = cluster;
      labels = item.labels;
      containers = get_or item.containers [];
      restart_policy = get_or item.restart_policy (codes "Always");
      termination_grace_period = get_or item.termination_grace_period 30;
      phase = item.phase;
      pod_ip = item.pod_ip;
      host_ip = item.host_ip;
      start_time = item.start_time;
      container_statuses = get_or item.container_statuses [];
    })

abbrev pub append_pod : List Pod → Option Pod → List Pod
append_pod pods none = pods
append_pod pods (some pod) = pods ++ (pod ∷ [])

-- The loop of `parse_pod_list`.
unfoldable pub parse_items : List Pod → List PodItem → Text → List Pod
unfolding parse_pod_item
parse_items pods [] cluster = pods
parse_items pods (item ∷ items) cluster =
    parse_items (append_pod pods (parse_pod_item item cluster)) items cluster

unfoldable pub parse_pod_list : Response → Text → List Pod
unfolding parse_items
parse_pod_list other cluster = []
parse_pod_list (dict items) cluster = parse_items [] (get_or items []) cluster

abbrev pub prod_green : Text
prod_green = codes "prod-green"

abbrev pub prod_white : Text
prod_white = codes "prod-white"

abbrev pub known_cluster : Text → Bool
known_cluster c = text_eq c prod_green || text_eq c prod_white

abbrev pub kubectl_query : Text → Text → Text
kubectl_query namespace cluster =
    codes "kubectl get pods -n "
    ++ (namespace ++ (codes " --context=" ++ (cluster ++ codes " -o json")))

abbrev pub pods_of_answer : Option Response → Text → List Pod
unfolding parse_pod_list
pods_of_answer none cluster = []
pods_of_answer (some response) cluster = parse_pod_list response cluster

-- `call_friday_mcp` answers a query or returns `None`.
unfoldable pub fetch_pods_from_cluster :
    (call_friday_mcp : Text → Option Response) → Text → Text → List Pod
unfolding parse_pod_list
fetch_pods_from_cluster call_friday_mcp namespace cluster =
    if known_cluster cluster
    then pods_of_answer (call_friday_mcp (kubectl_query namespace cluster)) cluster
    else []

-- A `datetime`: whether it has a time zone, and its time in seconds.
pub record Moment : Type 0 where
  pub aware : Bool
  pub seconds : ℕ

-- `s.replace('Z', '+00:00')`
unfoldable pub replace_z : Text → Text
replace_z [] = []
replace_z (c ∷ s) = let rest = replace_z s in if c == b'Z' then codes "+00:00" ++ rest else c ∷ rest

-- `now - start < min_age`; a naive and an aware `datetime` cannot be subtracted, and the exception
-- leaves the pod in.
abbrev pub too_new_since : Moment → ℕ → Option Moment → Bool
too_new_since now min_age none = false
too_new_since now min_age (some start) =
    if (if now.aware then start.aware else not start.aware)
    then ltb now.seconds (start.seconds + min_age)
    else false

abbrev is_ready : ContainerStatus → Bool
is_ready cs = get_or cs.ready false || cs.terminated

abbrev is_nil : List ContainerStatus → Bool
is_nil [] = true
is_nil (x ∷ xs) = false

-- The check under `if only_ready`.
unfoldable pub not_ready : Pod → Bool
not_ready pod = is_nil pod.container_statuses || not (all is_ready pod.container_statuses)

-- What the loop of `filter_pods` holds: the pods kept, and how many were excluded.
pub record Filtered : Type 0 where
  pub pods : List Pod
  pub not_ready : ℕ
  pub too_new : ℕ

-- `datetime.utcnow()` has no time zone.
abbrev pub utcnow : ℕ → Moment
utcnow seconds = record { aware = false; seconds = seconds }

module _ (fromisoformat : Text → Option Moment) where
  -- The check of the pod's age; an empty start time is skipped.
  unfoldable pub too_new : Moment → ℕ → Pod → Bool
  unfolding replace_z
  too_new now min_age_hours pod = elim pod.start_time [
    | none ↦ false
    | some t ↦
        if text_eq t []
        then false
        else too_new_since now (min_age_hours * 3600) (fromisoformat (replace_z t))
  ]

  unfoldable pub filter_pod : ℕ → ℕ → Bool → Filtered → Pod → Filtered
  unfolding not_ready too_new
  filter_pod now min_age_hours only_ready f pod =
      if only_ready && not_ready pod
      then record f { not_ready = f.not_ready + 1 }
      else if too_new (utcnow now) min_age_hours pod
      then record f { too_new = f.too_new + 1 }
      else record f { pods = f.pods ++ (pod ∷ []) }

  unfoldable pub filter_from : ℕ → ℕ → Bool → Filtered → List Pod → Filtered
  unfolding filter_pod
  filter_from now min_age_hours only_ready f [] = f
  filter_from now min_age_hours only_ready f (pod ∷ pods) =
      filter_from now min_age_hours only_ready (filter_pod now min_age_hours only_ready f pod) pods

  -- The argument `exclude_failed` is not read.
  unfoldable pub filter_pods : ℕ → List Pod → Bool → ℕ → Bool → List Pod
  unfolding filter_from
  filter_pods now pods exclude_failed min_age_hours only_ready =
      (filter_from now min_age_hours only_ready (record { pods = []; not_ready = 0; too_new = 0 })
        pods).pods
