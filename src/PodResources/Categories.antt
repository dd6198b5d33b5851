-- ===== src/PodResources/Categories.antt =====
-- .agents/skills/k8s-resource-analyzer/scripts/fetch_pods.py: how pods are counted by kind.
pub mod Laws
use trino_gateway.Prelude.{
  ℕ, ◌+◌, ◌-◌, ◌*◌, Bool, true, false, not, ◌&&◌, ◌||◌, Option, none, some, List, [], ◌∷◌, ◌++◌,
  String, get_or, length, ltb, ◌==◌, all, if◌then◌else◌,
}
use trino_gateway.Prelude.Text.{Text, codes, lower, contains, contains_any}
use trino_gateway.Prelude.Slices.{join}
use trino_gateway.Prelude.Decimal.{decimal}
use trino_gateway.PodResources.Pods.{Pod}

pub record Categories : Type 0 where
  pub cronjob : List Text
  pub worker : List Text
  pub web : List Text
  pub other : List Text

abbrev pub no_pods : Categories
no_pods = record { cronjob = []; worker = []; web = []; other = [] }

abbrev pub main_service : List Text
main_service = codes "live" ∷ codes "test" ∷ codes "baseline" ∷ codes "canary" ∷ []

unfoldable pub categorize : Categories → Text → Categories
unfolding lower contains contains_any
categorize cs name =
    let pod_name = lower name in
    if contains (codes "cronjob") pod_name
    then record cs { cronjob = cs.cronjob ++ (name ∷ []) }
    else if contains (codes "worker") pod_name
    then record cs { worker = cs.worker ++ (name ∷ []) }
    else if contains_any main_service pod_name
    then record cs { web = cs.web ++ (name ∷ []) }
    else record cs { other = cs.other ++ (name ∷ []) }

unfoldable pub categorize_from : Categories → List Pod → Categories
unfolding categorize
categorize_from cs [] = cs
categorize_from cs (pod ∷ pods) = categorize_from (categorize cs pod.name) pods

unfoldable pub categorize_pods : List Pod → Categories
unfolding categorize_from
categorize_pods pods = categorize_from no_pods pods

abbrev part_if : ℕ → String → List Text
part_if n what = if ltb 0 n then (decimal n ++ codes what) ∷ [] else []

abbrev pub active_of : Categories → ℕ
active_of c = length c.web + length c.worker + length c.other

abbrev pub total_of : Categories → ℕ
total_of c = active_of c + length c.cronjob

-- `" + ".join(parts)`
unfoldable pub summary_parts : Categories → Text
unfolding join decimal
summary_parts c =
    let breakdown =
      part_if (length c.web) " web"
      ++ (part_if (length c.worker) " workers" ++ part_if (length c.other) " other") in
    let active =
      if ltb 0 (active_of c)
      then (decimal (active_of c)
          ++ (codes " running (" ++ (join (codes " + ") breakdown ++ codes ")")))
        ∷ []
      else [] in
    join (codes " + ") (active ++ part_if (length c.cronjob) " cronjobs")

unfoldable pub with_total : Text → ℕ → Text
unfolding decimal
with_total summary total =
    if ltb 0 total then summary ++ (codes " = " ++ (decimal total ++ codes " total")) else summary

unfoldable pub summarize_pod_categories : List Pod → Text
unfolding categorize_pods summary_parts with_total
summarize_pod_categories pods =
    let categories = categorize_pods pods in
    with_total (summary_parts categories) (total_of categories)
