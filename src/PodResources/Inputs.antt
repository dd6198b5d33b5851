-- ===== src/PodResources/Inputs.antt =====
-- .agents/skills/k8s-resource-analyzer/scripts/main.py: `parse_inputs`. The number of hours is not
-- negative here; the code refuses a negative one as it refuses 0. The two times in the result are
-- left to the queries that use them.
pub mod Laws
use trino_gateway.Prelude.{
  ℕ, zero, suc, ◌+◌, ◌≤◌, Bool, true, false, not, ◌&&◌, ◌||◌, Option, none, some, List, [], ◌∷◌,
  ◌++◌, map, any, leb, ◌==◌, if◌then◌else◌,
}
use trino_gateway.Prelude.Text.{Text, codes, text_eq, starts_with}
use trino_gateway.Prelude.Slices.{split_on, strip}
use trino_gateway.PodResources.Quantity.{Result, ok, value_error, ◌>>=◌}
use trino_gateway.PodResources.Pods.{known_cluster, prod_green, prod_white}

-- `s.replace("-eks", "")`: the first argument counts the characters of a match that are left.
unfoldable pub without_eks : ℕ → Text → Text
without_eks n [] = []
without_eks (suc n) (c ∷ s) = without_eks n s
without_eks zero (c ∷ s) =
    let skipped = without_eks 3 s in
    let kept = without_eks 0 s in if starts_with (codes "-eks") (c ∷ s) then skipped else c ∷ kept

-- The loop over the parts of `cluster`.
unfoldable pub normalize_clusters : List Text → List Text → Result (List Text)
unfolding without_eks
normalize_clusters clusters [] = ok clusters
normalize_clusters clusters (c ∷ cluster_list) =
    let cluster_name = without_eks 0 c in
    let again = normalize_clusters clusters cluster_list in
    let added = normalize_clusters (clusters ++ (cluster_name ∷ [])) cluster_list in
    if known_cluster cluster_name
    then (if any (λ d. text_eq d cluster_name) clusters then again else added)
    else value_error

unfoldable pub clusters_of : Option Text → Result (List Text)
unfolding split_on strip normalize_clusters
clusters_of none = ok (prod_green ∷ prod_white ∷ [])
clusters_of (some cluster) = normalize_clusters [] (map strip (split_on b',' cluster))

pub record Config : Type 0 where
  pub namespace : Text
  pub clusters : List Text
  pub hours : ℕ

abbrev is_nil : List Text → Bool
is_nil [] = true
is_nil (x ∷ xs) = false

unfoldable pub parse_inputs : Text → Option Text → ℕ → Result Config
unfolding clusters_of strip
parse_inputs namespace cluster hours =
    if text_eq namespace []
    then value_error
    else clusters_of cluster >>= λ clusters.
        if is_nil clusters
        then value_error
        else if not (leb 1 hours && leb hours 720)
        then value_error
        else ok (record { namespace = strip namespace; clusters = clusters; hours = hours })
