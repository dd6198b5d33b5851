-- ===== src/PodResources/Categories/Laws.antt =====
-- Every pod is counted once.
use trino_gateway.Prelude.{
  ℕ, ◌+◌, ◌<◌, ◌≡◌, refl, ◌∙◌, List, [], ◌∷◌, ◌++◌, arith, length, length-append, lt→ltb,
}
use trino_gateway.Prelude.Text.{Text, codes}
use trino_gateway.Prelude.Decimal.{decimal}
use trino_gateway.PodResources.Pods.{Pod}
use trino_gateway.PodResources.Categories.{
  no_pods, Categories, categorize, categorize_from, categorize_pods, total_of, summary_parts,
  with_total, summarize_pod_categories,
}

categorize-count :
    (cs : Categories) (name : Text)
    → let c = categorize cs name in
      length c.cronjob + length c.worker + length c.web + length c.other
      ≡ length cs.cronjob + length cs.worker + length cs.web + length cs.other + 1
unfolding categorize
categorize-count cs name = ground (
  arith,
  length-append cs.cronjob (name ∷ []),
  length-append cs.worker (name ∷ []),
  length-append cs.web (name ∷ []),
  length-append cs.other (name ∷ []),
)

categorize_from-count :
    (cs : Categories) (pods : List Pod)
    → let c = categorize_from cs pods in
      length c.cronjob + length c.worker + length c.web + length c.other
      ≡ length cs.cronjob + length cs.worker + length cs.web + length cs.other + length pods
unfolding categorize_from
categorize_from-count cs [] = omega arith
categorize_from-count cs (pod ∷ pods) =
    omega (arith, categorize_from-count (categorize cs pod.name) pods, categorize-count cs pod.name)

-- Each pod is in one of the four categories.
pub categorize_pods-count :
    (pods : List Pod)
    → let c = categorize_pods pods in
      length c.cronjob + length c.worker + length c.web + length c.other ≡ length pods
unfolding categorize_pods
categorize_pods-count pods = omega (arith, categorize_from-count no_pods pods)

summarize_lem :
    (pods : List Pod)
    → summarize_pod_categories pods
      ≡ with_total (summary_parts (categorize_pods pods)) (total_of (categorize_pods pods))
unfolding summarize_pod_categories
summarize_lem pods = refl

with_total-pos :
    (summary : Text) (n : ℕ)
    → 0 < n
    → with_total summary n ≡ summary ++ (codes " = " ++ (decimal n ++ codes " total"))
unfolding with_total
with_total-pos summary n pos = rw (lt→ltb 0 n pos)

no_summary : summarize_pod_categories [] ≡ []
unfolding summarize_pod_categories
no_summary = refl

-- The summary of one or more pods ends in the number of all of them, that of no pods is empty.
pub summarize_pod_categories-total :
    (pod : Pod) (pods : List Pod)
    → ((parts : Text) × (summarize_pod_categories (pod ∷ pods)
          ≡ parts ++ (codes " = " ++ (decimal (length (pod ∷ pods)) ++ codes " total"))))
      × (summarize_pod_categories [] ≡ [])
summarize_pod_categories-total pod pods =
    let all = pod ∷ pods in
    let c = categorize_pods all in
    let total : total_of c ≡ length all = omega (arith, categorize_pods-count all) in
    (
      (
        summary_parts c,
        summarize_lem all
            ∙ (rw total (with_total-pos (summary_parts c) (length all) (omega arith))),
      ),
      no_summary,
    )
