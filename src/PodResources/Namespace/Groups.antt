-- ===== src/PodResources/Namespace/Groups.antt =====
-- The grouping of pods by deployment.
use trino_gateway.Prelude.{
  Each-snoc, ℕ, ◌+◌, ◌≡◌, refl, sym, ◌⊎◌, inl, inr, some, List, [], ◌∷◌, ◌++◌, length,
  length-append, arith, Each, Bool-cases, sum_of,
}
use trino_gateway.Prelude.Text.{Text, text_eq, text_eq_iff}
use trino_gateway.PodResources.Quantity.{Result, ok, value_error, extract_deployment_name}
use trino_gateway.PodResources.Pods.{Pod}
use trino_gateway.PodResources.Namespace.{
  Deployment, add_cluster, spec_of, add_pod, new_deployment, group_pod, group_pods,
}

-- Each pod of the deployment is called after it.
abbrev pub IsGroup : Deployment → Type 0
IsGroup d = Each (λ (p : Pod). extract_deployment_name p.name ≡ d.name) d.pods

abbrev pub pod_count : List Deployment → ℕ
pod_count ds = sum_of (λ d. length d.pods) ds

-- A result is an error, or a value.
pub Result-cases : {A : Type 0} (r : Result A) → (r ≡ value_error) ⊎ ((a : A) × (r ≡ ok a))
Result-cases value_error = inl refl
Result-cases (ok a) = inr (a, refl)

add_pod_lem :
    (c : Text) (pod : Pod) (d e : Deployment)
    → add_pod c pod d ≡ ok e
    → (e.name ≡ d.name) × (e.pods ≡ d.pods ++ (pod ∷ []))
unfolding add_pod
add_pod_lem c pod d e h = elim (Result-cases (spec_of d.spec pod)) [
  | inl failed ↦ let bad : value_error ≡ ok e = rw failed at h in ground arith
  | inr (spec, found) ↦
      let same : ok (record d {
        clusters = add_cluster c d.clusters;
        pods = d.pods ++ (pod ∷ []);
        spec = some spec;
      })
          ≡ ok e =
        rw found at h in
      ground arith
]

add_pod-IsGroup :
    (c : Text) (pod : Pod) (d e : Deployment)
    → extract_deployment_name pod.name ≡ d.name
    → IsGroup d
    → add_pod c pod d ≡ ok e
    → IsGroup e × (length e.pods ≡ length d.pods + 1)
add_pod-IsGroup c pod d e named group h =
    let (name, pods) = add_pod_lem c pod d e h in
    (
      rw (pods, name)
          (Each-snoc (λ p. extract_deployment_name p.name ≡ d.name) d.pods pod group named),
      rw pods (omega (arith, length-append d.pods (pod ∷ []))),
    )

group_pod-IsGroup :
    (c : Text) (pod : Pod) (ds es : List Deployment)
    → Each IsGroup ds
    → group_pod c pod (extract_deployment_name pod.name) ds ≡ ok es
    → Each IsGroup es × (pod_count es ≡ pod_count ds + 1)
unfolding group_pod
group_pod-IsGroup c pod [] es each h =
    let dep_name = extract_deployment_name pod.name in
    elim (Result-cases (add_pod c pod (new_deployment dep_name))) [
      | inl failed ↦ let bad : value_error ≡ ok es = rw failed at h in ground arith
      | inr (e, added) ↦
          let same : ok (e ∷ []) ≡ ok es = rw added at h in
          let (group, count) = add_pod-IsGroup c pod (new_deployment dep_name) e refl tt added in
          let list : e ∷ [] ≡ es = cc same in rw (sym list) ((group, tt), omega (arith, count))
    ]
group_pod-IsGroup c pod (d ∷ ds) es each h =
    let dep_name = extract_deployment_name pod.name in
    elim (Bool-cases (text_eq d.name dep_name)) [
      | inl this ↦ elim (Result-cases (add_pod c pod d)) [
        | inl failed ↦ let bad : value_error ≡ ok es = rw (this, failed) at h in ground arith
        | inr (e, added) ↦
            let same : ok (e ∷ ds) ≡ ok es = rw (this, added) at h in
            let named : dep_name ≡ d.name = sym ((text_eq_iff d.name dep_name).0 this) in
            let (group, count) = add_pod-IsGroup c pod d e named each.0 added in
            let list : e ∷ ds ≡ es = cc same in
            rw (sym list) ((group, each.1), omega (arith, count))
      ]
      | inr later ↦ elim (Result-cases (group_pod c pod dep_name ds)) [
        | inl failed ↦ let bad : value_error ≡ ok es = rw (later, failed) at h in ground arith
        | inr (fs, grouped) ↦
            let same : ok (d ∷ fs) ≡ ok es = rw (later, grouped) at h in
            let (groups, count) = group_pod-IsGroup c pod ds fs each.1 grouped in
            let list : d ∷ fs ≡ es = cc same in
            rw (sym list) ((each.0, groups), omega (arith, count))
      ]
    ]

-- Where the grouping does not fail, and each pod of the given deployments is called after its
-- deployment, so is each pod of the resulting ones, and these have together as many pods as the
-- given ones and the pods that were grouped.
pub group_pods-IsGroup :
    (c : Text) (pods : List Pod) (ds es : List Deployment)
    → Each IsGroup ds
    → group_pods c pods ds ≡ ok es
    → Each IsGroup es × (pod_count es ≡ pod_count ds + length pods)
unfolding group_pods
group_pods-IsGroup c [] ds es each h =
    let list : ds ≡ es = cc h in rw (sym list) (each, omega arith)
group_pods-IsGroup c (pod ∷ pods) ds es each h =
    elim (Result-cases (group_pod c pod (extract_deployment_name pod.name) ds)) [
      | inl failed ↦ let bad : value_error ≡ ok es = rw failed at h in ground arith
      | inr (fs, grouped) ↦
          let (groups, count) = group_pod-IsGroup c pod ds fs each grouped in
          let (all, total) = group_pods-IsGroup c pods fs es groups (rw grouped at h) in
          (all, omega (arith, count, total))
    ]
