-- ===== src/PodResources/Inputs/Laws.antt =====
-- What inputs are accepted, and what they come to.
use trino_gateway.Prelude.{
  Each-snoc, ℕ, ◌≤◌, ◌<◌, ◌≡◌, refl, ◌↔◌, ◌∙◌, sym, inl, inr, Bool, true, false, Option, none, some,
  List, [], ◌∷◌, ◌++◌, length, map, any, arith, Each, Bool-cases, ◌==◌, length-append,
}
use trino_gateway.Prelude.Text.{Text, text_eq}
use trino_gateway.Prelude.Slices.{split_on, with_head, strip}
use trino_gateway.PodResources.Quantity.{ok, value_error}
use trino_gateway.PodResources.Pods.{known_cluster, prod_green, prod_white}
use trino_gateway.PodResources.Inputs.{
  without_eks, normalize_clusters, clusters_of, Config, parse_inputs,
}

-- No text stands in the list twice.
abbrev pub IsDistinct : List Text → Type 0
IsDistinct [] = Unit
IsDistinct (c ∷ cs) = (any (λ d. text_eq d c) cs ≡ false) × IsDistinct cs

-- One or two of the two clusters.
abbrev pub IsSelection : List Text → Type 0
IsSelection clusters =
    Each (λ c. known_cluster c ≡ true) clusters × IsDistinct clusters × (0 < length clusters)

text_eq-sym : (s t : Text) → text_eq s t ≡ text_eq t s
text_eq-sym [] [] = refl
text_eq-sym [] (d ∷ t) = refl
text_eq-sym (c ∷ s) [] = refl
text_eq-sym (c ∷ s) (d ∷ t) = ground (arith, text_eq-sym s t)

any-snoc :
    (p : Text → Bool) (cs : List Text) (c : Text)
    → any p cs ≡ false
    → p c ≡ false
    → any p (cs ++ (c ∷ [])) ≡ false
any-snoc p [] c h k = ground (arith, k)
any-snoc p (d ∷ cs) c h k = ground (arith, any-snoc p cs c)

snoc-IsDistinct :
    (cs : List Text) (c : Text)
    → IsDistinct cs
    → any (λ d. text_eq d c) cs ≡ false
    → IsDistinct (cs ++ (c ∷ []))
snoc-IsDistinct [] c h new = (refl, tt)
snoc-IsDistinct (d ∷ cs) c h new = (
  any-snoc (λ e. text_eq e d) cs c h.0 (text_eq-sym c d ∙ ground arith),
  snoc-IsDistinct cs c h.1 (ground arith),
)

-- The parts of a list of clusters name clusters, each by its name or by that with "-eks".
abbrev pub IsNames : List Text → Type 0
IsNames parts = Each (λ c. known_cluster (without_eks 0 c) ≡ true) parts

abbrev IsKnown : List Text → Type 0
IsKnown clusters = Each (λ c. known_cluster c ≡ true) clusters × IsDistinct clusters

any-nonempty : (p : Text → Bool) (cs : List Text) → any p cs ≡ true → 0 < length cs
any-nonempty p [] h = ground arith
any-nonempty p (c ∷ cs) h = omega arith

-- Where all parts are names, a selection results, which only grows; a part that is no name refuses.
normalize_clusters_lem :
    (cs parts : List Text)
    → IsKnown cs
    → IsNames parts
    → (r : List Text) × (normalize_clusters cs parts ≡ ok r)
      × IsKnown r
      × (length cs ≤ length r)
      × (0 < length parts → 0 < length r)
unfolding normalize_clusters
normalize_clusters_lem cs [] known names = (cs, refl, known, omega arith, λ h. ground arith)
normalize_clusters_lem cs (c ∷ parts) known names =
    let name = without_eks 0 c in
    elim (Bool-cases (any (λ d. text_eq d name) cs)) [
      | inl there ↦
          let (r, e, good, le, pos) = normalize_clusters_lem cs parts known names.1 in
          (
            r,
            rw (names.0, there) e,
            good,
            le,
            λ h. omega (arith, any-nonempty (λ d. text_eq d name) cs there),
          )
      | inr new ↦
          let more : IsKnown (cs ++ (name ∷ [])) = (
            Each-snoc (λ d. known_cluster d ≡ true) cs name known.0 names.0,
            snoc-IsDistinct cs name known.1 new,
          ) in
          let (r, e, good, le, pos) =
            normalize_clusters_lem (cs ++ (name ∷ [])) parts more names.1 in
          (
            r,
            rw (names.0, new) e,
            good,
            omega (arith, length-append cs (name ∷ [])),
            λ h. omega (arith, length-append cs (name ∷ [])),
          )
    ]

normalize_clusters-IsNames :
    (cs parts r : List Text) → normalize_clusters cs parts ≡ ok r → IsNames parts
unfolding normalize_clusters
normalize_clusters-IsNames cs [] r e = tt
normalize_clusters-IsNames cs (c ∷ parts) r e =
    let name = without_eks 0 c in
    elim (Bool-cases (known_cluster name)) [
      | inl known ↦ elim (Bool-cases (any (λ d. text_eq d name) cs)) [
        | inl there ↦ (known, normalize_clusters-IsNames cs parts r (rw (known, there) at e))
        | inr new ↦
            (known, normalize_clusters-IsNames (cs ++ (name ∷ [])) parts r (rw (known, new) at e))
      ]
      | inr unknown ↦ let bad : value_error ≡ ok r = rw unknown at e in ground arith
    ]

with_head-nonempty : (c : ℕ) (parts : List Text) → 0 < length (map strip (with_head c parts))
with_head-nonempty c [] = omega arith
with_head-nonempty c (part ∷ parts) = omega arith

split_on-nonempty : (s : Text) → 0 < length (map strip (split_on b',' s))
unfolding split_on
split_on-nonempty [] = omega arith
split_on-nonempty (c ∷ s) = elim (Bool-cases (c == b',')) [
  | inl comma ↦ rw comma (omega arith)
  | inr other ↦ rw other (with_head-nonempty c (split_on b',' s))
]

both_clusters : IsSelection (prod_green ∷ prod_white ∷ [])
both_clusters = ((refl, (refl, tt)), (refl, (refl, tt)), omega arith)

clusters_of-some :
    (cluster : Text)
    → clusters_of (some cluster) ≡ normalize_clusters [] (map strip (split_on b',' cluster))
unfolding clusters_of
clusters_of-some cluster = refl

clusters_of-IsSelection :
    (cluster : Option Text) (r : List Text) → clusters_of cluster ≡ ok r → IsSelection r
unfolding clusters_of
clusters_of-IsSelection none r e =
    let same : prod_green ∷ prod_white ∷ [] ≡ r = cc e in rw (sym same) both_clusters
clusters_of-IsSelection (some cluster) r e =
    let parts = map strip (split_on b',' cluster) in
    let (s, found, (known, distinct), _, pos) =
      normalize_clusters_lem [] parts (tt, tt) (normalize_clusters-IsNames [] parts r e) in
    let same : s ≡ r = cc (e, found) in
    rw (sym same) (known, distinct, pos (split_on-nonempty cluster))

accepted_lem :
    (namespace cluster : Text) (hours : ℕ) (r : List Text)
    → text_eq namespace [] ≡ false
    → 1 ≤ hours
    → hours ≤ 720
    → clusters_of (some cluster) ≡ ok r
    → 0 < length r
    → (config : Config) × (parse_inputs namespace (some cluster) hours ≡ ok config)
unfolding parse_inputs
accepted_lem namespace cluster hours [] full low high found pos = ground arith
accepted_lem namespace cluster hours (c ∷ r) full low high found pos =
    let config : Config = record { namespace = strip namespace; clusters = c ∷ r; hours = hours } in
    (config, rw (full, found) (ground arith))

Each-strip :
    (parts : List Text)
    → IsNames (map strip parts)
    → Each (λ c. known_cluster (without_eks 0 (strip c)) ≡ true) parts
Each-strip [] h = tt
Each-strip (c ∷ parts) h = (h.0, Each-strip parts h.1)

strip-Each :
    (parts : List Text)
    → Each (λ c. known_cluster (without_eks 0 (strip c)) ≡ true) parts
    → IsNames (map strip parts)
strip-Each [] h = tt
strip-Each (c ∷ parts) h = (h.0, strip-Each parts h.1)

checks_lem :
    (namespace : Text) (cluster : Option Text) (hours : ℕ) (config : Config)
    → parse_inputs namespace cluster hours ≡ ok config
    → (clusters_of cluster ≡ ok config.clusters)
      × (config.namespace ≡ strip namespace)
      × (config.hours ≡ hours)
      × (text_eq namespace [] ≡ false)
      × (1 ≤ hours)
      × (hours ≤ 720)
unfolding parse_inputs
checks_lem namespace cluster hours config h = ground arith

-- A list of clusters is accepted exactly if the namespace is not empty, the number of hours is from 1
-- to 720, and each part between commas, without blanks at its ends and without "-eks", is one of the
-- two clusters.
pub parse_inputs-accepts :
    (namespace cluster : Text) (hours : ℕ)
    → ((config : Config) × (parse_inputs namespace (some cluster) hours ≡ ok config)) ↔ (
        (text_eq namespace [] ≡ false)
        × (1 ≤ hours)
        × (hours ≤ 720)
        × Each (λ c. known_cluster (without_eks 0 (strip c)) ≡ true) (split_on b',' cluster))
parse_inputs-accepts namespace cluster hours = (
  λ (config, h).
      let (found, _, _, full, low, high) = checks_lem namespace (some cluster) hours config h in
      (
        full,
        low,
        high,
        Each-strip (split_on b',' cluster) (
            normalize_clusters-IsNames [] (map strip (split_on b',' cluster)) config.clusters
              (sym (clusters_of-some cluster) ∙ found)),
      ),
  λ (full, low, high, names).
      let (r, found, (known, distinct), _, pos) =
        normalize_clusters_lem [] (map strip (split_on b',' cluster)) (tt, tt)
          (strip-Each (split_on b',' cluster) names) in
      accepted_lem namespace cluster hours r full low high (clusters_of-some cluster ∙ found)
        (pos (split_on-nonempty cluster)),
)

-- What is accepted names at least one cluster, only the two that are known, and none twice, keeps
-- the hours, and strips the namespace.
pub parse_inputs-IsSelection :
    (namespace : Text) (cluster : Option Text) (hours : ℕ) (config : Config)
    → parse_inputs namespace cluster hours ≡ ok config
    → IsSelection config.clusters × (config.namespace ≡ strip namespace) × (config.hours ≡ hours)
parse_inputs-IsSelection namespace cluster hours config h =
    let (found, name, kept, _, _, _) = checks_lem namespace cluster hours config h in
    (clusters_of-IsSelection cluster config.clusters found, name, kept)
