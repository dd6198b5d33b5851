-- ===== src/PodResources/Pods/Laws.antt =====
-- Which pods are analysed, and how they are counted.
use trino_gateway.Prelude.{
  all, and-true, ◌==◌, Each-snoc, ℕ, ◌+◌, ◌*◌, ◌≡◌, refl, sym, ◌∙◌, ◌⊎◌, inl, inr, Bool, true,
  false, not, ◌&&◌, Option, none, some, List, [], ◌∷◌, ◌++◌, append_assoc, append-nil, arith,
  length, length-append, select, Each, Option-cases, Bool-cases, get_or, ◌||◌, if◌then◌else◌,
}
use trino_gateway.Prelude.Text.{Text, codes, text_eq}
use trino_gateway.Prelude.Slices.{digit}
use trino_gateway.PodResources.Pods.{
  PodItem, Pod, Response, dict, other, parse_pod_item, parse_items, parse_pod_list,
  fetch_pods_from_cluster, known_cluster, kubectl_query, pods_of_answer, Moment, replace_z, utcnow,
  too_new_since, not_ready, too_new, Filtered, filter_pod, filter_from, filter_pods,
}

-- The pods of a parsed list are of the cluster and have a name and a namespace that are not empty.
abbrev pub IsNamed : Text → Pod → Type 0
IsNamed cluster pod =
    (pod.cluster ≡ cluster) × (text_eq pod.name [] ≡ false) × (text_eq pod.namespace [] ≡ false)

parse_pod_item-IsNamed :
    (item : PodItem) (cluster : Text) (pod : Pod)
    → parse_pod_item item cluster ≡ some pod
    → IsNamed cluster pod
unfolding parse_pod_item
parse_pod_item-IsNamed item cluster pod h = ground arith

parse_items-IsNamed :
    (pods : List Pod) (items : List PodItem) (cluster : Text)
    → Each (IsNamed cluster) pods
    → Each (IsNamed cluster) (parse_items pods items cluster)
unfolding parse_items
parse_items-IsNamed pods [] cluster each = each
parse_items-IsNamed pods (item ∷ items) cluster each =
    elim (Option-cases (parse_pod_item item cluster)) [
      | inl skipped ↦ rw (skipped, parse_items) (parse_items-IsNamed pods items cluster each)
      | inr (pod, parsed) ↦
          rw (parsed, parse_items)
            (parse_items-IsNamed (pods ++ (pod ∷ [])) items cluster (
              Each-snoc (IsNamed cluster) pods pod each
                (parse_pod_item-IsNamed item cluster pod parsed)))
    ]

answer-IsNamed :
    (answer : Option Response) (cluster : Text)
    → Each (IsNamed cluster) (pods_of_answer answer cluster)
unfolding parse_pod_list
answer-IsNamed none cluster = tt
answer-IsNamed (some other) cluster = tt
answer-IsNamed (some (dict items)) cluster = parse_items-IsNamed [] (get_or items []) cluster tt

-- The pods that are fetched are all of the cluster that was asked for, with names and namespaces that
-- are not empty; a cluster that is not known gives no pods.
pub fetch_pods_from_cluster-IsNamed :
    (call_friday_mcp : Text → Option Response) (namespace cluster : Text)
    → Each (IsNamed cluster) (fetch_pods_from_cluster call_friday_mcp namespace cluster)
      × ((known_cluster cluster ≡ true)
          ⊎ (fetch_pods_from_cluster call_friday_mcp namespace cluster ≡ []))
unfolding fetch_pods_from_cluster
fetch_pods_from_cluster-IsNamed call namespace cluster = (
  elim (Bool-cases (known_cluster cluster)) [
    | inl known ↦ rw known (answer-IsNamed (call (kubectl_query namespace cluster)) cluster)
    | inr unknown ↦ rw unknown tt
  ],
  elim (Bool-cases (known_cluster cluster)) [
    | inl known ↦ inl known
    | inr unknown ↦ inr (rw unknown)
  ],
)

-- The text has the shape: a `d` stands for a digit, another character for itself.
abbrev pub has_shape : Text → Text → Bool
has_shape [] [] = true
has_shape [] (c ∷ s) = false
has_shape (p ∷ ps) [] = false
has_shape (p ∷ ps) (c ∷ s) = (if p == b'd' then digit c else c == p) && has_shape ps s

-- A date and a time to the second, without a zone.
abbrev pub time_shape : Text
time_shape = codes "dddd-dd-ddTdd:dd:dd"

pub has_shape-append :
    (p q s t : Text)
    → has_shape p s ≡ true
    → has_shape q t ≡ true
    → has_shape (p ++ q) (s ++ t) ≡ true
has_shape-append [] q [] t h k = k
has_shape-append [] q (c ∷ s) t h k = cc
has_shape-append (p ∷ ps) q [] t h k = cc
has_shape-append (p ∷ ps) q (c ∷ s) t h k =
    let (a, b) = and-true (if p == b'd' then digit c else c == p) (has_shape ps s) h in
    rw (a, has_shape-append ps q s t b k) refl

-- A text of a shape without a Z has no Z.
replace_z-has_shape :
    (p t u : Text)
    → all (λ c. not (c == b'Z')) p ≡ true
    → has_shape p t ≡ true
    → replace_z (t ++ u) ≡ t ++ replace_z u
unfolding replace_z
replace_z-has_shape [] [] u n h = refl
replace_z-has_shape [] (c ∷ t) u n h = cc
replace_z-has_shape (p ∷ ps) [] u n h = cc
replace_z-has_shape (p ∷ ps) (c ∷ t) u n h =
    let (a, b) = and-true (if p == b'd' then digit c else c == p) (has_shape ps t) h in
    let (m, k) = and-true (not (p == b'Z')) (all (λ d. not (d == b'Z')) ps) n in
    let later = replace_z-has_shape ps t u k b in
    let other : (c == b'Z') ≡ false = ground arith in rw (other, later) refl

module _ (fromisoformat : Text → Option Moment) where
  abbrev kept : ℕ → ℕ → Bool → Pod → Bool
  kept now min_age_hours only_ready pod =
      not (only_ready && not_ready pod || too_new fromisoformat (utcnow now) min_age_hours pod)

  filter_pod-kept :
      (now age : ℕ) (only_ready : Bool) (f : Filtered) (pod : Pod) (rest : List Pod)
      → (filter_pod fromisoformat now age only_ready f pod).pods ++ rest
        ≡ f.pods ++ (if kept now age only_ready pod then pod ∷ rest else rest)
  unfolding filter_pod
  filter_pod-kept now age only_ready f pod rest =
      ground (arith, append_assoc f.pods (pod ∷ []) rest)

  filter_pod-count :
      (now age : ℕ) (only_ready : Bool) (f : Filtered) (pod : Pod)
      → let r = filter_pod fromisoformat now age only_ready f pod in
        length r.pods + r.not_ready + r.too_new ≡ length f.pods + f.not_ready + f.too_new + 1
  unfolding filter_pod
  filter_pod-count now age only_ready f pod = ground (arith, length-append f.pods (pod ∷ []))

  filter_from-select :
      (now age : ℕ) (only_ready : Bool) (f : Filtered) (pods : List Pod)
      → let r = filter_from fromisoformat now age only_ready f pods in
        (r.pods ≡ f.pods ++ select (kept now age only_ready) pods)
        × (length r.pods + r.not_ready + r.too_new
            ≡ length f.pods + f.not_ready + f.too_new + length pods)
  unfolding filter_from
  filter_from-select now age only_ready f [] = (sym (append-nil f.pods), omega arith)
  filter_from-select now age only_ready f (pod ∷ pods) =
      let step = filter_pod fromisoformat now age only_ready f pod in
      let (rest, count) = filter_from-select now age only_ready step pods in
      (
        rest ∙ filter_pod-kept now age only_ready f pod (select (kept now age only_ready) pods),
        omega (arith, filter_pod-count now age only_ready f pod),
      )

abbrev ReadsZone : (Text → Option Moment) → Type 0
ReadsZone fromisoformat =
    (t : Text) (m : Moment)
    → has_shape time_shape t ≡ true
    → fromisoformat (t ++ codes "+00:00") ≡ some m
    → m.aware ≡ true

-- The pod has no start time, or a date and a time to the second with a Z behind it.
abbrev pub IsZulu : Pod → Type 0
IsZulu p =
    (p.start_time ≡ none)
    ⊎ ((t : Text) × (has_shape time_shape t ≡ true) × (p.start_time ≡ some (t ++ codes "Z")))

else_false : (b : Bool) {x : Bool} → x ≡ false → (if b then false else x) ≡ false
else_false true h = refl
else_false false h = h

module _ (fromisoformat : Text → Option Moment) (reads_zone : ReadsZone fromisoformat)
    (now : ℕ) where
  zone_mismatch :
      (age : ℕ) (t : Text)
      → has_shape time_shape t ≡ true
      → too_new_since (utcnow now) age (fromisoformat (t ++ codes "+00:00")) ≡ false
  zone_mismatch age t shape = elim (Option-cases (fromisoformat (t ++ codes "+00:00"))) [
    | inl unread ↦ rw unread
    | inr (m, read) ↦ rw (read, reads_zone t m shape read)
  ]

  never_too_new :
      (age : ℕ) (pod : Pod) → IsZulu pod → too_new fromisoformat (utcnow now) age pod ≡ false
  unfolding too_new
  never_too_new age pod (inl e) = rw (e, too_new)
  never_too_new age pod (inr (t, shape, e)) =
      rw (e, too_new)
        (else_false (text_eq (t ++ codes "Z") []) (
          rw (replace_z-has_shape time_shape t (codes "Z") refl shape)
            (zone_mismatch (age * 3600) t shape)))

  select-ready :
      (age : ℕ) (only_ready : Bool) (pods : List Pod)
      → Each IsZulu pods
      → select (kept fromisoformat now age only_ready) pods
        ≡ select (λ p. not (only_ready && not_ready p)) pods
  select-ready age only_ready [] each = refl
  select-ready age only_ready (pod ∷ pods) each =
      ground (arith, never_too_new age pod each.0, select-ready age only_ready pods each.1)

-- If each pod has no start time or one as Kubernetes writes it, a date and a time to the second with
-- a Z behind it, and such a date and time with "+00:00" in place of the Z is never read as a time
-- without a zone, then `filter_pods` excludes no pod for its age, however new it is and whatever the
-- minimal age: the ready pods, or all, are kept in their order.
pub filter_pods-ignores_age :
    (fromisoformat : Text → Option Moment)
    → ((t : Text) (m : Moment)
        → has_shape time_shape t ≡ true
        → fromisoformat (t ++ codes "+00:00") ≡ some m
        → m.aware ≡ true)
    → (now age : ℕ) (pods : List Pod) (exclude_failed only_ready : Bool) → Each IsZulu pods
    → filter_pods fromisoformat now pods exclude_failed age only_ready
      ≡ select (λ p. not (only_ready && not_ready p)) pods
unfolding filter_pods
filter_pods-ignores_age iso reads_zone now age pods exclude_failed only_ready each =
    (filter_from-select iso now age only_ready (record { pods = []; not_ready = 0; too_new = 0 })
      pods).0
    ∙ select-ready iso reads_zone now age only_ready pods each
