-- ===== src/Flink/Jobspec/Laws.antt =====
-- What the analysis of a jobspec returns, and when it raises.
use trino_gateway.Prelude.{
  sym, ◌≡◌, ◌≢◌, ◌↔◌, refl, Bool, true, false, not, ◌&&◌, Option, none, some, List, [], ◌∷◌, String,
  any, arith,
}
use trino_gateway.Prelude.Int.{ℤ}
use trino_gateway.Prelude.Dict.{is_some}
use trino_gateway.Flink.Streams.{MissingStream, missing_streams}
use trino_gateway.Flink.Warnings.{parse_memory}
use trino_gateway.Flink.Warnings.Sizes.{is_size, parse_memory-is_some}
use trino_gateway.Flink.Jobspec.{
  Jobspec, Issue, type_error, value_error, cons_some, joined, missing_issue, missing_issues,
  graph_of, memory_of, managed_memory_of, with_memory, with_issues, analyze_jobspec_yaml,
}

-- An operator without a name is among the consumers of the stream.
abbrev pub has_unnamed : MissingStream → Bool
has_unnamed m = any (λ n. not (is_some n)) m.consumers

cons_some-is_some {ℓ} :
    {A : Type ℓ} (o : Option A) (rest : Option (List A))
    → is_some (cons_some o rest) ≡ (is_some o && is_some rest)
cons_some-is_some none rest = ground arith
cons_some-is_some (some a) none = ground arith
cons_some-is_some (some a) (some xs) = ground arith

missing_issue-is_some :
    (s : String) (o : Option (List String)) → is_some (missing_issue s o) ≡ is_some o
missing_issue-is_some s none = refl
missing_issue-is_some s (some names) = refl

joined-is_some :
    (names : List (Option String)) → is_some (joined names) ≡ not (any (λ n. not (is_some n)) names)
unfolding joined
joined-is_some [] = refl
joined-is_some (n ∷ names) =
    rw (cons_some-is_some n (joined names), joined-is_some names) (ground arith)

missing_issues-is_some :
    (missing : List MissingStream)
    → is_some (missing_issues missing) ≡ not (any has_unnamed missing)
unfolding missing_issues
missing_issues-is_some [] = refl
missing_issues-is_some (m ∷ missing) =
    rw
      (
        cons_some-is_some (missing_issue m.stream (joined m.consumers)) (missing_issues missing),
        missing_issue-is_some m.stream (joined m.consumers),
        joined-is_some m.consumers,
        missing_issues-is_some missing,
      )
      (ground arith)

with_memory-raises :
    (spec : Jobspec) (issues : List Issue) (m k : Option ℤ)
    → (with_memory spec issues m k ≢ type_error)
      × ((with_memory spec issues m k ≡ value_error) ↔ ((is_some m && is_some k) ≡ false))
unfolding with_memory
with_memory-raises spec issues none k = (λ h. cc, (λ h. refl, λ h. refl))
with_memory-raises spec issues (some a) none = (λ h. cc, (λ h. refl, λ h. refl))
with_memory-raises spec issues (some a) (some b) = (λ h. cc, (λ h. cc, λ h. cc))

with_issues-raises :
    (spec : Jobspec) (o : Option (List Issue))
    → ((with_issues spec o ≡ type_error) ↔ (is_some o ≡ false))
      × ((with_issues spec o ≡ value_error) ↔ (
          (is_some o ≡ true)
          × ((is_some (parse_memory (memory_of spec))
                && is_some (parse_memory (managed_memory_of spec)))
              ≡ false)))
unfolding with_issues
with_issues-raises spec none = ((λ h. refl, λ h. refl), (λ h. cc, λ h. cc))
with_issues-raises spec (some issues) =
    let (never, (f, g)) =
      with_memory-raises spec issues (parse_memory (memory_of spec))
        (parse_memory (managed_memory_of spec)) in
    ((λ h. absurd (never h), λ h. cc), (λ h. (refl, f h), λ h. g h.1))

-- The analysis of a jobspec raises a TypeError exactly if a missing stream has a consumer without a
-- name, and, if none has, a ValueError exactly if one of the two sizes of memory cannot be read: one
-- that is a text with gb, or else with mb, in any case, and is no integer without that unit.
pub analyze_jobspec_yaml-raises :
    (spec : Jobspec)
    → ((analyze_jobspec_yaml spec ≡ type_error)
        ↔ (any has_unnamed (missing_streams (graph_of spec)) ≡ true))
      × ((analyze_jobspec_yaml spec ≡ value_error) ↔ (
          (any has_unnamed (missing_streams (graph_of spec)) ≡ false)
          × ((is_size (memory_of spec) && is_size (managed_memory_of spec)) ≡ false)))
unfolding analyze_jobspec_yaml with_issues
analyze_jobspec_yaml-raises spec =
    let missing = missing_streams (graph_of spec) in
    let named = missing_issues-is_some missing in
    let first = parse_memory-is_some (memory_of spec) in
    let second = parse_memory-is_some (managed_memory_of spec) in
    let ((f, g), (h, k)) = with_issues-raises spec (missing_issues missing) in
    (
      (λ r. ground (arith, named, f r), λ u. g (ground (arith, named, u))),
      (
        λ r. let (a, b) = h r in (ground (arith, named, a), rw (sym first, sym second) b),
        λ u. k (ground (arith, named, u.0), rw (first, second) u.1),
      ),
    )
