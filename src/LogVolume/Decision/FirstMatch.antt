-- ===== src/LogVolume/Decision/FirstMatch.antt =====
-- The order of the rules of `DecisionEngine`.
use trino_gateway.Prelude.{
  ℕ, ◌≡◌, refl, ◌⊎◌, inl, inr, none, some, List, [], ◌∷◌, ◌++◌, Each, Option-cases, arith,
}
use trino_gateway.LogVolume.Log.{LogEntry}
use trino_gateway.LogVolume.Decision.Rules.{Outcome, rule_default}
use trino_gateway.LogVolume.Decision.{Decision, Numbered, rules, decision_of, first_match, decide}

-- `d` is the decision of a rule of `rs` that matches, and no rule before it does.
pub record IsFirstMatch (rs : List Numbered) (e : LogEntry) (frequency : ℕ) (d : Decision)
    : Type 0 where
  pub before : List Numbered
  pub rule : Numbered
  pub after : List Numbered
  pub found : Outcome
  pub split : rs ≡ before ++ (rule ∷ after)
  pub silent : Each (λ r. r.rule_func e frequency ≡ none) before
  pub matches : rule.rule_func e frequency ≡ some found
  pub decided : d ≡ decision_of rule.rule_id found

module _ (e : LogEntry) (frequency : ℕ) where
  abbrev IsSilent : List Numbered → Type 0
  IsSilent rs = Each (λ r. r.rule_func e frequency ≡ none) rs

  first_match_cases :
      (rs : List Numbered) → IsFirstMatch rs e frequency (first_match rs e frequency) ⊎ IsSilent rs
  unfolding first_match
  first_match_cases [] = inr tt
  first_match_cases (r ∷ rs) = elim (Option-cases (r.rule_func e frequency)) [
    | inl quiet ↦ elim (first_match_cases rs) [
      | inl m ↦ inl (record {
        before = r ∷ m.before;
        rule = m.rule;
        after = m.after;
        found = m.found;
        split = λ i. r ∷ m.split i;
        silent = (quiet, m.silent);
        matches = m.matches;
        decided = rw quiet m.decided;
      })
      | inr silent ↦ inr (quiet, silent)
    ]
    | inr (o, hit) ↦ inl (record {
      before = [];
      rule = r;
      after = rs;
      found = o;
      split = refl;
      silent = tt;
      matches = hit;
      decided = rw hit refl;
    })
  ]

  rules_speak : ¬ IsSilent rules
  unfolding rule_default
  rules_speak silent = ground arith

  -- For every log entry and frequency, `decide` returns the outcome and the number of a rule of
  -- `_build_rules` that matches, and every rule before that one in the list returns None.
  pub decide-IsFirstMatch : IsFirstMatch rules e frequency (decide e frequency)
  unfolding decide
  decide-IsFirstMatch = elim (first_match_cases rules) [
    | inl m ↦ m
    | inr silent ↦ absurd (rules_speak silent)
  ]
