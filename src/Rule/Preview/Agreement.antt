-- ===== src/Rule/Preview/Agreement.antt =====
-- `sectionIssues`, `ruleChecks`, `flappingRisk` and `validateDraft` tell one story.
use iot_saas.Prelude.{
  String, Bool, true, false, not, ◌&&◌, ◌||◌, ◌≡◌, ◌↔◌, refl, Option, none, some, List, [], ◌∷◌,
  or_else, first_some, any, any-append, keep, arith,
}
use iot_saas.Prelude.Numbers.{Numbers}
use iot_saas.Prelude.Json.{JsonText}
use iot_saas.Rule.Tree.{contacts}
use iot_saas.Rule.Action.{ActionDraft, actuator, email, webhook, notification, action_problem}
use iot_saas.Rule.Model.{RuleDraft, is_reading_rule, can_clear}
use iot_saas.Rule.Validation.{
  is_null, no_items, problem_if, contact_problem, no_schedule, no_device, no_action,
  no_clear_message, is_actuator, turns_back, is_bare, switches_hardware, validate_draft,
  flapping_risk,
}
use iot_saas.Rule.Preview.{
  CheckId, hysteresis, Check, RuleSection, name, if_part, then_part, SectionIssue, issue_if,
  issues_of, when_issues, if_issues, then_issues, behaviour_issues, section_issues, rule_checks,
}

abbrev is_some : {A : Type 0} → Option A → Bool
is_some none = false
is_some (some a) = true

-- A blocking issue in a section other than the name's.
abbrev is_name : RuleSection → Bool
is_name name = true
is_name _ = false

abbrev pub blocks_draft : SectionIssue → Bool
blocks_draft i = i.blocking && not (is_name i.section)

abbrev pub fails_blocking : Check → Bool
fails_blocking c = c.blocking && not c.passed

abbrev is_hysteresis : CheckId → Bool
is_hysteresis hysteresis = true
is_hysteresis _ = false

-- The hysteresis check, when it fails.
abbrev pub warns_hysteresis : Check → Bool
warns_hysteresis c = is_hysteresis c.id && not c.passed

any-turns_back :
    {N : Type 0} (xs : List (ActionDraft N)) → any turns_back xs ≡ true → any is_actuator xs ≡ true
any-turns_back [] h = cc
any-turns_back (actuator a ∷ xs) h = refl
any-turns_back (email e ∷ xs) h = any-turns_back xs h
any-turns_back (webhook w ∷ xs) h = any-turns_back xs h
any-turns_back (notification n ∷ xs) h = any-turns_back xs h

keep_of_any :
    {A : Type 0} (p : A → Bool) (xs : List A) → any p xs ≡ true → no_items (keep p xs) ≡ false
keep_of_any p [] h = cc
keep_of_any p (x ∷ xs) h = ground (arith, keep_of_any p xs)

is_some-or_else : {A : Type 0} (a b : Option A) → is_some (or_else a b) ≡ (is_some a || is_some b)
is_some-or_else none b = refl
is_some-or_else (some a) b = refl

is_some-problem_if : (b : Bool) (m : String) → is_some (problem_if b m) ≡ b
is_some-problem_if true m = refl
is_some-problem_if false m = refl

any-issue_if :
    (b : Bool) (s : RuleSection) (m : String) (k : Bool)
    → any blocks_draft (issue_if b s m k) ≡ (b && k && not (is_name s))
any-issue_if true s m k = ground arith
any-issue_if false s m k = refl

any-name_issue : (b : Bool) (m : String) → any blocks_draft (issue_if b name m true) ≡ false
any-name_issue true m = refl
any-name_issue false m = refl

any-issues_of :
    {A : Type 0} (s : RuleSection) (f : A → Option String) (xs : List A)
    → is_name s ≡ false
    → any blocks_draft (issues_of s f xs) ≡ is_some (first_some f xs)
unfolding issues_of
any-issues_of s f [] h = refl
any-issues_of s f (x ∷ xs) h = ground (arith, any-issues_of s f xs)

module _ {N : Type 0} (𝓝 : Numbers N) (𝓙 : JsonText N) (d : RuleDraft N) where
  any-when_issues :
      any blocks_draft (when_issues 𝓝 𝓙 d) ≡ (no_schedule d.trigger || no_device d.trigger)
  unfolding when_issues
  any-when_issues = ground arith

  any-if_issues : any blocks_draft (if_issues 𝓝 𝓙 d) ≡ (
      (is_null d.condition && is_reading_rule d)
      || is_some (first_some contact_problem (contacts d.condition)))
  unfolding if_issues
  any-if_issues =
      simp (any-append, any-issue_if)
        (ground (arith, any-issues_of if_part contact_problem (contacts d.condition)))

  any-then_issues :
      any blocks_draft (then_issues 𝓝 𝓙 d)
      ≡ (no_action d || is_some (first_some (action_problem 𝓙) d.actions))
  unfolding then_issues
  any-then_issues =
      simp (any-append, any-issue_if)
        (ground (arith, any-issues_of then_part (action_problem 𝓙) d.actions))

  any-behaviour_issues : any blocks_draft (behaviour_issues 𝓝 𝓙 d) ≡ no_clear_message d
  unfolding behaviour_issues
  any-behaviour_issues = simp (any-append, any-issue_if) (ground arith)

  any-section_issues : any blocks_draft (section_issues 𝓝 𝓙 d) ≡ is_some (validate_draft 𝓙 d)
  unfolding section_issues validate_draft
  any-section_issues =
      simp
        (
          any-append, any-when_issues, any-if_issues, any-then_issues, any-behaviour_issues,
          any-name_issue, is_some-or_else, is_some-problem_if,
        )
        (ground arith)

  -- The workbench lists a blocking issue outside the Name section exactly when `validateDraft` finds
  -- a problem with the draft.
  pub section_issues-validate_draft :
      (any blocks_draft (section_issues 𝓝 𝓙 d) ≡ false) ↔ (validate_draft 𝓙 d ≡ none)
  section_issues-validate_draft = ground (arith, any-section_issues)

  any-rule_checks : any fails_blocking (rule_checks 𝓝 𝓙 d) ≡ (
      (is_reading_rule d && is_null d.condition)
      || is_some (first_some contact_problem (contacts d.condition))
      || no_action d
      || is_some (first_some (action_problem 𝓙) d.actions))
  unfolding rule_checks
  any-rule_checks = simp any-append (ground arith)

  -- A blocking check fails exactly when the If or the Then section lists a blocking issue.
  pub rule_checks-section_issues :
      any fails_blocking (rule_checks 𝓝 𝓙 d)
      ≡ (any blocks_draft (if_issues 𝓝 𝓙 d) || any blocks_draft (then_issues 𝓝 𝓙 d))
  rule_checks-section_issues = simp (any-rule_checks, any-if_issues, any-then_issues) (ground arith)

  -- A draft that risks flapping always shows the hysteresis warning: the workbench warns whenever
  -- `flappingRisk` says so.
  pub flapping_risk-warns :
      flapping_risk 𝓝 d ≡ true → any warns_hysteresis (rule_checks 𝓝 𝓙 d) ≡ true
  unfolding flapping_risk rule_checks can_clear switches_hardware
  flapping_risk-warns h =
      simp any-append
        (ground (arith, any-turns_back d.actions, keep_of_any (is_bare 𝓝) (contacts d.condition)))
