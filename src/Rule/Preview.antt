-- ===== src/Rule/Preview.antt =====
-- The checks and issues that the rule workbench shows: `ruleChecks` and `sectionIssues` of
-- frontend/src/lib/rule-preview.ts.
pub mod Agreement
use iot_saas.Prelude.{
  ℕ, String, Bool, true, false, not, ◌&&◌, ◌||◌, Option, none, some, List, [], ◌∷◌, ◌++◌, str_eq,
  if◌then◌else◌, or_else, first_some, any, keep, ltb,
}
use iot_saas.Prelude.Text.{trim, is_empty, utf16_length}
use iot_saas.Prelude.Numbers.{Numbers}
use iot_saas.Prelude.Json.{JsonText}
use iot_saas.Rule.Draft.{ContactDraft, RhsKind}
use iot_saas.Rule.Tree.{contacts}
use iot_saas.Rule.Condition.{Arity, operator_arity, has_hysteresis}
use iot_saas.Rule.Action.{ActionDraft, actuator, action_problem}
use iot_saas.Rule.Model.{WhenDraft, RuleDraft, is_reading_rule, can_clear}
use iot_saas.Rule.Validation.{
  is_null, no_items, contact_problem, no_schedule, no_device, no_action, no_clear_message,
  is_actuator, is_bare, switches_hardware,
}

pub data CheckId : Type 0 where
  conditions actions hold interval hysteresis : CheckId

pub record Check : Type 0 where
  pub id : CheckId
  pub passed : Bool
  pub blocking : Bool
  pub detail : Option String

pub data RuleSection : Type 0 where
  when if_part then_part behaviour name : RuleSection

pub record SectionIssue : Type 0 where
  pub section : RuleSection
  pub message : String
  pub blocking : Bool

abbrev pub min_hold : ℕ
min_hold = 5

abbrev pub min_interval : ℕ
min_interval = 30

abbrev pub max_name : ℕ
max_name = 200

abbrev pub issue_if : Bool → RuleSection → String → Bool → List SectionIssue
issue_if b section message blocking =
    if b then record { section = section; message = message; blocking = blocking } ∷ [] else []

abbrev pub warn_unless : Bool → CheckId → String → Check
warn_unless passed id detail = record {
  id = id;
  passed = passed;
  blocking = false;
  detail = if passed then none else some detail;
}

abbrev pub block_on : CheckId → Option String → Check
block_on id problem = record {
  id = id;
  passed = is_null problem;
  blocking = true;
  detail = problem;
}

-- A loop that adds an issue for every problem that `f` finds.
unfoldable pub issues_of :
    {A : Type 0} → RuleSection → (A → Option String) → List A → List SectionIssue
issues_of section f [] = []
issues_of section f (x ∷ xs) = elim (f x) [
  | some message ↦
      record { section = section; message = message; blocking = true } ∷ issues_of section f xs
  | none ↦ issues_of section f xs
]

module _ {N : Type 0} (𝓝 : Numbers N) (𝓙 : JsonText N) where
  condition_check : RuleDraft N → Option String
  condition_check d =
      if is_reading_rule d && is_null d.condition
      then some "A rule that runs on each reading needs at least one condition."
      else first_some contact_problem (contacts d.condition)

  action_check : RuleDraft N → Option String
  action_check d =
      if no_action d
      then some "Add at least one action."
      else first_some (action_problem 𝓙) d.actions

  hold_check : RuleDraft N → List Check
  hold_check d =
      if is_reading_rule d
      then warn_unless (𝓝.le (𝓝.of_nat min_hold) d.for_duration) hold
          "A single noisy reading could fire it. Hold the condition for a few seconds first."
        ∷ []
      else []

  hysteresis_check : RuleDraft N → List Check
  hysteresis_check d =
      if is_reading_rule d && switches_hardware d
      then warn_unless (no_items (keep (is_bare 𝓝) (contacts d.condition))) hysteresis
          "A reading hovering at the threshold would toggle the relay. Add a margin it must clear first."
        ∷ []
      else []

  unfoldable pub rule_checks : RuleDraft N → List Check
  unfolding condition_check action_check hold_check hysteresis_check
  rule_checks d =
      block_on conditions (condition_check d)
      ∷ block_on actions (action_check d)
      ∷ (hold_check d
          ++ (warn_unless (𝓝.le (𝓝.of_nat min_interval) d.cooldown) interval
                "It could fire again within seconds of the last time."
              ∷ hysteresis_check d))

  unfoldable pub when_issues : RuleDraft N → List SectionIssue
  when_issues d =
      issue_if (no_schedule d.trigger) when "Pick when it runs." true
      ++ issue_if (no_device d.trigger) when "Pick the device to watch." true

  unfoldable pub if_issues : RuleDraft N → List SectionIssue
  if_issues d =
      issue_if (is_reading_rule d && is_null d.condition) if_part
        "A rule that runs on each reading needs at least one condition." true
      ++ (issues_of if_part contact_problem (contacts d.condition)
          ++ issue_if
              (is_reading_rule d && switches_hardware d && any (is_bare 𝓝) (contacts d.condition))
              if_part
              "Add hysteresis to the thresholds so a reading hovering at the line doesn't toggle the relay."
              false)

  unfoldable pub then_issues : RuleDraft N → List SectionIssue
  then_issues d =
      issue_if (no_action d) then_part "Add at least one action." true
      ++ issues_of then_part (action_problem 𝓙) d.actions

  unfoldable pub behaviour_issues : RuleDraft N → List SectionIssue
  behaviour_issues d =
      issue_if (is_reading_rule d && 𝓝.lt d.for_duration (𝓝.of_nat min_hold)) behaviour
        "Hold for at least 5 s so one noisy reading can't fire it." false
      ++ (issue_if (𝓝.lt d.cooldown (𝓝.of_nat min_interval)) behaviour
            "Keep at least 30 s between firings." false
          ++ issue_if (no_clear_message d) behaviour "The clear notification needs a message." true)

  unfoldable pub section_issues : RuleDraft N → List SectionIssue
  section_issues d =
      when_issues d
      ++ (if_issues d
          ++ (then_issues d
              ++ (behaviour_issues d
                  ++ issue_if (ltb max_name (utf16_length (trim d.name))) name
                      "Keep the name to 200 characters." true)))
