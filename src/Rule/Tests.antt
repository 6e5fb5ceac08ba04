-- ===== src/Rule/Tests.antt =====
-- The checks and the request of a concrete draft.
use iot_saas.Prelude.Text.{is_space, trim}
use iot_saas.Rule.Tree.{contacts, contacts_of}
use iot_saas.Rule.Action.{action_problem}
use iot_saas.Prelude.{ℕ, ◌≡◌, ◌↔◌, ◌||◌, ◌+◌, refl, none, some, false, length, any, arith}
use iot_saas.Rule.Condition.{ConditionNode}
use iot_saas.Rule.Condition.Saving.{depth}
use iot_saas.Rule.Model.{can_clear, is_reading_rule, RuleRequest}
use iot_saas.Rule.Validation.{contact_problem, validate_draft}
use iot_saas.Rule.Preview.{section_issues, rule_checks, if_issues, then_issues}
use iot_saas.Rule.Preview.Agreement.{
  blocks_draft, fails_blocking, section_issues-validate_draft, rule_checks-section_issues,
}
use iot_saas.Rule.Request.{draft_to_request}
use iot_saas.Rule.Request.Sound.{draft_to_request_of_valid, request-condition_of_valid}
use iot_saas.Samples.{naturals, json_text, fan_rule, and_or-IsNormal}

fan_rule_valid : validate_draft json_text fan_rule ≡ none
unfolding validate_draft contact_problem action_problem contacts can_clear is_reading_rule
    contacts_of trim is_space
fan_rule_valid = refl

draft_to_request_of_valid_example :
    (r : RuleRequest ℕ) × (draft_to_request naturals json_text 4 fan_rule ≡ some r)
    × (length r.actions ≡ length fan_rule.actions + length fan_rule.preserved.actions)
draft_to_request_of_valid_example =
    draft_to_request_of_valid naturals json_text 4 fan_rule fan_rule_valid

request-condition_of_valid_example :
    (r : RuleRequest ℕ) × (draft_to_request naturals json_text 4 fan_rule ≡ some r)
    × (c : ConditionNode ℕ) × (r.condition ≡ some (some c))
unfolding depth is_reading_rule
request-condition_of_valid_example =
    request-condition_of_valid naturals json_text 4 fan_rule fan_rule_valid refl and_or-IsNormal
      (omega arith)

section_issues-validate_draft_example :
    (any blocks_draft (section_issues naturals json_text fan_rule) ≡ false)
    ↔ (validate_draft json_text fan_rule ≡ none)
section_issues-validate_draft_example = section_issues-validate_draft naturals json_text fan_rule

rule_checks-section_issues_example :
    any fails_blocking (rule_checks naturals json_text fan_rule) ≡ (
      any blocks_draft (if_issues naturals json_text fan_rule)
      || any blocks_draft (then_issues naturals json_text fan_rule))
rule_checks-section_issues_example = rule_checks-section_issues naturals json_text fan_rule
