-- ===== src/Rule/Request/Sound.antt =====
-- What `draftToRequest` sends of a draft that `validateDraft` accepts.
use iot_saas.Prelude.{
  ℕ, suc, ◌+◌, ◌≢◌, ◌<◌, true, ◌≡◌, refl, ap, ◌∙◌, Option, none, some, List, [], ◌∷◌, first_some,
  length, length-append, arith, Option-cases, inl, inr,
}
use iot_saas.Prelude.Numbers.{Numbers}
use iot_saas.Prelude.Json.{JsonText, JsonObject}
use iot_saas.Rule.Draft.{DraftNode}
use iot_saas.Rule.Tree.{normalize}
use iot_saas.Rule.Tree.Normal.{IsNormalTree, normalize_of_IsNormal}
use iot_saas.Rule.Condition.{ConditionNode, condition_from}
use iot_saas.Rule.Condition.Saving.{condition_of, depth_tree, condition_from-normalize}
use iot_saas.Rule.Action.{
  ActionDraft, actuator, email, webhook, notification, action_problem, action_to_api, body_text,
  webhook_to_api,
}
use iot_saas.Rule.Model.{RuleDraft, RuleRequest, is_reading_rule}
use iot_saas.Rule.Request.{actions_to_api, request_with, draft_to_request}
use iot_saas.Rule.Validation.{validate_draft}

module _ {N : Type 0} (𝓙 : JsonText N) where
  action_to_api_of_valid :
      (a : ActionDraft N)
      → action_problem 𝓙 a ≡ none
      → (o : JsonObject N) × (action_to_api 𝓙 a ≡ some o)
  unfolding action_problem action_to_api
  action_to_api_of_valid (actuator a) h = (_, refl)
  action_to_api_of_valid (email e) h = (_, refl)
  action_to_api_of_valid (notification n) h = (_, refl)
  action_to_api_of_valid (webhook w) h = elim (Option-cases (JsonText.parse 𝓙 (body_text w.body))) [
    | inl e ↦ absurd (ground arith)
    | inr (body, e) ↦ (webhook_to_api w body, rw (e, action_to_api) refl)
  ]

  actions_to_api_of_valid :
      (as' : List (ActionDraft N))
      → first_some (action_problem 𝓙) as' ≡ none
      → (os : List (JsonObject N)) × (actions_to_api 𝓙 as' ≡ some os) × (length os ≡ length as')
  unfolding actions_to_api
  actions_to_api_of_valid [] h = ([], refl, refl)
  actions_to_api_of_valid (a ∷ as') h =
      let (o, e) = action_to_api_of_valid a (ground arith) in
      let (os, es, n) = actions_to_api_of_valid as' (ground arith) in
      (o ∷ os, rw (e, es) refl, ap suc n)

  valid_actions :
      (d : RuleDraft N) → validate_draft 𝓙 d ≡ none → first_some (action_problem 𝓙) d.actions ≡ none
  unfolding validate_draft
  valid_actions d h = ground arith

  valid_condition :
      (d : RuleDraft N) → validate_draft 𝓙 d ≡ none → is_reading_rule d ≡ true → d.condition ≢ none
  unfolding validate_draft
  valid_condition d h r e = ground arith

module _ {N : Type 0} (𝓝 : Numbers N) (𝓙 : JsonText N) where
  condition_of_normal :
      (fuel : ℕ) (t : Option (DraftNode N))
      → t ≢ none
      → IsNormalTree t
      → depth_tree t < fuel
      → (c : ConditionNode N) × (condition_from 𝓝 fuel t ≡ some (some c))
  unfolding normalize
  condition_of_normal fuel none h n l = absurd (h refl)
  condition_of_normal fuel (some t) h n l = (
    condition_of 𝓝 t,
    condition_from-normalize 𝓝 fuel (some t) l ∙ rw (normalize_of_IsNormal t n) refl,
  )

  -- A draft that `validateDraft` accepts makes a request and no webhook body throws; it holds one
  -- action for each of the draft's and then the preserved ones.
  pub draft_to_request_of_valid :
      (fuel : ℕ) (d : RuleDraft N)
      → validate_draft 𝓙 d ≡ none
      → (r : RuleRequest N) × (draft_to_request 𝓝 𝓙 fuel d ≡ some r)
        × (length r.actions ≡ length d.actions + length d.preserved.actions)
  unfolding draft_to_request
  draft_to_request_of_valid fuel d h =
      let (os, e, n) = actions_to_api_of_valid 𝓙 d.actions (valid_actions 𝓙 d h) in
      (
        request_with 𝓝 𝓙 fuel d os,
        rw (e, draft_to_request) refl,
        omega (arith, length-append os d.preserved.actions),
      )

  -- Where such a draft runs on readings, its tree is in normal form and the fuel is beyond its
  -- depth, the request's condition is not null.
  pub request-condition_of_valid :
      (fuel : ℕ) (d : RuleDraft N)
      → validate_draft 𝓙 d ≡ none
      → is_reading_rule d ≡ true
      → IsNormalTree d.condition
      → depth_tree d.condition < fuel
      → (r : RuleRequest N) × (draft_to_request 𝓝 𝓙 fuel d ≡ some r)
        × (c : ConditionNode N) × (r.condition ≡ some (some c))
  unfolding draft_to_request
  request-condition_of_valid fuel d h reading normal deep =
      let (os, e, n) = actions_to_api_of_valid 𝓙 d.actions (valid_actions 𝓙 d h) in
      let (c, ec) =
        condition_of_normal fuel d.condition (valid_condition 𝓙 d h reading) normal deep in
      (request_with 𝓝 𝓙 fuel d os, rw (e, draft_to_request) refl, c, ec)
