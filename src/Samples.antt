-- ===== src/Samples.antt =====
-- Concrete numbers, JSON text and rule trees on which the tests run the models.
use iot_saas.Prelude.{[], true, ◌∷◌, ℕ, String, false, none, some, ltb, leb, str_eq, if◌then◌else◌}
use iot_saas.Prelude.Numbers.{Numbers}
use iot_saas.Prelude.Json.{JsonText, obj, end}
use iot_saas.Rule.Draft.{and, or, static, ContactDraft, DraftNode, contact, group, nil, cons, Patch}
use iot_saas.Rule.Tree.Normal.{IsNormal, IsNormalTree}
use iot_saas.Rule.Condition.{RhsSpec, ConditionLeaf, ConditionNode, leaf, all_of, more}
use iot_saas.Rule.Condition as Condition
use iot_saas.Rule.Action.{ActionDraft, ValueKind, actuator}
use iot_saas.Rule.Model.{RuleDraft, Transition, Behaviour}
use iot_saas.Prelude.{arith}

abbrev pub naturals : Numbers ℕ
naturals = record {
  zero = 0;
  one = 1;
  of_nat = λ n. n;
  of_text = λ t. if str_eq t "30" then 30 else 0;
  to_text = λ n. if ltb n 30 then "0" else "30";
  is_nan = λ n. false;
  lt = ltb;
  le = leb;
}

abbrev pub json_text : JsonText ℕ
json_text = record {
  parse = λ t. if str_eq t "{}" then some (obj end) else none;
  print = λ v. "{}";
  show = λ v. "value";
}

abbrev pub above : String → ℕ → ContactDraft ℕ
above id value = record {
  id = id;
  device_id = "device";
  metric = "temperature";
  operator = ">";
  hysteresis = 0;
  rhs_kind = static;
  value = value;
  low = 0;
  high = 0;
  set_text = "";
  rhs_device_id = "";
  rhs_metric = "";
}

-- a AND (b OR c)
abbrev pub and_or : DraftNode ℕ
and_or = group "root" and (
    cons (contact (above "a" 10)) (
      cons (group "any" or (cons (contact (above "b" 20)) (cons (contact (above "c" 30)) nil)))
        nil))

pub and_or-IsNormal : IsNormalTree (some and_or)
unfolding IsNormal
and_or-IsNormal = ground arith

-- A series inside a series, beside an empty block.
abbrev pub untidy : DraftNode ℕ
untidy = group "root" and (
    cons (group "inner" and (cons and_or (cons (contact (above "d" 40)) nil)))
      (cons (group "empty" or nil) nil))

abbrev pub new_value : Patch ℕ
new_value = record {
  device_id = none;
  metric = none;
  operator = none;
  hysteresis = none;
  rhs_kind = none;
  value = some 99;
  low = none;
  high = none;
  set_text = none;
  rhs_device_id = none;
  rhs_metric = none;
}

abbrev leaf_of : String → RhsSpec ℕ → ConditionNode ℕ
leaf_of operator rhs = leaf (record {
  device_id = some "device";
  metric = "temperature";
  operator = operator;
  rhs = some rhs;
  hysteresis = none;
})

-- A stored condition with a range and a set.
abbrev pub stored : ConditionNode ℕ
stored = all_of or (
    more (leaf_of "between" (RhsSpec.range 3 7))
      (more (leaf_of "in" (RhsSpec.set (30 ∷ 30 ∷ []))) Condition.end))

abbrev pub fan : ActionDraft ℕ
fan = actuator (record {
  id = "action";
  device_id = "device";
  actuator = "fan";
  value_kind = ValueKind.boolean;
  bool = true;
  num = 0;
  text = "";
  revert_on_clear = true;
  clear_bool = none;
  clear_num = 0;
  clear_text = "";
})

abbrev pub fan_rule : RuleDraft ℕ
fan_rule = record {
  name = "Cool";
  enabled = true;
  trigger = record {
    type = "metric";
    cron = "";
    timezone = "UTC";
    status_device_id = "";
    transition = Transition.disconnected;
  };
  condition = some and_or;
  behaviour = Behaviour.rearm;
  for_duration = 0;
  cooldown = 0;
  clear_delay = 0;
  actions = fan ∷ [];
  clear_notify = false;
  clear_message = "";
  preserved = record { strategy = none; reset_condition = none; clear_actions = []; actions = [] };
}
