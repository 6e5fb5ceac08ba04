-- ===== src/Rule/Condition/Tests.antt =====
-- A condition saved, and one loaded and saved, on concrete trees.
use iot_saas.Prelude.Text.{is_space}
use iot_saas.Rule.Condition.Leaf.{Readable}
use iot_saas.Prelude.{refl, ℕ, String, ◌≡◌, some, arith}
use iot_saas.Rule.Tree.{normalize}
use iot_saas.Rule.Condition.{operator_arity, condition_from, node_from}
use iot_saas.Rule.Condition.Saving.{condition_of_tree, condition_from-normalize, depth}
use iot_saas.Rule.Condition.Loading.{IsStored, filled, levels, load-save}
use iot_saas.Samples.{naturals, stored, untidy}

abbrev fresh_id : ℕ → String
fresh_id k = "fresh"

condition_from-normalize_example :
    condition_from naturals 5 (some untidy)
    ≡ some (condition_of_tree naturals (normalize (some untidy)))
unfolding depth
condition_from-normalize_example = condition_from-normalize naturals 5 (some untidy) (omega arith)

thirty-Readable : Readable naturals 30
unfolding is_space
thirty-Readable = record {
  plain = (refl, refl, (refl, refl, tt));
  filled = refl;
  back = refl;
  no_nan = refl;
}

stored-IsStored : IsStored naturals stored
unfolding IsStored operator_arity
stored-IsStored = (
  tt,
  (
    record { rhs = tt; hysteresis = λ _. refl },
    tt,
    (record { rhs = (thirty-Readable, (thirty-Readable, tt)); hysteresis = λ _. refl }, tt, tt),
  ),
)

load-save_example :
    condition_from naturals 3 (some (node_from naturals fresh_id stored 0).0)
    ≡ some (some (filled naturals stored))
unfolding levels
load-save_example = load-save naturals fresh_id 3 stored 0 stored-IsStored (omega arith)
