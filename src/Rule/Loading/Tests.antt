-- ===== src/Rule/Loading/Tests.antt =====
-- The clear actions of a concrete rule.
use iot_saas.Prelude.{ℕ, false, [], ◌∷◌, List}
use iot_saas.Prelude.Json.{JsonObject, str, bool}
use iot_saas.Rule.Loading.{Clearing, fold_clears}
use iot_saas.Rule.Loading.Clears.{GoAll, fold_clears-GoAll}
use iot_saas.Samples.{fan}

abbrev clear_commands : List (JsonObject ℕ)
clear_commands =
    (("type", str "actuator_command")
      ∷ ("device_id", str "device")
      ∷ ("actuator", str "fan")
      ∷ ("value", bool false)
      ∷ [])
    ∷ (("type", str "notification") ∷ ("message", str "over") ∷ [])
    ∷ (("type", str "siren") ∷ [])
    ∷ []

abbrev before_clears : Clearing ℕ
before_clears = record { actions = fan ∷ []; notify = false; message = ""; preserved = [] }

fold_clears-GoAll_example :
    GoAll clear_commands before_clears (fold_clears clear_commands before_clears)
fold_clears-GoAll_example = fold_clears-GoAll clear_commands before_clears
