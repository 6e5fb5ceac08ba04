-- ===== src/Hardware/Checks/Channels.antt =====
-- The channels of a binding in `validateHardware`, and the rows that they feed or drive.
use Prim.Native.String.{◌++◌}
use iot_saas.Prelude.{
  ℕ, String, Bool, true, false, not, ◌&&◌, Option, none, some, List, [], ◌∷◌, find, str_eq,
  if◌then◌else◌,
}
use iot_saas.Prelude.Text.{drop_prefix, is_empty}
use iot_saas.Live.Maps.{store, lookup}
use iot_saas.Hardware.Catalog.{DriverChannelSpec, ValueType}
use iot_saas.Hardware.Draft.{Side, inputs, outputs, BindingDraft}
use iot_saas.Hardware.Saving.{KeyedRow}
use iot_saas.Hardware.Checks.{
  Errors, Warnings, HardwareProblem, HardwareWarning, put_if, binding_path,
}

-- What the channels of a list of bindings have met: the rows that are fed, and the messages.
pub record Fed : Type 0 where
  pub fed : List (String × ℕ)
  pub errors : Errors
  pub warnings : Warnings

abbrev pub row_label : KeyedRow → String
row_label row = if is_empty row.name then row.key else row.name

abbrev value_type_name : ValueType → String
value_type_name ValueType.float = "float"
value_type_name ValueType.bool = "bool"
value_type_name ValueType.string = "string"

abbrev is_switch : Option ValueType → Bool
is_switch (some ValueType.bool) = true
is_switch _ = false

abbrev other_value : Option ValueType → String → Bool
other_value none type = false
other_value (some t) type = not (str_eq type (value_type_name t))

-- The warning of a channel that feeds or drives a row of another type.
abbrev warn_type : Side → DriverChannelSpec → KeyedRow → String → Warnings → Warnings
warn_type inputs ch row path w =
    put_if (is_switch ch.data_type && not (str_eq row.type "bool")) path
      (HardwareWarning.reads_switch (row_label row)) w
warn_type outputs ch row path w =
    put_if (other_value ch.value_type row.type) path (HardwareWarning.other_type (row_label row)) w

abbrev pub removed_problem : Side → Option String → HardwareProblem
removed_problem side none = HardwareProblem.row_removed side
removed_problem side (some key) = HardwareProblem.missing_key key side

abbrev pub feed_row : Side → ℕ → DriverChannelSpec → String → KeyedRow → Option ℕ → Fed → Fed
feed_row side i ch path row (some j) f = record f {
  errors = store path (HardwareProblem.row_taken (row_label row) side j) f.errors;
}
feed_row side i ch path row none f = record {
  fed = store row.uid i f.fed;
  errors = f.errors;
  warnings = warn_type side ch row path f.warnings;
}

abbrev pub feed : Side → ℕ → DriverChannelSpec → String → String → Option KeyedRow → Fed → Fed
feed side i ch path ref none f = record f {
  errors = store path (removed_problem side (drop_prefix "key:" ref)) f.errors;
}
feed side i ch path ref (some row) f = feed_row side i ch path row (lookup row.uid f.fed) f

module _ {N : Type 0} where
  -- `b.channels[key]`; a missing one is as the empty one
  abbrev pub channel_of : String → BindingDraft N → String
  channel_of key b = elim (lookup key b.channels) [ none ↦ "" | some ref ↦ ref ]

  -- The loop over the channels of a binding.
  unfoldable pub check_channels :
      Side → ℕ → List KeyedRow → BindingDraft N → List DriverChannelSpec → Fed → Fed
  check_channels side i rows b [] f = f
  check_channels side i rows b (ch ∷ cs) f =
      let ref = channel_of ch.key b in
      let skipped = check_channels side i rows b cs f in
      let fed = check_channels side i rows b cs (
        feed side i ch (binding_path side i ++ ("channels." ++ ch.key)) ref
          (find (λ r. str_eq r.uid ref) rows) f) in
      if is_empty ref then skipped else fed
