-- ===== src/Hardware/Saving.antt =====
-- The wiring from and to the API's HardwareConfig (frontend/src/lib/hardware/hardware-draft.ts).
use Prim.Native.String
use iot_saas.Prelude.{
  ℕ, suc, String, ◌≡◌, refl, Option, none, some, List, [], ◌∷◌, map, find, str_eq, if◌then◌else◌,
}
use iot_saas.Prelude.Text.{drop_prefix, drop_prefix-append, trim, is_empty}
use iot_saas.Hardware.Pins.{I2cPins}
use iot_saas.Hardware.Catalog.{
  ParamType, ParamValue, number, text, DriverSpec, DriverParamSpec, find_driver,
}
use iot_saas.Hardware.Draft.{BindingDraft, HardwareDraft}

pub record KeyedRow : Type 0 where
  pub uid : String
  pub key : String
  pub name : String
  pub type : String

pub record Rows : Type 0 where
  pub metrics : List KeyedRow
  pub actuators : List KeyedRow

-- HardwareBinding and HardwareConfig as the API sends them; absent records are empty.
pub record HardwareBinding (N : Type 0) : Type 0 where
  pub driver : String
  pub pins : List (String × ℕ)
  pub params : List (String × ParamValue N)
  pub channels : List (String × String)

pub record HardwareConfig (N : Type 0) : Type 0 where
  pub board : String
  pub i2c : Option I2cPins
  pub inputs : List (HardwareBinding N)
  pub outputs : List (HardwareBinding N)

-- `${MISSING}${key}`, a saved key that the draft no longer has
abbrev missing_ref : String → String
missing_ref key = String.◌++◌ "key:" key

abbrev uid_or_missing : String → Option KeyedRow → String
uid_or_missing key none = missing_ref key
uid_or_missing key (some r) = r.uid

unfoldable pub by_key : List KeyedRow → String → String
by_key rows key = uid_or_missing key (find (λ r. str_eq r.key key) rows)

abbrev key_or_empty : Option KeyedRow → String
key_or_empty none = ""
key_or_empty (some r) = trim r.key

abbrev key_for : List KeyedRow → String → Option String → String
key_for rows ref (some key) = key
key_for rows ref none = key_or_empty (find (λ r. str_eq r.uid ref) rows)

unfoldable pub key_of : List KeyedRow → String → String
key_of rows ref = key_for rows ref (drop_prefix "key:" ref)

-- A saved key that no row has is kept when the wiring is loaded and saved.
pub key_of-by_key_missing :
    (rows : List KeyedRow) (key : String)
    → find (λ r. str_eq r.key key) rows ≡ none
    → key_of rows (by_key rows key) ≡ key
unfolding key_of by_key
key_of-by_key_missing rows key h = rw (h, drop_prefix-append "key:" key) refl

module _ {N : Type 0} where
  -- `fresh k` is the k-th uid.
  unfoldable pub binding_to_draft : String → List KeyedRow → HardwareBinding N → BindingDraft N
  binding_to_draft uid rows b = record {
    uid = uid;
    driver = b.driver;
    pins = map (λ e. (e.0, some e.1)) b.pins;
    params = b.params;
    channels = map (λ e. (e.0, by_key rows e.1)) b.channels;
    proposed = none;
  }

  abbrev bindings_to_draft :
      (ℕ → String) → ℕ → List KeyedRow → List (HardwareBinding N) → List (BindingDraft N)
  bindings_to_draft fresh k rows [] = []
  bindings_to_draft fresh k rows (b ∷ bs) =
      binding_to_draft (fresh k) rows b ∷ bindings_to_draft fresh (suc k) rows bs

  abbrev count_of : List (HardwareBinding N) → ℕ
  count_of [] = 0
  count_of (b ∷ bs) = suc (count_of bs)

  unfoldable pub hardware_to_draft :
      (ℕ → String) → Option (HardwareConfig N) → Rows → Option (HardwareDraft N)
  unfolding binding_to_draft
  hardware_to_draft fresh none rows = none
  hardware_to_draft fresh (some h) rows = some (record {
    board = h.board;
    i2c = h.i2c;
    inputs = bindings_to_draft fresh 0 rows.metrics h.inputs;
    outputs = bindings_to_draft fresh (count_of h.inputs) rows.actuators h.outputs;
  })

  -- `parseInt(text, 10)` and `Number(text)` are parameters.
  module _ (parse_int of_text : String → N) where
    abbrev typed_text : String → Option ParamType → Option (ParamValue N)
    typed_text t none = some (text t)
    typed_text t (some ParamType.enum) = some (text t)
    typed_text t (some ParamType.int) =
        if is_empty (trim t) then none else some (number (parse_int t))
    typed_text t (some _) = if is_empty (trim t) then none else some (number (of_text t))

    unfoldable pub param_value : ParamValue N → Option ParamType → Option (ParamValue N)
    param_value (text t) type = typed_text t type
    param_value v type = some v

    abbrev type_of_param : Option (DriverParamSpec N) → Option ParamType
    type_of_param none = none
    type_of_param (some p) = some p.type

    abbrev params_of_spec : Option (DriverSpec N) → List (DriverParamSpec N)
    params_of_spec none = []
    params_of_spec (some spec) = spec.params

    abbrev add_entry : {A : Type 0} → String → Option A → List (String × A) → List (String × A)
    add_entry k none es = es
    add_entry k (some v) es = (k, v) ∷ es

    unfoldable pub saved_params :
        List (DriverParamSpec N) → List (String × ParamValue N) → List (String × ParamValue N)
    unfolding param_value
    saved_params specs [] = []
    saved_params specs ((key, value) ∷ ps) =
        add_entry key (param_value value (type_of_param (find (λ p. str_eq p.key key) specs)))
          (saved_params specs ps)

    abbrev non_empty : String → Option String
    non_empty key = if is_empty key then none else some key

    unfoldable pub saved_channels : List KeyedRow → List (String × String) → List (String × String)
    unfolding key_of
    saved_channels rows [] = []
    saved_channels rows ((ch, ref) ∷ cs) =
        add_entry ch (if is_empty ref then none else non_empty (key_of rows ref))
          (saved_channels rows cs)

    unfoldable pub saved_pins : List (String × Option ℕ) → List (String × ℕ)
    saved_pins [] = []
    saved_pins ((role, pin) ∷ ps) = add_entry role pin (saved_pins ps)

    unfoldable pub binding_to_request :
        List (DriverSpec N) → List KeyedRow → BindingDraft N → HardwareBinding N
    unfolding saved_params saved_channels saved_pins
    binding_to_request drivers rows b = record {
      driver = b.driver;
      pins = saved_pins b.pins;
      params = saved_params (params_of_spec (find_driver drivers b.driver)) b.params;
      channels = saved_channels rows b.channels;
    }

    unfoldable pub hardware_to_request :
        Option (HardwareDraft N) → Rows → List (DriverSpec N) → Option (HardwareConfig N)
    unfolding binding_to_request
    hardware_to_request none rows drivers = none
    hardware_to_request (some h) rows drivers = some (record {
      board = h.board;
      i2c = h.i2c;
      inputs = map (binding_to_request drivers rows.metrics) h.inputs;
      outputs = map (binding_to_request drivers rows.actuators) h.outputs;
    })
