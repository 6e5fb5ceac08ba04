-- ===== src/Hardware/Checks/Safe.antt =====
-- What the checks of one binding say where they put no error.
use Prim.Native.String
use iot_saas.Prelude.{
  str_eq, ℕ, String, true, false, not, ◌&&◌, ◌≡◌, refl, Option, none, some, List, [], ◌∷◌, All,
  find, if_both, arith,
}
use iot_saas.Prelude.Text.{is_empty, drop_prefix}
use iot_saas.Live.Maps.{store, lookup}
use iot_saas.Hardware.Pins.{has_internal_pull, BoardModel, PinNeed, pin_problem}
use iot_saas.Hardware.Catalog.{
  DriverSpec, DriverPinSpec, DriverChannelSpec, HardwareCatalog, runs_on,
}
use iot_saas.Hardware.Draft.{Side, BindingDraft}
use iot_saas.Hardware.Saving.{KeyedRow}
use iot_saas.Hardware.Checks.{Errors, HardwareProblem, put_if, binding_path}
use iot_saas.Hardware.Checks.Wiring.{Met, meet, put_address}
use iot_saas.Hardware.Checks.Channels.{
  Fed, check_channels, feed, feed_row, removed_problem, row_label, channel_of,
}
use iot_saas.Hardware.Checks.Binding.{
  is_pull, check_driver, check_roles, check_pin, check_pull, put_problem, pin_of, wrong_side,
}
use iot_saas.Hardware.Checks.Pins.{no_store, put_if-empty, put_new-empty}

pub meet-empty :
    (o : Option String) (side : Side) (i : ℕ) (m : Met) → (meet o side i m).1 ≡ [] → m.1 ≡ []
meet-empty none side i m h = h
meet-empty (some address) side i m h = go (lookup address m.0) h
  where
    go : (o : Option (Side × ℕ)) → (put_address o address side i m).1 ≡ [] → m.1 ≡ []
    go none q = q
    go (some other) q =
        no_store (String.◌++◌ (binding_path side i) "params.address")
          (HardwareProblem.address_used address other.0 other.1) m.1 q

feed_row-empty :
    (side : Side) (i : ℕ) (ch : DriverChannelSpec) (path : String) (row : KeyedRow) (o : Option ℕ)
    (f : Fed)
    → (feed_row side i ch path row o f).errors ≡ []
    → f.errors ≡ []
feed_row-empty side i ch path row none f h = h
feed_row-empty side i ch path row (some j) f h =
    no_store path (HardwareProblem.row_taken (row_label row) side j) f.errors h

feed-empty :
    (side : Side) (i : ℕ) (ch : DriverChannelSpec) (path ref : String) (row : Option KeyedRow)
    (f : Fed)
    → (feed side i ch path ref row f).errors ≡ []
    → f.errors ≡ []
feed-empty side i ch path ref none f h =
    no_store path (removed_problem side (drop_prefix "key:" ref)) f.errors h
feed-empty side i ch path ref (some row) f h =
    feed_row-empty side i ch path row (lookup row.uid f.fed) f h

-- On a known board, a pin suits its role; else there is no board to suit.
abbrev pub PinSuits : Option BoardModel → PinNeed → ℕ → Type 0
PinSuits none needs pin = Unit
PinSuits (some model) needs pin = pin_problem model needs pin ≡ none

-- A role has a pin, and the pin suits it.
abbrev pub RoleSuits : Option BoardModel → List (String × Option ℕ) → DriverPinSpec → Type 0
RoleSuits model pins p = (pin : ℕ) × (pin_of p.role pins ≡ some pin) × PinSuits model p.needs pin

check_pin-empty :
    (model : Option BoardModel) (p : DriverPinSpec) (path : String) (o : Option ℕ) (e : Errors)
    → check_pin model p path o e ≡ []
    → ((pin : ℕ) × (o ≡ some pin) × PinSuits model p.needs pin) × (e ≡ [])
check_pin-empty model p path none e h = no_store path HardwareProblem.no_pin e h
check_pin-empty none p path (some pin) e h = ((pin, refl, tt), h)
check_pin-empty (some model) p path (some pin) e h =
    let (k, q) = put_new-empty path (pin_problem model p.needs pin) e h in ((pin, refl, k), q)

pub check_roles-empty :
    (model : Option BoardModel) (path : String) (pins : List (String × Option ℕ))
    (ps : List DriverPinSpec) (e : Errors)
    → check_roles model path pins ps e ≡ []
    → All (RoleSuits model pins) ps × (e ≡ [])
unfolding check_roles
check_roles-empty model path pins [] e h = (tt, h)
check_roles-empty model path pins (p ∷ ps) e h =
    let at = String.◌++◌ path (String.◌++◌ "pins." p.role) in
    let first = check_pin model p at (pin_of p.role pins) e in
    let (ks, q) = check_roles-empty model path pins ps first h in
    let (k, r) = check_pin-empty model p at (pin_of p.role pins) e q in ((k, ks), r)

module _ {N : Type 0} where
  -- The driver of a binding is in the catalog, of its kind, and in the board's firmware.
  abbrev pub DriverFits :
      Option (HardwareCatalog N) → Option (DriverSpec N) → Option BoardModel → Side → Type 0
  DriverFits none none model side = Unit
  DriverFits (some c) none model side = ⊥
  DriverFits catalog (some spec) none side = wrong_side side spec.kind ≡ false
  DriverFits catalog (some spec) (some model) side =
      (wrong_side side spec.kind ≡ false) × (runs_on spec (some model) ≡ true)

  pub check_driver-empty :
      (catalog : Option (HardwareCatalog N)) (spec : Option (DriverSpec N))
      (model : Option BoardModel) (side : Side) (id path : String) (e : Errors)
      → check_driver catalog spec model side id path e ≡ []
      → DriverFits catalog spec model side × (e ≡ [])
  unfolding check_driver
  check_driver-empty none none model side id path e h = (tt, h)
  check_driver-empty (some c) none model side id path e h =
      no_store path (HardwareProblem.no_driver id) e h
  check_driver-empty catalog (some spec) none side id path e h =
      put_if-empty (wrong_side side spec.kind) path
        (HardwareProblem.wrong_kind spec.label spec.kind) e h
  check_driver-empty catalog (some spec) (some model) side id path e h =
      let wrong = HardwareProblem.wrong_kind spec.label spec.kind in
      let rest =
        put_if (not (runs_on spec (some model))) path
          (HardwareProblem.not_in_firmware model.label spec.label) e in
      if_both
        (λ o.
          o ≡ []
          → ((wrong_side side spec.kind ≡ false) × (runs_on spec (some model) ≡ true)) × (e ≡ []))
        (wrong_side side spec.kind) (store path wrong e) rest (λ k q. no_store path wrong e q)
        (λ k q.
          let (a, b) =
            put_if-empty (not (runs_on spec (some model))) path
              (HardwareProblem.not_in_firmware model.label spec.label) e q in
          ((k, ground arith), b))
        h

  pub check_channels-empty :
      (side : Side) (i : ℕ) (rows : List KeyedRow) (b : BindingDraft N)
      (cs : List DriverChannelSpec) (f : Fed)
      → (check_channels side i rows b cs f).errors ≡ []
      → f.errors ≡ []
  unfolding check_channels
  check_channels-empty side i rows b [] f h = h
  check_channels-empty side i rows b (ch ∷ cs) f h =
      let ref = channel_of ch.key b in
      let path = String.◌++◌ (binding_path side i) (String.◌++◌ "channels." ch.key) in
      let row = find (λ r. str_eq r.uid ref) rows in
      let next = feed side i ch path ref row f in
      if_both (λ (o : Fed). o.errors ≡ [] → f.errors ≡ []) (is_empty ref)
        (check_channels side i rows b cs f) (check_channels side i rows b cs next)
        (λ k q. check_channels-empty side i rows b cs f q)
        (λ k q. feed-empty side i ch path ref row f (check_channels-empty side i rows b cs next q))
        h

  pub check_pull-empty :
      (model : Option BoardModel) (b : BindingDraft N) (path : String) (pin : Option ℕ) (e : Errors)
      → check_pull model b path pin e ≡ []
      → e ≡ []
  check_pull-empty none b path pin e h = h
  check_pull-empty (some model) b path none e h = h
  check_pull-empty (some model) b path (some pin) e h =
      (put_if-empty (is_pull (lookup "pull" b.params) && not (has_internal_pull model.chip pin))
        (String.◌++◌ path "params.pull") (HardwareProblem.no_pull pin) e h).1

pub put_problem-empty :
    (path : String) (o : Option HardwareProblem) (e : Errors) → put_problem path o e ≡ [] → e ≡ []
put_problem-empty path none e h = h
put_problem-empty path (some problem) e h = no_store path problem e h
