-- ===== src/Dashboard.antt =====
-- The starter dashboard (frontend/src/lib/starter-dashboard.ts): one widget per device, two per row of
-- the grid of twelve columns. `new_id` is the text that the call for the i-th widget returns.
pub mod Starter
pub mod Summary
mod Tests
use iot_saas.Prelude.{
  take, ℕ, zero, suc, ◌+◌, ◌%◌, max, String, Bool, true, false, not, ◌&&◌, Option, none, some, List,
  [], ◌∷◌, find, ltb, ◌==◌, str_eq, if◌then◌else◌,
}
use iot_saas.Names.{wire_id}

-- The fields that are read of DeviceResponse, CatalogMetric and CatalogEntryResponse.
pub record Device : Type 0 where
  pub id : String
  pub catalog_entry_id : String

pub record CatalogMetric : Type 0 where
  pub name : String
  pub key : Option String
  pub data_type : String

pub record CatalogEntry : Type 0 where
  pub id : String
  pub metrics : List CatalogMetric

pub data WidgetType : Type 0 where
  value_card trend_chart device_status actuator_control gauge : WidgetType

pub record Widget : Type 0 where
  pub id : String
  pub type : WidgetType
  pub x : ℕ
  pub y : ℕ
  pub w : ℕ
  pub h : ℕ
  pub device_id : String
  pub metric : Option String

unfoldable pub starter_devices : ℕ
starter_devices = 8

unfoldable pub is_bool_metric : CatalogMetric → Bool
is_bool_metric m = str_eq m.data_type "bool"

abbrev numeric_metric : Option CatalogEntry → Option CatalogMetric
numeric_metric none = none
numeric_metric (some t) = find (λ m. not (is_bool_metric m)) t.metrics

-- the first numeric reading of the device's template
unfoldable pub first_reading : List CatalogEntry → Device → Option CatalogMetric
first_reading templates d = numeric_metric (find (λ t. str_eq t.id d.catalog_entry_id) templates)

abbrev pub height_for : Option CatalogMetric → ℕ
height_for none = 2
height_for (some m) = 4

abbrev type_for : Option CatalogMetric → WidgetType
type_for none = device_status
type_for (some m) = trend_chart

abbrev wire_of : (String → String) → Option CatalogMetric → Option String
wire_of lower none = none
wire_of lower (some m) = some (wire_id lower m.key m.name)

-- `left && i > 0`: a new row begins
abbrev new_row : ℕ → Bool
new_row i = i % 2 == 0 && ltb 0 i

unfoldable pub top_of : ℕ → ℕ → ℕ → ℕ
top_of i y row = if new_row i then y + row else y

unfoldable pub height_before : ℕ → ℕ → ℕ
height_before i row = if new_row i then 0 else row

module _ (lower : String → String) (new_id : ℕ → String) (templates : List CatalogEntry) where
  abbrev pub widget_at : ℕ → ℕ → Bool → Device → Widget
  widget_at i y left d =
      let metric = first_reading templates d in
      record {
        id = new_id i;
        type = type_for metric;
        x = if left then 0 else 6;
        y = y;
        w = 6;
        h = height_for metric;
        device_id = d.id;
        metric = wire_of lower metric;
      }

  -- The loop, from the i-th device on: the top of the current row, and the row's height so far.
  unfoldable pub layout_from : ℕ → ℕ → ℕ → List Device → List Widget
  layout_from i y row [] = []
  layout_from i y row (d ∷ ds) =
      let top = top_of i y row in
      let height = max (height_before i row) (height_for (first_reading templates d)) in
      widget_at i top (i % 2 == 0) d ∷ layout_from (suc i) top height ds

  unfoldable pub starter_layout : List Device → List Widget
  unfolding layout_from starter_devices
  starter_layout devices = layout_from 0 0 0 (take starter_devices devices)
