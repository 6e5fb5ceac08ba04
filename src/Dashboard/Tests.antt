-- ===== src/Dashboard/Tests.antt =====
-- The starter dashboard of concrete devices.
use iot_saas.Prelude.{◌≡◌, refl, ℕ, none, some, List, [], ◌∷◌, map, All, length, min}
use iot_saas.Dashboard.{
  height_before, top_of, Device, CatalogEntry, Widget, starter_layout, layout_from, starter_devices,
  first_reading, is_bool_metric,
}
use iot_saas.Prelude.Text.{join, join_more}
use iot_saas.Prelude.Digits.{decimal, decimal_onto}
use iot_saas.Dashboard.Summary.{widget_summary, count_types, count_one, widget_names}
use iot_saas.Dashboard.Starter.{AreApart, Fits, starter_layout-AreApart}

abbrev devices : List Device
devices =
    record { id = "a"; catalog_entry_id = "relay" }
    ∷ record { id = "b"; catalog_entry_id = "probe" }
    ∷ record { id = "c"; catalog_entry_id = "relay" }
    ∷ []

abbrev templates : List CatalogEntry
templates =
    record {
      id = "probe";
      metrics = record { name = "Heat"; key = some "heat"; data_type = "float" } ∷ [];
    }
    ∷ record { id = "relay"; metrics = record { name = "On"; key = none; data_type = "bool" } ∷ [] }
    ∷ []

abbrev layout : List Widget
layout = starter_layout (λ t. t) (λ i. "id") templates devices

tops : map {B = ℕ × ℕ × ℕ} (λ w. (w.x, w.y, w.h)) layout ≡ (0, 0, 2) ∷ (6, 0, 4) ∷ (0, 4, 2) ∷ []
unfolding starter_layout layout_from starter_devices first_reading is_bool_metric top_of
    height_before
tops = refl

starter_layout-AreApart_example :
    AreApart layout × All Fits layout × (length layout ≡ min 8 (length devices))
starter_layout-AreApart_example = starter_layout-AreApart (λ t. t) (λ i. "id") templates devices

summary : widget_summary layout ≡ "2 status cards · 1 trend chart"
unfolding widget_summary count_types count_one starter_layout layout_from starter_devices
    first_reading is_bool_metric top_of height_before join join_more decimal decimal_onto
    widget_names
summary = refl
