-- ===== src/Units/Tests.antt =====
-- The labels of concrete units.
use iot_saas.Prelude.{◌≡◌, refl, String, [], ◌∷◌, map, some, first_some}
use iot_saas.Prelude.Text.{trim, is_space}
use iot_saas.Units.{unit_categories}
use iot_saas.Units.Catalog.{
  search_units, search_in, includes, label_of, label_if, unit_label, name_by_symbol, map_onto,
}
use iot_saas.Units.Naming.{name_in, unit_label_lem}

-- Soil moisture and not a level
percent : unit_label unit_categories (some "%") ≡ "% — Soil moisture"
unfolding unit_label label_if name_by_symbol map_onto
percent = refl

-- The first unit of the catalog with this symbol is carbon dioxide.
parts_per_million : unit_label unit_categories (some "ppm") ≡ "ppm — Methane"
unfolding unit_label label_if name_by_symbol map_onto
parts_per_million = refl

unknown : unit_label unit_categories (some "bananas") ≡ "bananas"
unfolding unit_label label_if name_by_symbol map_onto
unknown = refl

found :
    map {B = String} (λ c. c.category) (search_units (λ t. t) unit_categories " Dew ")
    ≡ "Humidity and Moisture" ∷ []
unfolding search_units search_in includes trim is_space
found = refl

unit_label_lem_example :
    unit_label unit_categories (some "ppm")
    ≡ label_of "ppm" (first_some (name_in "ppm") unit_categories)
unit_label_lem_example = unit_label_lem unit_categories "ppm" refl
