-- ===== src/Units.antt =====
-- The catalog of measurement units (packages/shared/src/units.ts): its table in two halves, the label of a
-- unit and the search. `toLowerCase` is the runtime's: a parameter.
pub mod Catalog
pub mod Naming
mod Quantities
mod Fields
mod Tests
use iot_saas.Prelude.{List, ◌++◌}
use iot_saas.Units.Catalog.{UnitCategory}
use iot_saas.Units.Quantities.{quantity_categories}
use iot_saas.Units.Fields.{field_categories}

abbrev pub unit_categories : List UnitCategory
unit_categories = quantity_categories ++ field_categories
