-- ===== src/Units/Quantities.antt =====
-- The catalog of units, from temperature to pressure (packages/shared/src/units.ts).
use iot_saas.Prelude.{List, [], ◌∷◌}
use iot_saas.Units.Catalog.{UnitCategory, units_of}

abbrev pub quantity_categories : List UnitCategory
quantity_categories =
    record {
      category = "Temperature";
      units =
          units_of
            (("°C", "Celsius") ∷ ("°F", "Fahrenheit") ∷ ("K", "Kelvin") ∷ ("°R", "Rankine") ∷ []);
    }
    ∷ record {
      category = "Length";
      units = units_of (
          ("µm", "Micrometer")
          ∷ ("mm", "Millimeter")
          ∷ ("cm", "Centimeter")
          ∷ ("m", "Meter")
          ∷ ("km", "Kilometer")
          ∷ ("in", "Inch")
          ∷ ("ft", "Foot")
          ∷ ("yd", "Yard")
          ∷ ("mi", "Mile")
          ∷ ("nmi", "Nautical mile")
          ∷ []);
    }
    ∷ record {
      category = "Area";
      units = units_of (
          ("mm²", "Square millimeter")
          ∷ ("cm²", "Square centimeter")
          ∷ ("m²", "Square meter")
          ∷ ("km²", "Square kilometer")
          ∷ ("ha", "Hectare")
          ∷ ("ac", "Acre")
          ∷ ("ft²", "Square foot")
          ∷ ("yd²", "Square yard")
          ∷ []);
    }
    ∷ record {
      category = "Volume";
      units = units_of (
          ("µL", "Microliter")
          ∷ ("mL", "Milliliter")
          ∷ ("L", "Liter")
          ∷ ("cm³", "Cubic centimeter")
          ∷ ("m³", "Cubic meter")
          ∷ ("gal", "US gallon")
          ∷ ("qt", "US quart")
          ∷ ("pt", "US pint")
          ∷ ("fl oz", "US fluid ounce")
          ∷ ("ft³", "Cubic foot")
          ∷ ("in³", "Cubic inch")
          ∷ []);
    }
    ∷ record {
      category = "Mass";
      units = units_of (
          ("µg", "Microgram")
          ∷ ("mg", "Milligram")
          ∷ ("g", "Gram")
          ∷ ("kg", "Kilogram")
          ∷ ("t", "Metric ton")
          ∷ ("oz", "Ounce")
          ∷ ("lb", "Pound")
          ∷ ("st", "Stone")
          ∷ []);
    }
    ∷ record {
      category = "Time";
      units = units_of (
          ("µs", "Microsecond")
          ∷ ("ms", "Millisecond")
          ∷ ("s", "Second")
          ∷ ("min", "Minute")
          ∷ ("h", "Hour")
          ∷ ("d", "Day")
          ∷ ("wk", "Week")
          ∷ ("mo", "Month")
          ∷ ("yr", "Year")
          ∷ []);
    }
    ∷ record {
      category = "Speed";
      units = units_of (
          ("m/s", "Meters per second")
          ∷ ("km/h", "Kilometers per hour")
          ∷ ("mph", "Miles per hour")
          ∷ ("ft/s", "Feet per second")
          ∷ ("kn", "Knots")
          ∷ ("RPM", "Revolutions per minute")
          ∷ []);
    }
    ∷ record {
      category = "Acceleration";
      units =
          units_of (
            ("m/s²", "Meters per second squared")
            ∷ ("g", "Standard gravity")
            ∷ ("Gal", "Gal")
            ∷ []);
    }
    ∷ record {
      category = "Angle and Rotation";
      units = units_of (
          ("°", "Degree")
          ∷ ("rad", "Radian")
          ∷ ("rev", "Revolution")
          ∷ ("°/s", "Degrees per second")
          ∷ ("rad/s", "Radians per second")
          ∷ ("rad/s²", "Radians per second squared")
          ∷ []);
    }
    ∷ record {
      category = "Electrical";
      units = units_of (
          ("V", "Volt")
          ∷ ("mV", "Millivolt")
          ∷ ("µV", "Microvolt")
          ∷ ("A", "Ampere")
          ∷ ("mA", "Milliampere")
          ∷ ("µA", "Microampere")
          ∷ ("Ω", "Ohm")
          ∷ ("kΩ", "Kiloohm")
          ∷ ("MΩ", "Megaohm")
          ∷ ("S", "Siemens")
          ∷ ("F", "Farad")
          ∷ ("µF", "Microfarad")
          ∷ ("H", "Henry")
          ∷ ("C", "Coulomb")
          ∷ []);
    }
    ∷ record {
      category = "Frequency";
      units = units_of (
          ("Hz", "Hertz")
          ∷ ("kHz", "Kilohertz")
          ∷ ("MHz", "Megahertz")
          ∷ ("GHz", "Gigahertz")
          ∷ []);
    }
    ∷ record {
      category = "Power";
      units = units_of (
          ("W", "Watt")
          ∷ ("mW", "Milliwatt")
          ∷ ("kW", "Kilowatt")
          ∷ ("MW", "Megawatt")
          ∷ ("GW", "Gigawatt")
          ∷ ("VA", "Volt-ampere")
          ∷ ("kVA", "Kilovolt-ampere")
          ∷ ("var", "Reactive power")
          ∷ []);
    }
    ∷ record {
      category = "Energy";
      units = units_of (
          ("J", "Joule")
          ∷ ("kJ", "Kilojoule")
          ∷ ("MJ", "Megajoule")
          ∷ ("Wh", "Watt-hour")
          ∷ ("kWh", "Kilowatt-hour")
          ∷ ("MWh", "Megawatt-hour")
          ∷ ("cal", "Calorie")
          ∷ ("kcal", "Kilocalorie")
          ∷ ("BTU", "British thermal unit")
          ∷ []);
    }
    ∷ []
