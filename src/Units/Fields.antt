-- ===== src/Units/Fields.antt =====
-- The catalog of units, from humidity to computing (packages/shared/src/units.ts).
use iot_saas.Prelude.{List, [], ◌∷◌}
use iot_saas.Units.Catalog.{UnitCategory, units_of}

abbrev pub field_categories : List UnitCategory
field_categories =
    record {
      category = "Pressure";
      units = units_of (
          ("Pa", "Pascal")
          ∷ ("kPa", "Kilopascal")
          ∷ ("MPa", "Megapascal")
          ∷ ("hPa", "Hectopascal")
          ∷ ("bar", "Bar")
          ∷ ("mbar", "Millibar")
          ∷ ("atm", "Standard atmosphere")
          ∷ ("psi", "Pounds per square inch")
          ∷ ("mmHg", "Millimeters of mercury")
          ∷ []);
    }
    ∷ record {
      category = "Humidity and Moisture";
      units = units_of (
          ("%RH", "Relative humidity")
          ∷ ("g/m³", "Absolute humidity")
          ∷ ("g/kg", "Specific humidity")
          ∷ ("°C", "Dew point")
          ∷ ("%", "Soil moisture")
          ∷ ("m³/m³", "Volumetric water content")
          ∷ []);
    }
    ∷ record {
      category = "Light and Radiation";
      units = units_of (
          ("lx", "Illuminance")
          ∷ ("lm", "Luminous flux")
          ∷ ("cd", "Luminous intensity")
          ∷ ("W/m²", "Irradiance")
          ∷ ("UVI", "UV Index")
          ∷ ("Sv", "Radiation dose equivalent")
          ∷ ("µSv/h", "Radiation dose rate")
          ∷ []);
    }
    ∷ record {
      category = "Sound and Acoustics";
      units = units_of (
          ("dB", "Sound pressure level")
          ∷ ("dBA", "A-weighted sound level")
          ∷ ("W/m²", "Sound intensity")
          ∷ []);
    }
    ∷ record {
      category = "Flow";
      units = units_of (
          ("L/min", "Liters per minute")
          ∷ ("L/h", "Liters per hour")
          ∷ ("m³/h", "Cubic meters per hour")
          ∷ ("m³/s", "Cubic meters per second")
          ∷ ("GPM", "Gallons per minute")
          ∷ ("GPH", "Gallons per hour")
          ∷ ("kg/s", "Mass flow rate")
          ∷ []);
    }
    ∷ record {
      category = "Level";
      units = units_of (
          ("%", "Percentage level")
          ∷ ("mm", "Millimeter level")
          ∷ ("cm", "Centimeter level")
          ∷ ("m", "Meter level")
          ∷ []);
    }
    ∷ record {
      category = "Force and Mechanics";
      units = units_of (
          ("N", "Newton")
          ∷ ("kN", "Kilonewton")
          ∷ ("lbf", "Pound-force")
          ∷ ("N·m", "Torque")
          ∷ ("kgf", "Kilogram-force")
          ∷ []);
    }
    ∷ record {
      category = "Vibration";
      units = units_of (
          ("mm/s", "Vibration velocity")
          ∷ ("m/s²", "Vibration acceleration")
          ∷ ("µm", "Vibration displacement")
          ∷ ("g", "Peak acceleration")
          ∷ []);
    }
    ∷ record {
      category = "Air Quality and Gas";
      units = units_of (
          ("ppm", "Carbon dioxide")
          ∷ ("ppm", "Carbon monoxide")
          ∷ ("ppm", "Methane")
          ∷ ("ppb", "Volatile organic compounds")
          ∷ ("µg/m³", "Particulate matter PM1.0")
          ∷ ("µg/m³", "Particulate matter PM2.5")
          ∷ ("µg/m³", "Particulate matter PM10")
          ∷ ("%", "Oxygen concentration")
          ∷ ("ppb", "Ozone concentration")
          ∷ ("ppb", "Nitrogen dioxide")
          ∷ ("AQI", "Air Quality Index")
          ∷ []);
    }
    ∷ record {
      category = "Water Quality";
      units = units_of (
          ("pH", "pH")
          ∷ ("NTU", "Turbidity")
          ∷ ("µS/cm", "Electrical conductivity")
          ∷ ("ppm", "Total dissolved solids")
          ∷ ("PSU", "Salinity")
          ∷ ("mg/L", "Dissolved oxygen")
          ∷ ("mV", "Oxidation reduction potential")
          ∷ []);
    }
    ∷ record {
      category = "Soil and Agriculture";
      units = units_of (
          ("°C", "Soil temperature")
          ∷ ("pH", "Soil pH")
          ∷ ("mS/cm", "Soil conductivity")
          ∷ ("%", "Leaf wetness")
          ∷ ("mm", "Rainfall")
          ∷ ("mm/h", "Rain rate")
          ∷ []);
    }
    ∷ record {
      category = "Location and Navigation";
      units = units_of (
          ("°", "Latitude")
          ∷ ("°", "Longitude")
          ∷ ("m", "Altitude")
          ∷ ("m", "GPS accuracy")
          ∷ ("°", "Heading")
          ∷ ("°", "Bearing")
          ∷ []);
    }
    ∷ record {
      category = "Industrial and Process";
      units = units_of (
          ("%", "Percentage")
          ∷ ("ppm", "Parts per million")
          ∷ ("ppb", "Parts per billion")
          ∷ ("count", "Count")
          ∷ ("pulse", "Pulse")
          ∷ ("event", "Event")
          ∷ ("cycle", "Cycle")
          ∷ ("item", "Item")
          ∷ ("items/min", "Production rate")
          ∷ ("%", "Efficiency")
          ∷ []);
    }
    ∷ record {
      category = "Data and Computing";
      units = units_of (
          ("B", "Byte")
          ∷ ("KB", "Kilobyte")
          ∷ ("MB", "Megabyte")
          ∷ ("GB", "Gigabyte")
          ∷ ("TB", "Terabyte")
          ∷ ("bps", "Bits per second")
          ∷ ("kbps", "Kilobits per second")
          ∷ ("Mbps", "Megabits per second")
          ∷ ("Gbps", "Gigabits per second")
          ∷ ("packet", "Packet")
          ∷ ("%", "Packet loss")
          ∷ ("ms", "Latency")
          ∷ ("%", "CPU utilization")
          ∷ ("%", "Memory utilization")
          ∷ ("dBm", "Signal strength")
          ∷ []);
    }
    ∷ []
