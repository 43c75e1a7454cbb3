-- ===== src/Controller/Carbon.antt =====
-- keck-controller/src/carbon/mod.rs. `endpoint` and `region` are what the environment says, `seconds`
-- is the interval as `as_secs_f64` gives it, `wall` the clock. The source's text is kept as a value.
use keck.Base.{ℕ, String, Bool, false, Option, none, some}
use keck.Base.Float.{Float64}

-- Where an intensity comes from.
pub data IntensitySource : Type 0 where
  static_default : IntensitySource
  static_configured : String → IntensitySource

pub record CarbonIntensity {ℓ} (F : Type ℓ) : Type ℓ where
  pub grams_co2_per_kwh : F
  pub source : IntensitySource
  pub region : String
  pub timestamp : ℕ
  pub is_forecast : Bool

pub record EnergyCost {ℓ} (F : Type ℓ) : Type ℓ where
  pub currency : String
  pub cost_per_kwh : F
  pub region : String

pub record CarbonReport {ℓ} (F : Type ℓ) : Type ℓ where
  pub power_watts : F
  pub energy_wh : F
  pub carbon_grams : F
  pub carbon_kg_per_year : F
  pub cost : F
  pub cost_per_year : F
  pub intensity : CarbonIntensity F
  pub energy_cost : EnergyCost F

pub record CarbonTracker {ℓ} (F : Type ℓ) : Type ℓ where
  pub current_intensity : Option (CarbonIntensity F)
  pub current_cost : EnergyCost F
  pub api_endpoint : Option String
  pub region : String
  pub refresh_interval : ℕ

abbrev source_for : Option String → IntensitySource
source_for none = static_default
source_for (some endpoint) = static_configured endpoint

module _ {ℓ} {F : Type ℓ} ⦃f : Float64 F⦄ where
  unfoldable pub new_tracker : Option String → Option String → CarbonTracker F
  new_tracker endpoint region = record {
    current_intensity = none;
    current_cost = record { currency = "USD"; cost_per_kwh = f.lit 10 2; region = "default" };
    api_endpoint = endpoint;
    region = elim region [ none ↦ "unknown" | some r ↦ r ];
    refresh_interval = 300;
  }

  abbrev pub report_with : ℕ → F → CarbonIntensity F → EnergyCost F → CarbonReport F
  report_with power_uw seconds i c =
      let power_watts = f.div (f.of_u64 power_uw) (f.lit 1000000 0) in
      let energy_wh = f.mul power_watts (f.div seconds (f.lit 3600 0)) in
      let energy_kwh = f.div energy_wh (f.lit 1000 0) in
      let carbon_grams = f.mul energy_kwh i.grams_co2_per_kwh in
      let cost = f.mul energy_kwh c.cost_per_kwh in
      let per_year = f.div (f.mul (f.mul (f.lit 36525 2) (f.lit 24 0)) (f.lit 3600 0)) seconds in
      record {
        power_watts = power_watts;
        energy_wh = energy_wh;
        carbon_grams = carbon_grams;
        carbon_kg_per_year = f.div (f.mul carbon_grams per_year) (f.lit 1000 0);
        cost = cost;
        cost_per_year = f.mul cost per_year;
        intensity = i;
        energy_cost = c;
      }

  unfoldable pub calculate : ℕ → F → CarbonTracker F → Option (CarbonReport F)
  calculate power_uw seconds t = elim t.current_intensity [
    | none ↦ none
    | some i ↦ some (report_with power_uw seconds i t.current_cost)
  ]

  -- It never fails.
  unfoldable pub refresh : ℕ → CarbonTracker F → CarbonTracker F
  refresh wall t = record t {
    current_intensity = some (record {
      grams_co2_per_kwh = f.lit 400 0;
      source = source_for t.api_endpoint;
      region = t.region;
      timestamp = wall;
      is_forecast = false;
    });
  }
