-- ===== src/SensorList/Tests.antt =====
-- Runs of sensors_list.c on a table of two sensors.
use native.Mathlib.Decide.{ℕ_discrete}
use akm_dash.Common.{
  ℕ, suc, ◌<◌, ◌≡◌, refl, ℤ, pos, negsuc, none, some, List, [], ◌∷◌, ◌++◌, arith, replicate,
}
use akm_dash.SensorList.{
  Sensor, ApiPtr, SensorTable, null_sensor, dash_max_sensors, get, register, deregister, find_api,
  shift_down, get_api_from_handle, destroy, foreach_api,
}
use akm_dash.SensorList.Rows.{IsValid, contents}
use akm_dash.SensorList.Table.{register_appends}
use akm_dash.SensorList.Removal.{deregister_refines}
use akm_dash.SensorList.Lookup.{get_api_from_handle_refines}
use akm_dash.SensorList.Visit.{Ends, foreach_api_visits}

abbrev accelerometer : Sensor
accelerometer = record { handle = pos 1; type = pos 1 }

abbrev light : Sensor
light = record { handle = pos 4; type = pos 5 }

abbrev two : SensorTable
two = record {
  sensors = accelerometer ∷ light ∷ replicate 14 null_sensor;
  sensor_apis = 11 ∷ 22 ∷ replicate 14 0;
  number_of_sensors = 2;
}

two-IsValid : IsValid two
two-IsValid = omega arith

-- The callback refuses the table at 11, and counts its calls.
abbrev refuse_first : ApiPtr → ℕ → ℤ × ℕ
refuse_first p w = (elim (ℕ_discrete p 11) [ yes e ↦ negsuc 0 | no ne ↦ pos 0 ], suc w)

foreach_runs : foreach_api refuse_first two 0 ≡ some (deregister 11 two, 2)
unfolding foreach_api deregister find_api shift_down ℕ_discrete
foreach_runs = refl

null_arguments :
    (register none (some 3) two ≡ (negsuc 0, two))
    × (register (some light) none two ≡ (negsuc 0, two))
unfolding register
null_arguments = (refl, refl)

get_runs : (get two).1 ≡ 2
unfolding get
get_runs = refl

destroy_order : destroy {W = List ApiPtr} (λ p log. log ++ p ∷ []) two [] ≡ 11 ∷ 22 ∷ []
unfolding destroy
destroy_order = refl

register_appends_run :
    let (rc, s) = register (some light) (some 33) two in
    IsValid s
    × (2 < dash_max_sensors → (rc ≡ pos 0) × (contents s ≡ contents two ++ (light, 33) ∷ []))
    × ((◌≡◌ {A = ℕ} 2 dash_max_sensors) → (rc ≡ negsuc 0) × (s ≡ two))
register_appends_run = register_appends light 33 {s = two} two-IsValid

deregister_refines_example :
    IsValid (deregister 11 two) × (contents (deregister 11 two) ≡ (light, 22) ∷ [])
unfolding deregister find_api shift_down
deregister_refines_example = deregister_refines 11 {s = two} two-IsValid

get_api_from_handle_refines_run : get_api_from_handle (pos 4) two ≡ some 22
get_api_from_handle_refines_run = get_api_from_handle_refines (pos 4) {s = two} two-IsValid

foreach_api_visits_example : Ends refuse_first (foreach_api refuse_first two 0) ((light, 22) ∷ []) 2
unfolding ℕ_discrete
foreach_api_visits_example =
    foreach_api_visits refuse_first {s = two} 0 two-IsValid
      (((λ e. absurd (omega arith)), tt), (tt, tt))
