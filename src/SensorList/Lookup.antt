-- ===== src/SensorList/Lookup.antt =====
-- The lookup by handle of sensors_list.c.
use akm_dash.Common.{ℕ, zero, suc, ◌≤◌, ◌≡◌, refl, ℤ, List, [], ◌∷◌, arith, length}
use akm_dash.SensorList.{Sensor, ApiPtr, SensorTable, find_handle, get_api_from_handle}
use akm_dash.SensorList.Rows.{rows, contents, IsValid, lookup_handle}

abbrev arrays : List Sensor → List ApiPtr → ℕ → SensorTable
arrays ss ps n = record { sensors = ss; sensor_apis = ps; number_of_sensors = n }

find_handle_cons :
    (k i n : ℕ) (h : ℤ) (s : Sensor) (ss : List Sensor) (p : ApiPtr) (ps : List ApiPtr)
    → find_handle k (suc i) h (arrays (s ∷ ss) (p ∷ ps) n) ≡ find_handle k i h (arrays ss ps n)
unfolding find_handle
find_handle_cons zero i n h s ss p ps = refl
find_handle_cons (suc k) i n h s ss p ps = ground (arith, find_handle_cons k (suc i) n h s ss p ps)

find_handle-lookup :
    (k n : ℕ) (h : ℤ) (ss : List Sensor) (ps : List ApiPtr)
    → k ≤ length ss
    → k ≤ length ps
    → find_handle k 0 h (arrays ss ps n) ≡ lookup_handle h (rows k ss ps)
unfolding find_handle
find_handle-lookup zero n h ss ps a b = refl
find_handle-lookup (suc k) n h [] ps a b = absurd (omega arith)
find_handle-lookup (suc k) n h (s ∷ ss) [] a b = absurd (omega arith)
find_handle-lookup (suc k) n h (s ∷ ss) (p ∷ ps) a b =
    ground (arith, find_handle_cons k 0 n h s ss p ps, find_handle-lookup k n h ss ps)

-- On a well-formed table, `sensors_list_get_api_from_handle` finds the function table of the first
-- registered sensor with that handle, and NULL exactly where no registered sensor has it: what
-- stands in the arrays behind the registered part is never found.
pub get_api_from_handle_refines :
    (h : ℤ) {s : SensorTable} → IsValid s → get_api_from_handle h s ≡ lookup_handle h (contents s)
unfolding get_api_from_handle
get_api_from_handle_refines h {s} v =
    find_handle-lookup s.number_of_sensors s.number_of_sensors h s.sensors s.sensor_apis
      (omega (arith, v.sensors_full, v.bounded)) (omega (arith, v.apis_full, v.bounded))
