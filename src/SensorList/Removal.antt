-- ===== src/SensorList/Removal.antt =====
-- `sensors_list_deregister` and the lookup by handle of sensors_list.c.
use akm_dash.Common.{ℕ, suc, ◌-◌, ◌≤◌, ◌≡◌, ◌≢◌, ap, ◌∙◌, sym, arith, ==_ne}
use akm_dash.SensorList.{ApiPtr, SensorTable, null_sensor, find_api, shift_down, deregister}
use akm_dash.SensorList.Rows.{
  contents, IsValid, remove, position, remove_at, length-contents, remove_absent,
  remove_at-position, position-le,
}
use native.Mathlib.Decide.{ℕ_discrete}
use akm_dash.SensorList.Table.{find_api-position, length-shift_down, rows-shift_down}

find_api-contents :
    (p : ApiPtr) {s : SensorTable}
    → IsValid s
    → find_api s.number_of_sensors 0 p s.sensor_apis ≡ position p (contents s)
find_api-contents p {s} v =
    find_api-position s.number_of_sensors p s.sensors s.sensor_apis (omega arith) (omega arith)

-- Where the search finds nothing, the table stays as it is.
deregister_absent :
    (p : ApiPtr) (s : SensorTable)
    → find_api s.number_of_sensors 0 p s.sensor_apis ≡ s.number_of_sensors
    → deregister p s ≡ s
unfolding deregister
deregister_absent p s h = ground arith

abbrev closed_gap : SensorTable → ℕ → SensorTable
closed_gap s i = record s {
  sensor_apis = shift_down 0 (s.number_of_sensors - 1 - i) i s.sensor_apis;
  sensors = shift_down null_sensor (s.number_of_sensors - 1 - i) i s.sensors;
  number_of_sensors = s.number_of_sensors - 1;
}

deregister_present :
    (p : ApiPtr) (s : SensorTable)
    → find_api s.number_of_sensors 0 p s.sensor_apis ≢ s.number_of_sensors
    → deregister p s ≡ closed_gap s (find_api s.number_of_sensors 0 p s.sensor_apis)
unfolding deregister
deregister_present p s h = rw (==_ne _ _ h)

closed_gap-contents :
    (s : SensorTable) (i n : ℕ)
    → IsValid s
    → s.number_of_sensors ≡ suc n
    → i ≤ n
    → contents (closed_gap s i) ≡ remove_at i (contents s)
closed_gap-contents s i n v e h =
    let shifted =
      rows-shift_down (n - i) i n s.sensors s.sensor_apis (omega arith)
        (omega (arith, v.sensors_full, v.bounded)) (omega (arith, v.apis_full, v.bounded)) in
    let one : s.number_of_sensors - 1 ≡ n = omega arith in rw (one, e) shifted

closed_gap-IsValid : (s : SensorTable) (i : ℕ) → IsValid s → IsValid (closed_gap s i)
closed_gap-IsValid s i v = record {
  sensors_full =
      length-shift_down null_sensor (s.number_of_sensors - 1 - i) i s.sensors ∙ v.sensors_full;
  apis_full = length-shift_down 0 (s.number_of_sensors - 1 - i) i s.sensor_apis ∙ v.apis_full;
  bounded = omega (arith, v.bounded);
}

-- On a well-formed table, `sensors_list_deregister` takes the first row of that function table out
-- and closes the gap, so that the other rows keep their order; a function table that is not
-- registered leaves the rows alone. The table stays well formed.
pub deregister_refines :
    (p : ApiPtr) {s : SensorTable}
    → IsValid s
    → IsValid (deregister p s) × (contents (deregister p s) ≡ remove p (contents s))
deregister_refines p {s} v =
    elim (ℕ_discrete (find_api s.number_of_sensors 0 p s.sensor_apis) s.number_of_sensors) [
      | yes e ↦ rw (deregister_absent p s e) (
        v,
        sym (
            remove_absent p (contents s)
              (sym (find_api-contents p v) ∙ e ∙ sym (length-contents v))),
      )
      | no ne ↦ rw (deregister_present p s ne) (
        closed_gap-IsValid s _ v,
        closed_gap-contents s _ (s.number_of_sensors - 1) v (omega (arith, bound))
              (omega (arith, bound))
            ∙ ap (λ k. remove_at k (contents s)) (find_api-contents p v)
            ∙ remove_at-position p (contents s)
                (λ e. ne (find_api-contents p v ∙ e ∙ length-contents v)),
      )
    ]
  where
    bound : find_api s.number_of_sensors 0 p s.sensor_apis ≤ s.number_of_sensors
    bound = omega (arith, find_api-contents p v, position-le p (contents s), length-contents v)
