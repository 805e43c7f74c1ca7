-- ===== src/SensorList.antt =====
-- sensors_list.c: the fixed table of registered sensors and of their function tables.
pub mod Rows
pub mod Table
pub mod Removal
pub mod Lookup
pub mod Middle
pub mod Visit
mod Tests
use akm_dash.Common.{
  ℕ, zero, suc, ◌-◌, ℤ, pos, negsuc, ◌==ℤ◌, Bool, true, false, Option, none, some, List, get_or,
  set, ltb, ◌==◌, if◌then◌else◌,
}

-- `struct sensor_t`: the fields that the core reads.
pub record Sensor : Type 0 where
  pub handle : ℤ
  pub type : ℤ

-- `struct sensor_api_t *`. Such a pointer is compared and called, and 0 is NULL.
abbrev pub ApiPtr : Type 0
ApiPtr = ℕ

abbrev pub null_sensor : Sensor
null_sensor = record { handle = pos 0; type = pos 0 }

abbrev pub dash_max_sensors : ℕ
dash_max_sensors = 16

-- The three static variables of the file.
pub record SensorTable : Type 0 where
  pub sensors : List Sensor
  pub sensor_apis : List ApiPtr
  pub number_of_sensors : ℕ

-- `sensors_list_get`: the table that it publishes and the number that it returns.
unfoldable pub get : SensorTable → List Sensor × ℕ
get s = (s.sensors, s.number_of_sensors)

-- `none` stands for a NULL argument.
unfoldable pub register : Option Sensor → Option ApiPtr → SensorTable → ℤ × SensorTable
register none api s = (negsuc 0, s)
register (some sensor) none s = (negsuc 0, s)
register (some sensor) (some api) s =
    if ltb (dash_max_sensors - 1) s.number_of_sensors then (negsuc 0, s) else (
      pos 0,
      record s {
        sensor_apis = set s.sensor_apis s.number_of_sensors api;
        sensors = set s.sensors s.number_of_sensors sensor;
        number_of_sensors = suc s.number_of_sensors;
      },
    )

-- The search loop of `sensors_list_deregister`; its first argument is the number of rounds left.
unfoldable pub find_api : ℕ → ℕ → ApiPtr → List ApiPtr → ℕ
find_api zero i api apis = i
find_api (suc k) i api apis = elim (get_or apis i 0 == api) [
  | true ↦ i
  | false ↦ find_api k (suc i) api apis
]

-- The loop that closes the gap, on one array.
unfoldable pub shift_down {ℓ} : {A : Type ℓ} → A → ℕ → ℕ → List A → List A
shift_down d zero i xs = xs
shift_down d (suc k) i xs = shift_down d k (suc i) (set xs i (get_or xs (suc i) d))

unfoldable pub deregister : ApiPtr → SensorTable → SensorTable
deregister api s =
    let n = s.number_of_sensors in
    let i = find_api n 0 api s.sensor_apis in
    if i == n then s else record s {
      sensor_apis = shift_down 0 (n - 1 - i) i s.sensor_apis;
      sensors = shift_down null_sensor (n - 1 - i) i s.sensors;
      number_of_sensors = n - 1;
    }

-- The loop of `sensors_list_get_api_from_handle`; `none` is NULL.
unfoldable pub find_handle : ℕ → ℕ → ℤ → SensorTable → Option ApiPtr
find_handle zero i h s = none
find_handle (suc k) i h s = elim ((get_or s.sensors i null_sensor).handle ==ℤ h) [
  | true ↦ some (get_or s.sensor_apis i 0)
  | false ↦ find_handle k (suc i) h s
]

unfoldable pub get_api_from_handle : ℤ → SensorTable → Option ApiPtr
unfolding find_handle
get_api_from_handle h s = find_handle s.number_of_sensors 0 h s

-- What runs behind the function pointers is a function on the state `W` of the rest of the program.
module _ {ℓ} {W : Type ℓ} where
  unfoldable pub destroy_from : (ApiPtr → W → W) → ℕ → ℕ → List ApiPtr → W → W
  destroy_from close zero i apis w = w
  destroy_from close (suc k) i apis w =
      destroy_from close k (suc i) apis (close (get_or apis i 0) w)

  unfoldable pub destroy : (ApiPtr → W → W) → SensorTable → W → W
  unfolding destroy_from
  destroy close s w = destroy_from close s.number_of_sensors 0 s.sensor_apis w

  -- The loop of `sensors_list_foreach_api`, on fuel: `none` is a run that has not ended. After a
  -- failure `--i` and the loop's `i++` leave `i` as it was.
  unfoldable pub foreach_from :
      (ApiPtr → W → ℤ × W) → ℕ → ℕ → SensorTable → W → Option (SensorTable × W)
  foreach_from f zero i s w = none
  foreach_from f (suc fuel) i s w = elim (ltb i s.number_of_sensors) [
    | true ↦
        (let api = get_or s.sensor_apis i 0 in
          let (rc, w') = f api w in
          elim (rc ==ℤ pos 0) [
            | true ↦ foreach_from f fuel (suc i) s w'
            | false ↦ foreach_from f fuel i (deregister api s) w'
          ])
    | false ↦ some (s, w)
  ]

  -- The bound on the rounds that Visit proves to be enough.
  unfoldable pub foreach_api : (ApiPtr → W → ℤ × W) → SensorTable → W → Option (SensorTable × W)
  unfolding foreach_from
  foreach_api f s w = foreach_from f (suc s.number_of_sensors) 0 s w
