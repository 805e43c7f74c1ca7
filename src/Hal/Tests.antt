-- ===== src/Hal/Tests.antt =====
-- Runs of sensors_module.c on a table of two sensors, of which the driver of the first fails.
use akm_dash.Common.{
  ℕ, ◌≡◌, refl, pos, negsuc, ◌==◌, true, false, Option, none, some, List, [], ◌∷◌, arith, replicate,
  if◌then◌else◌,
}
use akm_dash.SensorList.{Sensor, ApiPtr, SensorTable, null_sensor}
use akm_dash.SensorList.Rows.{IsValid, contents}
use akm_dash.Config
use akm_dash.Config.{Store, live, dangling, Files, ◌>>=◌}
use akm_dash.Hal.{Drivers, Hal, activate, set_delay, open_module, poll, safe_init}
use akm_dash.SensorList.Visit.{visit}
use akm_dash.Hal.Route.{requests_routed}
use akm_dash.Hal.Open.{open_module_publishes}

abbrev accelerometer : Sensor
accelerometer = record { handle = pos 1; type = pos 1 }

abbrev light : Sensor
light = record { handle = pos 4; type = pos 5 }

abbrev two : SensorTable
two = record {
  sensors = accelerometer ∷ light ∷ replicate 14 null_sensor;
  sensor_apis = 11 ∷ 22 ∷ replicate 14 0;
  number_of_sensors = 2;
}

two-IsValid : IsValid two
two-IsValid = omega arith

-- A driver that asks for a key, as those of sensor_xyz and bma250 do.
abbrev reads_config : Store → Option ℕ
reads_config (live es) = some 0
reads_config dangling = none

-- The rest of the program is the list of the tables that were called, the latest first.
abbrev drivers : Drivers (List ApiPtr)
drivers = record {
  init = λ st p log. reads_config st >>= λ u. some (if p == 11 then negsuc 0 else pos 0, p ∷ log);
  activate = λ p enabled log. (pos 3, p ∷ log);
  set_delay = λ p ns log. (pos 3, p ∷ log);
}

abbrev no_files : Files
no_files = record { named = λ n. none; primary = none; secondary = none }

abbrev fresh : Store
fresh = live []

abbrev booted : Hal (List ApiPtr)
booted = record { table = two; config = fresh; fifo_ready = false; devices = 0; world = [] }

-- Another id than the poll interface's gets 0 and no device.
other_id : open_module drivers false true (λ n. true) no_files booted ≡ some (pos 0, false, booted)
unfolding open_module
other_id = refl

poll_waits : poll {E = ℕ} ([] ∷ [] ∷ (7 ∷ 8 ∷ []) ∷ []) ≡ some (7 ∷ 8 ∷ [])
unfolding poll
poll_waits = refl

requests_routed_run :
    (activate drivers (pos 4) (pos 1) booted ≡ (pos 0, record booted { world = 22 ∷ [] }))
    × (set_delay drivers (pos 4) (pos 9) booted ≡ (pos 3, record booted { world = 22 ∷ [] }))
requests_routed_run = (requests_routed drivers (pos 4) (pos 1) (pos 9) booted two-IsValid).1 22 refl

unread : Config.read (λ n. true) no_files none fresh ≡ some (negsuc 0, fresh)
unfolding Config.read Config.open_config Config.choose Config.read_file
unread = refl

open_module_publishes_example :
    let (kept, end) = visit (safe_init drivers fresh) (contents two) (some []) in
    ((w : List ApiPtr)
      → end ≡ some w
      → (t : SensorTable) × (open_module drivers true true (λ n. true) no_files booted
          ≡ some (
            pos 0,
            true,
            record { table = t; config = fresh; fifo_ready = true; devices = 1; world = w },
          ))
        × IsValid t
        × (contents t ≡ kept))
    × (end ≡ none → open_module drivers true true (λ n. true) no_files booted ≡ none)
open_module_publishes_example =
    open_module_publishes drivers (λ n. true) no_files booted (negsuc 0) fresh unread two-IsValid
      (((λ e. absurd (omega arith)), tt), (tt, tt))

-- What the two drivers of that run do, and what they do with a freed list.
both_started :
    visit (safe_init drivers fresh) (contents two) (some [])
    ≡ ((light, 22) ∷ [], some (22 ∷ 11 ∷ []))
unfolding safe_init
both_started = refl

freed_list : (visit (safe_init drivers dangling) (contents two) (some [])).1 ≡ none
unfolding safe_init
freed_list = refl
