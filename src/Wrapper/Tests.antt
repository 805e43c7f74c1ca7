-- ===== src/Wrapper/Tests.antt =====
-- Runs of sensors_wrapper.c with two sensors, an accelerometer that two clients share and a compass.
use akm_dash.Common.{
  ltb, ℕ, zero, suc, ◌<◌, ◌≡◌, refl, ℤ, pos, negsuc, true, false, some, List, [], ◌∷◌, ◌++◌, map,
  arith, replicate,
}
use akm_dash.Wrapper.{
  register, scan, find_sensor, try_init, connect, call, activate_all, activate_one, wrapper_init,
  wrapper_activate, wrapper_set_delay, wrapper_close, wrapper_data,
}
use akm_dash.Wrapper.Data.{
  links, Status, unused, Slot, Call, Wrapper, Access, no_rate, slot_at, list_get_rate,
  list_get_status, least_rate, count_flag, active, list_put_status, list_set_api, set_entry,
  fresh_entry,
}
use akm_dash.Wrapper.Frame.{powered, last_delay}
use akm_dash.Wrapper.Rate.{IsFastest, list_get_rate-IsFastest}
use akm_dash.Wrapper.Power.{IsPowered}
use akm_dash.Wrapper.Switch.{Powered, wrapper_activate-Powered}
use akm_dash.Wrapper.Release.{AllGivenUp}
use akm_dash.Wrapper.Delay.{Paced, wrapper_activate-Paced, wrapper_set_delay-Synced}
use akm_dash.Wrapper.Connect.{HasRoom}
use akm_dash.Wrapper.Init.{IsWaiting, EndsOk, wrapper_init_ends}
use akm_dash.Wrapper.Reach.{Reach, start, later, registers, initialises, activates, Reach-IsPowered}
use akm_dash.Wrapper.Reopen.{NoneOfType, wrapper_init_missing}
use akm_dash.Wrapper.Deliver.{receivers, logged, wrapper_data_delivers}
use akm_dash.Wrapper.Close.{wrapper_close-last_delay}

abbrev ready : Status
ready = record { is_closed = false; is_initialised = true; is_active = false }

abbrev in_use : Status
in_use = record { is_closed = false; is_initialised = true; is_active = true }

abbrev accelerometer : Slot
accelerometer = record {
  sensor = 1001;
  sensor_type = pos 1;
  api = 100;
  entry = record {
    api = 7 ∷ 8 ∷ 0 ∷ 0 ∷ [];
    status = in_use ∷ ready ∷ unused ∷ unused ∷ [];
    rate = pos 20 ∷ no_rate ∷ no_rate ∷ no_rate ∷ [];
    nr = 2;
  };
}

abbrev compass : Slot
compass = record {
  sensor = 1002;
  sensor_type = pos 2;
  api = 200;
  entry = record {
    api = 8 ∷ 0 ∷ 0 ∷ 0 ∷ [];
    status = ready ∷ unused ∷ unused ∷ unused ∷ [];
    rate = replicate 4 no_rate;
    nr = 1;
  };
}

-- Client 7 has switched the accelerometer on, at a rate of 20.
abbrev running : Wrapper
running = record {
  list = accelerometer ∷ compass ∷ [];
  log =
      Call.set_delay 100 (pos 20) ∷ Call.activate 100 (pos 1) ∷ Call.init 200 ∷ Call.init 100 ∷ [];
}

-- The access field of client 8, which uses both sensors.
abbrev both : Access
both = record {
  sensor = 0 ∷ 1 ∷ 0 ∷ 0 ∷ [];
  client = 1 ∷ 0 ∷ 0 ∷ 0 ∷ [];
  nr = 2;
  match = pos 1 ∷ pos 2 ∷ pos 0 ∷ pos 0 ∷ [];
  m_nr = 2;
}

-- The access field of a new client, which wants both.
abbrev newcomer : Access
newcomer = record {
  sensor = replicate 4 0;
  client = replicate 4 0;
  nr = 0;
  match = pos 1 ∷ pos 2 ∷ pos 0 ∷ pos 0 ∷ [];
  m_nr = 2;
}

abbrev all_well : List Call → ℤ
all_well log = pos 0

running_power : (j : ℕ) → j < 2 → IsPowered j running
unfolding powered list_get_status count_flag
running_power zero h = refl
running_power (suc zero) h = refl
running_power (suc (suc j)) h = absurd (omega arith)

running_distinct :
    (i j : ℕ) → i < 2 → j < 2 → (slot_at i running).api ≡ (slot_at j running).api → i ≡ j
running_distinct zero zero h k e = refl
running_distinct zero (suc zero) h k e = absurd (omega arith)
running_distinct (suc zero) zero h k e = absurd (omega arith)
running_distinct (suc zero) (suc zero) h k e = refl
running_distinct (suc (suc i)) j h k e = absurd (omega arith)
running_distinct i (suc (suc j)) h k e = absurd (omega arith)

running-Powered : Powered running
running-Powered = record { power = running_power; distinct = running_distinct }

running-Paced : Paced running
unfolding list_get_rate least_rate last_delay
running-Paced zero h n = refl
running-Paced (suc zero) h n = absurd (n refl)
running-Paced (suc (suc j)) h n = absurd (omega arith)

running-HasRoom : HasRoom 2 running
running-HasRoom zero h = (omega arith, omega arith)
running-HasRoom (suc zero) h = (omega arith, omega arith)
running-HasRoom (suc (suc j)) h = absurd (omega arith)

-- The first client of a new sensor has its driver initialised.
abbrev registered : Wrapper
registered =
    register (some (1001, record { handle = pos 1; type = pos 1 })) (some 100)
      (record { list = []; log = [] })

register_runs :
    registered.list
    ≡ record { sensor = 1001; sensor_type = pos 1; api = 100; entry = fresh_entry } ∷ []
unfolding register
register_runs = refl

list_get_rate-IsFastest_example : IsFastest (list_get_rate 0 running) (pos 20 ∷ no_rate ∷ [])
list_get_rate-IsFastest_example = list_get_rate-IsFastest 0 running (omega arith)

wrapper_activate-Powered_run : Powered (wrapper_activate all_well both (pos 1) running).1
wrapper_activate-Powered_run =
    wrapper_activate-Powered all_well both (pos 1) {w = running} running-Powered
      ((omega arith, omega arith, omega arith), ((omega arith, omega arith, omega arith), tt))

wrapper_activate-Paced_example :
    let w' = (wrapper_activate all_well both (pos 0) running).1 in
    Paced w' × (pos 0 ≡ pos 0 → AllGivenUp (links both) w')
wrapper_activate-Paced_example =
    wrapper_activate-Paced all_well both (pos 0) {w = running} running-Powered running-Paced
      ((omega arith, omega arith, omega arith), ((omega arith, omega arith, omega arith), tt))

wrapper_set_delay-Synced_example :
    let w = (wrapper_set_delay all_well both (pos 5) running).1 in Powered w × Paced w
wrapper_set_delay-Synced_example =
    wrapper_set_delay-Synced all_well both (pos 5) {w = running} running-Powered running-Paced
      ((omega arith, omega arith, omega arith), ((omega arith, omega arith, omega arith), tt))

wrapper_init_ends_example :
    EndsOk all_well 9 2 newcomer.match (wrapper_init all_well 9 newcomer running)
wrapper_init_ends_example =
    wrapper_init_ends all_well 9 newcomer running refl (omega arith) (omega arith) (omega arith)
      running-HasRoom

wrapper_data_delivers_example :
    (running.list ≡ [] ++ accelerometer ∷ compass ∷ []
      → wrapper_data (λ p. true) 1001 running ≡ record running {
        log =
            logged
              (map Call.deliver (receivers (λ p. true) (7 ∷ 8 ∷ []) (in_use ∷ ready ∷ [])))
              running.log;
      })
    × (running.list ≡ [] → wrapper_data (λ p. true) 1001 running ≡ running)
wrapper_data_delivers_example =
    wrapper_data_delivers (λ p. true) running [] (compass ∷ []) accelerometer tt

wrapper_close-last_delay_example :
    last_delay 100 (wrapper_close all_well both running).log ≡ last_delay 100 running.log
wrapper_close-last_delay_example =
    wrapper_close-last_delay all_well both 100 running (omega arith, (omega arith, tt))

-- The client that has both its sensors, whose `nr` is 2 and whose `match` has no third type.
NoneOfType-zero : NoneOfType (pos 0) running
NoneOfType-zero zero h = λ e. cc
NoneOfType-zero (suc zero) h = λ e. cc
NoneOfType-zero (suc (suc j)) h = absurd (omega arith)

wrapper_init_missing_example : wrapper_init all_well 8 both running ≡ some (negsuc 0, both, running)
wrapper_init_missing_example = wrapper_init_missing all_well 8 both running NoneOfType-zero

-- A driver registers, client 7 is initialised, and switched on.
abbrev empty : Wrapper
empty = record { list = []; log = [] }

abbrev gyroscope : Slot
gyroscope = record { sensor = 1003; sensor_type = pos 4; api = 300; entry = fresh_entry }

abbrev one_driver : Wrapper
one_driver = record { list = gyroscope ∷ []; log = [] }

abbrev rotation_client : Access
rotation_client = record {
  sensor = replicate 4 0;
  client = replicate 4 0;
  nr = 0;
  match = pos 4 ∷ pos 0 ∷ pos 0 ∷ pos 0 ∷ [];
  m_nr = 1;
}

abbrev joined_gyroscope : Slot
joined_gyroscope = record gyroscope {
  entry = record fresh_entry {
    api = 7 ∷ 0 ∷ 0 ∷ 0 ∷ [];
    status = ready ∷ unused ∷ unused ∷ unused ∷ [];
    nr = 1;
  };
}

abbrev initialised_state : Wrapper
initialised_state = record { list = joined_gyroscope ∷ []; log = Call.init 300 ∷ [] }

abbrev joined_client : Access
joined_client = record rotation_client { nr = 1 }

one_driver-Reach : Reach all_well one_driver
unfolding register
one_driver-Reach =
    later start
      (registers 1003 (record { handle = pos 12; type = pos 4 }) 300 (λ j h. absurd (omega arith)))

one_driver-HasRoom : HasRoom 1 one_driver
one_driver-HasRoom zero h = (omega arith, omega arith)
one_driver-HasRoom (suc j) h = absurd (omega arith)

rotation_client-IsWaiting : IsWaiting all_well 7 rotation_client one_driver
rotation_client-IsWaiting =
    (omega arith, omega arith, omega arith, one_driver-HasRoom, (λ k h. absurd (omega arith)))

init_runs :
    wrapper_init all_well 7 rotation_client one_driver
    ≡ some (pos 0, joined_client, initialised_state)
unfolding wrapper_init scan find_sensor try_init connect list_put_status list_set_api set_entry
    list_get_status count_flag call
init_runs = refl

initialised_state-Reach : Reach all_well initialised_state
initialised_state-Reach =
    later one_driver-Reach (initialises 7 rotation_client rotation_client-IsWaiting init_runs)

switched-Reach :
    Reach all_well (wrapper_activate all_well joined_client (pos 1) initialised_state).1
switched-Reach =
    later initialised_state-Reach
      (activates joined_client (pos 1) ((omega arith, omega arith, omega arith), tt))

Reach-IsPowered_example :
    let w = (wrapper_activate all_well joined_client (pos 1) initialised_state).1 in
    powered (slot_at 0 w).api w.log ≡ ltb 0 (list_get_status 0 active w)
unfolding wrapper_activate activate_all activate_one list_put_status set_entry call list_get_status
    count_flag
Reach-IsPowered_example = Reach-IsPowered all_well switched-Reach 0 (omega arith)
