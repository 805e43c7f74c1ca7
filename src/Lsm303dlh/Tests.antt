-- ===== src/Lsm303dlh/Tests.antt =====
-- Runs of sensors/lsm303dlh.c.
use akm_dash.Common.{
  ◌≡◌, ◌≢◌, refl, pos, negsuc, is_neg, true, false, none, some, inl, List, [], ◌∷◌, ◌++◌, codes,
  if_both, if◌then◌else◌, arith,
}
use akm_dash.Config.Text.{Bytes}
use akm_dash.Worker
use akm_dash.Select
use akm_dash.Xyz.Attr.{DevMode, normal, fastest, game, ui, same_text, written}
use akm_dash.Lsm303dlh.{
  SensorDesc, System, Driver, user_internal, user_external, mark, compass_sensor_activate,
  sensor_activate_local, activate_required_sensors, activate_from, open_input_device, set_fd,
  resume, in_use,
}
use akm_dash.Lsm303dlh.Switching.{IsReleased}
use akm_dash.Lsm303dlh.Sharing.{
  Call, activate, set_delay, compass_activate, compass_delay, Tidy, run, run-Tidy,
}
use akm_dash.Lsm303dlh.Failure.{
  Each, Shared, compass_sensor_activate-Shared, compass_sensor_activate_failed,
}
use akm_dash.Lsm303dlh.Setting.{Ready}
use akm_dash.Lsm303dlh.Rates.{Set, AllSet, run-AllSet}

abbrev modes : DevMode → Bytes
modes fastest = codes "poll"
modes game = codes "poll"
modes ui = codes "irq"
modes normal = codes "irq"

abbrev sensor : Bytes → SensorDesc
sensor path = record {
  worker = record {
    worker = Worker.init;
    fd = negsuc 0;
    ctl_read = pos 5;
    ctl_write = pos 6;
    delay = pos 0;
    wakeups = 0;
    closed = [];
  };
  values = pos 0 ∷ pos 0 ∷ pos 0 ∷ [];
  users = record { internal = false; external = false };
  internal_delay = pos 0;
  external_delay = pos 0;
  applied_delay_ms = pos 0;
  dev_path = path;
  attrs = record { phys_path = codes "/sys/d/"; writes = [] };
  dev_attr_rate_ms = some (codes "pollrate_ms");
  dev_attr_mode = none;
  dev_modes = modes;
}

abbrev acc : SensorDesc
acc = sensor (codes "/dev/a")

abbrev mag : SensorDesc
mag = sensor (codes "/dev/m")

abbrev compass : SensorDesc
compass = sensor []

abbrev driver : Driver
driver = record { required = acc ∷ mag ∷ []; compass = compass; closed = [] }

-- Every device can be opened, or that of the magnetometer cannot.
abbrev good : System
good = record { open_path = λ p. pos 9; reply = λ log. some (pos 1); notified = λ s. true }

abbrev broken : System
broken = record {
  open_path = λ p. if same_text p (codes "/dev/m") then negsuc 0 else pos 9;
  reply = λ log. some (pos 1);
  notified = λ s. true;
}

nine : pos 9 ≢ pos 0
nine e = cc

broken_ne : (p : Bytes) → broken.open_path p ≢ pos 0
broken_ne p =
    if_both (λ x. x ≢ pos 0) (same_text p (codes "/dev/m")) (negsuc 0) (pos 9) (λ h e. minus e)
      (λ h. nine)
  where
    minus : negsuc 0 ≢ pos 0
    minus e = cc

sensor-IsReleased : (p : Bytes) → IsReleased (sensor p)
sensor-IsReleased p = record { above = λ e. cc; shut = λ e. refl }

driver-Tidy : Tidy good driver
driver-Tidy = record {
  required = (sensor-IsReleased (codes "/dev/a"), (sensor-IsReleased (codes "/dev/m"), tt));
  compass = sensor-IsReleased [];
}

broken-Tidy : Tidy broken driver
broken-Tidy = record {
  required = (sensor-IsReleased (codes "/dev/a"), (sensor-IsReleased (codes "/dev/m"), tt));
  compass = sensor-IsReleased [];
}

abbrev calls : List Call
calls =
    compass_activate true
    ∷ activate 0 true
    ∷ set_delay 0 (pos 20000000)
    ∷ compass_delay (pos 60000000)
    ∷ compass_activate false
    ∷ []

run-Tidy_example : Tidy good (run good calls driver)
run-Tidy_example = run-Tidy good (λ p. nine) calls driver driver-Tidy

compass_sensor_activate-Shared_example :
    let (rc, c') = compass_sensor_activate good true driver in
    (rc ≡ pos 0) × Each (Shared true) driver.required c'.required
unfolding open_input_device
compass_sensor_activate-Shared_example =
    compass_sensor_activate-Shared good (λ p. nine) true driver driver-Tidy
      (λ e. (refl, (refl, tt)))

compass_sensor_activate_failed_example :
    let (rc, c') = compass_sensor_activate broken true driver in
    (rc ≡ negsuc 0)
    × ((xs' : List SensorDesc) × (c'.required
          ≡ xs' ++ record mag { users = mark true user_internal mag.users } ∷ [])
        × Each (Shared false) (acc ∷ []) xs')
    × (c'.compass.users.external ≡ true)
unfolding open_input_device same_text
compass_sensor_activate_failed_example =
    compass_sensor_activate_failed broken broken_ne driver (acc ∷ []) [] mag broken-Tidy refl
      (refl, tt) refl refl

-- What Android switches on and off after such a failure stays on.
stays_open :
    let mag' = record mag { users = record { internal = true; external = false } } in
    let on = (sensor_activate_local good true user_external mag').1 in
    is_neg (sensor_activate_local good false user_external on).1.worker.fd ≡ false
unfolding sensor_activate_local open_input_device set_fd resume in_use mark Select.get_fd
    Select.set_fd Select.resume Select.notify
stays_open = refl

-- Switching the compass on twice closes the descriptor that it goes on to use.
closed_twice :
    let held = record driver {
      compass = record compass { worker = record compass.worker { fd = pos 7 } };
    } in
    let c' = (compass_sensor_activate good true held).1 in
    (c'.compass.worker.fd ≡ pos 7) × (c'.compass.worker.closed ≡ pos 7 ∷ [])
unfolding compass_sensor_activate activate_required_sensors activate_from sensor_activate_local
    open_input_device set_fd resume in_use mark Select.get_fd Select.set_fd Select.resume
    Select.notify
closed_twice = (refl, refl)

none_some : {attr : Bytes} → mag.dev_attr_mode ≡ some attr → ⊥
none_some e = cc

ready : (p : Bytes) → Ready good (sensor p)
unfolding written
ready p = record {
  rate_ms = codes "pollrate_ms";
  named = refl;
  fits = (omega arith, omega arith);
  accepted = λ v log. refl;
  mode_apart = λ attr e. absurd (none_some e);
}

set : (p : Bytes) → Set good (sensor p)
set p = record { ready = ready p; paced = inl (refl, refl, refl) }

run-AllSet_example : AllSet good (run good calls driver).required
run-AllSet_example = run-AllSet good calls driver (set (codes "/dev/a"), (set (codes "/dev/m"), tt))
