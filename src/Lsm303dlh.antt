-- ===== src/Lsm303dlh.antt =====
-- sensors/lsm303dlh.c: the accelerometer and the magnetometer, which Android and the compass share.
pub mod Faster
pub mod Setting
pub mod Rates
pub mod Switching
pub mod Sharing
pub mod Failure
mod Tests
use akm_dash.Common.{
  ℕ, ℤ, pos, negsuc, ◌==ℤ◌, is_neg, is_pos, ltb, ltb_ℤ, Bool, true, false, not, ◌&&◌, ◌||◌, Option,
  none, some, List, [], ◌∷◌, ◌++◌, get_or, if◌then◌else◌,
}
use akm_dash.Config.Text.{Bytes}
use akm_dash.Config.{not_empty}
use akm_dash.Select
use akm_dash.Select.{Select}
use akm_dash.Xyz.Attr.{
  Attrs, Reply, DevMode, rate2mode, store_int_attr, store_str_attr, to_ms, same_text,
}

-- The bits of `enum user_type`.
pub record Users : Type 0 where
  pub internal : Bool
  pub external : Bool

pub data User : Type 0 where
  user_internal user_external : User

-- The fields of `struct sensor_desc` that the calls use.
pub record SensorDesc : Type 0 where
  pub worker : Select
  pub values : List ℤ
  pub users : Users
  pub internal_delay : ℤ
  pub external_delay : ℤ
  pub applied_delay_ms : ℤ
  pub dev_path : Bytes
  pub attrs : Attrs
  pub dev_attr_rate_ms : Option Bytes
  pub dev_attr_mode : Option Bytes
  pub dev_modes : DevMode → Bytes

-- What the driver finds outside: `open` on a device, the attributes in sysfs, and whether the write
-- to a worker's pipe succeeds.
pub record System : Type 0 where
  pub open_path : Bytes → ℤ
  pub reply : Reply
  pub notified : Select → Bool

-- `required_sensors`, the accelerometer and the magnetometer, and the compass, with the descriptors
-- that were closed without a worker.
pub record Driver : Type 0 where
  pub required : List SensorDesc
  pub compass : SensorDesc
  pub closed : List ℤ

-- `users |= user` or `users &= ~user`.
unfoldable pub mark : Bool → User → Users → Users
mark on user_internal u = record u { internal = on }
mark on user_external u = record u { external = on }

unfoldable pub in_use : Users → Bool
in_use u = u.internal || u.external

abbrev pub delay_lowest_ms : ℤ
delay_lowest_ms = pos 1000

-- The rate for both users in `update_delay`.
unfoldable pub required_ms : ℤ → ℤ → ℤ
required_ms d_int d_ext =
    let int = not (d_int ==ℤ pos 0) in
    let ext = not (d_ext ==ℤ pos 0) in
    if int && ext
    then (if ltb_ℤ d_int d_ext then d_int else d_ext)
    else if int
    then d_int
    else if ext
    then d_ext
    else delay_lowest_ms

module _ (sys : System) where
  unfoldable pub open_input_device : SensorDesc → ℤ
  open_input_device d = if not_empty d.dev_path then sys.open_path d.dev_path else negsuc 0

  unfoldable pub set_fd : ℤ → Select → Select
  set_fd fd s = Select.set_fd (sys.notified s) fd s

  unfoldable pub suspend : Select → Select
  suspend s = Select.suspend (sys.notified s) s

  unfoldable pub resume : Select → Select
  resume s = Select.resume (sys.notified s) s

  -- The change of the mode in `set_pollrate`, whose result is not used.
  unfoldable pub change_mode : Option Bytes → ℤ → SensorDesc → SensorDesc
  change_mode none ms d = d
  change_mode (some attr) ms d =
      let old = d.dev_modes (rate2mode d.applied_delay_ms) in
      let new = d.dev_modes (rate2mode ms) in
      if same_text old new
      then d
      else record d { attrs = (store_str_attr sys.reply attr new d.attrs).1 }

  -- `set_pollrate`, with the name of the rate's attribute.
  unfoldable pub set_pollrate : Bytes → ℤ → SensorDesc → ℤ × SensorDesc
  unfolding change_mode
  set_pollrate rate_ms ms d =
      if ms ==ℤ d.applied_delay_ms
      then (pos 0, d)
      else (let (rc, a) = store_int_attr sys.reply rate_ms ms d.attrs in
          let d₁ = record d { attrs = a } in
          if not (rc ==ℤ pos 0)
          then (rc, d₁)
          else (pos 0, record (change_mode d₁.dev_attr_mode ms d₁) { applied_delay_ms = ms }))

  unfoldable pub apply_rate : Option Bytes → ℤ → SensorDesc → ℤ × SensorDesc
  apply_rate none ms d = (pos 0, d)
  apply_rate (some rate_ms) ms d =
      if ms ==ℤ d.applied_delay_ms
      then (pos 0, d)
      else (let (rc, d₁) = set_pollrate rate_ms ms d in
          if rc ==ℤ pos 0 then (rc, record d₁ { applied_delay_ms = ms }) else (rc, d₁))

  -- `update_delay`.
  unfoldable pub update_delay : SensorDesc → ℤ × SensorDesc
  unfolding required_ms apply_rate
  update_delay d =
      apply_rate d.dev_attr_rate_ms (required_ms (to_ms d.internal_delay) (to_ms d.external_delay))
        d

  -- `sensor_set_delay`, which does not use the result of `update_delay`.
  unfoldable pub sensor_set_delay : ℤ → SensorDesc → ℤ × SensorDesc
  unfolding update_delay
  sensor_set_delay ns d = (pos 0, (update_delay (record d { external_delay = ns })).1)

  -- The loop of `compass_sensor_set_delay`: whether a result is not 0, and the sensors. The sum of
  -- results that are 0 or negative is 0 only if they all are.
  unfoldable pub set_internal : ℤ → List SensorDesc → Bool × List SensorDesc
  unfolding update_delay
  set_internal ns [] = (false, [])
  set_internal ns (d ∷ ds) =
      let (rc, d') = update_delay (record d { internal_delay = ns }) in
      let (failed, ds') = set_internal ns ds in (not (rc ==ℤ pos 0) || failed, d' ∷ ds')

  -- `compass_sensor_set_delay`.
  unfoldable pub compass_sensor_set_delay : ℤ → Driver → ℤ × Driver
  unfolding set_internal
  compass_sensor_set_delay ns c =
      let (failed, ds) = set_internal ns c.required in
      (if failed then negsuc 0 else pos 0, record c { required = ds })

  -- `sensor_activate_local`.
  unfoldable pub sensor_activate_local : Bool → User → SensorDesc → ℤ × SensorDesc
  unfolding open_input_device set_fd suspend resume mark in_use
  sensor_activate_local enable user d =
      let fd = Select.get_fd d.worker in
      let d₁ = record d { users = mark enable user d.users } in
      let fd' = open_input_device d₁ in
      if enable && is_neg fd
      then (if is_neg fd'
          then (negsuc 0, d₁)
          else (pos 0, record d₁ { worker = resume (set_fd fd' d₁.worker) }))
      else if not enable && is_pos fd && not (in_use d₁.users)
      then (pos 0, record d₁ { worker = set_fd (negsuc 0) (suspend d₁.worker) })
      else (pos 0, d₁)

  -- What the loop of `activate_required_sensors` makes of a sensor that it goes on behind.
  unfoldable pub passed : Bool → SensorDesc → SensorDesc
  unfolding update_delay
  passed enable d = if enable then d else (update_delay (record d { internal_delay = pos 0 })).1

  -- The loop behind `err_exit`, over the sensors before the one that failed.
  unfoldable pub roll_back : List SensorDesc → List SensorDesc
  unfolding sensor_activate_local
  roll_back [] = []
  roll_back (d ∷ ds) = (sensor_activate_local false user_internal d).1 ∷ roll_back ds

  -- `activate_required_sensors`, with the sensors that it has behind it.
  unfoldable pub activate_from : Bool → List SensorDesc → List SensorDesc → ℤ × List SensorDesc
  unfolding sensor_activate_local passed roll_back
  activate_from enable before [] = (pos 0, before)
  activate_from enable before (d ∷ ds) =
      let (rc, d') = sensor_activate_local enable user_internal d in
      let rest = activate_from enable (before ++ passed enable d' ∷ []) ds in
      if not (rc ==ℤ pos 0) && enable then (negsuc 0, roll_back before ++ d' ∷ ds) else rest

  unfoldable pub activate_required_sensors : Bool → List SensorDesc → ℤ × List SensorDesc
  unfolding activate_from
  activate_required_sensors enable ds = activate_from enable [] ds

  -- `compass_sensor_activate`.
  unfoldable pub compass_sensor_activate : Bool → Driver → ℤ × Driver
  unfolding open_input_device set_fd suspend resume mark activate_required_sensors
  compass_sensor_activate true c =
      let fd = Select.get_fd c.compass.worker in
      let d = record c.compass { users = mark true user_external c.compass.users } in
      let fd' = if is_neg fd then open_input_device d else fd in
      let (rc, ds) = activate_required_sensors true c.required in
      if rc ==ℤ pos 0
      then (
        pos 0,
        record c { required = ds; compass = record d { worker = resume (set_fd fd' d.worker) } },
      )
      else (
        rc,
        record c {
          required = ds;
          compass = d;
          closed = if is_neg fd' then c.closed else c.closed ++ fd' ∷ [];
        },
      )
  compass_sensor_activate false c =
      let fd = Select.get_fd c.compass.worker in
      let d = record c.compass { users = mark false user_external c.compass.users } in
      let w = suspend d.worker in
      (
        pos 0,
        record c {
          compass = record d { worker = if is_pos fd then set_fd (negsuc 0) w else w };
          required = (activate_required_sensors false c.required).1;
        },
      )

  -- `sensor_close`.
  unfoldable pub sensor_close : SensorDesc → SensorDesc
  sensor_close d = record d { worker = Select.destroy d.worker }
