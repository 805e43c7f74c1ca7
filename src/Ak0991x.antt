-- ===== src/Ak0991x.antt =====
-- sensors/ak0991xna.c: the driver of a magnetometer, whose samples the AKM library gets too.
pub mod Power
pub mod Samples
mod Tests
use akm_dash.Common.{
  ℕ, ◌*◌, ltb, ℤ, pos, negsuc, ◌==ℤ◌, is_neg, is_pos, ltb_ℤ, Bool, true, false, not, ◌&&◌, Option,
  none, some, List, [], ◌∷◌, ◌++◌, length, get_or, set, take, codes, ◌==◌, if◌then◌else◌,
}
use akm_dash.Config.Text.{Bytes}
use akm_dash.Select
use akm_dash.Select.{Select}
use akm_dash.Sysfs
use akm_dash.Sysfs.{Sysfs}
use akm_dash.Xyz.Attr.{to_ms}
use akm_dash.Proximity.{InputEvent, ev_syn}

-- A call of the AKM library: AKL_DASH_Init, AKL_Init, AKL_DASH_Deinit, AKL_StartMeasurement with
-- the settings that were read, AKL_StopMeasurement, and AKL_SetVector with the vector and the status.
pub data LibCall : Type 0 where
  dash_init akl_init dash_deinit stop_measurement : LibCall
  start_measurement : Option Bytes → LibCall
  set_vector : List ℤ → ℤ → LibCall

-- The fields of `struct sensor_data_t` that the driver sets, but for the time and the scale.
pub record SensorData : Type 0 where
  pub data_xyz : List ℤ
  pub status : ℤ
  pub delay : ℤ

-- The fields of `struct sensor_desc` that change, and `status` of `ak0991x_read`. Beside them, the
-- calls of the library, the latest first; what the wrapper got, the latest last; and the descriptors
-- that the driver has closed itself.
pub record AkDesc : Type 0 where
  pub select_worker : Select
  pub sysfs : Sysfs
  pub data_xyz : List ℤ
  pub status : ℤ
  pub applied_delay_ms : ℤ
  pub calls : List LibCall
  pub sent : List SensorData
  pub closed : List ℤ

abbrev pub input_name : Bytes
input_name = codes "ak0991x"

abbrev pub min_delay : ℕ
min_delay = 10000

-- AKM_MAX_INTERVAL.
abbrev pub max_interval : ℤ
max_interval = pos 2147483647

abbrev pub ev_msc : ℕ
ev_msc = 4

-- EVENT_CODE_MAGV_X and so on.
abbrev pub magv_x : ℕ
magv_x = 0

abbrev pub magv_y : ℕ
magv_y = 1

abbrev pub magv_z : ℕ
magv_z = 2

abbrev pub magv_status : ℕ
magv_status = 3

-- The write of the settings, with what `fwrite` returns, if the file can be opened.
unfoldable pub saved : Option ℕ → ℕ → ℤ
saved none sz = negsuc 0
saved (some wsz) sz = if wsz == sz then pos 0 else negsuc 0

unfoldable pub limited : ℤ → ℤ
limited interval =
    let i = if ltb_ℤ max_interval interval then max_interval else interval in
    if is_neg i then negsuc 0 else i

-- The milliseconds of `ak0991x_delay`, in which `ns` becomes an `int`.
unfoldable pub delay_ms : ℤ → ℤ
delay_ms (negsuc n) = negsuc 0
delay_ms (pos n) =
    if ltb n (min_delay * 1000) then to_ms (pos (min_delay * 1000)) else to_ms (pos n)

-- What `ak0991x_activate` finds and gets: the results of `open_input_dev_by_name`, of the
-- two writes to the worker's pipe, of `malloc`, the settings file and the write to it.
pub record Outcome : Type 0 where
  pub opened : ℤ
  pub first : Bool
  pub second : Bool
  pub malloc : Bool
  pub file : Option Bytes
  pub written : Option ℕ

-- The `switch` on the code of another event.
unfoldable pub take_in : InputEvent → AkDesc → AkDesc
take_in e d =
    if e.code == magv_status
    then record d { status = e.value }
    else if e.code == magv_x
    then record d { data_xyz = set d.data_xyz 0 e.value }
    else if e.code == magv_y
    then record d { data_xyz = set d.data_xyz 1 e.value }
    else if e.code == magv_z
    then record d { data_xyz = set d.data_xyz 2 e.value }
    else d

-- What `sensors_sysfs_write` returns for the files so far.
module _ (reply : List (Bytes × Bytes) → ℤ) where
  -- `ak0991x_set_interval`.
  unfoldable pub set_interval : ℤ → AkDesc → ℤ × AkDesc
  unfolding limited
  set_interval interval d =
      let (r, s) = Sysfs.sysfs_write_int reply (codes "continuous") (limited interval) d.sysfs in
      (r, record d { sysfs = s })

  -- `ak0991x_delay`.
  unfoldable pub delay : ℤ → AkDesc → ℤ × AkDesc
  unfolding delay_ms set_interval
  delay ns d =
      let ms = delay_ms ns in
      let (err, d') = set_interval ms (record d { applied_delay_ms = ms }) in
      if is_neg err then (negsuc 0, d') else (pos 0, d')

-- What the library returns is a function of its calls so far; AKM_SUCCESS is 0.
module _ (lib : List LibCall → ℤ) where
  unfoldable pub call : LibCall → AkDesc → ℤ × AkDesc
  call c d = let log = c ∷ d.calls in (lib log, record d { calls = log })

  abbrev pub zero_or_failed : ℤ × AkDesc → ℤ × AkDesc
  zero_or_failed (r, d) = (if r ==ℤ pos 0 then pos 0 else negsuc 0, d)

  -- `ak0991x_start`, with the bytes of the settings file, if it can be opened, whether `malloc`
  -- succeeds, and the size that the library asks for.
  unfoldable pub start : Option Bytes → Bool → ℕ → AkDesc → ℤ × AkDesc
  unfolding call
  start none malloc sz d = zero_or_failed (call (start_measurement none) d)
  start (some file) malloc sz d =
      let buf = take sz file in
      if not malloc
      then (negsuc 0, d)
      else if length buf == sz
      then zero_or_failed (call (start_measurement (some buf)) d)
      else (negsuc 0, d)

  -- `ak0991x_stop`.
  unfoldable pub stop : Option ℕ → Bool → ℕ → AkDesc → ℤ × AkDesc
  unfolding call saved
  stop written malloc sz d =
      let (r, d') = call stop_measurement d in
      if not malloc
      then (negsuc 0, d)
      else if r ==ℤ pos 0
      then (saved written sz, d')
      else (negsuc 0, d')

  -- `ak0991x_init`, with the results of `open_input_dev_by_name` and of `pipe`, and the number of
  -- the device that `sensors_sysfs_init` finds.
  unfoldable pub init : ℤ → Option (ℤ × ℤ) → Option ℤ → AkDesc → ℤ × AkDesc
  unfolding call
  init opened pipe found d =
      let d₁ = record d { closed = d.closed ++ opened ∷ [] } in
      let (r₂, d₂) = call dash_init d₁ in
      let (r₃, d₃) = call akl_init d₂ in
      let (_, d₄) = call dash_deinit d₃ in
      if is_neg opened
      then (negsuc 0, d)
      else if not (r₂ ==ℤ pos 0)
      then (negsuc 0, d₂)
      else if not (r₃ ==ℤ pos 0)
      then (negsuc 0, d₄)
      else (
        pos 0,
        record d₃ {
          sysfs = (Sysfs.sysfs_init found input_name Sysfs.input_dev d.sysfs).1;
          select_worker = Select.init d.select_worker (negsuc 0) pipe;
        },
      )

  -- What `sensors_sysfs_write` returns for the files so far.
  module _ (reply : List (Bytes × Bytes) → ℤ) where
    -- The two parts of `ak0991x_activate`.
    unfoldable pub switch_on : ℕ → Outcome → AkDesc → ℤ × AkDesc
    unfolding start
    switch_on sz o d =
        let (r, d') = start o.file o.malloc sz d in
        if is_neg o.opened then (negsuc 0, d) else if is_neg r then (negsuc 0, d') else (
          pos 0,
          record d' {
            select_worker =
                Select.resume o.second (Select.set_fd o.first o.opened d'.select_worker);
          },
        )

    unfoldable pub switch_off : ℕ → Outcome → AkDesc → ℤ × AkDesc
    unfolding set_interval stop
    switch_off sz o d =
        let d₁ = record d {
          select_worker =
              Select.set_fd o.second (negsuc 0) (Select.suspend o.first d.select_worker);
        } in
        let (r₂, d₂) = set_interval reply (negsuc 0) d₁ in
        let (r₃, d₃) = stop o.written o.malloc sz d₂ in
        if is_neg r₂ then (negsuc 0, d₂) else if is_neg r₃ then (negsuc 0, d₃) else (pos 0, d₃)

    -- `ak0991x_activate`.
    unfoldable pub activate : ℕ → Outcome → ℤ → AkDesc → ℤ × AkDesc
    unfolding switch_on switch_off
    activate sz o enable d =
        let fd = Select.get_fd d.select_worker in
        if not (enable ==ℤ pos 0) && is_neg fd
        then switch_on sz o d
        else if enable ==ℤ pos 0 && is_pos fd
        then switch_off sz o d
        else (pos 0, d)

  -- `ak0991x_close`.
  unfoldable pub close : AkDesc → AkDesc
  unfolding call
  close d = (call dash_deinit (record d { select_worker = Select.destroy d.select_worker })).1

  -- What a synchronisation event does: the library and the wrapper get the data.
  unfoldable pub report : AkDesc → AkDesc
  unfolding call
  report d =
      let sd : SensorData = record {
        data_xyz = d.data_xyz;
        status = d.status;
        delay = d.applied_delay_ms;
      } in
      let (err, d') = call (set_vector d.data_xyz d.status) d in
      record d' { sent = d.sent ++ sd ∷ [] }

  -- The loop of `ak0991x_read` over the events that `read` has put into `evbuf`.
  unfoldable pub handle : List InputEvent → AkDesc → AkDesc
  unfolding report take_in
  handle [] d = d
  handle (e ∷ es) d =
      let d₁ = if e.type == ev_syn then report d else d in
      handle es (if e.type == ev_msc then take_in e d₁ else d₁)

  -- `ak0991x_read`, with the events that `read` gives, ten at most, unless it fails.
  unfoldable pub read : Option (List InputEvent) → AkDesc → AkDesc
  unfolding handle
  read none d = d
  read (some es) d = handle (take 10 es) d
