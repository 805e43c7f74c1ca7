-- ===== src/Xyz.antt =====
-- sensors/sensor_xyz.c, sensors/sensor_xyz.h: what the drivers of three-axis input devices share.
pub mod Attr
pub mod Axes
pub mod Axis
pub mod Samples
pub mod Power
pub mod Tables
pub mod Stores
pub mod Delay
mod Tests
use akm_dash.Common.{
  ℕ, zero, suc, ◌-◌, ◌*◌, ◌/◌, ℤ, pos, negsuc, ◌==ℤ◌, is_neg, is_pos, Bool, true, false, not, ◌&&◌,
  ◌||◌, Option, none, some, List, [], ◌∷◌, ◌++◌, length, get_or, set, take, ltb, ltb_ℤ, leb, ◌==◌,
  if◌then◌else◌, codes,
}
use akm_dash.Config.Text.{Bytes, negate}
use akm_dash.Config
use akm_dash.Config.{Store, Output, ints, type_array_int, ◌>>=◌, not_empty}
use akm_dash.Select
use akm_dash.Select.{Select}
use akm_dash.Xyz.Attr.{
  Attrs, Reply, DevMode, rate2mode, normal, store_int_attr, store_str_attr, to_ms, same_text,
}

-- `struct input_event` without its time.
pub record InputEvent : Type 0 where
  pub type : ℕ
  pub code : ℕ
  pub value : ℤ

-- The fields of `struct sensor_desc` that change or decide, and the samples that
-- `sensors_wrapper_data` was called with, the latest last.
pub record SensorDesc : Type 0 where
  pub attrs : Attrs
  pub worker : Select
  pub values : List ℤ
  pub map_prefix : Bytes
  pub map : List ℤ
  pub sign : List ℤ
  pub applied_delay_ms : ℤ
  pub dev_path : Bytes
  pub dev_attr_rate_ms : Bytes
  pub dev_attr_mode : Option Bytes
  pub dev_modes : DevMode → Bytes
  pub ev_type_data : ℕ
  pub ev_type_sync : ℕ
  pub ev_code : List ℕ
  pub samples : List (List ℤ)

abbrev pub num_axis : ℕ
num_axis = 3

-- `tmp` after `parse_value` has stored these numbers: what was on the stack stays behind them.
unfoldable pub overlay : List ℤ → List ℤ → List ℤ
overlay xs [] = []
overlay [] (j ∷ js) = j ∷ js
overlay (x ∷ xs) (j ∷ js) = x ∷ overlay xs js

unfoldable pub stored : Output → List ℤ
stored Output.nothing = []
stored (Output.string s) = []
stored (ints xs) = xs

-- The loop of `config_read_axis` over `tmp`.
unfoldable pub all_between : ℤ → ℤ → List ℤ → Bool
all_between lo hi [] = true
all_between lo hi (x ∷ xs) = not (ltb_ℤ x lo || ltb_ℤ hi x) && all_between lo hi xs

-- `config_read_axis`: what stands in `cr->store` after it, where `junk` stood in `tmp` and `old`
-- in the store before.
unfoldable pub config_read_axis : Bytes → Bytes → ℤ → ℤ → List ℤ → List ℤ → Store → Option (List ℤ)
unfolding overlay stored all_between
config_read_axis prefix key lo hi junk old st =
    Config.get_key prefix key type_array_int num_axis st >>= λ r.
    let tmp = overlay (stored r.1) junk in
    some (if r.0 ==ℤ pos 0 && all_between lo hi tmp then tmp else old)

abbrev pub axis_map : Bytes
axis_map = codes "axis_map"

abbrev pub axis_sign : Bytes
axis_sign = codes "axis_sign"

-- `config_read_sensor_map`, with what stands on the stack at its two calls.
unfoldable pub config_read_sensor_map : List ℤ → List ℤ → Store → SensorDesc → Option SensorDesc
unfolding config_read_axis
config_read_sensor_map junk junk' st d =
    if Config.have_config_file st
    then (config_read_axis d.map_prefix axis_map (pos 0) (pos 2) junk d.map st >>= λ m.
        config_read_axis d.map_prefix axis_sign (negsuc 0) (pos 1) junk' d.sign st >>= λ g.
        some (record d { map = m; sign = g }))
    else some d

-- What the driver finds outside: which paths can be read, the result of `find_input`, and `open`.
pub record Devices : Type 0 where
  pub readable : Bytes → Bool
  pub find_input : Option Bytes
  pub open_path : Bytes → ℤ

unfoldable pub find_and_open : Devices → Option Bytes → SensorDesc → ℤ × SensorDesc
find_and_open dev none d = (negsuc 0, record d { dev_path = [] })
find_and_open dev (some path) d = (dev.open_path path, record d { dev_path = path })

unfoldable pub open_input_device : Devices → SensorDesc → ℤ × SensorDesc
unfolding find_and_open
open_input_device dev d =
    if not_empty d.dev_path && dev.readable d.dev_path
    then (dev.open_path d.dev_path, d)
    else find_and_open dev dev.find_input d

-- `sensor_xyz_activate`; the flags say whether the two writes to the worker's pipe succeed.
unfoldable pub activate : Devices → Bool → Bool → ℤ → SensorDesc → ℤ × SensorDesc
unfolding open_input_device
activate dev first second enable d =
    let fd = Select.get_fd d.worker in
    if not (enable ==ℤ pos 0) && is_neg fd
    then (let (fd', d') = open_input_device dev d in
        if is_neg fd' then (fd', d') else (
          pos 0,
          record d' { worker = Select.resume second (Select.set_fd first fd' d'.worker) },
        ))
    else if enable ==ℤ pos 0 && not (is_neg fd)
    then (
      pos 0,
      record d { worker = Select.suspend second (Select.set_fd first (negsuc 0) d.worker) },
    )
    else (pos 0, d)

unfoldable pub found_path : Option Bytes → Bytes
found_path none = []
found_path (some p) = p

module _ (reply : Reply) where
  unfoldable pub init_mode : Option Bytes → SensorDesc → SensorDesc
  init_mode none d = d
  init_mode (some attr) d = record d {
    attrs = (store_str_attr reply attr (d.dev_modes normal) d.attrs).1;
  }

  -- `sensor_xyz_init`, with the result of `dev_phys_path_by_attr` and of `pipe`.
  unfoldable pub init :
      Option Bytes → Option (ℤ × ℤ) → List ℤ → List ℤ → Store → SensorDesc → Option (ℤ × SensorDesc)
  unfolding config_read_sensor_map init_mode found_path
  init phys pipe junk junk' st d =
      config_read_sensor_map junk junk' st
        (record d { attrs = record { phys_path = found_path phys; writes = d.attrs.writes } })
      >>= λ d₁.
          let d₂ = init_mode d₁.dev_attr_mode d₁ in
          some (pos 0, record d₂ { worker = Select.init d₂.worker (negsuc 0) pipe })

  -- The change of the mode in `sensor_xyz_set_delay`.
  unfoldable pub change_mode : Option Bytes → ℤ → SensorDesc → ℤ × SensorDesc
  change_mode none ms d = (pos 0, d)
  change_mode (some attr) ms d =
      if same_text (d.dev_modes (rate2mode d.applied_delay_ms)) (d.dev_modes (rate2mode ms))
      then (pos 0, d)
      else (let (rc, a) = store_str_attr reply attr (d.dev_modes (rate2mode ms)) d.attrs in
          (rc, record d { attrs = a }))

  -- `sensor_xyz_set_delay`.
  unfoldable pub set_delay : ℤ → SensorDesc → ℤ × SensorDesc
  unfolding change_mode
  set_delay ns d =
      let ms = to_ms ns in
      if ms ==ℤ d.applied_delay_ms
      then (pos 0, d)
      else (let (rc, a) = store_int_attr reply d.dev_attr_rate_ms ms d.attrs in
          let d₁ = record d { attrs = a } in
          if not (rc ==ℤ pos 0)
          then (rc, d₁)
          else (let (rc', d₂) = change_mode d₁.dev_attr_mode ms d₁ in
              if not (rc' ==ℤ pos 0)
              then (rc', d₂)
              else (rc', record d₂ { applied_delay_ms = ms })))

-- `x * y` of two `int`s whose product is one.
unfoldable pub times : ℤ → ℤ → ℤ
unfolding negate
times (pos a) (pos b) = pos (a * b)
times (pos a) (negsuc b) = negate (a * suc b)
times (negsuc a) (pos b) = negate (suc a * b)
times (negsuc a) (negsuc b) = pos (suc a * suc b)

-- A write to `data`, here `values`. A negative index would lie outside; the map has none.
unfoldable pub put_at : List ℤ → ℤ → ℤ → List ℤ
put_at xs (pos i) v = set xs i v
put_at xs (negsuc i) v = xs

unfoldable pub set_axis : ℕ → ℤ → SensorDesc → SensorDesc
unfolding times put_at
set_axis a v d = record d {
  values = put_at d.values (get_or d.map a (pos 0)) (times v (get_or d.sign a (pos 0)));
}

-- The body of the loop of `sensor_xyz_read`.
unfoldable pub handle_event : InputEvent → SensorDesc → SensorDesc
unfolding set_axis
handle_event e d =
    if e.type == d.ev_type_data
    then (if e.code == get_or d.ev_code 0 0
        then set_axis 0 e.value d
        else if e.code == get_or d.ev_code 1 0
        then set_axis 1 e.value d
        else if e.code == get_or d.ev_code 2 0
        then set_axis 2 e.value d
        else d)
    else if e.type == d.ev_type_sync
    then record d { samples = d.samples ++ d.values ∷ [] }
    else d

unfoldable pub handle_events : List InputEvent → SensorDesc → SensorDesc
handle_events [] d = d
handle_events (e ∷ es) d = handle_events es (handle_event e d)

-- `sensor_xyz_read`: what `read` returns, with the events in the array.
unfoldable pub read : ℕ → ℤ → List InputEvent → SensorDesc → SensorDesc
unfolding handle_events
read event_size (negsuc n) events d = d
read event_size (pos n) events d =
    if is_neg (Select.get_fd d.worker)
    then d
    else if n == 0
    then d
    else handle_events (take (n / event_size) events) d

-- `sensor_xyz_close`.
unfoldable pub close : SensorDesc → SensorDesc
close d = record d { worker = Select.destroy d.worker }
