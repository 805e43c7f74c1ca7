-- ===== src/Bma250.antt =====
-- sensors/bma250_input.c: the accelerometer, which two clients ask for rates.
pub mod Arbiter
pub mod Orientation
pub mod Motion
mod Tests
use akm_dash.Common.{
  ℕ, suc, ◌-◌, ◌/◌, ◌%◌, ◌^◌, ℤ, pos, negsuc, ◌==ℤ◌, is_neg, is_pos, ltb, ltb_ℤ, Bool, true, false,
  not, ◌&&◌, ◌||◌, Option, none, some, List, [], ◌∷◌, ◌++◌, get_or, set, codes, ◌==◌, if◌then◌else◌,
}
use akm_dash.Config.Text.{Bytes}
use akm_dash.Config
use akm_dash.Config.{Store, Output, ints, type_int, ◌>>=◌}
use akm_dash.Select
use akm_dash.Select.{Select}
use akm_dash.Sysfs
use akm_dash.Sysfs.{Sysfs}
use akm_dash.Proximity.{InputEvent, ev_syn, ev_abs}

-- `struct sensor_desc`. Beside it, the accelerations that were put into the queue, the latest last,
-- and the descriptors that `init` has closed again. The type `N` is `float`.
pub record BmaDesc (N : Type 0) : Type 0 where
  pub select_worker : Select
  pub sysfs : Sysfs
  pub current_data : List N
  pub delay : ℤ
  pub axis_x : ℤ
  pub axis_y : ℤ
  pub axis_z : ℤ
  pub neg_x : ℤ
  pub neg_y : ℤ
  pub neg_z : ℤ
  pub delay_requests : List ℤ
  pub sent : List (List N)
  pub probed : List ℤ

abbrev pub min_delay : ℤ
min_delay = pos 5000

abbrev pub max_clients : ℕ
max_clients = 2

abbrev pub prefix : Bytes
prefix = codes "bma250input"

abbrev pub input_name : Bytes
input_name = codes "bma250"

-- `conf_values`: the keys with their ranges.
abbrev pub conf_values : List (Bytes × ℤ × ℤ)
conf_values =
    (codes "axis_x", pos 0, pos 2)
    ∷ (codes "axis_y", pos 0, pos 2)
    ∷ (codes "axis_z", pos 0, pos 2)
    ∷ (codes "neg_x", pos 0, pos 1)
    ∷ (codes "neg_y", pos 0, pos 1)
    ∷ (codes "neg_z", pos 0, pos 1)
    ∷ []

-- A value that was read, or `none` where the function returns.
unfoldable pub in_bounds : ℤ → ℤ → ℤ × Output → Option ℤ
in_bounds lo hi (rc, ints (value ∷ vs)) =
    if is_neg rc || ltb_ℤ value lo || ltb_ℤ hi value then none else some value
in_bounds lo hi (rc, Output.ints []) = none
in_bounds lo hi (rc, Output.nothing) = none
in_bounds lo hi (rc, Output.string s) = none

unfoldable pub prepend : Option ℤ → Option (List ℤ) → Option (List ℤ)
prepend none vs = none
prepend (some v) none = none
prepend (some v) (some vs) = some (v ∷ vs)

-- The loop over `conf_values`, on a live list of entries.
unfoldable pub read_values : List (Bytes × ℤ × ℤ) → Store → Option (Option (List ℤ))
unfolding in_bounds prepend
read_values [] st = some (some [])
read_values ((key, lo, hi) ∷ cs) st = Config.get_key prefix key type_int 4 st >>= λ r.
    read_values cs st >>= λ vs. some (prepend (in_bounds lo hi r) vs)

module _ {N : Type 0} where
  unfoldable pub take_over : Option (List ℤ) → BmaDesc N → BmaDesc N
  take_over (some (x ∷ y ∷ z ∷ nx ∷ ny ∷ nz ∷ vs)) d = record d {
    axis_x = x;
    axis_y = y;
    axis_z = z;
    neg_x = nx;
    neg_y = ny;
    neg_z = nz;
  }
  take_over _ d = d

  -- `bma250_input_read_config`; `none` is a use of freed memory.
  unfoldable pub read_config : Store → BmaDesc N → Option (BmaDesc N)
  unfolding read_values take_over
  read_config st d =
      if Config.have_config_file st
      then (read_values conf_values st >>= λ vs. some (take_over vs d))
      else some d

  -- `bma250_input_init`, with the results of `open_input_dev_by_name` and of `pipe`, and the number
  -- of the device that `sensors_sysfs_init` finds.
  unfoldable pub init : ℤ → Option ℤ → Option (ℤ × ℤ) → Store → BmaDesc N → Option (ℤ × BmaDesc N)
  unfolding read_config
  init opened found pipe st d = read_config st d >>= λ d₁. some (
      if is_neg opened then (negsuc 0, d₁) else (
        pos 0,
        record d₁ {
          probed = d₁.probed ++ opened ∷ [];
          sysfs = (Sysfs.sysfs_init found input_name Sysfs.input_dev d₁.sysfs).1;
          select_worker = Select.init d₁.select_worker (negsuc 0) pipe;
        },
      ))

  -- `bma250_input_activate`; the flags say whether the two writes to the worker's pipe succeed.
  unfoldable pub activate : ℤ → Bool → Bool → ℤ → BmaDesc N → ℤ × BmaDesc N
  activate opened first second enable d =
      let fd = Select.get_fd d.select_worker in
      if not (enable ==ℤ pos 0) && is_neg fd
      then (if is_neg opened then (negsuc 0, d) else (
        pos 0,
        record d {
          select_worker = Select.resume second (Select.set_fd first opened d.select_worker);
        },
      ))
      else if enable ==ℤ pos 0 && is_pos fd
      then (
        pos 0,
        record d {
          select_worker = Select.suspend second (Select.set_fd first (negsuc 0) d.select_worker);
        },
      )
      else (pos 0, d)

  -- `bma250_input_close`.
  unfoldable pub close : BmaDesc N → BmaDesc N
  close d = record d { select_worker = Select.destroy d.select_worker }

-- `unsigned int ms = ns/(1000*1000)`, whose division goes towards zero.
unfoldable pub to_ms : ℤ → ℕ
to_ms (pos n) = n / 1000000 % 2 ^ 32
to_ms (negsuc n) = (2 ^ 32 - suc n / 1000000 % 2 ^ 32) % 2 ^ 32

-- The loop of `bma250_input_config_delay`, from this `usec` on.
unfoldable pub least_from : ℤ → List ℤ → ℤ
least_from usec [] = usec
least_from usec (x ∷ xs) = least_from (if ltb_ℤ (pos 0) x && ltb_ℤ x usec then x else usec) xs

unfoldable pub arbitrate : List ℤ → ℤ
unfolding least_from
arbitrate requests =
    let usec = least_from (get_or requests 0 (pos 0)) requests in
    if ltb_ℤ usec min_delay then min_delay else usec

-- VALID_HANDLE.
unfoldable pub is_valid : ℤ → Bool
is_valid h = ltb_ℤ (pos 0) h && ltb_ℤ h (pos max_clients)

-- The loop that looks for a new handle, with `i` of the requests behind it.
unfoldable pub find_free : ℕ → List ℤ → Option ℕ
find_free i [] = none
find_free i (x ∷ xs) = let rest = find_free (suc i) xs in if x ==ℤ pos 0 then some i else rest

unfoldable pub behind_first : List ℤ → List ℤ
behind_first [] = []
behind_first (x ∷ xs) = xs

-- The handle that `*handle` and `h` have at `found`.
unfoldable pub new_handle : Option ℕ → ℤ → ℤ
new_handle (some i) h = pos i
new_handle none h = h

-- The write to `delay_requests[h]`; `none` lies out of bounds.
unfoldable pub put_request : ℤ → ℤ → List ℤ → Option (List ℤ)
put_request (pos i) ns xs = if ltb i max_clients then some (set xs i ns) else none
put_request (negsuc i) ns xs = none

-- What `sensors_sysfs_write` returns for the files so far.
module _ {N : Type 0} (reply : List (Bytes × Bytes) → ℤ) where
  -- `bma250_input_set_delay`.
  unfoldable pub set_delay : ℤ → BmaDesc N → ℤ × BmaDesc N
  unfolding to_ms
  set_delay ns d =
      let ms = to_ms ns in
      let d₁ = record d { delay = ns; select_worker = Select.set_delay ns d.select_worker } in
      let (ret, s₁) = Sysfs.sysfs_write_int reply (codes "bma250_rate") (pos ms) d₁.sysfs in
      let (_, s₂) = Sysfs.sysfs_write_int reply (codes "bma250_range") (pos 2) s₁ in
      let resolution = if ltb 50 ms then pos 0 else pos 1 in
      let (_, s₃) = Sysfs.sysfs_write_int reply (codes "bma250_resolution") resolution s₂ in
      if is_neg ret then (ret, record d₁ { sysfs = s₁ }) else (ret, record d₁ { sysfs = s₃ })

  -- `bma250_input_config_delay`.
  unfoldable pub config_delay : BmaDesc N → ℤ × BmaDesc N
  unfolding arbitrate set_delay
  config_delay d = (pos 0, (set_delay (arbitrate d.delay_requests) d).1)

  -- `bma250_input_fw_delay`.
  unfoldable pub fw_delay : ℤ → BmaDesc N → ℤ × BmaDesc N
  unfolding config_delay
  fw_delay ns d = config_delay (record d { delay_requests = set d.delay_requests 0 ns })

  -- The end of `bma250_input_request_delay`, from `found` on: the result, `*handle` and the state.
  unfoldable pub found_at : ℤ → ℤ → ℤ → BmaDesc N → Option (ℤ × ℤ × BmaDesc N)
  unfolding put_request config_delay
  found_at handle h ns d = put_request h ns d.delay_requests >>= λ requests.
      let (err, d₁) = config_delay (record d { delay_requests = requests }) in
      if err ==ℤ pos 0
      then some (err, handle, d₁)
      else (put_request h (pos 0) d₁.delay_requests >>= λ rs.
          some (err, negsuc 0, record d₁ { delay_requests = rs }))

  -- `bma250_input_request_delay`.
  unfoldable pub request_delay : ℤ → ℤ → BmaDesc N → Option (ℤ × ℤ × BmaDesc N)
  unfolding is_valid find_free behind_first new_handle found_at
  request_delay h ns d =
      if ns ==ℤ pos 0 && is_valid h
      then found_at (negsuc 0) h ns d
      else if ns ==ℤ pos 0
      then some (negsuc 0, h, d)
      else if is_valid h
      then found_at h h ns d
      else (let h' = new_handle (find_free 1 (behind_first d.delay_requests)) h in
          found_at h' h' ns d)

abbrev pub abs_misc : ℕ
abs_misc = 40

-- `current_data[i]`. The driver's own numbers, and those that it takes over, are 0, 1 or 2.
unfoldable pub data_at : {N : Type 0} → N → List N → ℤ → N
data_at zero_n xs (pos i) = get_or xs i zero_n
data_at zero_n xs (negsuc i) = zero_n

-- The arithmetic of `float` that the driver uses.
module _ {N : Type 0} (ev2grav : ℤ → N) (negated : N → N) (zero_n : N) where
  -- A component of the acceleration.
  unfoldable pub component : ℤ → ℤ → List N → N
  unfolding data_at
  component neg axis xs = let v = data_at zero_n xs axis in if neg ==ℤ pos 0 then v else negated v

  unfoldable pub acceleration : BmaDesc N → List N
  unfolding component
  acceleration d =
      component d.neg_x d.axis_x d.current_data
      ∷ component d.neg_y d.axis_y d.current_data
      ∷ component d.neg_z d.axis_z d.current_data
      ∷ []

  -- The loop of `bma250_input_read` over the events that the calls of `read` give, one by one. It
  -- leaves the rest of the events.
  unfoldable pub read : List InputEvent → BmaDesc N → BmaDesc N × List InputEvent
  unfolding acceleration
  read [] d = (d, [])
  read (e ∷ es) d =
      let moved = set d.current_data e.code (ev2grav e.value) in
      let values = if ltb e.code 3 then moved else d.current_data in
      let rest = read es (record d { current_data = values }) in
      if e.type == ev_abs
      then (if ltb e.code 3 || e.code == abs_misc then rest else (d, es))
      else if e.type == ev_syn
      then (record d { sent = d.sent ++ acceleration d ∷ [] }, es)
      else (d, es)
