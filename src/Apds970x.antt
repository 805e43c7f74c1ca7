-- ===== src/Apds970x.antt =====
-- sensors/apds970x.c: the driver of a proximity sensor with a threshold in sysfs.
pub mod Band
mod Tests
use akm_dash.Common.{
  ℕ, zero, suc, ℤ, pos, negsuc, ◌==ℤ◌, is_neg, is_pos, ltb, Bool, true, false, not, ◌&&◌, Option,
  none, some, List, [], ◌∷◌, ◌++◌, length, take, codes, ◌==◌, if◌then◌else◌,
}
use akm_dash.Config.Text.{Bytes, atoi}
use akm_dash.Select
use akm_dash.Select.{Select}
use akm_dash.Sysfs.{decimal_long}
use akm_dash.Proximity.{InputEvent, ev_syn, ev_abs, abs_distance}

-- The fields of `struct sensor_desc` that change: `distance` is 1.0 or 0.0, given by whether it is
-- 1.0, and `th_path` is empty where its first byte is 0. Beside it, the files that were written with
-- their text, the distances that were put into the queue and the descriptors that `init` has closed,
-- the latest last.
pub record ApdsDesc : Type 0 where
  pub select_worker : Select
  pub distance : Bool
  pub delay : ℤ
  pub th_det : ℤ
  pub th_not_det : ℤ
  pub th_path : Bytes
  pub writes : List (Bytes × Bytes)
  pub sent : List Bool
  pub probed : List ℤ

abbrev pub un_init : ℤ
un_init = negsuc 0

abbrev pub thresh_default : ℕ
thresh_default = 5

abbrev pub path_size : ℕ
path_size = 100

abbrev pub ev_msc : ℕ
ev_msc = 4

abbrev pub msc_raw : ℕ
msc_raw = 3

unfoldable pub one_less : ℤ → ℤ
one_less (pos zero) = negsuc 0
one_less (pos (suc n)) = pos n
one_less (negsuc n) = negsuc (suc n)

-- The array `buf` after `read` has put these bytes at its start.
unfoldable pub overwrite : Bytes → Bytes → Bytes
overwrite [] buf = buf
overwrite (b ∷ bs) [] = b ∷ bs
overwrite (b ∷ bs) (x ∷ buf) = b ∷ overwrite bs buf

-- The end at `exit_with_defaults`.
unfoldable pub with_defaults : ApdsDesc → ApdsDesc
with_defaults d = record d {
  th_path = [];
  th_not_det = pos thresh_default;
  th_det = one_less (pos thresh_default);
}

-- The thresholds from the text.
unfoldable pub with_text : Bytes → ApdsDesc → ApdsDesc
with_text buf d =
    let not_det = atoi buf in
    let det = one_less not_det in
    if is_neg det
    then record d { th_not_det = pos 1; th_det = pos 0 }
    else record d { th_not_det = not_det; th_det = det }

-- What the call of `read` on the opened file gives, or `none`.
unfoldable pub with_file : Bytes → Option (Option Bytes) → ApdsDesc → ApdsDesc
unfolding with_defaults with_text overwrite
with_file buf none d = with_defaults d
with_file buf (some none) d = with_defaults d
with_file buf (some (some bytes)) d = with_text (overwrite (take path_size bytes) buf) d

unfoldable pub with_path : Option Bytes → (Bytes → Option (Option Bytes)) → ApdsDesc → ApdsDesc
unfolding with_file with_defaults
with_path none file d = with_defaults d
with_path (some phys) file d =
    let path = take 99 (phys ++ codes "/threshold") in
    with_file phys (file path) (record d { th_path = path })

-- `apds9700_init_threshold_members`, with the text of EVIOCGPHYS and what the file of a name gives:
-- whether it can be opened, whether it can be read, and its bytes.
unfoldable pub init_threshold_members :
    Option Bytes → (Bytes → Option (Option Bytes)) → ApdsDesc → ApdsDesc
unfolding with_path
init_threshold_members phys file d =
    if not (d.th_not_det ==ℤ un_init) then d else with_path phys file d

-- The write in `apds9700_change_threshold`, of `cnt + 1` bytes.
unfoldable pub write_threshold : ℤ → ApdsDesc → ApdsDesc
write_threshold th_new d =
    let text = decimal_long th_new in
    if ltb 0 (length text) && ltb (length text) 10
    then record d { writes = d.writes ++ (d.th_path, text ++ 0 ∷ []) ∷ [] }
    else d

unfoldable pub is_empty : Bytes → Bool
is_empty [] = true
is_empty (b ∷ bs) = false

-- Whether a file can be opened for writing.
module _ (writable : Bytes → Bool) where
  -- `apds9700_change_threshold`.
  unfoldable pub change_threshold : ApdsDesc → ApdsDesc
  unfolding write_threshold is_empty
  change_threshold d =
      if is_empty d.th_path
      then d
      else if writable d.th_path
      then write_threshold (if d.distance then d.th_not_det else d.th_det) d
      else d

  -- `apds9700_store_dist`.
  unfoldable pub store_dist : ℤ → ApdsDesc → ApdsDesc
  unfolding change_threshold
  store_dist value d = change_threshold (record d { distance = not (value ==ℤ pos 0) })

  -- What `apds9700_read` does with an event.
  unfoldable pub handle : InputEvent → ApdsDesc → ApdsDesc
  unfolding store_dist
  handle e d =
      if e.type == ev_msc
      then (if e.code == msc_raw then store_dist e.value d else d)
      else if e.type == ev_abs
      then (if e.code == abs_distance then store_dist e.value d else d)
      else if e.type == ev_syn
      then record d { sent = d.sent ++ d.distance ∷ [] }
      else d

  -- `apds9700_read` over the events that the calls of `read` give, one by one.
  unfoldable pub read : List InputEvent → ApdsDesc → ApdsDesc
  unfolding handle
  read [] d = d
  read (e ∷ es) d = read es (handle e d)

-- `apds9700_init`, with the results of `open_input_dev_by_name` and of `pipe`.
unfoldable pub init : ℤ → Option (ℤ × ℤ) → ApdsDesc → ℤ × ApdsDesc
init opened pipe d = if is_neg opened then (opened, d) else (
  pos 0,
  record d {
    probed = d.probed ++ opened ∷ [];
    select_worker = Select.init d.select_worker (negsuc 0) pipe;
  },
)

-- `apds9700_activate`, with the two writes to the worker's pipe and what the threshold is read from.
unfoldable pub activate :
    ℤ → Bool → Bool → Option Bytes → (Bytes → Option (Option Bytes)) → ℤ → ApdsDesc → ℤ × ApdsDesc
unfolding init_threshold_members
activate opened first second phys file enable d =
    let fd = Select.get_fd d.select_worker in
    let d₁ = init_threshold_members phys file d in
    if not (enable ==ℤ pos 0) && is_neg fd
    then (if is_neg opened then (opened, d) else (
      pos 0,
      record d₁ {
        select_worker = Select.resume second (Select.set_fd first opened d₁.select_worker);
      },
    ))
    else if enable ==ℤ pos 0 && is_pos fd
    then (
      pos 0,
      record d {
        select_worker = Select.suspend second (Select.set_fd first (negsuc 0) d.select_worker);
      },
    )
    else (pos 0, d)

-- `apds9700_set_delay`.
unfoldable pub set_delay : ℤ → ApdsDesc → ℤ × ApdsDesc
set_delay ns d =
    (pos 0, record d { delay = ns; select_worker = Select.set_delay ns d.select_worker })

-- `apds9700_close`.
unfoldable pub close : ApdsDesc → ApdsDesc
close d = record d { select_worker = Select.destroy d.select_worker }
