-- ===== src/Proximity.antt =====
-- sensors/sharp_gp2.c: the driver of the proximity sensor.
pub mod Reports
mod Tests
use akm_dash.Common.{
  ℕ, ℤ, pos, negsuc, ◌==ℤ◌, is_neg, is_pos, Bool, true, false, not, ◌&&◌, Option, none, some, List,
  [], ◌∷◌, ◌++◌, ◌==◌, if◌then◌else◌,
}
use akm_dash.Select
use akm_dash.Select.{Select}

-- The fields of `struct sensor_desc` that change: `distance` is 1.0 or 0.0, given by whether it is
-- 1.0. Beside it, the distances that were put into the queue, the latest last, and the descriptors
-- that `sharp_init` has closed again.
pub record SharpDesc : Type 0 where
  pub select_worker : Select
  pub distance : Bool
  pub delay : ℤ
  pub sent : List Bool
  pub probed : List ℤ

-- `struct input_event`.
pub record InputEvent : Type 0 where
  pub type : ℕ
  pub code : ℕ
  pub value : ℤ

abbrev pub ev_syn : ℕ
ev_syn = 0

abbrev pub ev_abs : ℕ
ev_abs = 3

abbrev pub abs_distance : ℕ
abs_distance = 25

-- `sharp_init`, with the result of `open_input_dev_by_name` and of `pipe`.
unfoldable pub sharp_init : ℤ → Option (ℤ × ℤ) → SharpDesc → ℤ × SharpDesc
sharp_init (negsuc n) pipe d = (negsuc 0, d)
sharp_init (pos n) pipe d = (
  pos 0,
  record d {
    select_worker = Select.init d.select_worker (negsuc 0) pipe;
    probed = d.probed ++ pos n ∷ [];
  },
)

-- `sharp_activate`; the flags say whether the two writes to the worker's pipe succeed.
unfoldable pub sharp_activate : ℤ → Bool → Bool → ℤ → SharpDesc → ℤ × SharpDesc
sharp_activate opened first second enable d =
    let fd = Select.get_fd d.select_worker in
    if not (enable ==ℤ pos 0) && is_neg fd
    then (if is_neg opened then (negsuc 0, d) else (
      pos 0,
      record d {
        select_worker = Select.resume second (Select.set_fd first opened d.select_worker);
      },
    ))
    else if enable ==ℤ pos 0 && is_pos fd
    then (
      pos 0,
      record d {
        select_worker = Select.suspend second (Select.set_fd first (negsuc 0) d.select_worker);
      },
    )
    else (pos 0, d)

unfoldable pub sharp_set_delay : ℤ → SharpDesc → ℤ × SharpDesc
sharp_set_delay ns d =
    (pos 0, record d { delay = ns; select_worker = Select.set_delay ns d.select_worker })

unfoldable pub sharp_close : SharpDesc → SharpDesc
sharp_close d = record d { select_worker = Select.destroy d.select_worker }

-- The loop of `sharp_read` over the events that the calls of `read` give, one by one, until one
-- gives none. It leaves the rest of the events.
unfoldable pub sharp_read : List InputEvent → SharpDesc → SharpDesc × List InputEvent
sharp_read [] d = (d, [])
sharp_read (e ∷ es) d =
    let rest = sharp_read es (record d { distance = not (e.value ==ℤ pos 0) }) in
    if e.type == ev_abs
    then if e.code == abs_distance then rest else (d, es)
    else if e.type == ev_syn
    then (record d { sent = d.sent ++ d.distance ∷ [] }, es)
    else (d, es)
