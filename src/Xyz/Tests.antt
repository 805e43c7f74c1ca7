-- ===== src/Xyz/Tests.antt =====
-- Runs of sensors/sensor_xyz.c for an accelerometer whose first two axes are exchanged.
use akm_dash.Common.{
  ℕ, zero, suc, ◌<◌, ◌≡◌, ◌≢◌, refl, ap, sym, ◌∙◌, ℤ, pos, negsuc, ◌==ℤ◌, is_neg, true, none, some,
  List, [], ◌∷◌, ◌++◌, get_or, codes, arith,
}
use akm_dash.Config.{live}
use akm_dash.Config.Text.{Bytes}
use akm_dash.Worker
use akm_dash.Select
use akm_dash.Select.{Select}
use akm_dash.Xyz.Attr.{
  Reply, DevMode, fastest, game, ui, normal, decimal, decimal_from, store_int_attr, same_text,
  to_ms, to_int, rate2mode, store_str_attr, append_attr, open_attr, cut, written,
}
use akm_dash.Xyz.{
  SensorDesc, InputEvent, Devices, init, activate, set_delay, change_mode, all_between, read,
  handle_events, handle_event,
}
use akm_dash.Xyz.Axes.{IsOriented, init-IsOriented}
use akm_dash.Xyz.Tables.{lsm303dlhc_accelerometer}
use akm_dash.Xyz.Axis.{IsMapped, latest}
use akm_dash.Xyz.Samples.{handle_events-sample}
use akm_dash.Xyz.Power.{IsConsistent, activate-IsConsistent}
use akm_dash.Xyz.Stores.{told, text_of}
use akm_dash.Xyz.Delay.{ModeFits, set_delay-told}

abbrev idle_worker : Select
idle_worker = record {
  worker = Worker.init;
  fd = negsuc 0;
  ctl_read = pos 5;
  ctl_write = pos 6;
  delay = pos 0;
  wakeups = 0;
  closed = [];
}

abbrev modes : DevMode → Bytes
modes fastest = codes "poll"
modes game = codes "poll"
modes ui = codes "ui"
modes normal = codes "normal"

abbrev accelerometer : SensorDesc
accelerometer = record {
  attrs = record { phys_path = codes "/sys/d/"; writes = [] };
  worker = idle_worker;
  values = pos 0 ∷ pos 0 ∷ pos 0 ∷ [];
  map_prefix = codes "acc";
  map = pos 1 ∷ pos 0 ∷ pos 2 ∷ [];
  sign = pos 1 ∷ negsuc 0 ∷ pos 1 ∷ [];
  applied_delay_ms = pos 0;
  dev_path = [];
  dev_attr_rate_ms = codes "pollrate_ms";
  dev_attr_mode = some (codes "mode");
  dev_modes = modes;
  ev_type_data = 3;
  ev_type_sync = 0;
  ev_code = 0 ∷ 1 ∷ 2 ∷ [];
  samples = [];
}

-- The system accepts every write.
abbrev accepts : Reply
accepts log = some (pos 1)

abbrev one_device : Devices
one_device = record {
  readable = λ p. true;
  find_input = some (codes "/dev/input/event0");
  open_path = λ p. pos 9;
}

abbrev first : ℕ → ℤ → InputEvent
first c v = record { type = 3; code = c; value = v }

abbrev sync : InputEvent
sync = record { type = 0; code = 0; value = pos 0 }

-- Four events of 24 bytes: one sample.
sample_runs :
    (read 24
      (pos 96)
      (first 0 (pos 7) ∷ first 1 (pos 8) ∷ first 2 (pos 9) ∷ sync ∷ [])
      (activate one_device true true (pos 1) accelerometer).1).samples
    ≡ (negsuc 7 ∷ pos 7 ∷ pos 9 ∷ []) ∷ []
unfolding read activate Select.get_fd Select.resume Select.set_fd Select.notify handle_event
sample_runs = refl

decimal_runs : decimal (negsuc 204) ≡ codes "-205"
unfolding decimal
decimal_runs = refl

abbrev place : ℕ → ℕ
place zero = 1
place (suc zero) = 0
place (suc (suc n)) = 2

place_inside : (i : ℕ) → i < 3 → place i < 3
place_inside zero h = omega arith
place_inside (suc zero) h = omega arith
place_inside (suc (suc n)) h = omega arith

place_twice : (i : ℕ) → i < 3 → place (place i) ≡ i
place_twice zero h = refl
place_twice (suc zero) h = refl
place_twice (suc (suc n)) h = omega arith

map_places : (i : ℕ) → i < 3 → get_or accelerometer.map i (pos 0) ≡ pos (place i)
map_places zero h = refl
map_places (suc zero) h = refl
map_places (suc (suc zero)) h = refl
map_places (suc (suc (suc n))) h = absurd (omega arith)

code_is : (i : ℕ) → i < 3 → get_or accelerometer.ev_code i 0 ≡ i
code_is zero h = refl
code_is (suc zero) h = refl
code_is (suc (suc zero)) h = refl
code_is (suc (suc (suc n))) h = absurd (omega arith)

abbrev exchanged : IsMapped accelerometer
exchanged = record {
  place = place;
  inside = place_inside;
  mapped = map_places;
  apart = λ i j h k e. sym (place_twice i h) ∙ ap place e ∙ place_twice j k;
  coded = λ i j h k e. sym (code_is i h) ∙ e ∙ code_is j k;
}

mode_fits : ModeFits accelerometer
unfolding same_text
mode_fits attr e = rw (← some_same e) ((omega arith, omega arith), refl)
  where
    some_same : some (codes "mode") ≡ some attr → codes "mode" ≡ attr
    some_same q = cc

not_applied :
    to_ms (pos 66000000) ≡ pos 0
    → told accepts (codes "/sys/d/pollrate_ms") [] ≡ some (text_of (pos 0))
unfolding to_ms to_int
not_applied e = cc

accepted : (set_delay accepts (pos 66000000) accelerometer).0 ≡ pos 0
unfolding set_delay change_mode to_ms to_int store_int_attr store_str_attr decimal decimal_from
    rate2mode same_text append_attr cut open_attr written
accepted = refl

init-IsOriented_run :
    (d' : SensorDesc) × (init accepts none
        (some (pos 5, pos 6))
        (pos 0 ∷ pos 0 ∷ pos 0 ∷ [])
        (pos 0 ∷ pos 0 ∷ pos 0 ∷ [])
        (live (
          record {
            prefix = codes "lsm303dlhc-acceleration";
            key = codes "axis_map";
            value = codes "0,1,7";
          }
          ∷ []))
        lsm303dlhc_accelerometer
      ≡ some (pos 0, d'))
    × IsOriented d'
    × (Select.get_fd d'.worker ≡ negsuc 0)
unfolding all_between
init-IsOriented_run =
    init-IsOriented accepts none (some (pos 5, pos 6)) (pos 0 ∷ pos 0 ∷ pos 0 ∷ [])
      (pos 0 ∷ pos 0 ∷ pos 0 ∷ [])
      (record {
        prefix = codes "lsm303dlhc-acceleration";
        key = codes "axis_map";
        value = codes "0,1,7";
      }
        ∷ [])
      lsm303dlhc_accelerometer refl refl ((refl, refl), (refl, refl))

activate-IsConsistent_example :
    let (rc, d') = activate one_device true true (pos 1) accelerometer in
    IsConsistent d'.worker
    × (rc ≡ pos 0 → is_neg d'.worker.fd ≡ (pos 1 ==ℤ pos 0))
    × (rc ≢ pos 0 → (is_neg rc ≡ true) × (is_neg d'.worker.fd ≡ true) × (pos 1 ≢ pos 0))
unfolding Worker.init
activate-IsConsistent_example =
    activate-IsConsistent one_device true true (pos 1) accelerometer ((λ e. cc), (λ e. refl))

set_delay-told_example :
    let d' = (set_delay accepts (pos 66000000) accelerometer).1 in
    (d'.applied_delay_ms ≡ to_ms (pos 66000000))
    × (told accepts (codes "/sys/d/pollrate_ms") d'.attrs.writes
        ≡ some (text_of (to_ms (pos 66000000))))
set_delay-told_example =
    set_delay-told accepts (pos 66000000) accelerometer (omega arith, omega arith) mode_fits
      not_applied accepted

handle_events-sample_example :
    (sample : List ℤ) × ((handle_events
        ((first 1 (pos 8) ∷ first 1 (pos 6) ∷ []) ++ sync ∷ [])
        accelerometer).samples
      ≡ (handle_events (first 1 (pos 8) ∷ first 1 (pos 6) ∷ []) accelerometer).samples
        ++ sample ∷ [])
    × ((i : ℕ)
        → i < 3
        → get_or sample (place i) (pos 0)
          ≡ latest i accelerometer
              (first 1 (pos 8) ∷ first 1 (pos 6) ∷ [])
              (get_or accelerometer.values (place i) (pos 0)))
handle_events-sample_example =
    handle_events-sample (first 1 (pos 8) ∷ first 1 (pos 6) ∷ []) sync accelerometer exchanged refl
      (λ e. absurd (omega arith))
