-- ===== src/Proximity/Tests.antt =====
-- Runs of sensors/sharp_gp2.c.
use akm_dash.Common.{◌≡◌, refl, pos, negsuc, true, false, some, [], ◌∷◌, ◌++◌}
use akm_dash.Worker
use akm_dash.Select
use akm_dash.Proximity.{SharpDesc, InputEvent, ev_syn, sharp_init, sharp_activate, sharp_read}
use akm_dash.Proximity.Reports.{moves, sharp_read-report}

abbrev sensor : SharpDesc
sensor = record {
  select_worker = record {
    worker = Worker.init;
    fd = negsuc 0;
    ctl_read = pos 5;
    ctl_write = pos 6;
    delay = pos 0;
    wakeups = 0;
    closed = [];
  };
  distance = false;
  delay = pos 0;
  sent = [];
  probed = [];
}

abbrev sync : InputEvent
sync = record { type = ev_syn; code = 0; value = pos 0 }

-- Without a device nothing is set up, and switching on fails.
missing :
    (sharp_init (negsuc 1) (some (pos 5, pos 6)) sensor ≡ (negsuc 0, sensor))
    × (sharp_activate (negsuc 1) true true (pos 1) sensor ≡ (negsuc 0, sensor))
unfolding sharp_init sharp_activate Select.get_fd
missing = (refl, refl)

-- Where the device was opened as descriptor 0, switching off leaves it open.
descriptor_zero :
    let on = (sharp_activate (pos 0) true true (pos 1) sensor).1 in
    sharp_activate (pos 0) true true (pos 0) on ≡ (pos 0, on)
unfolding sharp_activate Select.get_fd Select.resume Select.set_fd Select.notify
descriptor_zero = refl

sharp_read-report_run :
    sharp_read (moves (pos 0 ∷ pos 3 ∷ []) ++ sync ∷ sync ∷ []) sensor
    ≡ (record sensor { distance = true; sent = true ∷ [] }, sync ∷ [])
sharp_read-report_run = sharp_read-report (pos 0 ∷ pos 3 ∷ []) sync (sync ∷ []) sensor refl
