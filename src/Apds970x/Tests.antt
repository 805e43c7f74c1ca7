-- ===== src/Apds970x/Tests.antt =====
-- A run of sensors/apds970x.c with a file that holds the threshold 20.
use akm_dash.Common.{refl, pos, negsuc, Bool, true, false, Option, none, some, List, [], ◌∷◌, codes}
use akm_dash.Config.Text.{Bytes}
use akm_dash.Worker
use akm_dash.Proximity.{InputEvent, ev_abs, abs_distance}
use akm_dash.Apds970x.{ApdsDesc}
use akm_dash.Apds970x.Band.{Op, activating, reading, run, IsBand, run-IsBand}

abbrev static_desc : ApdsDesc
static_desc = record {
  select_worker = record {
    worker = Worker.init;
    fd = negsuc 0;
    ctl_read = pos 5;
    ctl_write = pos 6;
    delay = pos 0;
    wakeups = 0;
    closed = [];
  };
  distance = false;
  delay = pos 0;
  th_det = pos 0;
  th_not_det = negsuc 0;
  th_path = [];
  writes = [];
  sent = [];
  probed = [];
}

abbrev holds_20 : Bytes → Option (Option Bytes)
holds_20 path = some (some (codes "20\n"))

abbrev always : Bytes → Bool
always path = true

abbrev far_away : InputEvent
far_away = record { type = ev_abs; code = abs_distance; value = pos 1 }

abbrev three_ops : List Op
three_ops =
    activating (pos 7) true true (some (codes "i2c/1-0054")) holds_20 (pos 1)
    ∷ reading always (far_away ∷ [])
    ∷ activating (pos 7) true true none holds_20 (pos 0)
    ∷ []

run-IsBand_example : IsBand (run three_ops static_desc)
run-IsBand_example = run-IsBand three_ops static_desc refl refl refl
