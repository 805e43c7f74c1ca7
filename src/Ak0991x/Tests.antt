-- ===== src/Ak0991x/Tests.antt =====
-- Runs of sensors/ak0991xna.c, with a library that always succeeds.
use akm_dash.Common.{
  ℕ, ◌≡◌, refl, ℤ, pos, negsuc, ◌==ℤ◌, is_neg, is_pos, true, false, not, some, List, [], ◌∷◌, ◌++◌,
  codes,
}
use akm_dash.Config.Text.{Bytes}
use akm_dash.Worker
use akm_dash.Proximity.{InputEvent, ev_syn}
use akm_dash.Ak0991x.{
  LibCall, set_vector, SensorData, AkDesc, Outcome, ev_msc, magv_x, magv_y, magv_z, magv_status,
  handle, activate,
}
use akm_dash.Ak0991x.Power.{IsPaired, activate-IsPaired}
use akm_dash.Ak0991x.Samples.{latest, handle-sample}

abbrev works : List LibCall → ℤ
works log = pos 0

abbrev accepts : List (Bytes × Bytes) → ℤ
accepts log = pos 1

abbrev compass : AkDesc
compass = record {
  select_worker = record {
    worker = Worker.init;
    fd = negsuc 0;
    ctl_read = pos 5;
    ctl_write = pos 6;
    delay = pos 0;
    wakeups = 0;
    closed = [];
  };
  sysfs = record { path = codes "/sys/d"; writes = [] };
  data_xyz = pos 0 ∷ pos 0 ∷ pos 0 ∷ [];
  status = pos 3;
  applied_delay_ms = pos 20;
  calls = [];
  sent = [];
  closed = [];
}

abbrev fine : Outcome
fine = record {
  opened = pos 7;
  first = true;
  second = true;
  malloc = true;
  file = some (codes "settings");
  written = some 4;
}

compass-IsPaired : IsPaired works compass
compass-IsPaired = record { paired = refl; nonzero = refl }

activate-IsPaired_example :
    let (r, d') = activate works accepts 4 fine (pos 1) compass in
    (is_neg r ≡ false → (IsPaired works d') × (is_pos d'.select_worker.fd ≡ not (pos 1 ==ℤ pos 0)))
    × (is_neg r ≡ true → is_pos d'.select_worker.fd ≡ false)
activate-IsPaired_example =
    activate-IsPaired works accepts 4 fine compass (pos 1) compass-IsPaired refl

abbrev message : ℕ → ℤ → InputEvent
message c v = record { type = ev_msc; code = c; value = v }

abbrev sync : InputEvent
sync = record { type = ev_syn; code = 0; value = pos 0 }

abbrev one_sample : List InputEvent
one_sample =
    message magv_x (pos 11) ∷ sync ∷ message magv_y (pos 12) ∷ message magv_status (pos 1) ∷ []

handle-sample_example :
    let v =
      latest magv_x one_sample (pos 0)
      ∷ latest magv_y one_sample (pos 0)
      ∷ latest magv_z one_sample (pos 0)
      ∷ [] in
    let s = latest magv_status one_sample (pos 3) in
    let sd : SensorData = record { data_xyz = v; status = s; delay = pos 20 } in
    let d₁ = handle works one_sample compass in
    let d₂ = handle works (one_sample ++ sync ∷ sync ∷ []) compass in
    (more : List SensorData) × ((calls : List LibCall) × ((d₂.sent ≡ d₁.sent ++ sd ∷ more)
        × (d₂.calls ≡ calls ++ set_vector v s ∷ d₁.calls)))
handle-sample_example =
    handle-sample works one_sample sync (sync ∷ []) compass (pos 0) (pos 0) (pos 0) refl refl
