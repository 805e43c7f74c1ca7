-- ===== src/Bma250/Tests.antt =====
-- Runs of sensors/bma250_input.c, with whole numbers in place of `float`.
use akm_dash.Common.{
  ℕ, suc, ◌<◌, ◌⊎◌, get_or, ◌≡◌, refl, ℤ, pos, negsuc, none, some, List, [], ◌∷◌, ◌++◌, codes,
}
use akm_dash.Config.Text.{Bytes, negate}
use akm_dash.Config.{Entry, live}
use akm_dash.Worker
use akm_dash.Proximity.{InputEvent, ev_abs, ev_syn}
use akm_dash.Bma250.{
  BmaDesc, prefix, read_config, read, arbitrate, least_from, to_ms, request_delay, found_at,
  put_request, is_valid, find_free, behind_first, new_handle,
}
use akm_dash.Bma250.Arbiter.{android, client, Agrees, asked, run, run-Agrees, IsSilent, run_settles}
use akm_dash.Bma250.Orientation.{keys, Reads, IsOriented, read_config-IsOriented}
use akm_dash.Bma250.Motion.{latest, read-sample}

abbrev sensor : BmaDesc ℤ
sensor = record {
  select_worker = record {
    worker = Worker.init;
    fd = negsuc 0;
    ctl_read = pos 5;
    ctl_write = pos 6;
    delay = pos 5000;
    wakeups = 0;
    closed = [];
  };
  sysfs = record { path = codes "/sys/d"; writes = [] };
  current_data = pos 1 ∷ pos 2 ∷ pos 3 ∷ [];
  delay = pos 5000;
  axis_x = pos 0;
  axis_y = pos 1;
  axis_z = pos 2;
  neg_x = pos 1;
  neg_y = pos 1;
  neg_z = pos 0;
  delay_requests = pos 0 ∷ pos 0 ∷ [];
  sent = [];
  probed = [];
}

abbrev opposite : ℤ → ℤ
opposite (pos n) = negate n
opposite (negsuc n) = pos (suc n)

abbrev accepts : List (Bytes × Bytes) → ℤ
accepts log = pos 1

sensor-IsOriented : IsOriented sensor
sensor-IsOriented = record {
  axis_x = (refl, refl);
  axis_y = (refl, refl);
  axis_z = (refl, refl);
  neg_x = (refl, refl);
  neg_y = (refl, refl);
  neg_z = (refl, refl);
}

nothing_asked : Agrees accepts (pos 0, pos 0) (negsuc 0, sensor)
nothing_asked = record {
  held = refl;
  free = λ z. refl;
  used = λ n. absurd (n refl);
  told = refl;
  paced = refl;
}

-- Both ask for a rate, and Android for none at the end; before, the other driver asks for none.
abbrev at_start : BmaDesc ℤ
at_start = record sensor { delay = pos 0 }

run-Agrees-run :
    let es = android (pos 60000000) ∷ client (pos 10000000) ∷ android (pos 0) ∷ [] in
    (s' : ℤ × BmaDesc ℤ) × (run accepts es (negsuc 0, sensor) ≡ some s')
    × Agrees accepts (asked es (pos 0, pos 0)) s'
run-Agrees-run =
    run-Agrees accepts (android (pos 60000000) ∷ client (pos 10000000) ∷ android (pos 0) ∷ [])
      (pos 0, pos 0) (negsuc 0, sensor) nothing_asked

run_settles_example :
    let es =
      client (pos 0) ∷ android (pos 60000000) ∷ client (pos 10000000) ∷ android (pos 0) ∷ [] in
    (s' : ℤ × BmaDesc ℤ) × (run accepts es (negsuc 0, at_start) ≡ some s')
    × ((IsSilent es × (s' ≡ (negsuc 0, at_start))) ⊎ Agrees accepts (asked es (pos 0, pos 0)) s')
run_settles_example =
    run_settles accepts
      (client (pos 0) ∷ android (pos 60000000) ∷ client (pos 10000000) ∷ android (pos 0) ∷ [])
      at_start refl

-- A second driver without a handle writes in front of the array.
second_client :
    request_delay accepts (negsuc 0) (pos 7) (record sensor { delay_requests = pos 0 ∷ pos 9 ∷ [] })
    ≡ none
unfolding request_delay is_valid find_free behind_first new_handle found_at put_request
second_client = refl

-- The least delay, which is in microseconds, is compared with nanoseconds.
mixed_units : arbitrate (pos 4999 ∷ pos 0 ∷ []) ≡ pos 5000
unfolding arbitrate least_from
mixed_units = refl

mixed_units_ms : to_ms (arbitrate (pos 4999 ∷ pos 0 ∷ [])) ≡ 0
unfolding to_ms arbitrate least_from
mixed_units_ms = refl

abbrev line : Bytes → Bytes → Entry
line key value = record { prefix = prefix; key = key; value = value }

abbrev turned : List Entry
turned =
    line (codes "axis_x") (codes "1")
    ∷ line (codes "axis_y") (codes "0")
    ∷ line (codes "axis_z") (codes "2")
    ∷ line (codes "neg_x") (codes "0")
    ∷ line (codes "neg_y") (codes "1")
    ∷ line (codes "neg_z") (codes "0")
    ∷ []

read_config-IsOriented_example :
    (d' : BmaDesc ℤ) × (read_config (live turned) sensor ≡ some d')
    × IsOriented d'
    × ((x y z nx ny nz : ℤ)
        → Reads turned keys (x ∷ y ∷ z ∷ nx ∷ ny ∷ nz ∷ [])
        → d' ≡ record sensor {
          axis_x = x;
          axis_y = y;
          axis_z = z;
          neg_x = nx;
          neg_y = ny;
          neg_z = nz;
        })
    × (((vs : List ℤ) → ¬ Reads turned keys vs) → d' ≡ sensor)
read_config-IsOriented_example = read_config-IsOriented turned sensor sensor-IsOriented

abbrev axis : ℕ → ℤ → InputEvent
axis c v = record { type = ev_abs; code = c; value = v }

abbrev sync : InputEvent
sync = record { type = ev_syn; code = 0; value = pos 0 }

read-sample_example :
    (xs : List ℤ) × (read
        (λ v. v)
        opposite
        (pos 0)
        ((axis 0 (pos 7) ∷ axis 40 (pos 21) ∷ axis 0 (pos 8) ∷ []) ++ sync ∷ sync ∷ [])
        sensor
      ≡ (
        record sensor { current_data = xs; sent = (negsuc 7 ∷ negsuc 1 ∷ pos 3 ∷ []) ∷ [] },
        sync ∷ [],
      ))
    × ((i : ℕ)
        → i < 3
        → get_or xs i (pos 0)
          ≡ latest
              (λ v. v)
              opposite
              (pos 0)
              i
              (axis 0 (pos 7) ∷ axis 40 (pos 21) ∷ axis 0 (pos 8) ∷ [])
              (get_or sensor.current_data i (pos 0)))
unfolding negate
read-sample_example =
    read-sample (λ v. v) opposite (pos 0) (axis 0 (pos 7) ∷ axis 40 (pos 21) ∷ axis 0 (pos 8) ∷ [])
      sync (sync ∷ []) sensor (refl, refl, (refl, refl, (refl, refl, tt))) refl refl
      sensor-IsOriented
