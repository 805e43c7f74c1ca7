-- ===== src/Wrapper/Find.antt =====
-- The loop of `sensors_wrapper_init` that looks for a sensor of the wanted type.
use akm_dash.Common.{
  ℕ, zero, suc, ◌+◌, ◌<◌, ◌≡◌, refl, ◌∙◌, ℤ, pos, ◌==ℤ◌, ==ℤ_iff, is_neg, true, false, List, ◌∷◌,
  arith, length, get_or, length-set, get_or-set_ne, ◌==◌, Bool-cases, inl, inr,
}
use akm_dash.SensorList.{ApiPtr}
use akm_dash.Wrapper.{call, Found, exhausted, connected, try_init, connect, find_sensor}
use akm_dash.Wrapper.Data.{initialised, Call, Wrapper, Access, slot_at, entry_at, list_get_status}
use akm_dash.Wrapper.Join.{Joins, aimed, connect-Joins}

-- A failed `init` leaves the search where it was, but for the log and the place that is aimed.
pub Joins-after_failure :
    (self : ApiPtr) (i c : ℕ) (d d' : Access) (w w' : Wrapper) (log : List Call)
    → Joins self (aimed i c d) (record w { log = log }) d' w'
    → Joins self d w d' w'
Joins-after_failure self i c d d' w w' log j = record {
  i = j.i;
  inside = j.inside;
  matches = j.matches;
  new_sensor = j.new_sensor;
  new_client = j.new_client;
  old_sensors = λ k ne. j.old_sensors k ne ∙ get_or-set_ne d.sensor i 0 ne;
  old_clients = λ k ne. j.old_clients k ne ∙ get_or-set_ne d.client c 0 ne;
  sensors = j.sensors ∙ length-set d.sensor d.nr i;
  clients = j.clients ∙ length-set d.client d.nr c;
  nr = j.nr;
  match = j.match;
  m_nr = j.m_nr;
  size = j.size;
  slot = j.slot;
  others = j.others;
}

-- The loop ends with a negative `err`, having connected one more sensor or none.
abbrev pub FindOk : ApiPtr → Access → Wrapper → Found → Type 0
FindOk self d w (exhausted err d' w') =
    (is_neg err ≡ true)
    × (d'.nr ≡ d.nr)
    × (d'.m_nr ≡ d.m_nr)
    × (d'.match ≡ d.match)
    × (w'.list ≡ w.list)
FindOk self d w (connected err d' w') = (is_neg err ≡ true) × Joins self d w d' w'

FindOk-after_failure :
    (self : ApiPtr) (i c : ℕ) (d : Access) (w : Wrapper) (log : List Call) (f : Found)
    → FindOk self (aimed i c d) (record w { log = log }) f
    → FindOk self d w f
FindOk-after_failure self i c d w log (exhausted err d' w') h = h
FindOk-after_failure self i c d w log (connected err d' w') h =
    (h.0, Joins-after_failure self i c d d' w w' log h.1)

module _ (reply : List Call → ℤ) (self : ApiPtr) where
  pub find_sensor_other :
      (k i : ℕ) (err : ℤ) (d : Access) (w : Wrapper)
      → ((slot_at i w).sensor_type ==ℤ get_or d.match d.nr (pos 0)) ≡ false
      → find_sensor reply self (suc k) i err d w ≡ find_sensor reply self k (suc i) err d w
  unfolding find_sensor
  find_sensor_other k i err d w m = ground arith

  -- At a sensor of the wanted type the first client has the driver initialised.
  abbrev pub init_log : ℕ → Wrapper → List Call
  init_log i w = Call.init (slot_at i w).api ∷ w.log

  abbrev pub join_result : ℤ → ℕ → Access → Wrapper → List Call → Found
  join_result err i d w log =
      let (d', w') = connect self i (aimed i (entry_at i w).nr d) (record w { log = log }) in
      connected err d' w'

  pub find_sensor_failed :
      (k i : ℕ) (err : ℤ) (d : Access) (w : Wrapper)
      → ((slot_at i w).sensor_type ==ℤ get_or d.match d.nr (pos 0)) ≡ true
      → (list_get_status i initialised w == 0) ≡ true
      → is_neg (reply (init_log i w)) ≡ true
      → find_sensor reply self (suc k) i err d w
        ≡ find_sensor reply self k
            (suc i)
            (reply (init_log i w))
            (aimed i (entry_at i w).nr d)
            (record w { log = init_log i w })
  unfolding find_sensor try_init call
  find_sensor_failed k i err d w m first bad = ground arith

  pub find_sensor_first :
      (k i : ℕ) (err : ℤ) (d : Access) (w : Wrapper)
      → ((slot_at i w).sensor_type ==ℤ get_or d.match d.nr (pos 0)) ≡ true
      → (list_get_status i initialised w == 0) ≡ true
      → is_neg (reply (init_log i w)) ≡ false
      → find_sensor reply self (suc k) i err d w ≡ join_result err i d w (init_log i w)
  unfolding find_sensor try_init call
  find_sensor_first k i err d w m first good = ground arith

  pub find_sensor_shared :
      (k i : ℕ) (err : ℤ) (d : Access) (w : Wrapper)
      → ((slot_at i w).sensor_type ==ℤ get_or d.match d.nr (pos 0)) ≡ true
      → (list_get_status i initialised w == 0) ≡ false
      → find_sensor reply self (suc k) i err d w ≡ join_result err i d w w.log
  unfolding find_sensor try_init call
  find_sensor_shared k i err d w m shared = ground arith

  pub find_sensor-FindOk :
      (k i : ℕ) (err : ℤ) (d : Access) (w : Wrapper)
      → k + i ≡ length w.list
      → d.nr < length d.sensor
      → d.nr < length d.client
      → is_neg err ≡ true
      → FindOk self d w (find_sensor reply self k i err d w)
  find_sensor-FindOk zero i err d w e hs hc neg =
      unfold find_sensor in (neg, refl, refl, refl, refl)
  find_sensor-FindOk (suc k) i err d w e hs hc neg =
      elim (Bool-cases ((slot_at i w).sensor_type ==ℤ get_or d.match d.nr (pos 0))) [
        | inl m ↦ elim (Bool-cases (list_get_status i initialised w == 0)) [
          | inl first ↦ elim (Bool-cases (is_neg (reply (init_log i w)))) [
            | inl bad ↦ rw (find_sensor_failed k i err d w m first bad) (
                FindOk-after_failure self i (entry_at i w).nr d w (init_log i w) _ (
                  find_sensor-FindOk k (suc i) (reply (init_log i w)) (aimed i (entry_at i w).nr d)
                    (record w { log = init_log i w }) (omega arith)
                    (omega (arith, length-set d.sensor d.nr i))
                    (omega (arith, length-set d.client d.nr (entry_at i w).nr)) bad))
            | inr good ↦ rw (find_sensor_first k i err d w m first good) (
              neg,
              connect-Joins self i d w (init_log i w) (omega arith) ((==ℤ_iff _ _).0 m) hs hc,
            )
          ]
          | inr shared ↦
              rw (find_sensor_shared k i err d w m shared)
                (neg, connect-Joins self i d w w.log (omega arith) ((==ℤ_iff _ _).0 m) hs hc)
        ]
        | inr m ↦
            rw (find_sensor_other k i err d w m)
              (find_sensor-FindOk k (suc i) err d w (omega arith) hs hc neg)
      ]
