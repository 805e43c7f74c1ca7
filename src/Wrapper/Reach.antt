-- ===== src/Wrapper/Reach.antt =====
-- sensors_wrapper.c from its empty list on: whatever clients and drivers do, in any order.
use akm_dash.Common.{
  ℕ, zero, suc, ◌<◌, ◌≡◌, ◌≢◌, refl, sym, ap, ◌∙◌, ℤ, pos, negsuc, ◌==ℤ◌, is_neg, Bool, true,
  Option, none, some, List, [], length, get_or, ltb, ◌==◌, ==_iff, Bool-cases, inl, inr, arith,
}
use mathlib.Core.Path.{subst}
use akm_dash.SensorList.{ApiPtr, Sensor}
use akm_dash.Wrapper.{
  register, Found, exhausted, connected, connect, find_sensor, scan, wrapper_init, wrapper_activate,
  wrapper_set_delay, wrapper_close, wrapper_data,
}
use akm_dash.Wrapper.Data.{
  active, initialised, Call, Wrapper, Access, slot_at, set_entry, null_slot, links, list_get_status,
  list_put_status, list_set_api,
}
use akm_dash.Wrapper.Frame.{powered}
use akm_dash.Wrapper.Switch.{AllClients}
use akm_dash.Wrapper.Close.{AllInside}
use akm_dash.Wrapper.Find.{
  FindOk, find_sensor-FindOk, init_log, find_sensor_other, find_sensor_failed, find_sensor_first,
  find_sensor_shared,
}
use akm_dash.Wrapper.Init.{IsWaiting, IsWaiting-after, scan_stop, scan_done, scan_again}
use akm_dash.Wrapper.Quiet.{
  Quiet, SameUse, same_use, wrapper_set_delay-Quiet, wrapper_close-Quiet, wrapper_data-Quiet,
}
use akm_dash.Wrapper.Sound.{Sound, Quiet-Sound, wrapper_activate-Sound}
use akm_dash.Wrapper.Sound.Register.{register-Sound}
use akm_dash.Wrapper.Sound.Connect.{Joins-Sound}

connect-log :
    (self : ApiPtr) (i : ℕ) (d : Access) (w : Wrapper) → (connect self i d w).1.log ≡ w.log
unfolding connect set_entry list_put_status list_set_api
connect-log self i d w = refl

same_list :
    (w w' : Wrapper)
    → w'.list ≡ w.list
    → ((p : ApiPtr) → powered p w'.log ≡ powered p w.log)
    → Quiet w w'
same_list w w' l power = record {
  size = ap length l;
  slots = λ j.
      subst (λ xs. SameUse (slot_at j w) (get_or xs j null_slot)) (sym l) (same_use (slot_at j w));
  power = power;
}

abbrev after : Found → Wrapper
after (exhausted err d w) = w
after (connected err d w) = w

module _ (reply : List Call → ℤ) (self : ApiPtr) where
  init_log-power :
      (i : ℕ) (w : Wrapper) (p : ApiPtr) → powered p (init_log reply self i w) ≡ powered p w.log
  unfolding powered
  init_log-power i w p = refl

  -- The search calls no driver's `activate`.
  find_sensor-power :
      (k i : ℕ) (err : ℤ) (d : Access) (w : Wrapper) (p : ApiPtr)
      → powered p (after (find_sensor reply self k i err d w)).log ≡ powered p w.log
  find_sensor-power zero i err d w p = unfold find_sensor in refl
  find_sensor-power (suc k) i err d w p =
      elim (Bool-cases ((slot_at i w).sensor_type ==ℤ get_or d.match d.nr (pos 0))) [
        | inl m ↦ elim (Bool-cases (list_get_status i initialised w == 0)) [
          | inl first ↦ elim (Bool-cases (is_neg (reply (init_log reply self i w)))) [
            | inl bad ↦ rw (find_sensor_failed reply self k i err d w m first bad) (
                find_sensor-power k (suc i) _ _ (record w { log = init_log reply self i w }) p
                ∙ init_log-power i w p)
            | inr good ↦
                rw (find_sensor_first reply self k i err d w m first good)
                  (ap (powered p) (connect-log self i _ _) ∙ init_log-power i w p)
          ]
          | inr shared ↦
              rw (find_sensor_shared reply self k i err d w m shared)
                (ap (powered p) (connect-log self i _ _))
        ]
        | inr m ↦
            rw (find_sensor_other reply self k i err d w m) (find_sensor-power k (suc i) err d w p)
      ]

  abbrev Kept : Option (ℤ × Access × Wrapper) → Type 0
  Kept o = (rc : ℤ) (d' : Access) (w' : Wrapper) → o ≡ some (rc, d', w') → Sound w'

  Kept-some : (rc : ℤ) (d : Access) (w : Wrapper) → Sound w → Kept (some (rc, d, w))
  Kept-some rc d w v rc' d' w' e = subst Sound (ap third e) v
    where
      third : Option (ℤ × Access × Wrapper) → Wrapper
      third none = w
      third (some (a, b, c)) = c

  scan_round :
      (fuel : ℕ) (err : ℤ) (d : Access) (w : Wrapper)
      → IsWaiting reply self d w
      → Sound w
      → ((err' : ℤ) (d' : Access) (w' : Wrapper)
          → is_neg err' ≡ true
          → IsWaiting reply self d' w'
          → Sound w'
          → Kept (scan reply self fuel err' d' w'))
      → (f : Found) → find_sensor reply self (length w.list) 0 err d w ≡ f
      → FindOk self d w f
      → ((p : ApiPtr) → powered p (after f).log ≡ powered p w.log)
      → Kept (scan reply self (suc fuel) err d w)
  scan_round fuel err d w v s go (exhausted err' d' w') e (neg, n, m, x, l) power =
      subst Kept (sym (scan_stop reply self fuel err err' d d' w w' e))
        (Kept-some err' d' w' (Quiet-Sound (same_list w w' l power) s))
  scan_round fuel err d w v s go (connected err' d' w') e (neg, j) power =
      elim (Bool-cases (d'.nr == d'.m_nr)) [
        | inl full ↦
            subst Kept (sym (scan_done reply self fuel err err' d d' w w' e full))
              (Kept-some (pos 0) d' w' (Joins-Sound j power s))
        | inr more ↦
            let ne : d'.nr ≢ d'.m_nr = λ q. absurd (ground (arith, ==_iff d'.nr d'.m_nr)) in
            subst Kept (sym (scan_again reply self fuel err err' d d' w w' e more)) (
              go err' d' w' neg (IsWaiting-after reply self d d' w w' j v ne)
                (Joins-Sound j power s))
      ]

  scan_never :
      (err : ℤ) (d : Access) (w : Wrapper) {r : ℤ × Access × Wrapper}
      → scan reply self zero err d w ≢ some r
  unfolding scan
  scan_never err d w e = cc

  scan-Sound :
      (fuel : ℕ) (err : ℤ) (d : Access) (w : Wrapper)
      → is_neg err ≡ true
      → IsWaiting reply self d w
      → Sound w
      → Kept (scan reply self fuel err d w)
  scan-Sound zero err d w neg v s = λ rc d' w' e. absurd (scan_never err d w e)
  scan-Sound (suc fuel) err d w neg v s =
      scan_round fuel err d w v s (λ err' d' w' n v' s'. scan-Sound fuel err' d' w' n v' s') _ refl
        (find_sensor-FindOk reply self (length w.list) 0 err d w (omega arith)
          (omega (arith, v.0, v.1)) (omega (arith, v.0, v.2)) neg)
        (find_sensor-power (length w.list) 0 err d w)

-- One operation. A driver registers a function table of its own; a client that is initialised has
-- room for its sensors and is not connected to all of them; a client that is switched, paced or
-- closed is connected.
module _ (reply : List Call → ℤ) where
  pub data Step (w : Wrapper) : Wrapper → Type 0 where
    registers :
        (ptr : ℕ) (s : Sensor) (api : ApiPtr)
        → ((j : ℕ) → j < length w.list → (slot_at j w).api ≢ api)
        → Step w (register (some (ptr, s)) (some api) w)
    initialises :
        (self : ApiPtr) (d : Access) {rc : ℤ} {d' : Access} {w' : Wrapper}
        → IsWaiting reply self d w
        → wrapper_init reply self d w ≡ some (rc, d', w')
        → Step w w'
    activates :
        (d : Access) (enable : ℤ)
        → AllClients (links d) w
        → Step w (wrapper_activate reply d enable w).1
    delays :
        (d : Access) (ns : ℤ) → AllInside (links d) w → Step w (wrapper_set_delay reply d ns w).1
    closes : (d : Access) → AllInside (links d) w → Step w (wrapper_close reply d w)
    delivers : (has_data : ApiPtr → Bool) (ptr : ℕ) → Step w (wrapper_data has_data ptr w)

  -- The states from the empty list on.
  pub data Reach : Wrapper → Type 0 where
    start : Reach (record { list = []; log = [] })
    later : {u w : Wrapper} → Reach u → Step u w → Reach w

  start-Sound : Sound (record { list = []; log = [] })
  unfolding powered
  start-Sound = record {
    powered_all = record {
      power = λ j h. absurd (omega arith);
      distinct = λ i j h k e. absurd (omega arith);
    };
    idle = λ j h c n. absurd (omega arith);
    known = λ p n. refl;
  }

  wrapper_init-Sound :
      (self : ApiPtr) (d : Access) (w : Wrapper)
      → IsWaiting reply self d w
      → Sound w
      → Kept reply self (wrapper_init reply self d w)
  unfolding wrapper_init
  wrapper_init-Sound self d w v s = scan-Sound reply self (suc d.m_nr) (negsuc 0) d w refl v s

  Step-Sound : {u w : Wrapper} → Step u w → Sound u → Sound w
  Step-Sound {u} (registers ptr s api fresh) v = register-Sound ptr s api u fresh v
  Step-Sound {u} (initialises self d {rc} {d'} {w'} waiting e) v =
      wrapper_init-Sound self d u waiting v rc d' w' e
  Step-Sound {u} (activates d enable k) v = wrapper_activate-Sound reply d enable u v k
  Step-Sound {u} (delays d ns k) v = Quiet-Sound (wrapper_set_delay-Quiet reply d ns u k) v
  Step-Sound {u} (closes d k) v = Quiet-Sound (wrapper_close-Quiet reply d u k) v
  Step-Sound {u} (delivers has_data ptr) v = Quiet-Sound (wrapper_data-Quiet has_data ptr u) v

  Reach-Sound : {w : Wrapper} → Reach w → Sound w
  Reach-Sound start = start-Sound
  Reach-Sound (later r s) = Step-Sound s (Reach-Sound r)

  -- In every state that the wrapper reaches from its empty list, by registrations of drivers, by
  -- `init`, `activate`, `set_delay` and `close` of clients and by data of drivers, in any order and
  -- whatever the drivers return, the last call of each driver's `activate` has asked it to be on
  -- exactly if a client of its sensor is active; without a call it is off. Each driver registers
  -- once; a client that is initialised is not yet connected to all the sensors that it wants, and
  -- every registered sensor has room for as many clients more as the client lacks sensors; and a
  -- client that is activated is connected.
  pub Reach-IsPowered :
      {w : Wrapper}
      → Reach w
      → (j : ℕ) → j < length w.list
      → powered (slot_at j w).api w.log ≡ ltb 0 (list_get_status j active w)
  Reach-IsPowered r j h = (Reach-Sound r).powered_all.power j h
