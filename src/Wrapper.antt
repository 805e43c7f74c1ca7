-- ===== src/Wrapper.antt =====
-- sensors_wrapper.c: clients that share a hardware sensor.
pub mod Data
pub mod Slots
pub mod Count
pub mod Rate
pub mod Frame
pub mod Power
pub mod Switch
pub mod Pace
pub mod Release
pub mod Delay
pub mod Join
pub mod Find
pub mod Connect
pub mod Init
pub mod Reopen
pub mod Deliver
pub mod Close
pub mod Quiet
pub mod Sound
pub mod Reach
mod Tests
use akm_dash.Common.{
  ℕ, zero, suc, ◌+◌, ◌-◌, ℤ, pos, negsuc, ◌==ℤ◌, is_neg, Bool, true, false, not, ◌&&◌, Option, none,
  some, List, [], ◌∷◌, ◌++◌, length, get_or, set, take, ltb, ◌==◌, if◌then◌else◌,
}
use akm_dash.SensorList.{ApiPtr, Sensor}
use akm_dash.Wrapper.Data.{
  initialised, active, closed, Status, test, Entry, Slot, null_slot, Call, Wrapper, Access, no_rate,
  fresh_entry, slot_at, entry_at, set_entry, Link, links, list_size, list_get_status,
  list_put_status, list_get_rate, list_set_rate, list_set_api,
}

-- `sensors_wrapper_register`; `none` is a NULL argument. Past sixteen sensors it does nothing.
unfoldable pub register : Option (ℕ × Sensor) → Option ApiPtr → Wrapper → Wrapper
register none api w = w
register (some s) none w = w
register (some (ptr, s)) (some api) w =
    if ltb (length w.list) list_size
    then record w {
      list =
          w.list
          ++ record { sensor = ptr; sensor_type = s.type; api = api; entry = fresh_entry } ∷ [];
    }
    else w

-- What ends the loop of `sensors_wrapper_init`: its end with this `err`, or a connection.
pub data Found : Type 0 where
  exhausted : ℤ → Access → Wrapper → Found
  connected : ℤ → Access → Wrapper → Found

-- The rest of the body after an `init` that did not fail, up to the test of `m_nr`.
unfoldable pub connect : ApiPtr → ℕ → Access → Wrapper → Access × Wrapper
connect self i d w =
    let c = get_or d.client d.nr 0 in
    let w₁ = list_put_status (get_or d.sensor d.nr 0) c initialised true w in
    let w₂ = list_set_api (get_or d.sensor d.nr 0) c self w₁ in
    let e = entry_at i w₂ in
    (record d { nr = suc d.nr }, set_entry i (record e { nr = suc e.nr }) w₂)

-- The value that a driver's function returns is a function of all calls so far, the newest first.
module _ (reply : List Call → ℤ) where
  -- A call through a driver's function table.
  unfoldable pub call : Call → Wrapper → ℤ × Wrapper
  call c w = let log = c ∷ w.log in (reply log, record w { log = log })

  -- The loop's body at a sensor of the wanted type, up to the call of the driver's `init`.
  unfoldable pub try_init : ℕ → Access → Wrapper → ℤ × Access × Wrapper
  unfolding call list_get_status
  try_init i d w =
      let d' = record d {
        sensor = set d.sensor d.nr i;
        client = set d.client d.nr (entry_at i w).nr;
      } in
      let (rv, w') =
        if list_get_status i initialised w == 0
        then call (Call.init (slot_at i w).api) w
        else (pos 0, w) in
      (rv, d', w')

  -- The `for` loop: `k` rounds are left.
  unfoldable pub find_sensor : ApiPtr → ℕ → ℕ → ℤ → Access → Wrapper → Found
  find_sensor self zero i err d w = exhausted err d w
  find_sensor self (suc k) i err d w =
      elim ((slot_at i w).sensor_type ==ℤ get_or d.match d.nr (pos 0)) [
        | true ↦
            (let (rv, d₁, w₁) = try_init i d w in
              elim (is_neg rv) [
                | true ↦ find_sensor self k (suc i) rv d₁ w₁
                | false ↦ (let (d₂, w₂) = connect self i d₁ w₁ in connected err d₂ w₂)
              ])
        | false ↦ find_sensor self k (suc i) err d w
      ]

  -- The jumps back to `scan`, on fuel; `none` is a run that has not ended.
  unfoldable pub scan : ApiPtr → ℕ → ℤ → Access → Wrapper → Option (ℤ × Access × Wrapper)
  scan self zero err d w = none
  scan self (suc fuel) err d w = elim (find_sensor self (length w.list) 0 err d w) [
    | exhausted err' d' w' ↦ some (err', d', w')
    | connected err' d' w' ↦ elim (d'.nr == d'.m_nr) [
      | true ↦ some (pos 0, d', w')
      | false ↦ scan self fuel err' d' w'
    ]
  ]

  -- `sensors_wrapper_init`. Each jump connects one more of the `m_nr` sensors that are wanted.
  unfoldable pub wrapper_init : ApiPtr → Access → Wrapper → Option (ℤ × Access × Wrapper)
  wrapper_init self d w = scan self (suc d.m_nr) (negsuc 0) d w

  -- The part of the loop of `sensors_wrapper_activate` for `!enable`.
  unfoldable pub release : ℕ → ℕ → ℤ → Wrapper → ℤ × Wrapper
  unfolding call list_get_rate
  release s c rv w =
      let w₁ = list_put_status s c active false w in
      let old_rate = list_get_rate s w₁ in
      let w₂ = list_set_rate s c no_rate w₁ in
      let new_rate = list_get_rate s w₂ in
      if not (new_rate ==ℤ no_rate) && not (old_rate ==ℤ new_rate)
      then call (Call.set_delay (slot_at s w₂).api new_rate) w₂
      else (rv, w₂)

  unfoldable pub activate_one : ℤ → ℕ → ℕ → ℤ → Wrapper → ℤ × Wrapper
  unfolding call release list_get_status
  activate_one enable s c rv w =
      let (rv₁, w₁) = if enable ==ℤ pos 0 then release s c rv w else (rv, w) in
      let others = list_get_status s active w₁ in
      let w₂ = if enable ==ℤ pos 0 then w₁ else list_put_status s c active true w₁ in
      if others == 0 then call (Call.activate (slot_at s w₂).api enable) w₂ else (rv₁, w₂)

  unfoldable pub activate_all : ℤ → List Link → ℤ → Wrapper → ℤ × Wrapper
  activate_all enable [] rv w = (rv, w)
  activate_all enable ((s, c) ∷ r) rv w =
      let (rv', w') = activate_one enable s c rv w in activate_all enable r rv' w'

  -- `sensors_wrapper_activate`.
  unfoldable pub wrapper_activate : Access → ℤ → Wrapper → ℤ × Wrapper
  wrapper_activate d enable w = activate_all enable (links d) (pos 0) w

  unfoldable pub set_delay_one : ℤ → ℕ → ℕ → ℤ → Wrapper → ℤ × Wrapper
  unfolding call list_get_rate
  set_delay_one ns s c rv w =
      let old_rate = list_get_rate s w in
      let w₁ = list_set_rate s c ns w in
      let new_rate = list_get_rate s w₁ in
      if old_rate ==ℤ new_rate
      then (rv, w₁)
      else call (Call.set_delay (slot_at s w₁).api new_rate) w₁

  unfoldable pub set_delay_all : ℤ → List Link → ℤ → Wrapper → ℤ × Wrapper
  set_delay_all ns [] rv w = (rv, w)
  set_delay_all ns ((s, c) ∷ r) rv w =
      let (rv', w') = set_delay_one ns s c rv w in set_delay_all ns r rv' w'

  -- `sensors_wrapper_set_delay`.
  unfoldable pub wrapper_set_delay : Access → ℤ → Wrapper → ℤ × Wrapper
  wrapper_set_delay d ns w = set_delay_all ns (links d) (pos 0) w

  unfoldable pub close_one : ℕ → ℕ → Wrapper → Wrapper
  unfolding call list_get_status
  close_one s c w =
      let w₁ = list_set_rate s c no_rate (list_put_status s c closed true w) in
      if list_get_status s closed w₁ == (entry_at s w₁).nr
      then (call (Call.close (slot_at s w₁).api) w₁).1
      else w₁

  unfoldable pub close_all : List Link → Wrapper → Wrapper
  close_all [] w = w
  close_all ((s, c) ∷ r) w = close_all r (close_one s c w)

  -- `sensors_wrapper_close`.
  unfoldable pub wrapper_close : Access → Wrapper → Wrapper
  wrapper_close d w = close_all (links d) w

-- The search loop of `sensors_wrapper_data`.
unfoldable pub find_slot : ℕ → List Slot → Option Slot
find_slot ptr [] = none
find_slot ptr (s ∷ r) = let rest = find_slot ptr r in if ptr == s.sensor then some s else rest

-- The loop over the clients: their function tables and status bytes, and which tables have `data`.
unfoldable pub deliver_all : (ApiPtr → Bool) → List ApiPtr → List Status → List Call → List Call
deliver_all has_data [] ss log = log
deliver_all has_data (p ∷ ps) [] log = log
deliver_all has_data (p ∷ ps) (s ∷ ss) log =
    deliver_all has_data ps ss (if test active s && has_data p then Call.deliver p ∷ log else log)

-- `sensors_wrapper_data` for the sensor at this address.
unfoldable pub wrapper_data : (ApiPtr → Bool) → ℕ → Wrapper → Wrapper
wrapper_data has_data ptr w = elim (find_slot ptr w.list) [
  | none ↦ w
  | some s ↦ record w {
    log = deliver_all has_data (take s.entry.nr s.entry.api) (take s.entry.nr s.entry.status) w.log;
  }
]
