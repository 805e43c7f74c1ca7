-- ===== src/Wrapper/Join.antt =====
-- What `sensors_wrapper_init` writes when it connects a client to a sensor.
use mathlib.Core.Path.{ap₂}
use akm_dash.Common.{
  ℕ, suc, ◌<◌, ◌≡◌, ◌≢◌, refl, ap, ◌∙◌, pos, true, List, arith, length, get_or, set, length-set,
  get_or-set_self, get_or-set_ne,
}
use akm_dash.SensorList.{ApiPtr}
use akm_dash.Wrapper.{connect}
use akm_dash.Wrapper.Data.{
  initialised, unused, put, Entry, Slot, Call, Wrapper, Access, slot_at, entry_at, set_entry,
  list_put_status, list_set_api,
}
use akm_dash.Wrapper.Slots.{
  slot_at-set_entry_self, slot_at-set_entry_ne, length-set_entry, with_status, with_api,
  list_put_status_lem, list_set_api_lem,
}

-- The entry after one more client.
abbrev pub joined : ApiPtr → Entry → Entry
joined self e = record e {
  api = set e.api e.nr self;
  status = set e.status e.nr (put initialised true (get_or e.status e.nr unused));
  nr = suc e.nr;
}

-- The client has one more sensor, `i`, of the type that was wanted, and `i` has one more client.
pub record Joins (self : ApiPtr) (d : Access) (w : Wrapper) (d' : Access) (w' : Wrapper)
    : Type 0 where
  pub i : ℕ
  pub inside : i < length w.list
  pub matches : (slot_at i w).sensor_type ≡ get_or d.match d.nr (pos 0)
  pub new_sensor : get_or d'.sensor d.nr 0 ≡ i
  pub new_client : get_or d'.client d.nr 0 ≡ (entry_at i w).nr
  pub old_sensors : (k : ℕ) → d.nr ≢ k → get_or d'.sensor k 0 ≡ get_or d.sensor k 0
  pub old_clients : (k : ℕ) → d.nr ≢ k → get_or d'.client k 0 ≡ get_or d.client k 0
  pub sensors : length d'.sensor ≡ length d.sensor
  pub clients : length d'.client ≡ length d.client
  pub nr : d'.nr ≡ suc d.nr
  pub match : d'.match ≡ d.match
  pub m_nr : d'.m_nr ≡ d.m_nr
  pub size : length w'.list ≡ length w.list
  pub slot : slot_at i w' ≡ record (slot_at i w) { entry = joined self (entry_at i w) }
  pub others : (j : ℕ) → i ≢ j → slot_at j w' ≡ slot_at j w

-- The access field after `access.sensor` and `access.client` are written.
abbrev pub aimed : ℕ → ℕ → Access → Access
aimed i c d = record d { sensor = set d.sensor d.nr i; client = set d.client d.nr c }

-- The writes to the list at a connection.
abbrev join : ApiPtr → ℕ → ℕ → ℕ → Wrapper → Wrapper
join self i s c w =
    let w₂ = list_set_api s c self (list_put_status s c initialised true w) in
    set_entry i (record (entry_at i w₂) { nr = suc (entry_at i w₂).nr }) w₂

module _ (self : ApiPtr) (i : ℕ) (w : Wrapper) (h : i < length w.list) where
  join_steps :
      let c = (entry_at i w).nr in
      let w₁ = set_entry i (with_status i c w initialised true) w in
      let w₂ = set_entry i (with_api i c w₁ self) w₁ in
      join self i i c w ≡ set_entry i (record (entry_at i w₂) { nr = suc (entry_at i w₂).nr }) w₂
  join_steps =
      let c = (entry_at i w).nr in
      let w₁ = set_entry i (with_status i c w initialised true) w in
      ap (λ v. set_entry i (record (entry_at i v) { nr = suc (entry_at i v).nr }) v)
        (ap (list_set_api i c self) (list_put_status_lem i c w initialised true)
          ∙ list_set_api_lem i c w₁ self)

  slot_at-join :
      slot_at i (join self i i (entry_at i w).nr w)
      ≡ record (slot_at i w) { entry = joined self (entry_at i w) }
  slot_at-join =
      let c = (entry_at i w).nr in
      let w₁ = set_entry i (with_status i c w initialised true) w in
      let w₂ = set_entry i (with_api i c w₁ self) w₁ in
      let h₁ : i < length w₁.list =
        omega (arith, length-set_entry i (with_status i c w initialised true) w) in
      let h₂ : i < length w₂.list = omega (arith, length-set_entry i (with_api i c w₁ self) w₁) in
      let s₁ = slot_at-set_entry_self i (with_status i c w initialised true) w h in
      let s₂ = slot_at-set_entry_self i (with_api i c w₁ self) w₁ h₁ in
      ap (slot_at i) join_steps
      ∙ slot_at-set_entry_self i (record (entry_at i w₂) { nr = suc (entry_at i w₂).nr }) w₂ h₂
      ∙ ap (λ (x : Slot). record x { entry = record x.entry { nr = suc x.entry.nr } }) s₂
      ∙ ap
          (λ (x : Slot). record x {
            entry = record x.entry { api = set x.entry.api c self; nr = suc x.entry.nr };
          })
          s₁

  join_others : (j : ℕ) → i ≢ j → slot_at j (join self i i (entry_at i w).nr w) ≡ slot_at j w
  join_others j ne =
      let c = (entry_at i w).nr in
      let w₁ = set_entry i (with_status i c w initialised true) w in
      let w₂ = set_entry i (with_api i c w₁ self) w₁ in
      ap (slot_at j) join_steps
      ∙ slot_at-set_entry_ne i j (record (entry_at i w₂) { nr = suc (entry_at i w₂).nr }) w₂ ne
      ∙ slot_at-set_entry_ne i j (with_api i c w₁ self) w₁ ne
      ∙ slot_at-set_entry_ne i j (with_status i c w initialised true) w ne

  length-join : length (join self i i (entry_at i w).nr w).list ≡ length w.list
  length-join =
      let c = (entry_at i w).nr in
      let w₁ = set_entry i (with_status i c w initialised true) w in
      let w₂ = set_entry i (with_api i c w₁ self) w₁ in
      ap (λ (v : Wrapper). length v.list) join_steps
      ∙ length-set_entry i (record (entry_at i w₂) { nr = suc (entry_at i w₂).nr }) w₂
      ∙ length-set_entry i (with_api i c w₁ self) w₁
      ∙ length-set_entry i (with_status i c w initialised true) w

-- The writes of `connect` are those of a join.
pub connect-Joins :
    (self : ApiPtr) (i : ℕ) (d : Access) (w : Wrapper) (log : List Call)
    → i < length w.list
    → (slot_at i w).sensor_type ≡ get_or d.match d.nr (pos 0)
    → d.nr < length d.sensor
    → d.nr < length d.client
    → let (d', w') = connect self i (aimed i (entry_at i w).nr d) (record w { log = log }) in
      Joins self d w d' w'
unfolding connect
connect-Joins self i d w log h m hs hc =
    let w₁ : Wrapper = record w { log = log } in
    let c = (entry_at i w).nr in
    let s_self = get_or-set_self d.sensor d.nr i 0 hs in
    let c_self = get_or-set_self d.client d.nr c 0 hc in
    let e = ap₂ (λ s k. join self i s k w₁) s_self c_self in
    record {
      i = i;
      inside = h;
      matches = m;
      new_sensor = s_self;
      new_client = c_self;
      old_sensors = λ k ne. get_or-set_ne d.sensor i 0 ne;
      old_clients = λ k ne. get_or-set_ne d.client c 0 ne;
      sensors = length-set d.sensor d.nr i;
      clients = length-set d.client d.nr c;
      nr = refl;
      match = refl;
      m_nr = refl;
      size = ap (λ (v : Wrapper). length v.list) e ∙ length-join self i w₁ h;
      slot = ap (slot_at i) e ∙ slot_at-join self i w₁ h;
      others = λ j ne. ap (slot_at j) e ∙ join_others self i w₁ h j ne;
    }
