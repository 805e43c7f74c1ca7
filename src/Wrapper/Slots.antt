-- ===== src/Wrapper/Slots.antt =====
-- What a write to one entry of the list of sensors_wrapper.c does to each slot.
use akm_dash.Common.{
  ℕ, ◌<◌, ◌≡◌, ◌≢◌, refl, ℤ, Bool, length, get_or, set, length-set, get_or-set_self, get_or-set_ne,
}
use akm_dash.SensorList.{ApiPtr}
use akm_dash.Wrapper.Data.{
  Flag, Entry, Wrapper, unused, put, null_slot, slot_at, entry_at, set_entry, list_put_status,
  list_set_rate, list_set_api,
}

pub slot_at-set_entry_self :
    (i : ℕ) (e : Entry) (w : Wrapper)
    → i < length w.list
    → slot_at i (set_entry i e w) ≡ record (slot_at i w) { entry = e }
unfolding set_entry
slot_at-set_entry_self i e w h =
    get_or-set_self w.list i (record (slot_at i w) { entry = e }) null_slot h

pub slot_at-set_entry_ne :
    (i j : ℕ) (e : Entry) (w : Wrapper) → i ≢ j → slot_at j (set_entry i e w) ≡ slot_at j w
unfolding set_entry
slot_at-set_entry_ne i j e w h =
    get_or-set_ne w.list (record (slot_at i w) { entry = e }) null_slot h

pub length-set_entry :
    (i : ℕ) (e : Entry) (w : Wrapper) → length (set_entry i e w).list ≡ length w.list
unfolding set_entry
length-set_entry i e w = length-set w.list i (record (slot_at i w) { entry = e })

pub log-set_entry : (i : ℕ) (e : Entry) (w : Wrapper) → (set_entry i e w).log ≡ w.log
unfolding set_entry
log-set_entry i e w = refl

-- The new entry of each routine, and how far it leaves the rest alone.
module _ (i c : ℕ) (w : Wrapper) where
  abbrev pub with_status : Flag → Bool → Entry
  with_status p b =
      let e = entry_at i w in
      record e { status = set e.status c (put p b (get_or e.status c unused)) }

  abbrev pub with_rate : ℤ → Entry
  with_rate r = let e = entry_at i w in record e { rate = set e.rate c r }

  abbrev pub with_api : ApiPtr → Entry
  with_api p = let e = entry_at i w in record e { api = set e.api c p }

  pub list_put_status_lem :
      (p : Flag) (b : Bool) → list_put_status i c p b w ≡ set_entry i (with_status p b) w
  unfolding list_put_status
  list_put_status_lem p b = refl

  pub list_set_rate_lem : (r : ℤ) → list_set_rate i c r w ≡ set_entry i (with_rate r) w
  unfolding list_set_rate
  list_set_rate_lem r = refl

  pub list_set_api_lem : (p : ApiPtr) → list_set_api i c p w ≡ set_entry i (with_api p) w
  unfolding list_set_api
  list_set_api_lem p = refl
