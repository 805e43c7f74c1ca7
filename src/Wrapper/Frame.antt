-- ===== src/Wrapper/Frame.antt =====
-- How far a step of sensors_wrapper.c on one sensor leaves the other sensors alone.
use akm_dash.Common.{
  ℕ, ◌<◌, ◌≡◌, ◌≢◌, refl, sym, ap, ◌∙◌, ℤ, pos, ◌==ℤ◌, Bool, false, not, Option, none, some, List,
  [], ◌∷◌, length, length-set, ◌==◌, ==_ne, if◌then◌else◌,
}
use akm_dash.SensorList.{ApiPtr}
use akm_dash.Wrapper.{call}
use akm_dash.Wrapper.Data.{
  Flag, Entry, Slot, Call, Wrapper, slot_at, entry_at, set_entry, list_put_status, list_set_rate,
}
use akm_dash.Wrapper.Slots.{
  slot_at-set_entry_self, slot_at-set_entry_ne, length-set_entry, log-set_entry, with_status,
  with_rate, list_put_status_lem, list_set_rate_lem,
}

-- What the last call of a driver's `activate` asked for.
unfoldable pub powered : ApiPtr → List Call → Bool
powered p [] = false
powered p (Call.init q ∷ log) = powered p log
powered p (Call.activate q enable ∷ log) =
    let rest = powered p log in if q == p then not (enable ==ℤ pos 0) else rest
powered p (Call.set_delay q ns ∷ log) = powered p log
powered p (Call.close q ∷ log) = powered p log
powered p (Call.deliver q ∷ log) = powered p log

-- The rate that the last call of a driver's `set_delay` asked for.
unfoldable pub last_delay : ApiPtr → List Call → Option ℤ
last_delay p [] = none
last_delay p (Call.init q ∷ log) = last_delay p log
last_delay p (Call.activate q enable ∷ log) = last_delay p log
last_delay p (Call.set_delay q ns ∷ log) =
    let rest = last_delay p log in if q == p then some ns else rest
last_delay p (Call.close q ∷ log) = last_delay p log
last_delay p (Call.deliver q ∷ log) = last_delay p log

-- A step on sensor `s` that left the other slots, and what their drivers were asked for, alone.
pub record Frame (s : ℕ) (w w' : Wrapper) : Type 0 where
  pub size : length w'.list ≡ length w.list
  pub own_api : (slot_at s w').api ≡ (slot_at s w).api
  pub own_nr : (entry_at s w').nr ≡ (entry_at s w).nr
  pub own_room : length (entry_at s w').status ≡ length (entry_at s w).status
  pub other : (j : ℕ) → s ≢ j → slot_at j w' ≡ slot_at j w
  pub other_power : (p : ApiPtr) → (slot_at s w).api ≢ p → powered p w'.log ≡ powered p w.log
  pub other_delay : (p : ApiPtr) → (slot_at s w).api ≢ p → last_delay p w'.log ≡ last_delay p w.log

pub Frame-refl : (s : ℕ) (w : Wrapper) → Frame s w w
Frame-refl s w = record {
  size = refl;
  own_api = refl;
  own_nr = refl;
  own_room = refl;
  other = λ j h. refl;
  other_power = λ p h. refl;
  other_delay = λ p h. refl;
}

pub Frame-trans : {s : ℕ} {u v w : Wrapper} → Frame s u v → Frame s v w → Frame s u w
Frame-trans f g = record {
  size = g.size ∙ f.size;
  own_api = g.own_api ∙ f.own_api;
  own_nr = g.own_nr ∙ f.own_nr;
  own_room = g.own_room ∙ f.own_room;
  other = λ j h. g.other j h ∙ f.other j h;
  other_power = λ p h. g.other_power p (λ e. h (sym f.own_api ∙ e)) ∙ f.other_power p h;
  other_delay = λ p h. g.other_delay p (λ e. h (sym f.own_api ∙ e)) ∙ f.other_delay p h;
}

-- A write that keeps the number of clients and the size of the status array.
Frame-set_entry :
    (s : ℕ) (e : Entry) (w : Wrapper)
    → s < length w.list
    → e.nr ≡ (entry_at s w).nr
    → length e.status ≡ length (entry_at s w).status
    → Frame s w (set_entry s e w)
Frame-set_entry s e w h n k = record {
  size = length-set_entry s e w;
  own_api = ap (λ (x : Slot). x.api) (slot_at-set_entry_self s e w h);
  own_nr = ap (λ (x : Slot). x.entry.nr) (slot_at-set_entry_self s e w h) ∙ n;
  own_room = ap (λ (x : Slot). length x.entry.status) (slot_at-set_entry_self s e w h) ∙ k;
  other = λ j ne. slot_at-set_entry_ne s j e w ne;
  other_power = λ p ne. ap (powered p) (log-set_entry s e w);
  other_delay = λ p ne. ap (last_delay p) (log-set_entry s e w);
}

module _ (s c : ℕ) (w : Wrapper) (h : s < length w.list) where
  pub entry_at-list_put_status :
      (p : Flag) (b : Bool) → entry_at s (list_put_status s c p b w) ≡ with_status s c w p b
  entry_at-list_put_status p b =
      rw (list_put_status_lem s c w p b)
        (ap (λ (x : Slot). x.entry) (slot_at-set_entry_self s (with_status s c w p b) w h))

  pub entry_at-list_set_rate : (r : ℤ) → entry_at s (list_set_rate s c r w) ≡ with_rate s c w r
  entry_at-list_set_rate r =
      rw (list_set_rate_lem s c w r)
        (ap (λ (x : Slot). x.entry) (slot_at-set_entry_self s (with_rate s c w r) w h))

  pub Frame-list_put_status : (p : Flag) (b : Bool) → Frame s w (list_put_status s c p b w)
  Frame-list_put_status p b =
      rw (list_put_status_lem s c w p b)
        (Frame-set_entry s (with_status s c w p b) w h refl (length-set (entry_at s w).status c _))

  pub Frame-list_set_rate : (r : ℤ) → Frame s w (list_set_rate s c r w)
  Frame-list_set_rate r =
      rw (list_set_rate_lem s c w r) (Frame-set_entry s (with_rate s c w r) w h refl refl)

pub log-list_put_status :
    (s c : ℕ) (p : Flag) (b : Bool) (w : Wrapper) → (list_put_status s c p b w).log ≡ w.log
log-list_put_status s c p b w =
    rw (list_put_status_lem s c w p b) (log-set_entry s (with_status s c w p b) w)

pub log-list_set_rate : (s c : ℕ) (r : ℤ) (w : Wrapper) → (list_set_rate s c r w).log ≡ w.log
log-list_set_rate s c r w = rw (list_set_rate_lem s c w r) (log-set_entry s (with_rate s c w r) w)

module _ (reply : List Call → ℤ) (s : ℕ) (w : Wrapper) where
  pub Frame-call_activate :
      (enable : ℤ) → Frame s w (call reply (Call.activate (slot_at s w).api enable) w).1
  unfolding call powered last_delay
  Frame-call_activate enable = record {
    size = refl;
    own_api = refl;
    own_nr = refl;
    own_room = refl;
    other = λ j h. refl;
    other_power = λ p h. rw (==_ne _ p h);
    other_delay = λ p h. refl;
  }

  pub Frame-call_set_delay :
      (ns : ℤ) → Frame s w (call reply (Call.set_delay (slot_at s w).api ns) w).1
  unfolding call powered last_delay
  Frame-call_set_delay ns = record {
    size = refl;
    own_api = refl;
    own_nr = refl;
    own_room = refl;
    other = λ j h. refl;
    other_power = λ p h. refl;
    other_delay = λ p h. rw (==_ne _ p h);
  }
