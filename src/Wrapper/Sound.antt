-- ===== src/Wrapper/Sound.antt =====
-- The invariant of sensors_wrapper.c, and how switching keeps it.
pub mod Register
pub mod Connect
use akm_dash.Common.{
  ℕ, zero, suc, ◌≤◌, ◌<◌, ◌≡◌, ◌≢◌, refl, sym, ap, ◌∙◌, ℤ, pos, ◌==ℤ◌, true, false, some, List, [],
  ◌∷◌, ◌++◌, length, get_or, set, take, ltb, ◌==◌, if_both, length-append, get_or-set_ne,
  Bool-cases, inl, inr, arith,
}
use native.Mathlib.Decide.{ℕ_discrete}
use mathlib.Core.Path.{subst}
use akm_dash.SensorList.{ApiPtr, Sensor}
use akm_dash.Wrapper.{call, release, activate_one, activate_all, wrapper_activate, register}
use akm_dash.Wrapper.Data.{
  Flag, active, initialised, Status, unused, test, put, Entry, Slot, null_slot, Call, Wrapper,
  Access, fresh_entry, list_size, slot_at, entry_at, Link, links, count_flag, list_get_status,
  list_put_status,
}
use akm_dash.Wrapper.Frame.{powered, Frame, entry_at-list_put_status}
use akm_dash.Wrapper.Power.{IsPowered, IsClient, release-Released, enabled}
use akm_dash.Wrapper.Switch.{
  Powered, AllClients, Frame-api, Frame-Powered, Frame-AllClients, activate_one-IsPowered,
}
use akm_dash.Wrapper.Join.{Joins, joined}
use akm_dash.Wrapper.Quiet.{Quiet}

-- Each driver is on exactly if a client of its sensor is active; no client that is not connected
-- is marked as active; and a function table that is not registered was never asked to be on.
pub record Sound (w : Wrapper) : Type 0 where
  pub powered_all : Powered w
  pub idle :
      (j : ℕ)
      → j < length w.list
      → (c : ℕ) → (entry_at j w).nr ≤ c
      → test active (get_or (entry_at j w).status c unused) ≡ false
  pub known :
      (p : ApiPtr) → ((j : ℕ) → j < length w.list → (slot_at j w).api ≢ p) → powered p w.log ≡ false

pub Quiet-Sound : {w w' : Wrapper} → Quiet w w' → Sound w → Sound w'
unfolding list_get_status
Quiet-Sound {w} {w'} q v = record {
  powered_all = record {
    power = λ j h.
        let u = q.slots j in
        ap (λ p. powered p w'.log) u.api
        ∙ q.power (slot_at j w).api
        ∙ v.powered_all.power j (omega (arith, q.size))
        ∙ ap (ltb 0) (sym u.count);
    distinct = λ i j h k e.
        v.powered_all.distinct i j (omega (arith, q.size)) (omega (arith, q.size))
          (sym (q.slots i).api ∙ e ∙ (q.slots j).api);
  };
  idle = λ j h c n.
      (q.slots j).bits c ∙ v.idle j (omega (arith, q.size)) c (omega (arith, (q.slots j).nr));
  known = λ p n. q.power p ∙ v.known p (λ j h e. n j (omega (arith, q.size)) ((q.slots j).api ∙ e));
}

-- A step on sensor `s` that changes the bits of its client `c` only.
pub record Keeps (s c : ℕ) (w w' : Wrapper) : Type 0 where
  pub frame : Frame s w w'
  pub power : IsPowered s w'
  pub bits :
      (k : ℕ)
      → c ≢ k
      → get_or (entry_at s w').status k unused ≡ get_or (entry_at s w).status k unused

Keeps-Sound : (s c : ℕ) (w w' : Wrapper) → IsClient s c w → Keeps s c w w' → Sound w → Sound w'
Keeps-Sound s c w w' (h, k, room) f v = record {
  powered_all = Frame-Powered s w w' h f.frame f.power v.powered_all;
  idle = λ j i b n. elim (ℕ_discrete s j) [
    | yes e ↦
        subst
          (λ t.
            (entry_at t w').nr ≤ b → test active (get_or (entry_at t w').status b unused) ≡ false)
          e
          (λ m.
            ap (test active) (f.bits b (λ q. absurd (omega (arith, f.frame.own_nr))))
            ∙ v.idle s h b (omega (arith, f.frame.own_nr)))
          n
    | no ne ↦
        ap (λ (x : Slot). test active (get_or x.entry.status b unused)) (f.frame.other j ne)
        ∙ v.idle j (omega (arith, f.frame.size)) b
            (subst (λ (x : Slot). x.entry.nr ≤ b) (f.frame.other j ne) n)
  ];
  known = λ p n.
      f.frame.other_power p (λ e. n s (omega (arith, f.frame.size)) (f.frame.own_api ∙ e))
      ∙ v.known p (λ j i e. n j (omega (arith, f.frame.size)) (Frame-api s j w w' f.frame ∙ e));
}

module _ (reply : List Call → ℤ) where
  activate_one-bits :
      (enable : ℤ) (s c : ℕ) (rv : ℤ) (w : Wrapper)
      → s < length w.list
      → (k : ℕ) → c ≢ k
      → let w' = (activate_one reply enable s c rv w).1 in
        get_or (entry_at s w').status k unused ≡ get_or (entry_at s w).status k unused
  unfolding activate_one call enabled
  activate_one-bits enable s c rv w h k ne = elim (Bool-cases (enable ==ℤ pos 0)) [
    | inl off ↦
        let w₁ = (release reply s c rv w).1 in
        let r = release-Released reply s c rv w h in
        let one : get_or (entry_at s w₁).status k unused ≡ get_or (entry_at s w).status k unused =
          ap (λ ss. get_or ss k unused) r.status
          ∙ get_or-set_ne (entry_at s w).status _ unused ne in
        rw off (
          if_both (λ (x : ℤ × Wrapper). Old x.1) (list_get_status s active w₁ == 0)
            (call reply (Call.activate (slot_at s w₁).api enable) w₁)
            ((release reply s c rv w).0, w₁) (λ e. one) (λ e. one))
    | inr on ↦
        let w₂ = list_put_status s c active true w in
        let one : get_or (entry_at s w₂).status k unused ≡ get_or (entry_at s w).status k unused =
          ap (λ (e : Entry). get_or e.status k unused)
            (entry_at-list_put_status s c w h active true)
          ∙ get_or-set_ne (entry_at s w).status _ unused ne in
        rw on (
          if_both (λ (x : ℤ × Wrapper). Old x.1) (list_get_status s active w == 0)
            (call reply (Call.activate (slot_at s w₂).api enable) w₂) (rv, w₂) (λ e. one)
            (λ e. one))
  ]
    where
      Old : Wrapper → Type 0
      Old x = get_or (entry_at s x).status k unused ≡ get_or (entry_at s w).status k unused

  activate_one-Keeps :
      (enable : ℤ) (s c : ℕ) (rv : ℤ) (w : Wrapper)
      → Sound w
      → IsClient s c w
      → Keeps s c w (activate_one reply enable s c rv w).1
  activate_one-Keeps enable s c rv w v k =
      let (f, p) = activate_one-IsPowered reply enable s c rv w (v.powered_all.power s k.0) k in
      record { frame = f; power = p; bits = activate_one-bits enable s c rv w k.0 }

  activate_all-Sound :
      (enable : ℤ) (ls : List Link) (rv : ℤ) (w : Wrapper)
      → Sound w
      → AllClients ls w
      → Sound (activate_all reply enable ls rv w).1
  unfolding activate_all
  activate_all-Sound enable [] rv w v k = v
  activate_all-Sound enable ((s, c) ∷ r) rv w v k =
      let (rv', w') = activate_one reply enable s c rv w in
      let f = activate_one-Keeps enable s c rv w v k.0 in
      activate_all-Sound enable r rv' w' (Keeps-Sound s c w w' k.0 f v)
        (Frame-AllClients s r w w' f.frame k.1)

  pub wrapper_activate-Sound :
      (d : Access) (enable : ℤ) (w : Wrapper)
      → Sound w
      → AllClients (links d) w
      → Sound (wrapper_activate reply d enable w).1
  unfolding wrapper_activate
  wrapper_activate-Sound d enable w v k = activate_all-Sound enable (links d) (pos 0) w v k
