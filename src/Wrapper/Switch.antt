-- ===== src/Wrapper/Switch.antt =====
-- The hardware is on exactly while a client is active: `sensors_wrapper_activate` on all sensors.
use akm_dash.Common.{
  ℕ, ◌≤◌, ◌<◌, ◌≡◌, ◌≢◌, sym, ap, ◌∙◌, ℤ, pos, ◌==ℤ◌, List, [], ◌∷◌, arith, length, take, ltb,
  Bool-cases, inl, inr,
}
use akm_dash.Wrapper.{activate_one, activate_all, wrapper_activate}
use akm_dash.Wrapper.Data.{
  active, Slot, Call, Wrapper, Access, slot_at, Link, links, list_get_status, count_flag,
}
use native.Mathlib.Decide.{ℕ_discrete}
use mathlib.Core.Path.{subst}
use akm_dash.Common.{==ℤ_iff}
use akm_dash.Wrapper.Power.{
  release-Released, IsPowered, IsClient, disable-IsPowered, enabled, enable-IsPowered,
}
use akm_dash.Wrapper.Frame.{powered, Frame}

module _ (reply : List Call → ℤ) where
  pub activate_one-IsPowered :
      (enable : ℤ) (s c : ℕ) (rv : ℤ) (w : Wrapper)
      → IsPowered s w
      → IsClient s c w
      → let w' = (activate_one reply enable s c rv w).1 in Frame s w w' × IsPowered s w'
  unfolding activate_one enabled
  activate_one-IsPowered enable s c rv w p k = elim (Bool-cases (enable ==ℤ pos 0)) [
    | inl off ↦ rw off (
        disable-IsPowered reply s c w _ _ enable p (release-Released reply s c rv w k.0)
          ((==ℤ_iff enable (pos 0)).0 off))
    | inr on ↦ rw on (enable-IsPowered reply s c w rv enable p k on)
  ]

-- Each driver was last asked to be on exactly if one of its sensor's clients is active, and no
-- two sensors have the same driver.
pub record Powered (w : Wrapper) : Type 0 where
  pub power : (j : ℕ) → j < length w.list → IsPowered j w
  pub distinct :
      (i j : ℕ)
      → i < length w.list
      → j < length w.list
      → (slot_at i w).api ≡ (slot_at j w).api
      → i ≡ j

abbrev pub AllClients : List Link → Wrapper → Type 0
AllClients [] w = Unit
AllClients ((s, c) ∷ r) w = IsClient s c w × AllClients r w

pub Frame-api : (s j : ℕ) (w w' : Wrapper) → Frame s w w' → (slot_at j w').api ≡ (slot_at j w).api
Frame-api s j w w' f = elim (ℕ_discrete s j) [
  | yes e ↦ subst (λ k. (slot_at k w').api ≡ (slot_at k w).api) e f.own_api
  | no ne ↦ ap (λ (x : Slot). x.api) (f.other j ne)
]

Frame-IsPowered_other :
    (s j : ℕ) (w w' : Wrapper)
    → Frame s w w'
    → s ≢ j
    → (slot_at s w).api ≢ (slot_at j w).api
    → IsPowered j w
    → IsPowered j w'
unfolding list_get_status
Frame-IsPowered_other s j w w' f ne na p =
    ap (λ (x : Slot). powered x.api w'.log) (f.other j ne)
    ∙ f.other_power (slot_at j w).api na
    ∙ p
    ∙ ap (λ (x : Slot). ltb 0 (count_flag active (take x.entry.nr x.entry.status)))
        (sym (f.other j ne))

pub Frame-Powered :
    (s : ℕ) (w w' : Wrapper)
    → s < length w.list
    → Frame s w w'
    → IsPowered s w'
    → Powered w
    → Powered w'
Frame-Powered s w w' h f p v = record {
  power = λ j k. elim (ℕ_discrete s j) [
    | yes e ↦ subst (λ i. IsPowered i w') e p
    | no ne ↦
        Frame-IsPowered_other s j w w' f ne (λ e. ne (v.distinct s j h (omega (arith, f.size)) e))
          (v.power j (omega (arith, f.size)))
  ];
  distinct = λ i j h k e.
      v.distinct i j (omega (arith, f.size)) (omega (arith, f.size))
        (sym (Frame-api s i w w' f) ∙ e ∙ Frame-api s j w w' f);
}

Frame-IsClient : (s t c : ℕ) (w w' : Wrapper) → Frame s w w' → IsClient t c w → IsClient t c w'
Frame-IsClient s t c w w' f k = elim (ℕ_discrete s t) [
  | yes e ↦
      subst (λ i. IsClient i c w → IsClient i c w') e
        (λ q. (omega (arith, f.size), omega (arith, f.own_nr), omega (arith, f.own_nr, f.own_room)))
        k
  | no ne ↦ (
    omega (arith, f.size),
    subst (λ (x : Slot). c < x.entry.nr) (sym (f.other t ne)) k.1,
    subst (λ (x : Slot). x.entry.nr ≤ length x.entry.status) (sym (f.other t ne)) k.2,
  )
]

pub Frame-AllClients :
    (s : ℕ) (ls : List Link) (w w' : Wrapper) → Frame s w w' → AllClients ls w → AllClients ls w'
Frame-AllClients s [] w w' f k = tt
Frame-AllClients s ((t, c) ∷ r) w w' f k =
    (Frame-IsClient s t c w w' f k.0, Frame-AllClients s r w w' f k.1)

module _ (reply : List Call → ℤ) where
  activate_all-Powered :
      (enable : ℤ) (ls : List Link) (rv : ℤ) (w : Wrapper)
      → Powered w
      → AllClients ls w
      → Powered (activate_all reply enable ls rv w).1
  unfolding activate_all
  activate_all-Powered enable [] rv w v k = v
  activate_all-Powered enable ((s, c) ∷ r) rv w v k =
      let (rv', w') = activate_one reply enable s c rv w in
      let (f, p) = activate_one-IsPowered reply enable s c rv w (v.power s k.0.0) k.0 in
      activate_all-Powered enable r rv' w' (Frame-Powered s w w' k.0.0 f p v)
        (Frame-AllClients s r w w' f k.1)

  -- Where every driver is on exactly if a client of its sensor is active, and no two sensors share
  -- a driver, the same holds after `sensors_wrapper_activate` of a connected client, enabling or
  -- disabling, whatever the drivers return: the shared hardware is switched on for the first active
  -- client and off after the last.
  pub wrapper_activate-Powered :
      (d : Access) (enable : ℤ) {w : Wrapper}
      → Powered w
      → AllClients (links d) w
      → Powered (wrapper_activate reply d enable w).1
  unfolding wrapper_activate
  wrapper_activate-Powered d enable {w} v k = activate_all-Powered enable (links d) (pos 0) w v k
