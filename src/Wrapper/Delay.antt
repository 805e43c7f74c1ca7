-- ===== src/Wrapper/Delay.antt =====
-- The drivers' rates follow the clients' rates: `sensors_wrapper_set_delay`, on all sensors.
use native.Mathlib.Decide.{ℕ_discrete}
use mathlib.Core.Path.{subst}
use akm_dash.Common.{
  ℕ, ◌<◌, ◌≡◌, ◌≢◌, sym, ap, ◌∙◌, ℤ, pos, ◌==ℤ◌, some, List, [], ◌∷◌, arith, length, take, ltb,
  if_both,
}
use akm_dash.Wrapper.{call, activate_one, activate_all, wrapper_activate}
use akm_dash.Wrapper.{set_delay_one, set_delay_all, wrapper_set_delay}
use akm_dash.Wrapper.Data.{
  active, Entry, Slot, Call, Wrapper, Access, slot_at, Link, links, list_get_status, list_get_rate,
  list_set_rate, count_flag, least_rate, no_rate,
}
use akm_dash.Wrapper.Frame.{
  powered, last_delay, Frame, Frame-trans, entry_at-list_set_rate, Frame-list_set_rate,
  log-list_set_rate, Frame-call_set_delay,
}
use akm_dash.Wrapper.Power.{IsPowered}
use akm_dash.Wrapper.Switch.{
  Powered, AllClients, Frame-Powered, Frame-AllClients, activate_one-IsPowered,
}
use akm_dash.Wrapper.Release.{AllGivenUp, activate_all-AllGivenUp}
use akm_dash.Wrapper.Pace.{IsPaced, activate_one-IsPaced, set_delay_one-IsPaced}

-- Every driver is told its clients' fastest rate, as far as a client asks for one.
abbrev pub Paced : Wrapper → Type 0
Paced w = (j : ℕ) → j < length w.list → IsPaced j w

Frame-IsPaced_other :
    (s j : ℕ) (w w' : Wrapper)
    → Frame s w w'
    → s ≢ j
    → (slot_at s w).api ≢ (slot_at j w).api
    → IsPaced j w
    → IsPaced j w'
unfolding list_get_rate
Frame-IsPaced_other s j w w' f ne na p h =
    ap (λ (x : Slot). last_delay x.api w'.log) (f.other j ne)
    ∙ f.other_delay (slot_at j w).api na
    ∙ p (λ e. h (ap rate_of (f.other j ne) ∙ e))
    ∙ ap some (ap rate_of (sym (f.other j ne)))
  where
    rate_of : Slot → ℤ
    rate_of x = least_rate no_rate (take x.entry.nr x.entry.rate)

Frame-Paced :
    (s : ℕ) (w w' : Wrapper)
    → s < length w.list
    → Frame s w w'
    → IsPaced s w'
    → Powered w
    → Paced w
    → Paced w'
Frame-Paced s w w' h f p v q j k = elim (ℕ_discrete s j) [
  | yes e ↦ subst (λ i. IsPaced i w') e p
  | no ne ↦
      Frame-IsPaced_other s j w w' f ne (λ e. ne (v.distinct s j h (omega (arith, f.size)) e))
        (q j (omega (arith, f.size)))
]

module _ (reply : List Call → ℤ) where
  activate_all-Paced :
      (enable : ℤ) (ls : List Link) (rv : ℤ) (w : Wrapper)
      → Powered w
      → Paced w
      → AllClients ls w
      → Paced (activate_all reply enable ls rv w).1
  unfolding activate_all
  activate_all-Paced enable [] rv w v q k = q
  activate_all-Paced enable ((s, c) ∷ r) rv w v q k =
      let (rv', w') = activate_one reply enable s c rv w in
      let (f, p) = activate_one-IsPowered reply enable s c rv w (v.power s k.0.0) k.0 in
      activate_all-Paced enable r rv' w' (Frame-Powered s w w' k.0.0 f p v)
        (Frame-Paced s w w' k.0.0 f (activate_one-IsPaced reply enable s c rv w k.0.0 (q s k.0.0)) v
          q)
        (Frame-AllClients s r w w' f k.1)

  -- Where every driver is on exactly if a client is active and was last told the fastest rate of
  -- its clients, `sensors_wrapper_activate` of a connected client keeps every driver at the fastest
  -- rate that its clients ask for, if they ask for one. A client that is switched off gives up its
  -- rate: its place in the rates of each of its sensors is NO_RATE then, so that the driver's
  -- fastest rate, the one that it was last told, is that of the other clients.
  pub wrapper_activate-Paced :
      (d : Access) (enable : ℤ) {w : Wrapper}
      → Powered w
      → Paced w
      → AllClients (links d) w
      → let w' = (wrapper_activate reply d enable w).1 in
        Paced w' × (enable ≡ pos 0 → AllGivenUp (links d) w')
  unfolding wrapper_activate
  wrapper_activate-Paced d enable {w} v q k = (
    activate_all-Paced enable (links d) (pos 0) w v q k,
    (λ off.
        subst (λ e. AllGivenUp (links d) (activate_all reply e (links d) (pos 0) w).1) (sym off)
          (activate_all-AllGivenUp reply (links d) (pos 0) w v k)),
  )

  -- A new rate moves nothing but the rate, and its driver call switches nothing.
  set_delay_one-IsPowered :
      (ns : ℤ) (s c : ℕ) (rv : ℤ) (w : Wrapper)
      → s < length w.list
      → IsPowered s w
      → let w' = (set_delay_one reply ns s c rv w).1 in Frame s w w' × IsPowered s w'
  unfolding set_delay_one call powered list_get_status
  set_delay_one-IsPowered ns s c rv w h p =
      let w₁ = list_set_rate s c ns w in
      let f = Frame-list_set_rate s c w h ns in
      let e = entry_at-list_set_rate s c w h ns in
      let p₁ : IsPowered s w₁ =
        ap (λ q. powered q w₁.log) f.own_api
        ∙ ap (powered (slot_at s w).api) (log-list_set_rate s c ns w)
        ∙ p
        ∙ ap (λ (x : Entry). ltb 0 (count_flag active (take x.nr x.status))) (sym e) in
      if_both (λ (x : ℤ × Wrapper). Frame s w x.1 × IsPowered s x.1)
        (list_get_rate s w ==ℤ list_get_rate s w₁) (rv, w₁)
        (call reply (Call.set_delay (slot_at s w₁).api (list_get_rate s w₁)) w₁) (λ same. (f, p₁))
        (λ new. (Frame-trans f (Frame-call_set_delay reply s w₁ (list_get_rate s w₁)), p₁))

  set_delay_all-Synced :
      (ns : ℤ) (ls : List Link) (rv : ℤ) (w : Wrapper)
      → Powered w
      → Paced w
      → AllClients ls w
      → Powered (set_delay_all reply ns ls rv w).1 × Paced (set_delay_all reply ns ls rv w).1
  unfolding set_delay_all
  set_delay_all-Synced ns [] rv w v q k = (v, q)
  set_delay_all-Synced ns ((s, c) ∷ r) rv w v q k =
      let (rv', w') = set_delay_one reply ns s c rv w in
      let (f, p) = set_delay_one-IsPowered ns s c rv w k.0.0 (v.power s k.0.0) in
      set_delay_all-Synced ns r rv' w' (Frame-Powered s w w' k.0.0 f p v)
        (Frame-Paced s w w' k.0.0 f (set_delay_one-IsPaced reply ns s c rv w k.0.0 (q s k.0.0)) v q)
        (Frame-AllClients s r w w' f k.1)

  -- Where every driver is on exactly if a client is active and was last told the fastest rate of
  -- its clients, the same holds after `sensors_wrapper_set_delay` of a connected client, with any
  -- rate and whatever the drivers return.
  pub wrapper_set_delay-Synced :
      (d : Access) (ns : ℤ) {w : Wrapper}
      → Powered w
      → Paced w
      → AllClients (links d) w
      → Powered (wrapper_set_delay reply d ns w).1 × Paced (wrapper_set_delay reply d ns w).1
  unfolding wrapper_set_delay
  wrapper_set_delay-Synced d ns {w} v q k = set_delay_all-Synced ns (links d) (pos 0) w v q k
