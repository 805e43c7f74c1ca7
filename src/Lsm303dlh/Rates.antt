-- ===== src/Lsm303dlh/Rates.antt =====
-- The rates of sensors/lsm303dlh.c: each sensor has that of the faster of its two users.
use akm_dash.Common.{
  ℕ, zero, suc, ◌≡◌, refl, ℤ, pos, ◌==ℤ◌, is_neg, is_pos, Bool, true, false, not, ◌&&◌, Bool-cases,
  ◌⊎◌, inl, inr, ◌∙◌, List, [], ◌∷◌, ◌++◌,
}
use akm_dash.Select
use akm_dash.Xyz.Attr.{to_ms}
use akm_dash.Lsm303dlh.{
  SensorDesc, System, Driver, User, Users, mark, in_use, open_input_device, user_internal,
  user_external, required_ms, update_delay, sensor_set_delay, set_internal,
  compass_sensor_set_delay, sensor_activate_local, passed, roll_back, activate_from,
  activate_required_sensors, compass_sensor_activate,
}
use akm_dash.Lsm303dlh.Sharing.{Call, activate, set_delay, compass_activate, compass_delay, at}
use akm_dash.Lsm303dlh.Sharing
use akm_dash.Lsm303dlh.Setting.{SameSetting, Ready, IsTold, ready_same, apply_rate-IsTold}
use akm_dash.Lsm303dlh.Faster.{IsFaster, required_ms-IsFaster, required_ms_asks}

module _ (sys : System) where
  -- As the program starts: no rate was asked for, and none was told.
  abbrev pub IsUntouched : SensorDesc → Type 0
  IsUntouched d =
      (d.applied_delay_ms ≡ pos 0) × (d.internal_delay ≡ pos 0) × (d.external_delay ≡ pos 0)

  -- The sensor was told the faster rate of its users.
  abbrev pub IsPaced : SensorDesc → Type 0
  IsPaced d =
      IsTold sys d × IsFaster d.applied_delay_ms (to_ms d.internal_delay) (to_ms d.external_delay)

  -- For one sensor, and for all.
  pub record Set (d : SensorDesc) : Type 0 where
    pub ready : Ready sys d
    pub paced : IsUntouched d ⊎ IsPaced d

  abbrev pub AllSet : List SensorDesc → Type 0
  AllSet [] = Unit
  AllSet (d ∷ ds) = Set d × AllSet ds

  -- What is known of the rate, whatever the users ask for.
  abbrev Known : SensorDesc → Type 0
  Known d = (d.applied_delay_ms ≡ pos 0) ⊎ IsTold sys d

  Set-Known : (d : SensorDesc) → Set d → Known d
  Set-Known d s = known s.paced
    where
      known : IsUntouched d ⊎ IsPaced d → Known d
      known (inl u) = inl u.0
      known (inr p) = inr p.0

  update_delay-Set :
      (d : SensorDesc)
      → Ready sys d
      → Known d
      → ((update_delay sys d).0 ≡ pos 0) × Set (update_delay sys d).1
  unfolding update_delay
  update_delay-Set d r k =
      let int = to_ms d.internal_delay in
      let ext = to_ms d.external_delay in
      let ms = required_ms int ext in
      let (rc, s, a, t) = apply_rate-IsTold sys ms d r (before k) in
      (rc, record { ready = ready_same sys d _ s r; paced = inr (t, faster d _ s a) })
    where
      before :
          Known d
          → required_ms (to_ms d.internal_delay) (to_ms d.external_delay) ≡ d.applied_delay_ms
          → IsTold sys d
      before (inl z) e =
          absurd (required_ms_asks (to_ms d.internal_delay) (to_ms d.external_delay) (e ∙ z))
      before (inr t) e = t

      faster :
          (d d' : SensorDesc)
          → SameSetting d d'
          → d'.applied_delay_ms ≡ required_ms (to_ms d.internal_delay) (to_ms d.external_delay)
          → IsFaster d'.applied_delay_ms (to_ms d'.internal_delay) (to_ms d'.external_delay)
      faster d d' s a =
          rw (a, s.internal, s.external)
            (required_ms-IsFaster (to_ms d.internal_delay) (to_ms d.external_delay))

  with_delay :
      (d : SensorDesc) (i e : ℤ)
      → Ready sys d
      → Ready sys (record d { internal_delay = i; external_delay = e })
  with_delay d i e r = record {
    rate_ms = r.rate_ms;
    named = r.named;
    fits = r.fits;
    accepted = r.accepted;
    mode_apart = r.mode_apart;
  }

  sensor_set_delay-Set : (ns : ℤ) (d : SensorDesc) → Set d → Set (sensor_set_delay sys ns d).1
  unfolding sensor_set_delay
  sensor_set_delay-Set ns d s =
      (update_delay-Set _ (with_delay d d.internal_delay ns s.ready) (Set-Known d s)).1

  set_internal-AllSet :
      (ns : ℤ) (ds : List SensorDesc)
      → AllSet ds
      → ((set_internal sys ns ds).0 ≡ false) × AllSet (set_internal sys ns ds).1
  unfolding set_internal
  set_internal-AllSet ns [] h = (refl, tt)
  set_internal-AllSet ns (d ∷ ds) (s, ss) =
      let (rc, s') =
        update_delay-Set _ (with_delay d ns d.external_delay s.ready) (Set-Known d s) in
      let (none_failed, ss') = set_internal-AllSet ns ds ss in
      (rw (rc, none_failed) refl, (s', ss'))

  otherwise_used :
      (d : SensorDesc) (w : Select.Select) (u : Users)
      → Set d
      → Set (record d { worker = w; users = u })
  otherwise_used d w u s = record {
    ready = record {
      rate_ms = s.ready.rate_ms;
      named = s.ready.named;
      fits = s.ready.fits;
      accepted = s.ready.accepted;
      mode_apart = s.ready.mode_apart;
    };
    paced = s.paced;
  }

  sensor_activate_local-Set :
      (on : Bool) (user : User) (d : SensorDesc)
      → Set d
      → Set (sensor_activate_local sys on user d).1
  unfolding sensor_activate_local
  sensor_activate_local-Set true user d s = elim (Bool-cases (is_neg (Select.get_fd d.worker))) [
    | inl shut ↦
        elim (Bool-cases
          (is_neg (open_input_device sys (record d { users = mark true user d.users })))) [
            | inl failed ↦ rw (shut, failed) (otherwise_used d _ _ s)
            | inr good ↦ rw (shut, good) (otherwise_used d _ _ s)
          ]
    | inr held ↦ rw held (otherwise_used d _ _ s)
  ]
  sensor_activate_local-Set false user d s =
      elim (Bool-cases
        (is_pos (Select.get_fd d.worker) && not (in_use (mark false user d.users)))) [
          | inl last ↦ rw last (otherwise_used d _ _ s)
          | inr other ↦ rw other (otherwise_used d _ _ s)
        ]

  passed-Set : (on : Bool) (d : SensorDesc) → Set d → Set (passed sys on d)
  unfolding passed
  passed-Set true d s = s
  passed-Set false d s =
      (update_delay-Set _ (with_delay d (pos 0) d.external_delay s.ready) (Set-Known d s)).1

  AllSet-append : (xs ys : List SensorDesc) → AllSet xs → AllSet ys → AllSet (xs ++ ys)
  AllSet-append [] ys h k = k
  AllSet-append (x ∷ xs) ys (h, hs) k = (h, AllSet-append xs ys hs k)

  roll_back-AllSet : (ds : List SensorDesc) → AllSet ds → AllSet (roll_back sys ds)
  unfolding roll_back
  roll_back-AllSet [] h = tt
  roll_back-AllSet (d ∷ ds) (h, hs) =
      (sensor_activate_local-Set false user_internal d h, roll_back-AllSet ds hs)

  activate_from-AllSet :
      (on : Bool) (before ds : List SensorDesc)
      → AllSet before
      → AllSet ds
      → AllSet (activate_from sys on before ds).1
  unfolding activate_from
  activate_from-AllSet on before [] b h = b
  activate_from-AllSet on before (d ∷ ds) b (h, hs) =
      let r = sensor_activate_local sys on user_internal d in
      let s = sensor_activate_local-Set on user_internal d h in
      elim (Bool-cases (not (r.0 ==ℤ pos 0) && on)) [
        | inl failed ↦
            rw failed
              (AllSet-append (roll_back sys before) (r.1 ∷ ds) (roll_back-AllSet before b) (s, hs))
        | inr good ↦ rw good (
            activate_from-AllSet on (before ++ passed sys on r.1 ∷ []) ds
              (AllSet-append before (passed sys on r.1 ∷ []) b (passed-Set on r.1 s, tt)) hs)
      ]

  compass_sensor_activate-AllSet :
      (on : Bool) (c : Driver)
      → AllSet c.required
      → AllSet (compass_sensor_activate sys on c).1.required
  unfolding compass_sensor_activate activate_required_sensors
  compass_sensor_activate-AllSet true c s =
      let s' = activate_from-AllSet true [] c.required tt s in
      elim (Bool-cases ((activate_required_sensors sys true c.required).0 ==ℤ pos 0)) [
        | inl good ↦ rw good s'
        | inr bad ↦ rw bad s'
      ]
  compass_sensor_activate-AllSet false c s = activate_from-AllSet false [] c.required tt s

  compass_delay-AllSet :
      (ns : ℤ) (c : Driver)
      → AllSet c.required
      → AllSet (compass_sensor_set_delay sys ns c).1.required
  unfolding compass_sensor_set_delay
  compass_delay-AllSet ns c s = (set_internal-AllSet ns c.required s).1

  at-AllSet :
      (i : ℕ) (f : SensorDesc → SensorDesc) (ds : List SensorDesc)
      → ((d : SensorDesc) → Set d → Set (f d))
      → AllSet ds
      → AllSet (at i f ds)
  at-AllSet i f [] k h = tt
  at-AllSet zero f (d ∷ ds) k (h, hs) = (k d h, hs)
  at-AllSet (suc i) f (d ∷ ds) k (h, hs) = (h, at-AllSet i f ds k hs)

  -- Whatever HAL calls, and whatever device can be opened: let the attributes for the rates be
  -- writable, and let each of the two sensors be as the program starts, with no rate asked for and
  -- none told, or told its users' rate. The same holds after the calls, so that a sensor for which
  -- a user asks for a rate was told one: the last text that was written to its attribute for the
  -- rate is that of the applied rate, which is the lesser delay in milliseconds of the two users,
  -- Android and the compass, that of the only one whose delay is not 0, or 1000 where neither asks
  -- for one.
  pub run-AllSet :
      (xs : List Call) (c : Driver) → AllSet c.required → AllSet (Sharing.run sys xs c).required
  run-AllSet [] c s = s
  run-AllSet (activate i on ∷ xs) c s =
      run-AllSet xs _
        (at-AllSet i _ c.required (λ d h. sensor_activate_local-Set on user_external d h) s)
  run-AllSet (set_delay i ns ∷ xs) c s =
      run-AllSet xs _ (at-AllSet i _ c.required (λ d h. sensor_set_delay-Set ns d h) s)
  run-AllSet (compass_activate on ∷ xs) c s =
      run-AllSet xs _ (compass_sensor_activate-AllSet on c s)
  run-AllSet (compass_delay ns ∷ xs) c s = run-AllSet xs _ (compass_delay-AllSet ns c s)
