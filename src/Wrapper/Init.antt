-- ===== src/Wrapper/Init.antt =====
-- `sensors_wrapper_init`: it ends, and a client that it accepts is connected to what it wants.
use native.Mathlib.Decide.{ℕ_discrete}
use mathlib.Core.Path.{subst}
use akm_dash.Common.{
  ℕ, zero, suc, ◌+◌, ◌-◌, ◌≤◌, ◌<◌, ◌≡◌, ◌≢◌, refl, sym, ◌∙◌, ℤ, pos, negsuc, is_neg, true, false,
  Option, some, List, arith, length, ◌==◌, ==_iff, Bool-cases, ◌⊎◌, inl, inr,
}
use akm_dash.SensorList.{ApiPtr}
use akm_dash.Wrapper.{Found, exhausted, connected, find_sensor, scan, wrapper_init}
use akm_dash.Wrapper.Data.{Call, Wrapper, Access}
use akm_dash.Wrapper.Join.{Joins}
use akm_dash.Wrapper.Find.{FindOk, find_sensor-FindOk}
use akm_dash.Wrapper.Connect.{HasRoom, IsConnected, IsConnected-new, IsConnected-old, HasRoom-after}

-- How `sensors_wrapper_init` ends: with 0 and every wanted sensor connected, or with an error and
-- fewer connections.
abbrev pub InitOk : ApiPtr → ℕ → List ℤ → ℤ × Access × Wrapper → Type 0
InitOk self m_nr match (rc, d, w) =
    (d.m_nr ≡ m_nr)
    × (d.match ≡ match)
    × (((rc ≡ pos 0) × (d.nr ≡ m_nr) × ((k : ℕ) → k < m_nr → IsConnected self d w k))
        ⊎ ((is_neg rc ≡ true) × (d.nr < m_nr)))

module _ (reply : List Call → ℤ) (self : ApiPtr) where
  pub scan_stop :
      (fuel : ℕ) (err err' : ℤ) (d d' : Access) (w w' : Wrapper)
      → find_sensor reply self (length w.list) 0 err d w ≡ exhausted err' d' w'
      → scan reply self (suc fuel) err d w ≡ some (err', d', w')
  unfolding scan
  scan_stop fuel err err' d d' w w' e = rw (e, scan)

  pub scan_done :
      (fuel : ℕ) (err err' : ℤ) (d d' : Access) (w w' : Wrapper)
      → find_sensor reply self (length w.list) 0 err d w ≡ connected err' d' w'
      → (d'.nr == d'.m_nr) ≡ true
      → scan reply self (suc fuel) err d w ≡ some (pos 0, d', w')
  unfolding scan
  scan_done fuel err err' d d' w w' e q = ground arith

  pub scan_again :
      (fuel : ℕ) (err err' : ℤ) (d d' : Access) (w w' : Wrapper)
      → find_sensor reply self (length w.list) 0 err d w ≡ connected err' d' w'
      → (d'.nr == d'.m_nr) ≡ false
      → scan reply self (suc fuel) err d w ≡ scan reply self fuel err' d' w'
  unfolding scan
  scan_again fuel err err' d d' w w' e q = ground arith

  -- A run that has ended, and how.
  abbrev pub EndsOk : ℕ → List ℤ → Option (ℤ × Access × Wrapper) → Type 0
  EndsOk m match o = (r : ℤ × Access × Wrapper) × (o ≡ some r) × InitOk self m match r

  -- What holds of a client before each round.
  abbrev pub IsWaiting : Access → Wrapper → Type 0
  IsWaiting d w =
      (d.nr < d.m_nr)
      × (d.m_nr ≤ length d.sensor)
      × (d.m_nr ≤ length d.client)
      × HasRoom (d.m_nr - d.nr) w
      × ((k : ℕ) → k < d.nr → IsConnected self d w k)

  pub IsConnected-upto :
      (d d' : Access) (w w' : Wrapper)
      → Joins self d w d' w'
      → IsWaiting d w
      → (k : ℕ) → k < d'.nr
      → IsConnected self d' w' k
  IsConnected-upto d d' w w' j v k h = elim (ℕ_discrete d.nr k) [
    | yes e ↦
        subst (λ i. IsConnected self d' w' i) e
          (IsConnected-new j (λ s q. let r = v.3 s q in (omega arith, omega arith)))
    | no ne ↦ IsConnected-old j k ne (v.4 k (omega (arith, j.nr)))
  ]

  pub IsWaiting-after :
      (d d' : Access) (w w' : Wrapper)
      → Joins self d w d' w'
      → IsWaiting d w
      → d'.nr ≢ d'.m_nr
      → IsWaiting d' w'
  IsWaiting-after d d' w w' j v ne =
      let more : d.m_nr - d.nr ≡ suc (d.m_nr - suc d.nr) = omega arith in
      let left : d'.m_nr - d'.nr ≡ d.m_nr - suc d.nr = omega (arith, j.nr, j.m_nr) in
      (
        omega (arith, j.nr, j.m_nr),
        omega (arith, j.sensors, j.m_nr),
        omega (arith, j.clients, j.m_nr),
        subst (λ r. HasRoom r w') (sym left)
            (HasRoom-after j (d.m_nr - suc d.nr) (subst (λ r. HasRoom r w) more v.3)),
        IsConnected-upto d d' w w' j v,
      )

  scan_round :
      (fuel : ℕ) (err : ℤ) (d : Access) (w : Wrapper)
      → IsWaiting d w
      → ((err' : ℤ) (d' : Access) (w' : Wrapper)
          → is_neg err' ≡ true
          → Joins self d w d' w'
          → IsWaiting d' w'
          → EndsOk d'.m_nr d'.match (scan reply self fuel err' d' w'))
      → (f : Found) → find_sensor reply self (length w.list) 0 err d w ≡ f
      → FindOk self d w f
      → EndsOk d.m_nr d.match (scan reply self (suc fuel) err d w)
  scan_round fuel err d w v go (exhausted err' d' w') e (neg, n, m, x, l) =
      ((err', d', w'), scan_stop fuel err err' d d' w w' e, (m, x, inr (neg, omega arith)))
  scan_round fuel err d w v go (connected err' d' w') e (neg, j) =
      elim (Bool-cases (d'.nr == d'.m_nr)) [
        | inl full ↦
            (let n = (==_iff d'.nr d'.m_nr).0 full in
              (
                (pos 0, d', w'),
                scan_done fuel err err' d d' w w' e full,
                (
                  j.m_nr,
                  j.match,
                  inl (
                    refl,
                    n ∙ j.m_nr,
                    (λ k h. IsConnected-upto d d' w w' j v k (omega (arith, j.m_nr))),
                  ),
                ),
              ))
        | inr more ↦
            (let ne : d'.nr ≢ d'.m_nr = λ q. absurd (ground (arith, ==_iff d'.nr d'.m_nr)) in
              let (r, p, q) = go err' d' w' neg j (IsWaiting-after d d' w w' j v ne) in
              (
                r,
                scan_again fuel err err' d d' w w' e more ∙ p,
                subst (λ m. InitOk self m d.match r) j.m_nr
                    (subst (λ m. InitOk self d'.m_nr m r) j.match q),
              ))
      ]

  scan_ends :
      (fuel : ℕ) (err : ℤ) (d : Access) (w : Wrapper)
      → d.m_nr ≤ d.nr + fuel
      → is_neg err ≡ true
      → IsWaiting d w
      → EndsOk d.m_nr d.match (scan reply self fuel err d w)
  scan_ends zero err d w h neg v = absurd (omega arith)
  scan_ends (suc fuel) err d w h neg v =
      scan_round fuel err d w v
        (λ err' d' w' neg' j v'. scan_ends fuel err' d' w' (omega (arith, j.nr, j.m_nr)) neg' v')
        (find_sensor reply self (length w.list) 0 err d w) refl
        (find_sensor-FindOk reply self (length w.list) 0 err d w (omega arith) (omega arith)
          (omega arith) neg)

  -- `sensors_wrapper_init` of a client that is not connected yet ends, whatever the drivers return,
  -- if it wants at least one sensor, its access field has a place for each, and every registered
  -- sensor has room for that many more clients. Where it returns 0, each wanted place names a
  -- registered sensor of the wanted type, with a client number of that sensor that holds this
  -- client and is marked as initialised; else it returns a negative value and some sensor is
  -- missing.
  pub wrapper_init_ends :
      (d : Access) (w : Wrapper)
      → d.nr ≡ 0
      → 0 < d.m_nr
      → d.m_nr ≤ length d.sensor
      → d.m_nr ≤ length d.client
      → HasRoom d.m_nr w
      → EndsOk d.m_nr d.match (wrapper_init reply self d w)
  unfolding wrapper_init
  wrapper_init_ends d w z p hs hc room = scan_ends (suc d.m_nr) (negsuc 0) d w (omega arith) refl (
    omega arith,
    hs,
    hc,
    (λ j h. let r = room j h in (omega arith, omega arith)),
    (λ k h. absurd (omega arith)),
  )
