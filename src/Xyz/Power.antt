-- ===== src/Xyz/Power.antt =====
-- `sensor_xyz_activate`: the input device is open exactly while the sensor is on.
use akm_dash.Common.{
  ◌≡◌, ◌≢◌, refl, ap, sym, ==ℤ_iff, ◌∙◌, ℤ, pos, negsuc, ◌==ℤ◌, is_neg, Bool, true, false,
  Bool-cases, Option-cases, inl, inr, arith,
}
use akm_dash.Worker
use akm_dash.Worker.{running, sleep}
use akm_dash.Select
use akm_dash.Select.{Select}
use akm_dash.Xyz.{Devices, SensorDesc, activate, open_input_device, find_and_open}

-- The worker runs where it has a descriptor, and sleeps where it has none.
abbrev pub IsConsistent : Select → Type 0
IsConsistent s =
    (is_neg s.fd ≡ false → s.worker.mode ≡ running) × (is_neg s.fd ≡ true → s.worker.mode ≡ sleep)

open_input_device-worker :
    (dev : Devices) (d : SensorDesc) → (open_input_device dev d).1.worker ≡ d.worker
unfolding open_input_device find_and_open
open_input_device-worker dev d = elim (Option-cases dev.find_input) [
  | inl e ↦ ground (arith, e)
  | inr (p, e) ↦ ground (arith, e)
]

activate_opens :
    (dev : Devices) (first second : Bool) (enable : ℤ) (d : SensorDesc)
    → (enable ==ℤ pos 0) ≡ false
    → is_neg d.worker.fd ≡ true
    → let (fd, d₁) = open_input_device dev d in
      (is_neg fd ≡ true → activate dev first second enable d ≡ (fd, d₁))
      × (is_neg fd ≡ false
          → activate dev first second enable d ≡ (
            pos 0,
            record d₁ { worker = Select.resume second (Select.set_fd first fd d₁.worker) },
          ))
unfolding activate Select.get_fd
activate_opens dev first second enable d e n = ground arith

activate_closes :
    (dev : Devices) (first second : Bool) (d : SensorDesc)
    → is_neg d.worker.fd ≡ false
    → activate dev first second (pos 0) d ≡ (
      pos 0,
      record d { worker = Select.suspend second (Select.set_fd first (negsuc 0) d.worker) },
    )
unfolding activate Select.get_fd
activate_closes dev first second d n = ground arith

resumed-IsConsistent :
    (first second : Bool) (fd : ℤ) (s : Select)
    → is_neg fd ≡ false
    → let s' = Select.resume second (Select.set_fd first fd s) in IsConsistent s' × (s'.fd ≡ fd)
unfolding Select.resume Select.set_fd Select.notify Worker.resume
resumed-IsConsistent true true fd s n = (((λ e. refl), (λ e. cc)), refl)
resumed-IsConsistent true false fd s n = (((λ e. refl), (λ e. cc)), refl)
resumed-IsConsistent false true fd s n = (((λ e. refl), (λ e. cc)), refl)
resumed-IsConsistent false false fd s n = (((λ e. refl), (λ e. cc)), refl)

suspended-IsConsistent :
    (first second : Bool) (s : Select)
    → let s' = Select.suspend second (Select.set_fd first (negsuc 0) s) in
      IsConsistent s' × (s'.fd ≡ negsuc 0)
unfolding Select.suspend Select.set_fd Select.notify Worker.suspend
suspended-IsConsistent true true s = (((λ e. cc), (λ e. refl)), refl)
suspended-IsConsistent true false s = (((λ e. cc), (λ e. refl)), refl)
suspended-IsConsistent false true s = (((λ e. cc), (λ e. refl)), refl)
suspended-IsConsistent false false s = (((λ e. cc), (λ e. refl)), refl)

activate_stays :
    (dev : Devices) (first second : Bool) (enable : ℤ) (d : SensorDesc)
    → is_neg d.worker.fd ≡ (enable ==ℤ pos 0)
    → activate dev first second enable d ≡ (pos 0, d)
unfolding activate Select.get_fd
activate_stays dev first second enable d n = ground arith

-- What is asked for, the result, and the state after it.
abbrev Settles : ℤ → ℤ × SensorDesc → Type 0
Settles enable (rc, d') =
    IsConsistent d'.worker
    × (rc ≡ pos 0 → is_neg d'.worker.fd ≡ (enable ==ℤ pos 0))
    × (rc ≢ pos 0 → (is_neg rc ≡ true) × (is_neg d'.worker.fd ≡ true) × (enable ≢ pos 0))

-- Where the worker runs exactly with a descriptor, it does so after `sensor_xyz_activate`, too,
-- whatever is asked and whatever the system answers. Where 0 is returned, the sensor has a
-- descriptor exactly if it was asked to be on; any other result is negative, and the sensor, which
-- was to be switched on, has none.
pub activate-IsConsistent :
    (dev : Devices) (first second : Bool) (enable : ℤ) (d : SensorDesc)
    → IsConsistent d.worker
    → let (rc, d') = activate dev first second enable d in
      IsConsistent d'.worker
      × (rc ≡ pos 0 → is_neg d'.worker.fd ≡ (enable ==ℤ pos 0))
      × (rc ≢ pos 0 → (is_neg rc ≡ true) × (is_neg d'.worker.fd ≡ true) × (enable ≢ pos 0))
activate-IsConsistent dev first second enable d h = elim (Bool-cases (enable ==ℤ pos 0)) [
  | inl off ↦ elim (Bool-cases (is_neg d.worker.fd)) [
    | inl shut ↦ stays (shut ∙ sym off)
    | inr held ↦
        rw ((==ℤ_iff enable (pos 0)).0 off, activate_closes dev first second d held)
          (let (ok, f) = suspended-IsConsistent first second d.worker in
            (ok, (λ e. rw f refl), (λ e. absurd (e refl))))
  ]
  | inr on ↦ elim (Bool-cases (is_neg d.worker.fd)) [
    | inl shut ↦ elim (Bool-cases (is_neg (open_input_device dev d).0)) [
      | inl failed ↦ rw ((activate_opens dev first second enable d on shut).0 failed) (
        rw (open_input_device-worker dev d) h,
        (λ e. absurd (not_zero _ failed e)),
        (λ e. (failed, rw (open_input_device-worker dev d) shut, is_on on)),
      )
      | inr good ↦ rw ((activate_opens dev first second enable d on shut).1 good) (
          let (ok, f) =
            resumed-IsConsistent first second (open_input_device dev d).0
              (open_input_device dev d).1.worker good in
          (ok, (λ e. ap is_neg f ∙ good ∙ sym on), (λ e. absurd (e refl))))
    ]
    | inr held ↦ stays (held ∙ sym on)
  ]
]
  where
    stays :
        is_neg d.worker.fd ≡ (enable ==ℤ pos 0)
        → Settles enable (activate dev first second enable d)
    stays n = rw (activate_stays dev first second enable d n) (h, (λ e. n), (λ e. absurd (e refl)))

    is_on : (enable ==ℤ pos 0) ≡ false → enable ≢ pos 0
    is_on o e = cc

    not_zero : (x : ℤ) → is_neg x ≡ true → x ≢ pos 0
    not_zero (pos n) i e = cc
    not_zero (negsuc n) i e = cc
