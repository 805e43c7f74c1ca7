-- ===== src/Lsm303dlh/Switching.antt =====
-- `sensor_activate_local` of sensors/lsm303dlh.c: one user of one sensor.
use akm_dash.Common.{
  ◌≡◌, ◌≢◌, refl, ap, sym, ◌∙◌, ℤ, pos, negsuc, ◌==ℤ◌, ==ℤ_iff, is_neg, is_pos, Bool, true, false,
  ◌&&◌, Bool-cases, inl, inr, Option, none, some, arith, if_both,
}
use akm_dash.Config.Text.{Bytes}
use akm_dash.Select
use akm_dash.Xyz.Attr.{store_int_attr}
use akm_dash.Lsm303dlh.{
  SensorDesc, System, User, Users, user_internal, user_external, mark, in_use, set_fd, suspend,
  resume, open_input_device, change_mode, set_pollrate, apply_rate, update_delay,
  sensor_activate_local,
}

-- Without a user the sensor has no descriptor; descriptor 0 is not used.
pub record IsReleased (d : SensorDesc) : Type 0 where
  pub above : d.worker.fd ≢ pos 0
  pub shut : in_use d.users ≡ false → is_neg d.worker.fd ≡ true

-- A different rate changes neither the users nor the worker.
pub record Same (d d' : SensorDesc) : Type 0 where
  pub users : d'.users ≡ d.users
  pub worker : d'.worker ≡ d.worker

pub unchanged : (d : SensorDesc) → Same d d
unchanged d = record { users = refl; worker = refl }

pub released_same : (d d' : SensorDesc) → Same d d' → IsReleased d → IsReleased d'
released_same d d' s h = record {
  above = rw s.worker h.above;
  shut = rw (s.users, s.worker) h.shut;
}

is_pos_of : (x : ℤ) → is_neg x ≡ false → x ≢ pos 0 → is_pos x ≡ true
is_pos_of x n z = ground (arith, ==ℤ_iff x (pos 0))

fd-notify : (b : Bool) (s : Select.Select) → (Select.notify b s).fd ≡ s.fd
unfolding Select.notify
fd-notify true s = refl
fd-notify false s = refl

neg_not_pos : (x : ℤ) → is_neg x ≡ true → is_pos x ≡ false
neg_not_pos x h = ground arith

and_false : (b : Bool) → b && false ≡ false
and_false true = refl
and_false false = refl

pub neg_ne : negsuc 0 ≢ pos 0
neg_ne e = cc

pub true_ne : true ≢ false
true_ne e = cc

module _ (sys : System) where
  change_mode-Same : (m : Option Bytes) (ms : ℤ) (d : SensorDesc) → Same d (change_mode sys m ms d)
  unfolding change_mode
  change_mode-Same none ms d = unchanged d
  change_mode-Same (some attr) ms d =
      if_both (Same d) _ _ _ (λ h. record { users = refl; worker = refl })
        (λ h. record { users = refl; worker = refl })

  set_pollrate-Same :
      (rate_ms : Bytes) (ms : ℤ) (d : SensorDesc) → Same d (set_pollrate sys rate_ms ms d).1
  unfolding set_pollrate
  set_pollrate-Same rate_ms ms d = elim (Bool-cases (ms ==ℤ d.applied_delay_ms)) [
    | inl old ↦ rw old (unchanged d)
    | inr new ↦ elim (Bool-cases ((store_int_attr sys.reply rate_ms ms d.attrs).0 ==ℤ pos 0)) [
      | inl good ↦
          rw (new, good)
            (let m = change_mode-Same d.dev_attr_mode ms _ in
              record { users = m.users; worker = m.worker })
      | inr bad ↦ rw (new, bad) (record { users = refl; worker = refl })
    ]
  ]

  apply_rate-Same : (o : Option Bytes) (ms : ℤ) (d : SensorDesc) → Same d (apply_rate sys o ms d).1
  unfolding apply_rate
  apply_rate-Same none ms d = unchanged d
  apply_rate-Same (some rate_ms) ms d =
      let p = set_pollrate-Same rate_ms ms d in
      elim (Bool-cases (ms ==ℤ d.applied_delay_ms)) [
        | inl old ↦ rw old (unchanged d)
        | inr new ↦ elim (Bool-cases ((set_pollrate sys rate_ms ms d).0 ==ℤ pos 0)) [
          | inl good ↦ rw (new, good) (record { users = p.users; worker = p.worker })
          | inr bad ↦ rw (new, bad) p
        ]
      ]

  pub update_delay-Same : (d : SensorDesc) → Same d (update_delay sys d).1
  unfolding update_delay
  update_delay-Same d = apply_rate-Same d.dev_attr_rate_ms _ d

  pub fd-set_fd : (fd : ℤ) (s : Select.Select) → (set_fd sys fd s).fd ≡ fd
  unfolding set_fd Select.set_fd
  fd-set_fd fd s = fd-notify _ _

  pub fd-resume : (fd : ℤ) (s : Select.Select) → (resume sys (set_fd sys fd s)).fd ≡ fd
  unfolding resume Select.resume
  fd-resume fd s = fd-notify _ _ ∙ fd-set_fd fd s

  pub fd-suspend : (s : Select.Select) → (suspend sys s).fd ≡ s.fd
  unfolding suspend Select.suspend
  fd-suspend s = fd-notify _ _

  -- What `sensor_activate_local` leaves.
  pub record Switched (enable : Bool) (user : User) (d : SensorDesc) (r : ℤ × SensorDesc)
      : Type 0 where
    pub users : r.1.users ≡ mark enable user d.users
    pub released : IsReleased r.1
    pub opened : enable ≡ true → r.0 ≡ pos 0 → is_neg r.1.worker.fd ≡ false
    pub failed : r.0 ≢ pos 0 → (is_neg r.1.worker.fd ≡ true) × (r.0 ≡ negsuc 0)
    pub kept :
        in_use (mark enable user d.users) ≡ true
        → is_neg d.worker.fd ≡ false
        → r.1.worker ≡ d.worker

  module _ (no_zero : (p : Bytes) → sys.open_path p ≢ pos 0) where
    pub open_input_device_ne : (d : SensorDesc) → open_input_device sys d ≢ pos 0
    unfolding open_input_device
    open_input_device_ne d = if_both (λ x. x ≢ pos 0) _ _ _ (λ h. no_zero d.dev_path) (λ h. neg_ne)

    pub in_use_on : (user : User) (u : Users) → in_use (mark true user u) ≡ true
    unfolding in_use mark
    in_use_on user_internal u = refl
    in_use_on user_external u = ground arith

    pub sensor_activate_local-Switched :
        (enable : Bool) (user : User) (d : SensorDesc)
        → IsReleased d
        → Switched enable user d (sensor_activate_local sys enable user d)
    unfolding sensor_activate_local Select.get_fd
    sensor_activate_local-Switched true user d h = elim (Bool-cases (is_neg d.worker.fd)) [
      | inl shut ↦ elim (Bool-cases (is_neg (open_input_device sys (marked d)))) [
        | inl failed ↦
            rw (shut, failed)
              (record {
                users = refl;
                released = record { above = h.above; shut = λ e. shut };
                opened = λ e z. absurd (neg_ne z);
                failed = λ z. (shut, refl);
                kept = λ e n. refl;
              })
        | inr good ↦
            rw (shut, good)
              (record {
                users = refl;
                released = record {
                  above = λ e. open_input_device_ne (marked d) (sym (fd-resume _ _) ∙ e);
                  shut = λ e. absurd (true_ne (sym (in_use_on user d.users) ∙ e));
                };
                opened = λ e z. ap is_neg (fd-resume _ _) ∙ good;
                failed = λ z. absurd (z refl);
                kept = λ e n. absurd (true_ne (sym shut ∙ n));
              })
      ]
      | inr held ↦ rw held (record {
        users = refl;
        released = record {
          above = h.above;
          shut = λ e. absurd (true_ne (sym (in_use_on user d.users) ∙ e));
        };
        opened = λ e z. held;
        failed = λ z. absurd (z refl);
        kept = λ e n. refl;
      })
    ]
      where
        marked : SensorDesc → SensorDesc
        marked d = record d { users = mark true user d.users }
    sensor_activate_local-Switched false user d h =
        elim (Bool-cases (in_use (mark false user d.users))) [
          | inl used ↦
              rw (used, and_false (is_pos d.worker.fd))
                (record {
                  users = refl;
                  released = record {
                    above = h.above;
                    shut = λ e. absurd (true_ne (sym used ∙ e));
                  };
                  opened = λ e. absurd (true_ne (sym e));
                  failed = λ z. absurd (z refl);
                  kept = λ e n. refl;
                })
          | inr free ↦ elim (Bool-cases (is_neg d.worker.fd)) [
            | inl shut ↦
                rw (free, neg_not_pos d.worker.fd shut)
                  (record {
                    users = refl;
                    released = record { above = h.above; shut = λ e. shut };
                    opened = λ e. absurd (true_ne (sym e));
                    failed = λ z. absurd (z refl);
                    kept = λ e n. refl;
                  })
            | inr held ↦
                rw (free, is_pos_of d.worker.fd held h.above)
                  (record {
                    users = refl;
                    released = record {
                      above = λ e. neg_ne (sym (fd-set_fd _ _) ∙ e);
                      shut = λ e. ap is_neg (fd-set_fd _ _);
                    };
                    opened = λ e. absurd (true_ne (sym e));
                    failed = λ z. absurd (z refl);
                    kept = λ e n. absurd (true_ne (sym e ∙ free));
                  })
          ]
        ]
