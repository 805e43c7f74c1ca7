-- ===== src/Lsm303dlh/Sharing.antt =====
-- Activation in sensors/lsm303dlh.c: no sensor keeps its device open without a user.
use akm_dash.Common.{
  ℕ, zero, suc, ◌≡◌, ◌≢◌, ap, sym, ◌∙◌, ℤ, pos, ◌==ℤ◌, ==ℤ_iff, is_neg, is_pos, Bool, true, false,
  not, ◌&&◌, Bool-cases, inl, inr, List, [], ◌∷◌, ◌++◌, arith, if_both,
}
use akm_dash.Config.Text.{Bytes}
use akm_dash.Select
use akm_dash.Lsm303dlh.{
  SensorDesc, System, Driver, Users, user_internal, user_external, mark, in_use, sensor_set_delay,
  sensor_activate_local, passed, roll_back, activate_from, activate_required_sensors,
  compass_sensor_activate, compass_sensor_set_delay, set_internal,
}
use akm_dash.Lsm303dlh.Switching.{
  IsReleased, Same, unchanged, released_same, update_delay-Same, fd-set_fd, fd-resume, fd-suspend,
  neg_ne, true_ne, sensor_activate_local-Switched, open_input_device_ne, in_use_on,
}

abbrev pub AllReleased : List SensorDesc → Type 0
AllReleased [] = Unit
AllReleased (d ∷ ds) = IsReleased d × AllReleased ds

AllReleased-append :
    (xs ys : List SensorDesc) → AllReleased xs → AllReleased ys → AllReleased (xs ++ ys)
AllReleased-append [] ys h k = k
AllReleased-append (x ∷ xs) ys (h, hs) k = (h, AllReleased-append xs ys hs k)

-- The calls that HAL makes: for one of the two sensors, by its number, or for the compass.
pub data Call : Type 0 where
  activate : ℕ → Bool → Call
  set_delay : ℕ → ℤ → Call
  compass_activate : Bool → Call
  compass_delay : ℤ → Call

abbrev pub at : ℕ → (SensorDesc → SensorDesc) → List SensorDesc → List SensorDesc
at i f [] = []
at zero f (d ∷ ds) = f d ∷ ds
at (suc i) f (d ∷ ds) = d ∷ at i f ds

at-AllReleased :
    (i : ℕ) (f : SensorDesc → SensorDesc) (ds : List SensorDesc)
    → ((d : SensorDesc) → IsReleased d → IsReleased (f d))
    → AllReleased ds
    → AllReleased (at i f ds)
at-AllReleased i f [] k h = tt
at-AllReleased zero f (d ∷ ds) k (h, hs) = (k d h, hs)
at-AllReleased (suc i) f (d ∷ ds) k (h, hs) = (h, at-AllReleased i f ds k hs)

not_pos_neg : (x : ℤ) → is_pos x ≡ false → x ≢ pos 0 → is_neg x ≡ true
not_pos_neg x p z = ground (arith, ==ℤ_iff x (pos 0))

module _ (sys : System) where
  abbrev pub apply : Call → Driver → Driver
  apply (activate i on) c = record c {
    required = at i (λ d. (sensor_activate_local sys on user_external d).1) c.required;
  }
  apply (set_delay i ns) c = record c {
    required = at i (λ d. (sensor_set_delay sys ns d).1) c.required;
  }
  apply (compass_activate on) c = (compass_sensor_activate sys on c).1
  apply (compass_delay ns) c = (compass_sensor_set_delay sys ns c).1

  abbrev pub run : List Call → Driver → Driver
  run [] c = c
  run (x ∷ xs) c = run xs (apply x c)

  set_internal-AllReleased :
      (ns : ℤ) (ds : List SensorDesc) → AllReleased ds → AllReleased (set_internal sys ns ds).1
  unfolding set_internal
  set_internal-AllReleased ns [] h = tt
  set_internal-AllReleased ns (d ∷ ds) (h, hs) =
      let u = update_delay-Same sys (record d { internal_delay = ns }) in
      (
        released_same d _ (record { users = u.users; worker = u.worker }) h,
        set_internal-AllReleased ns ds hs,
      )

  sensor_set_delay-Same : (ns : ℤ) (d : SensorDesc) → Same d (sensor_set_delay sys ns d).1
  unfolding sensor_set_delay
  sensor_set_delay-Same ns d =
      let u = update_delay-Same sys (record d { external_delay = ns }) in
      record { users = u.users; worker = u.worker }

  -- No sensor, nor the compass, has a descriptor without a user.
  pub record Tidy (c : Driver) : Type 0 where
    pub required : AllReleased c.required
    pub compass : IsReleased c.compass

  module _ (no_zero : (p : Bytes) → sys.open_path p ≢ pos 0) where
    pub passed-Same : (enable : Bool) (d : SensorDesc) → Same d (passed sys enable d)
    unfolding passed
    passed-Same true d = unchanged d
    passed-Same false d =
        let u = update_delay-Same sys (record d { internal_delay = pos 0 }) in
        record { users = u.users; worker = u.worker }

    roll_back-AllReleased : (ds : List SensorDesc) → AllReleased ds → AllReleased (roll_back sys ds)
    unfolding roll_back
    roll_back-AllReleased [] h = tt
    roll_back-AllReleased (d ∷ ds) (h, hs) = (
      (sensor_activate_local-Switched sys no_zero false user_internal d h).released,
      roll_back-AllReleased ds hs,
    )

    pub activate_from-AllReleased :
        (enable : Bool) (before ds : List SensorDesc)
        → AllReleased before
        → AllReleased ds
        → AllReleased (activate_from sys enable before ds).1
    unfolding activate_from
    activate_from-AllReleased enable before [] b h = b
    activate_from-AllReleased enable before (d ∷ ds) b (h, hs) =
        let r = sensor_activate_local sys enable user_internal d in
        let s = sensor_activate_local-Switched sys no_zero enable user_internal d h in
        elim (Bool-cases (not (r.0 ==ℤ pos 0) && enable)) [
          | inl failed ↦ rw failed (
              AllReleased-append (roll_back sys before) (r.1 ∷ ds) (roll_back-AllReleased before b)
                (s.released, hs))
          | inr good ↦ rw good (
              activate_from-AllReleased enable (before ++ passed sys enable r.1 ∷ []) ds
                (AllReleased-append before (passed sys enable r.1 ∷ []) b
                  (released_same r.1 _ (passed-Same enable r.1) s.released, tt))
                hs)
        ]

    pub compass_sensor_activate-Tidy :
        (on : Bool) (c : Driver) → Tidy c → Tidy (compass_sensor_activate sys on c).1
    unfolding compass_sensor_activate activate_required_sensors Select.get_fd
    compass_sensor_activate-Tidy true c t =
        let d = record c.compass { users = mark true user_external c.compass.users } in
        let req = activate_from-AllReleased true [] c.required tt t.required in
        elim (Bool-cases ((activate_required_sensors sys true c.required).0 ==ℤ pos 0)) [
          | inl good ↦ rw good (record {
            required = req;
            compass = record {
              above = λ e.
                  if_both (λ x. x ≢ pos 0) (is_neg c.compass.worker.fd) _ _
                    (λ n. open_input_device_ne sys no_zero d) (λ n. t.compass.above)
                    (sym (fd-resume sys _ _) ∙ e);
              shut = λ e. absurd (true_ne (sym (used c.compass.users) ∙ e));
            };
          })
          | inr bad ↦ rw bad (record {
            required = req;
            compass = record {
              above = t.compass.above;
              shut = λ e. absurd (true_ne (sym (used c.compass.users) ∙ e));
            };
          })
        ]
      where
        used : (u : Users) → in_use (mark true user_external u) ≡ true
        used u = in_use_on sys no_zero user_external u
    compass_sensor_activate-Tidy false c t =
        let req = activate_from-AllReleased false [] c.required tt t.required in
        elim (Bool-cases (is_pos c.compass.worker.fd)) [
          | inl held ↦ rw held (record {
            required = req;
            compass = record {
              above = λ e. neg_ne (sym (fd-set_fd sys _ _) ∙ e);
              shut = λ e. ap is_neg (fd-set_fd sys _ _);
            };
          })
          | inr shut ↦ rw shut (record {
            required = req;
            compass = record {
              above = λ e. t.compass.above (sym (fd-suspend sys _) ∙ e);
              shut = λ e.
                  ap is_neg (fd-suspend sys _)
                  ∙ not_pos_neg c.compass.worker.fd shut t.compass.above;
            };
          })
        ]

    compass_delay-Tidy : (ns : ℤ) (c : Driver) → Tidy c → Tidy (compass_sensor_set_delay sys ns c).1
    unfolding compass_sensor_set_delay
    compass_delay-Tidy ns c t = record {
      required = set_internal-AllReleased ns c.required t.required;
      compass = t.compass;
    }

    -- Whatever HAL calls, and whatever fails, where `open` gives the same for a path at each call and
    -- a write to a pipe the same for a worker in the same state: as long as `open` does not give
    -- descriptor 0, neither
    -- of the two sensors nor the compass has a descriptor after the calls without a user, that is,
    -- Android or, for the two sensors, the compass, if that was so before them.
    pub run-Tidy : (xs : List Call) (c : Driver) → Tidy c → Tidy (run xs c)
    run-Tidy [] c t = t
    run-Tidy (x ∷ xs) c t = run-Tidy xs (apply x c) (apply-Tidy x c t)
      where
        apply-Tidy : (x : Call) (c : Driver) → Tidy c → Tidy (apply x c)
        apply-Tidy (activate i on) c t = record {
          required =
              at-AllReleased i _ c.required
                (λ d h. (sensor_activate_local-Switched sys no_zero on user_external d h).released)
                t.required;
          compass = t.compass;
        }
        apply-Tidy (set_delay i ns) c t = record {
          required =
              at-AllReleased i _ c.required
                (λ d h. released_same d _ (sensor_set_delay-Same ns d) h) t.required;
          compass = t.compass;
        }
        apply-Tidy (compass_activate on) c t = compass_sensor_activate-Tidy on c t
        apply-Tidy (compass_delay ns) c t = compass_delay-Tidy ns c t
