-- ===== src/Lsm303dlh/Failure.antt =====
-- The compass of sensors/lsm303dlh.c, as it takes its two sensors and gives them back.
use akm_dash.Common.{
  ◌≡◌, ◌≢◌, refl, ap, sym, ◌∙◌, ℤ, pos, negsuc, ◌==ℤ◌, ==ℤ_iff, is_neg, Bool, true, false, not,
  ◌&&◌, Bool-cases, inl, inr, List, [], ◌∷◌, ◌++◌, map, append-nil, append_assoc, arith,
}
use akm_dash.Config.Text.{Bytes}
use akm_dash.Select
use akm_dash.Lsm303dlh.{
  SensorDesc, System, Driver, Users, user_internal, mark, in_use, open_input_device,
  sensor_activate_local, passed, roll_back, activate_from, activate_required_sensors,
  compass_sensor_activate,
}
use akm_dash.Lsm303dlh.Switching.{
  IsReleased, released_same, in_use_on, sensor_activate_local-Switched, true_ne,
}
use akm_dash.Lsm303dlh.Sharing.{AllReleased, Tidy, passed-Same}

-- The same relation between the sensors at each place.
abbrev pub Each : (SensorDesc → SensorDesc → Type 0) → List SensorDesc → List SensorDesc → Type 0
Each R [] [] = Unit
Each R [] (y ∷ ys) = ⊥
Each R (x ∷ xs) [] = ⊥
Each R (x ∷ xs) (y ∷ ys) = R x y × Each R xs ys

-- A sensor before and after the compass takes or gives back its sensors.
pub record Shared (on : Bool) (d d' : SensorDesc) : Type 0 where
  pub users : d'.users ≡ mark on user_internal d.users
  pub kept :
      in_use (mark on user_internal d.users) ≡ true
      → is_neg d.worker.fd ≡ false
      → d'.worker ≡ d.worker
  pub opened : on ≡ true → is_neg d'.worker.fd ≡ false
  pub shut : in_use (mark on user_internal d.users) ≡ false → is_neg d'.worker.fd ≡ true

zero_of : (x : ℤ) (on : Bool) → on ≡ true → not (x ==ℤ pos 0) && on ≡ false → x ≡ pos 0
zero_of x on e p = ground (arith, ==ℤ_iff x (pos 0))

module _ (sys : System) where
  -- The loop goes on behind this sensor.
  abbrev Passes : Bool → SensorDesc → Type 0
  Passes enable d =
      not ((sensor_activate_local sys enable user_internal d).0 ==ℤ pos 0) && enable ≡ false

  abbrev AllPass : Bool → List SensorDesc → Type 0
  AllPass enable [] = Unit
  AllPass enable (d ∷ ds) = Passes enable d × AllPass enable ds

  abbrev turned : Bool → SensorDesc → SensorDesc
  turned enable d = passed sys enable (sensor_activate_local sys enable user_internal d).1

  activate_from_pass :
      (enable : Bool) (before xs ds : List SensorDesc)
      → AllPass enable xs
      → activate_from sys enable before (xs ++ ds)
        ≡ activate_from sys enable (before ++ map (turned enable) xs) ds
  unfolding activate_from
  activate_from_pass enable before [] ds h =
      ap (λ b. activate_from sys enable b ds) (sym (append-nil before))
  activate_from_pass enable before (x ∷ xs) ds (h, hs) = rw h (
      activate_from_pass enable (before ++ turned enable x ∷ []) xs ds hs
      ∙ ap (λ b. activate_from sys enable b ds)
          (append_assoc before (turned enable x ∷ []) (map (turned enable) xs)))

  activate_passing :
      (enable : Bool) (ds : List SensorDesc)
      → AllPass enable ds
      → activate_required_sensors sys enable ds ≡ (pos 0, map (turned enable) ds)
  unfolding activate_required_sensors activate_from
  activate_passing enable ds h =
      ap (activate_from sys enable []) (sym (append-nil ds)) ∙ activate_from_pass enable [] ds [] h

  off_AllPass : (ds : List SensorDesc) → AllPass false ds
  off_AllPass [] = tt
  off_AllPass (d ∷ ds) = (ground arith, off_AllPass ds)

  module _ (no_zero : (p : Bytes) → sys.open_path p ≢ pos 0) where
    turned-Shared :
        (on : Bool) (d : SensorDesc) → IsReleased d → Passes on d → Shared on d (turned on d)
    turned-Shared on d h p =
        let r = sensor_activate_local sys on user_internal d in
        let s = sensor_activate_local-Switched sys no_zero on user_internal d h in
        let q = passed-Same sys no_zero on r.1 in
        record {
          users = q.users ∙ s.users;
          kept = λ u n. q.worker ∙ s.kept u n;
          opened = λ e.
              ap (λ (w : Select.Select). is_neg w.fd) q.worker ∙ s.opened e (zero_of r.0 on e p);
          shut = λ u.
              ap (λ (w : Select.Select). is_neg w.fd) q.worker
              ∙ s.released.shut (ap in_use s.users ∙ u);
        }

    map-Shared :
        (on : Bool) (ds : List SensorDesc)
        → AllReleased ds
        → AllPass on ds
        → Each (Shared on) ds (map (turned on) ds)
    map-Shared on [] h p = tt
    map-Shared on (d ∷ ds) (h, hs) (p, ps) = (turned-Shared on d h p, map-Shared on ds hs ps)

    -- The device of each of these sensors can be opened.
    abbrev pub AllOpen : List SensorDesc → Type 0
    AllOpen [] = Unit
    AllOpen (d ∷ ds) = (is_neg (open_input_device sys d) ≡ false) × AllOpen ds

    opens_pass : (d : SensorDesc) → is_neg (open_input_device sys d) ≡ false → Passes true d
    unfolding sensor_activate_local open_input_device Select.get_fd
    opens_pass d o = elim (Bool-cases (is_neg d.worker.fd)) [
      | inl shut ↦ rw (shut, o) refl
      | inr held ↦ rw held refl
    ]

    AllOpen-AllPass : (ds : List SensorDesc) → AllOpen ds → AllPass true ds
    AllOpen-AllPass [] o = tt
    AllOpen-AllPass (d ∷ ds) (o, os) = (opens_pass d o, AllOpen-AllPass ds os)

    required_after :
        (on : Bool) (c : Driver)
        → AllPass on c.required
        → ((compass_sensor_activate sys on c).0 ≡ pos 0)
          × ((compass_sensor_activate sys on c).1.required ≡ map (turned on) c.required)
    unfolding compass_sensor_activate
    required_after true c p = rw (activate_passing true c.required p) (refl, refl)
    required_after false c p = rw (activate_passing false c.required p) (refl, refl)

    all_pass : (on : Bool) (ds : List SensorDesc) → (on ≡ true → AllOpen ds) → AllPass on ds
    all_pass true ds o = AllOpen-AllPass ds (o refl)
    all_pass false ds o = off_AllPass ds

    -- Where no sensor has a descriptor without a user and `open` does not give descriptor 0,
    -- switching the compass off always succeeds, and switching it on where the devices of its
    -- sensors can be opened. Only the compass' own use of the two sensors changes then. A sensor
    -- that is still used, by Android or the compass, keeps the worker and the descriptor that it
    -- has; one without a user has no descriptor; and each has one while the compass is on.
    pub compass_sensor_activate-Shared :
        (on : Bool) (c : Driver)
        → Tidy sys c
        → (on ≡ true → AllOpen c.required)
        → let (rc, c') = compass_sensor_activate sys on c in
          (rc ≡ pos 0) × Each (Shared on) c.required c'.required
    compass_sensor_activate-Shared on c t o =
        let p = all_pass on c.required o in
        let (rc, same) = required_after on c p in
        (rc, rw same (map-Shared on c.required t.required p))

    mark_twice :
        (u : Users)
        → mark false user_internal (mark true user_internal u) ≡ mark false user_internal u
    unfolding mark
    mark_twice u = refl

    -- Taken and given back.
    back-Shared :
        (d : SensorDesc)
        → IsReleased d
        → Passes true d
        → Shared false d (sensor_activate_local sys false user_internal (turned true d)).1
    back-Shared d h p =
        let r = sensor_activate_local sys true user_internal d in
        let q = passed-Same sys no_zero true r.1 in
        let first = sensor_activate_local-Switched sys no_zero true user_internal d h in
        let on = turned-Shared true d h p in
        let s =
          sensor_activate_local-Switched sys no_zero false user_internal (turned true d)
            (released_same r.1 _ q first.released) in
        let u = ap (mark false user_internal) on.users ∙ mark_twice d.users in
        record {
          users = s.users ∙ u;
          kept = λ e n.
              s.kept (ap in_use u ∙ e) (on.opened refl)
              ∙ on.kept (in_use_on sys no_zero user_internal d.users) n;
          opened = λ e. absurd (true_ne (sym e));
          shut = λ e. s.released.shut (ap in_use (s.users ∙ u) ∙ e);
        }

    roll_back-Shared :
        (ds : List SensorDesc)
        → AllReleased ds
        → AllPass true ds
        → Each (Shared false) ds (roll_back sys (map (turned true) ds))
    unfolding roll_back
    roll_back-Shared [] h p = tt
    roll_back-Shared (d ∷ ds) (h, hs) (p, ps) = (back-Shared d h p, roll_back-Shared ds hs ps)

    fails_local :
        (d : SensorDesc)
        → is_neg d.worker.fd ≡ true
        → is_neg (open_input_device sys d) ≡ true
        → sensor_activate_local sys true user_internal d
          ≡ (negsuc 0, record d { users = mark true user_internal d.users })
    unfolding sensor_activate_local open_input_device Select.get_fd
    fails_local d shut bad = rw (shut, bad) refl

    fails_there :
        (before ys : List SensorDesc) (d : SensorDesc)
        → is_neg d.worker.fd ≡ true
        → is_neg (open_input_device sys d) ≡ true
        → activate_from sys true before (d ∷ ys) ≡ (
          negsuc 0,
          roll_back sys before ++ record d { users = mark true user_internal d.users } ∷ ys,
        )
    unfolding activate_from
    fails_there before ys d shut bad = rw (fails_local d shut bad) refl

    fails :
        (xs ys : List SensorDesc) (d : SensorDesc)
        → AllPass true xs
        → is_neg d.worker.fd ≡ true
        → is_neg (open_input_device sys d) ≡ true
        → activate_required_sensors sys true (xs ++ d ∷ ys) ≡ (
          negsuc 0,
          roll_back sys (map (turned true) xs)
              ++ record d { users = mark true user_internal d.users } ∷ ys,
        )
    unfolding activate_required_sensors
    fails xs ys d p shut bad =
        activate_from_pass true [] xs (d ∷ ys) p ∙ fails_there (map (turned true) xs) ys d shut bad

    released_before : (xs ys : List SensorDesc) → AllReleased (xs ++ ys) → AllReleased xs
    released_before [] ys h = tt
    released_before (x ∷ xs) ys (h, hs) = (h, released_before xs ys hs)

    -- Where the device of a sensor cannot be opened, switching the compass on fails with -1, and
    -- the sensors before it are given back. But the sensor that failed stays marked as used by the
    -- compass, without a descriptor, and the compass as used by Android.
    pub compass_sensor_activate_failed :
        (c : Driver) (xs ys : List SensorDesc) (d : SensorDesc)
        → Tidy sys c
        → c.required ≡ xs ++ d ∷ ys
        → AllOpen xs
        → is_neg d.worker.fd ≡ true
        → is_neg (open_input_device sys d) ≡ true
        → let (rc, c') = compass_sensor_activate sys true c in
          (rc ≡ negsuc 0)
          × ((xs' : List SensorDesc) × (c'.required
                ≡ xs' ++ record d { users = mark true user_internal d.users } ∷ ys)
              × Each (Shared false) xs xs')
          × (c'.compass.users.external ≡ true)
    unfolding compass_sensor_activate mark
    compass_sensor_activate_failed c xs ys d t e o shut bad =
        let p = AllOpen-AllPass xs o in
        let run = ap (activate_required_sensors sys true) e ∙ fails xs ys d p shut bad in
        let h = released_before xs (d ∷ ys) (rw (sym e) t.required) in
        rw run (refl, (roll_back sys (map (turned true) xs), refl, roll_back-Shared xs h p), refl)
