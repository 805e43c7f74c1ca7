-- ===== src/Akm/Measure/Mean.antt =====
-- What `AKFS_Set_ACCELEROMETER` of libs/libakm/oss/akfs_measure.c gives between magnetic samples.
use akm_dash.Common.{
  ℕ, ◌≡◌, refl, sym, pos, true, List, [], ◌∷◌, length, get_or, set, take, inl, inr, Bool-cases,
  ◌==◌,
}
use mathlib.Core.Path.{subst}
use akm_dash.Akm.{
  Vec, Arith, error, success, init_buffer, buf_shift, shift_from, init_from, vb_ave, vb_norm,
  init_vec,
}
use akm_dash.Akm.Aoc.{aoc}
use akm_dash.Akm.Average.{AllSet, mean}
use akm_dash.Akm.Held.{Held, init_from-Held}
use akm_dash.Akm.Measure.{
  Prms, averaged, set_magnetic_field, set_accelerometer, init_measure, akm_success,
}
use akm_dash.Akm.Measure.Echo.{doubled, Newest, push-Newest, shift-Newest, vb_ave-Newest}

-- A sample of one of the sensors; with a magnetic one, what stands in `fourpoints` of `AKFS_AOC`.
pub data Sample (N : Type 0) : Type 0 where
  accelerometer : Vec N → Sample N
  magnetic : List (Vec N) → Vec N → Sample N

module _ {N : Type 0} (a : Arith N) where
  -- The parameters after these samples, the newest first.
  abbrev pub measured : List (Sample N) → Prms N → Prms N
  measured [] p = (init_measure a p).1
  measured (accelerometer acc ∷ ss) p = (set_accelerometer a acc (measured ss p)).1
  measured (magnetic f mag ∷ ss) p = (set_magnetic_field a f mag (measured ss p)).1

  -- The accelerations, the newest first, where each magnetic sample doubles the newest one.
  abbrev pub echoes : List (Sample N) → List (Vec N)
  echoes [] = []
  echoes (accelerometer acc ∷ ss) = acc ∷ echoes ss
  echoes (magnetic f mag ∷ ss) = doubled a (echoes ss)

  averaged-avbuf :
      (aocret : ℕ) (r : ℕ × List (Vec N)) (p : Prms N) → (averaged a aocret r p).1.avbuf ≡ p.avbuf
  unfolding averaged
  averaged-avbuf aocret (rc, hvbuf) p = elim (Bool-cases (rc == error)) [
    | inl e ↦ rw e refl
    | inr e ↦ elim (Bool-cases ((vb_ave a (pos 32) hvbuf (pos 8) p.hvec).0 == error)) [
      | inl f ↦ rw (e, f) refl
      | inr f ↦ rw (e, f) refl
    ]
  ]

  init_measure-Newest :
      (p : Prms N) → length p.avbuf ≡ 32 → Newest a ((init_measure a p).1.avbuf) []
  unfolding init_measure init_buffer
  init_measure-Newest p l = (
    0,
    (subst (λ i. Held a i (init_from a i 0 p.avbuf) [] 0) l (init_from-Held a p.avbuf), inl refl),
  )

  set_magnetic_field-Newest :
      (f : List (Vec N)) (mag : Vec N) (p : Prms N) (stream : List (Vec N))
      → Newest a p.avbuf stream
      → Newest a ((set_magnetic_field a f mag p).1.avbuf) (doubled a stream)
  unfolding set_magnetic_field buf_shift
  set_magnetic_field-Newest f mag p stream k =
      let hdata = set p.hdata 0 mag in
      let (aocret, aocv, ho) = aoc a f (get_or hdata 0 (init_vec a)) p.aocv p.ho in
      let p' : Prms N = record p {
        avbuf = shift_from a 31 1 p.avbuf;
        hdata = hdata;
        aocv = aocv;
        ho = ho;
      } in
      let normed = vb_norm a (pos 32) hdata (pos 1) ho p.hs (a.of_int (pos 1)) (pos 32) p.hvbuf in
      subst (λ w. Newest a w (doubled a stream)) (sym (averaged-avbuf aocret normed p'))
        (shift-Newest a p.avbuf stream k)

  set_accelerometer-avbuf :
      (acc : Vec N) (p : Prms N) (stream : List (Vec N))
      → Newest a p.avbuf stream
      → Newest a ((set_accelerometer a acc p).1.avbuf) (acc ∷ stream)
  unfolding set_accelerometer buf_shift
  set_accelerometer-avbuf acc p stream k =
      let pushed = push-Newest a acc p.avbuf stream k in
      let ave = vb_ave a (pos 32) (set (shift_from a 31 1 p.avbuf) 0 acc) (pos 8) p.avec in
      elim (Bool-cases (ave.0 == error)) [ inl e ↦ rw e pushed | inr e ↦ rw e pushed ]

  measured-Newest :
      (ss : List (Sample N)) (p : Prms N)
      → length p.avbuf ≡ 32
      → Newest a ((measured ss p).avbuf) (echoes ss)
  measured-Newest [] p l = init_measure-Newest p l
  measured-Newest (accelerometer acc ∷ ss) p l =
      set_accelerometer-avbuf acc (measured ss p) (echoes ss) (measured-Newest ss p l)
  measured-Newest (magnetic f mag ∷ ss) p l =
      set_magnetic_field-Newest f mag (measured ss p) (echoes ss) (measured-Newest ss p l)

  set_accelerometer-vb_ave :
      (acc v : Vec N) (p : Prms N)
      → vb_ave a (pos 32) (set (shift_from a 31 1 p.avbuf) 0 acc) (pos 8) p.avec ≡ (success, v)
      → ((set_accelerometer a acc p).0 ≡ akm_success) × ((set_accelerometer a acc p).1.avec ≡ v)
  unfolding set_accelerometer buf_shift
  set_accelerometer-vb_ave acc v p e = rw e (refl, refl)

  -- After `AKFS_InitMeasure` and any samples, `AKFS_Set_ACCELEROMETER` succeeds and gives the mean
  -- of the newest eight accelerations, or of all where there are fewer, if each sample of the
  -- magnetic field in between counts as the newest acceleration once more. The accelerations are not
  -- AKFS_INIT_VALUE_F in a component, and this value is equal to itself.
  pub set_accelerometer-mean :
      (ss : List (Sample N)) (acc : Vec N) (p : Prms N)
      → length p.avbuf ≡ 32
      → a.equal a.init_value a.init_value ≡ true
      → AllSet a (acc ∷ echoes ss)
      → let (rc, p') = set_accelerometer a acc (measured ss p) in
        (rc ≡ akm_success) × (p'.avec ≡ mean a (take 8 (acc ∷ echoes ss)))
  set_accelerometer-mean ss acc p l eq known =
      let q = measured ss p in
      set_accelerometer-vb_ave acc (mean a (take 8 (acc ∷ echoes ss))) q (
        vb_ave-Newest a _ (acc ∷ echoes ss) q.avec eq
          (push-Newest a acc q.avbuf (echoes ss) (measured-Newest ss p l)) known)
