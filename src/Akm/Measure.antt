-- ===== src/Akm/Measure.antt =====
-- libs/libakm/oss/akfs_measure.c: what becomes of a sample of the two sensors.
pub mod Echo
pub mod Mean
use akm_dash.Common.{
  ℕ, ℤ, pos, negsuc, Bool, true, false, ◌&&◌, List, [], ◌∷◌, get_or, set, ◌==◌, if◌then◌else◌,
}
use akm_dash.Akm.{Vec, Arith, success, error, init_vec, init_buffer, buf_shift, vb_norm, vb_ave}
use akm_dash.Akm.Aoc.{AocVar, aoc, init_aoc, nought}

-- `struct AKL_SCL_PRMS` without its fields for the direction; `hsuc_ho` is in `*ps_nv`.
pub record Prms (N : Type 0) : Type 0 where
  pub hsuc_ho : Vec N
  pub hdata : List (Vec N)
  pub aocv : AocVar N
  pub hvbuf : List (Vec N)
  pub ho : Vec N
  pub hs : Vec N
  pub avbuf : List (Vec N)
  pub acc_s : Vec N
  pub hvec : Vec N
  pub avec : Vec N
  pub hstatus : ℤ

-- AKFS_HDATA_SIZE and AKFS_ADATA_SIZE.
abbrev pub data_size : ℕ
data_size = 32

-- AKFS_HNAVE_V and AKFS_ANAVE_V.
abbrev pub nave_v : ℕ
nave_v = 8

-- AKM_SUCCESS and AKM_ERROR.
abbrev pub akm_success : ℤ
akm_success = pos 0

abbrev pub akm_error : ℤ
akm_error = negsuc 0

module _ {N : Type 0} (a : Arith N) where
  abbrev pub unit : N
  unit = a.of_int (pos 1)

  -- `AKFS_InitPRMS`.
  unfoldable pub init_prms : Prms N → Prms N
  init_prms p = record p {
    hs = record { x = unit; y = unit; z = unit };
    acc_s = record { x = unit; y = unit; z = unit };
  }

  -- `AKFS_SetDefaultNV`.
  unfoldable pub set_default_nv : Prms N → Prms N
  set_default_nv p = record p { hsuc_ho = record { x = nought a; y = nought a; z = nought a } }

  -- `AKFS_InitMeasure`, which returns AKM_SUCCESS.
  unfoldable pub init_measure : Prms N → ℤ × Prms N
  init_measure p = (
    akm_success,
    record p {
      ho = p.hsuc_ho;
      hdata = (init_buffer a (pos data_size) p.hdata).1;
      hvbuf = (init_buffer a (pos data_size) p.hvbuf).1;
      avbuf = (init_buffer a (pos data_size) p.avbuf).1;
      aocv = init_aoc a p.aocv;
    },
  )

  -- The status from the radius and the result of `AKFS_AOC`.
  unfoldable pub rated : ℕ → Vec N → ℤ → ℤ
  rated aocret v was =
      let radius = a.root (a.plus (a.plus (a.times v.x v.x) (a.times v.y v.y)) (a.times v.z v.z)) in
      if a.below (a.of_int (pos 70)) radius then pos 0 else if aocret == success then pos 3 else was

  -- The average of the magnetic vectors, and the end.
  unfoldable pub averaged : ℕ → ℕ × List (Vec N) → Prms N → ℤ × Prms N
  unfolding rated
  averaged aocret (rc, hvbuf) p =
      let p₁ = record p { hvbuf = hvbuf } in
      let (rc', hvec) = vb_ave a (pos data_size) hvbuf (pos nave_v) p.hvec in
      let p₂ = record p₁ { hvec = hvec } in
      if rc == error
      then (akm_error, p₁)
      else if rc' == error
      then (akm_error, p₂)
      else (akm_success, record p₂ { hstatus = rated aocret hvec p.hstatus })

  -- `AKFS_Set_MAGNETIC_FIELD`, with what stands in `fourpoints` of `AKFS_AOC`.
  unfoldable pub set_magnetic_field : List (Vec N) → Vec N → Prms N → ℤ × Prms N
  unfolding averaged
  set_magnetic_field fourpoints mag p =
      let (rc, avbuf) = buf_shift a (pos data_size) (pos 1) p.avbuf in
      let p₁ = record p { avbuf = avbuf } in
      let hdata = set p.hdata 0 mag in
      let (aocret, aocv, ho) = aoc a fourpoints (get_or hdata 0 (init_vec a)) p.aocv p.ho in
      let p₂ = record p₁ { hdata = hdata; aocv = aocv; ho = ho } in
      if rc == error
      then (akm_error, p₁)
      else averaged aocret
          (vb_norm a (pos data_size) hdata (pos 1) ho p.hs unit (pos data_size) p.hvbuf) p₂

  -- `AKFS_Set_ACCELEROMETER`.
  unfoldable pub set_accelerometer : Vec N → Prms N → ℤ × Prms N
  set_accelerometer acc p =
      let (rc, avbuf) = buf_shift a (pos data_size) (pos 1) p.avbuf in
      let p₁ = record p { avbuf = avbuf } in
      let avbuf' = set avbuf 0 acc in
      let (rc', avec) = vb_ave a (pos data_size) avbuf' (pos nave_v) p.avec in
      let p₂ = record p₁ { avbuf = avbuf'; avec = avec } in
      if rc == error
      then (akm_error, p₁)
      else if rc' == error
      then (akm_error, p₂)
      else (akm_success, p₂)
