-- ===== src/Akm.antt =====
-- libs/libakm/oss: akfs_device.c and akfs_vnorm.c, vectors and the buffers that hold them. Aoc and
-- Measure are about akfs_aoc.c and akfs_measure.c.
pub mod Layout
pub mod Shift
pub mod Buffer
pub mod Average
pub mod Held
pub mod Aoc
pub mod Measure
mod Tests
use akm_dash.Common.{
  ℕ, zero, suc, ◌+◌, ◌-◌, ℤ, pos, negsuc, Bool, true, false, not, ◌&&◌, ◌||◌, List, [], ◌∷◌, get_or,
  set, ltb, ◌==◌, if◌then◌else◌,
}

-- AKFVEC; the type `N` is AKFLOAT.
pub record Vec (N : Type 0) : Type 0 where
  pub x : N
  pub y : N
  pub z : N

-- The arithmetic of AKFLOAT that the functions use; `of_int` is the conversion of an integer,
-- `root` is sqrt, `magnitude` is fabs, `half` is 0.5, `init_value` is AKFS_INIT_VALUE_F and AKFS_FMAX,
-- `epsilon` is AKFS_EPSILON and `steady` is AKFS_HO_TH.
pub record Arith (N : Type 0) : Type 0 where
  pub of_int : ℤ → N
  pub plus : N → N → N
  pub minus : N → N → N
  pub times : N → N → N
  pub over : N → N → N
  pub negated : N → N
  pub root : N → N
  pub magnitude : N → N
  pub at_most : N → N → Bool
  pub below : N → N → Bool
  pub equal : N → N → Bool
  pub half : N
  pub init_value : N
  pub epsilon : N
  pub steady : N

-- AKFS_SUCCESS and AKFS_ERROR.
abbrev pub success : ℕ
success = 1

abbrev pub error : ℕ
error = 0

-- AKFS_PATNO.
pub data PatNo : Type 0 where
  pat_invalid pat1 pat2 pat3 pat4 pat5 pat6 pat7 pat8 : PatNo

module _ {N : Type 0} (a : Arith N) where
  abbrev pub init_vec : Vec N
  init_vec = record { x = a.init_value; y = a.init_value; z = a.init_value }

  -- The loop of `AKFS_InitBuffer`, with `k` rounds left.
  unfoldable pub init_from : ℕ → ℕ → List (Vec N) → List (Vec N)
  init_from zero i v = v
  init_from (suc k) i v = init_from k (suc i) (set v i init_vec)

  -- `AKFS_InitBuffer`.
  unfoldable pub init_buffer : ℤ → List (Vec N) → ℕ × List (Vec N)
  unfolding init_from
  init_buffer (negsuc n) v = (error, v)
  init_buffer (pos n) v = if n == 0 then (error, v) else (success, init_from n 0 v)

  -- The loop of `AKFS_BufShift` from index `k - 1 + shift` down to `shift`.
  unfoldable pub shift_from : ℕ → ℕ → List (Vec N) → List (Vec N)
  shift_from zero shift v = v
  shift_from (suc k) shift v = shift_from k shift (set v (k + shift) (get_or v k init_vec))

  -- `AKFS_BufShift`. A negative length is below every shift that passes the first test.
  unfoldable pub buf_shift : ℤ → ℤ → List (Vec N) → ℕ × List (Vec N)
  unfolding shift_from
  buf_shift (pos len) (pos shift) v =
      if ltb shift 1 || ltb len shift
      then (error, v)
      else (success, shift_from (len - shift) shift v)
  buf_shift (pos len) (negsuc shift) v = (error, v)
  buf_shift (negsuc len) shift v = (error, v)

  -- `AKFS_Rotate`.
  unfoldable pub rotate : PatNo → Vec N → ℕ × Vec N
  rotate pat_invalid v = (error, v)
  rotate pat1 v = (success, v)
  rotate pat2 v = (success, record v { x = v.y; y = a.negated v.x })
  rotate pat3 v = (success, record v { x = a.negated v.x; y = a.negated v.y })
  rotate pat4 v = (success, record v { x = a.negated v.y; y = v.x })
  rotate pat5 v = (success, record v { x = a.negated v.x; z = a.negated v.z })
  rotate pat6 v = (success, record { x = v.y; y = v.x; z = a.negated v.z })
  rotate pat7 v = (success, record v { y = a.negated v.y; z = a.negated v.z })
  rotate pat8 v = (success, record { x = a.negated v.y; y = a.negated v.x; z = a.negated v.z })

  -- A component of the product in `AKFS_RotateMat`.
  unfoldable pub row_product : List ℤ → Vec N → N
  row_product row v =
      let l : ℕ → N = λ i. a.of_int (get_or row i (pos 0)) in
      a.plus (a.plus (a.times (l 0) v.x) (a.times (l 1) v.y)) (a.times (l 2) v.z)

  -- `AKFS_RotateMat`.
  unfoldable pub rotate_mat : List (List ℤ) → Vec N → ℕ × Vec N
  unfolding row_product
  rotate_mat layout v = (
    success,
    record {
      x = row_product (get_or layout 0 []) v;
      y = row_product (get_or layout 1 []) v;
      z = row_product (get_or layout 2 []) v;
    },
  )

  -- One vector of `AKFS_VbNorm`.
  unfoldable pub normalized : Vec N → Vec N → N → Vec N → Vec N
  normalized o s tgt v =
      let norm : N → N → N → N = λ p q r. a.times (a.over (a.minus p q) r) tgt in
      record { x = norm v.x o.x s.x; y = norm v.y o.y s.y; z = norm v.z o.z s.z }

  -- The loop of `AKFS_VbNorm`, with `k` rounds left.
  unfoldable pub norm_from : ℕ → ℕ → List (Vec N) → Vec N → Vec N → N → List (Vec N) → List (Vec N)
  unfolding normalized
  norm_from zero i vdata o s tgt vvec = vvec
  norm_from (suc k) i vdata o s tgt vvec =
      norm_from k (suc i) vdata o s tgt (set vvec i (normalized o s tgt (get_or vdata i init_vec)))

  -- The sensitivity check.
  unfoldable pub is_sensitive : Vec N → N → Bool
  is_sensitive s tgt = not (
      a.at_most s.x a.epsilon
      || a.at_most s.y a.epsilon
      || a.at_most s.z a.epsilon
      || a.at_most tgt (a.of_int (pos 0)))

  -- What `AKFS_VbNorm` makes of the result of the shift.
  unfoldable pub norm_shifted :
      ℕ → List (Vec N) → Vec N → Vec N → N → ℕ × List (Vec N) → ℕ × List (Vec N)
  norm_shifted nbuf vdata o s tgt (rc, v) =
      if rc == success then (success, norm_from nbuf 0 vdata o s tgt v) else (error, v)

  -- `AKFS_VbNorm`. Every size that is not positive is refused.
  unfoldable pub vb_norm :
      ℤ → List (Vec N) → ℤ → Vec N → Vec N → N → ℤ → List (Vec N) → ℕ × List (Vec N)
  vb_norm (pos ndata) vdata (pos nbuf) o s tgt (pos nvec) vvec =
      if ndata == 0 || nvec == 0 || nbuf == 0
      then (error, vvec)
      else if ltb nbuf 1 || ltb ndata nbuf || ltb nvec nbuf
      then (error, vvec)
      else if not (is_sensitive s tgt)
      then (error, vvec)
      else norm_shifted nbuf vdata o s tgt (buf_shift (pos nvec) (pos nbuf) vvec)
  vb_norm ndata vdata nbuf o s tgt nvec vvec = (error, vvec)

  -- The test for a vector that is not set.
  unfoldable pub is_unset : Vec N → Bool
  is_unset v = a.equal v.x a.init_value || a.equal v.y a.init_value || a.equal v.z a.init_value

  -- The loop of `AKFS_VbAve`, with `k` rounds left: the index at its end and the sum.
  unfoldable pub sum_from : ℕ → ℕ → List (Vec N) → Vec N → ℕ × Vec N
  sum_from zero i vvec s = (i, s)
  sum_from (suc k) i vvec s =
      let v = get_or vvec i init_vec in
      let more : Vec N = record { x = a.plus s.x v.x; y = a.plus s.y v.y; z = a.plus s.z v.z } in
      let rest = sum_from k (suc i) vvec more in if is_unset v then (i, s) else rest

  abbrev pub zero_vec : Vec N
  zero_vec = record { x = a.of_int (pos 0); y = a.of_int (pos 0); z = a.of_int (pos 0) }

  -- The end of `AKFS_VbAve`.
  unfoldable pub mean_of : ℕ × Vec N → Vec N
  mean_of (i, s) =
      let by : N → N = λ p. a.over p (a.of_int (pos i)) in
      if i == 0 then zero_vec else record { x = by s.x; y = by s.y; z = by s.z }

  -- `AKFS_VbAve`, with what stood in `vave`.
  unfoldable pub vb_ave : ℤ → List (Vec N) → ℤ → Vec N → ℕ × Vec N
  vb_ave (pos nvec) vvec (pos nave) vave =
      if nave == 0 || nvec == 0 || ltb nvec nave
      then (error, vave)
      else (success, mean_of (sum_from nave 0 vvec zero_vec))
  vb_ave nvec vvec nave vave = (error, vave)
