-- ===== src/Akm/Aoc.antt =====
-- libs/libakm/oss/akfs_aoc.c: the offset of the magnetic field from the newest samples.
pub mod Search
pub mod Window
use akm_dash.Common.{
  ℕ, zero, suc, ◌+◌, pos, Bool, true, false, ◌||◌, Option, none, some, List, [], ◌∷◌, get_or, set,
  take, ltb, if◌then◌else◌,
}
use akm_dash.Akm.{Vec, Arith, success, error, init_vec, zero_vec, init_from, shift_from}

-- `AKFS_AOC_VAR`.
pub record AocVar (N : Type 0) : Type 0 where
  pub hbuf : List (Vec N)
  pub hobuf : List (Vec N)
  pub hraoc : N

-- AKFS_HBUF_SIZE and AKFS_HOBUF_SIZE.
abbrev pub hbuf_size : ℕ
hbuf_size = 20

abbrev pub hobuf_size : ℕ
hobuf_size = 4

module _ {N : Type 0} (a : Arith N) where
  abbrev pub nought : N
  nought = a.of_int (pos 0)

  abbrev pub difference : Vec N → Vec N → Vec N
  difference p q = record { x = a.minus p.x q.x; y = a.minus p.y q.y; z = a.minus p.z q.z }

  -- `CalcR`.
  unfoldable pub calc_r : Vec N → Vec N → N
  calc_r p q =
      let square : N → N → N = λ u w. a.times (a.minus u w) (a.minus u w) in
      a.root (a.plus (a.plus (a.plus nought (square p.x q.x)) (square p.y q.y)) (square p.z q.z))

  -- `r2[i]` of `From4Points2Sphere`.
  unfoldable pub half_squares : Vec N → Vec N → N
  half_squares p q =
      let part : N → N → N = λ u w. a.minus (a.times u u) (a.times w w) in
      a.times (a.plus (a.plus (a.plus nought (part p.x q.x)) (part p.y q.y)) (part p.z q.z)) a.half

  -- The center from the rows of `dif` and `r2`.
  unfoldable pub solve : Vec N → Vec N → Vec N → N → N → N → Option (Vec N)
  solve p q r s₀ s₁ s₂ =
      let cross : N → N → N → N → N = λ i j k l. a.minus (a.times i j) (a.times k l) in
      let ca = cross p.x r.z p.z r.x in
      let cb = cross p.y r.x p.x r.y in
      let cc = cross p.x r.y p.y r.x in
      let cd = cross p.x s₂ r.x s₀ in
      let ce = cross p.x q.y p.y q.x in
      let cf = cross q.x p.z p.x q.z in
      let cg = cross p.x s₁ q.x s₀ in
      let od = a.plus (a.times cc cf) (a.times ca ce) in
      let z = a.over (a.plus (a.times cd ce) (a.times cb cg)) od in
      let y = a.over (a.plus (a.times cf z) cg) ce in
      let x = a.over (a.minus (a.minus s₀ (a.times p.y y)) (a.times p.z z)) p.x in
      if a.below (a.magnitude od) a.epsilon
      then none
      else if a.below (a.magnitude ce) a.epsilon
      then none
      else if a.below (a.magnitude p.x) a.epsilon
      then none
      else some (record { x = x; y = y; z = z })

  unfoldable pub with_radius : Vec N → Option (Vec N) → Option (Vec N × N)
  unfolding calc_r
  with_radius p none = none
  with_radius p (some center) = some (center, calc_r p center)

  -- `From4Points2Sphere`: the center and the radius.
  unfoldable pub sphere : List (Vec N) → Option (Vec N × N)
  unfolding half_squares solve with_radius
  sphere points =
      let at : ℕ → Vec N = λ i. get_or points i (init_vec a) in
      let dif : ℕ → Vec N = λ i. difference (at i) (at 3) in
      let r2 : ℕ → N = λ i. half_squares (at i) (at 3) in
      with_radius (at 0) (solve (dif 0) (dif 1) (dif 2) (r2 0) (r2 1) (r2 2))

  -- The loop of `MeanVar` for the minimum and for the maximum of a component.
  unfoldable pub min_of : (Vec N → N) → N → List (Vec N) → N
  min_of c m [] = m
  min_of c m (v ∷ vs) = min_of c (if a.below (c v) m then c v else m) vs

  unfoldable pub max_of : (Vec N → N) → N → List (Vec N) → N
  max_of c m [] = m
  max_of c m (v ∷ vs) = max_of c (if a.below m (c v) then c v else m) vs

  -- `MeanVar` of `v` and `vs`: the mean and the variation.
  unfoldable pub mean_var : Vec N → List (Vec N) → Vec N × Vec N
  unfolding min_of max_of
  mean_var v vs =
      let low : (Vec N → N) → N = λ c. min_of c (c v) vs in
      let high : (Vec N → N) → N = λ c. max_of c (c v) vs in
      let mean : (Vec N → N) → N = λ c. a.over (a.plus (high c) (low c)) (a.of_int (pos 2)) in
      let var : (Vec N → N) → N = λ c. a.minus (high c) (low c) in
      let x : Vec N → N = λ p. p.x in
      let y : Vec N → N = λ p. p.y in
      let z : Vec N → N = λ p. p.z in
      (record { x = mean x; y = mean y; z = mean z }, record { x = var x; y = var y; z = var z })

  -- A loop of `Get4points`: what is kept of the vector with the greatest measure above `d`.
  unfoldable pub pick : {B : Type 0} → (Vec N → N) → (Vec N → B) → N → B → List (Vec N) → B
  pick measure keep d out [] = out
  pick measure keep d out (v ∷ vs) =
      let temp = measure v in
      pick measure keep (if a.below d temp then temp else d)
        (if a.below d temp then keep v else out) vs

  -- `tempv`.
  unfoldable pub cross_product : Vec N → Vec N → Vec N
  cross_product p q =
      let minor : N → N → N → N → N = λ i j k l. a.minus (a.times i j) (a.times k l) in
      record { x = minor p.y q.z p.z q.y; y = minor p.z q.x p.x q.z; z = minor p.x q.y p.y q.x }

  unfoldable pub dot : Vec N → Vec N → N
  dot p q = a.plus (a.plus (a.times p.x q.x) (a.times p.y q.y)) (a.times p.z q.z)

  -- `Get4points` of `v` and `vs`, with what stood in `out`.
  unfoldable pub get4points : Vec N → List (Vec N) → List (Vec N) → List (Vec N)
  unfolding calc_r pick cross_product dot
  get4points v vs out =
      let was : ℕ → Vec N = λ i. get_or out i (init_vec a) in
      let dv : Vec N → Vec N = λ p. difference p v in
      let out₁ = pick (λ p. calc_r p v) (λ p. p) nought (was 1) vs in
      let tempv : Vec N → Vec N = λ p. cross_product (dv out₁) (dv p) in
      let (out₂, cross) =
        pick (λ p. dot (tempv p) (tempv p)) (λ p. (p, tempv p)) nought (was 2, zero_vec a) vs in
      let out₃ = pick (λ p. a.magnitude (dot (dv p) cross)) (λ p. p) nought (was 3) vs in
      v ∷ out₁ ∷ out₂ ∷ out₃ ∷ []

  -- `CheckInitFvec`.
  unfoldable pub check_init : Vec N → Bool
  check_init v =
      a.at_most a.init_value v.x || a.at_most a.init_value v.y || a.at_most a.init_value v.z

  -- The loops of `AKFS_AOC` that make room in a buffer of `suc n`, and the write to its front.
  unfoldable pub push_front : ℕ → Vec N → List (Vec N) → List (Vec N)
  push_front n v buf = set (shift_from a n 1 buf) 0 v

  -- The search of `AKFS_AOC` from `i = k + 3` down: the `num` that it finds.
  unfoldable pub last_set : ℕ → List (Vec N) → ℕ
  last_set zero buf = 0
  last_set (suc k) buf =
      let rest = last_set k buf in
      if check_init (get_or buf (k + 3) (init_vec a)) then rest else suc (k + 3)

  -- The check of the distances, for one point and for all.
  unfoldable pub is_close_to : N → Vec N → List (Vec N) → Bool
  is_close_to r p [] = false
  is_close_to r p (q ∷ qs) =
      let rest = is_close_to r p qs in
      a.below (calc_r p q) r || a.below (calc_r p q) (a.of_int (pos 10)) || rest

  unfoldable pub are_close : N → List (Vec N) → Bool
  unfolding is_close_to
  are_close r [] = false
  are_close r (p ∷ ps) = let rest = are_close r ps in is_close_to r p ps || rest

  unfoldable pub mean_var_of : List (Vec N) → Vec N × Vec N
  unfolding mean_var
  mean_var_of [] = (init_vec a, init_vec a)
  mean_var_of (v ∷ vs) = mean_var v vs

  -- The end of `AKFS_AOC`, from the update of the offset buffer on.
  unfoldable pub update_offset : Vec N → AocVar N → Vec N → ℕ × AocVar N × Vec N
  unfolding push_front mean_var_of check_init
  update_offset tempho h ho =
      let hobuf = push_front 3 tempho h.hobuf in
      let h' = record h { hobuf = hobuf; hbuf = init_from a 10 10 h.hbuf } in
      let tempf = a.times h.hraoc a.steady in
      let (mean, var) = mean_var_of hobuf in
      if check_init (get_or hobuf 3 (init_vec a))
      then (error, h', ho)
      else if a.at_most tempf var.x || a.at_most tempf var.y || a.at_most tempf var.z
      then (error, h', ho)
      else (success, h', mean)

  -- What `AKFS_AOC` does with the sphere through these points.
  unfoldable pub estimated :
      List (Vec N) → Option (Vec N × N) → AocVar N → Vec N → ℕ × AocVar N × Vec N
  unfolding are_close update_offset
  estimated points none h ho = (error, h, ho)
  estimated points (some (tempho, r)) h ho =
      let h' = record h { hraoc = r } in
      if are_close r points then (error, h', ho) else update_offset tempho h' ho

  unfoldable pub points_of : List (Vec N) → List (Vec N) → List (Vec N)
  unfolding get4points
  points_of [] fourpoints = fourpoints
  points_of (v ∷ vs) fourpoints = get4points v vs fourpoints

  -- `AKFS_AOC`, with what stands in `fourpoints` before it is written: the result, the variables
  -- and the offset.
  unfoldable pub aoc : List (Vec N) → Vec N → AocVar N → Vec N → ℕ × AocVar N × Vec N
  unfolding push_front last_set points_of sphere estimated
  aoc fourpoints hdata h ho =
      let h' = record h { hbuf = push_front 19 hdata h.hbuf } in
      let num = last_set 17 h'.hbuf in
      let points = points_of (take num h'.hbuf) fourpoints in
      if ltb num 4 then (error, h', ho) else estimated points (sphere points) h' ho

  -- `AKFS_InitAOC`.
  unfoldable pub init_aoc : AocVar N → AocVar N
  init_aoc h = record {
    hbuf = init_from a hbuf_size 0 h.hbuf;
    hobuf = init_from a hobuf_size 0 h.hobuf;
    hraoc = nought;
  }
