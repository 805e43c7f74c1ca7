-- ===== src/Akm/Tests.antt =====
-- Runs of libs/libakm/oss over an arithmetic of four numbers, one of which stands for the initial
-- value.
use akm_dash.Common.{
  ℕ, List, zero, suc, ◌≡◌, refl, ℤ, pos, negsuc, Bool, true, false, [], ◌∷◌, ◌++◌, take, map, arith,
  not, replicate, if◌then◌else◌, ltb,
}
use akm_dash.Akm.{
  Vec, Arith, success, error, init_buffer, rotate, rotate_mat, vb_norm, vb_ave, normalized,
  is_sensitive, is_unset, pat2,
}
use akm_dash.Akm.Layout.{IsExact, layout_of, back, rotate-rotate_mat}
use akm_dash.Akm.Buffer.{vb_norm-newest}
use akm_dash.Akm.Average.{mean, init_buffer-vb_ave}
use akm_dash.Akm.Aoc.{AocVar, check_init, init_aoc, last_set}
use akm_dash.Akm.Aoc.Window.{HeldAs, after, samples, after-last_set}
use akm_dash.Akm.Measure.{Prms, set_accelerometer, akm_success}
use akm_dash.Akm.Measure.Mean.{
  Sample, accelerometer, magnetic, measured, echoes, set_accelerometer-mean,
}

data Num : Type 0 where
  nought one minus unset : Num

abbrev negated : Num → Num
negated nought = nought
negated one = minus
negated minus = one
negated unset = unset

abbrev plus : Num → Num → Num
plus nought q = q
plus one nought = one
plus one one = minus
plus one minus = nought
plus one unset = unset
plus minus nought = minus
plus minus one = nought
plus minus minus = one
plus minus unset = unset
plus unset q = unset

abbrev times : Num → Num → Num
times nought q = nought
times one q = q
times minus q = negated q
times unset q = unset

abbrev is_same : Num → Num → Bool
is_same nought nought = true
is_same one one = true
is_same minus minus = true
is_same unset unset = true
is_same _ _ = false

abbrev number : ℤ → Num
number (pos (suc zero)) = one
number (negsuc zero) = minus
number _ = nought

-- The nonzero numbers are their own reciprocals; 0 and -1 are not above the least number.
abbrev at_most : Num → Num → Bool
at_most one q = false
at_most p q = true

abbrev times_self : Num → Num
times_self p = times p p

abbrev small : Arith Num
small = record {
  of_int = number;
  plus = plus;
  minus = λ p q. plus p (negated q);
  times = times;
  over = times;
  negated = negated;
  root = λ p. p;
  magnitude = times_self;
  at_most = at_most;
  below = λ p q. not (at_most q p);
  equal = is_same;
  init_value = unset;
  half = minus;
  epsilon = nought;
  steady = one;
}

-- The same arithmetic where the initial value is the only one that is not below it.
abbrev is_unset_number : Num → Num → Bool
is_unset_number p q = is_same q unset

abbrev limited : Arith Num
limited = record small { at_most = is_unset_number }

plus-zero : (p : Num) → plus p nought ≡ p
plus-zero nought = refl
plus-zero one = refl
plus-zero minus = refl
plus-zero unset = refl

negated-negated : (p : Num) → negated (negated p) ≡ p
negated-negated nought = refl
negated-negated one = refl
negated-negated minus = refl
negated-negated unset = refl

small-IsExact : IsExact small
small-IsExact = record {
  one_times = λ p. refl;
  minus_times = λ p. refl;
  zero_times = λ p. refl;
  plus_zero = plus-zero;
  zero_plus = λ p. refl;
  twice = negated-negated;
}

abbrev vec : Num → Num → Num → Vec Num
vec x y z = record { x = x; y = y; z = z }

abbrev ones : Vec Num
ones = vec one one one

abbrev none_set : Vec Num
none_set = vec unset unset unset

rotate-rotate_mat_example :
    let v' = (rotate small pat2 (vec one minus nought)).1 in
    (rotate_mat small (layout_of pat2) (vec one minus nought) ≡ (success, v'))
    × (rotate small (back pat2) v' ≡ (success, vec one minus nought))
unfolding rotate
rotate-rotate_mat_example = rotate-rotate_mat small-IsExact pat2 (vec one minus nought) refl

vb_norm-newest_example :
    let o = vec nought nought nought in
    let vdata = vec one nought nought ∷ ones ∷ [] in
    let old = vec minus nought nought ∷ none_set ∷ none_set ∷ [] in
    let out = vb_norm small (pos 2) vdata (pos 1) o ones one (pos 3) old in
    (is_sensitive small ones one ≡ true
      → out ≡ (success, map (normalized small o ones one) (take 1 vdata) ++ take 2 old))
    × (is_sensitive small ones one ≡ false → out ≡ (error, old))
vb_norm-newest_example =
    vb_norm-newest small (vec nought nought nought) ones one (vec one nought nought ∷ ones ∷ []) 1
      (vec minus nought nought ∷ none_set ∷ none_set ∷ []) (omega arith) (omega arith) (omega arith)

init_buffer-vb_ave_run :
    let old = ones ∷ ones ∷ ones ∷ [] in
    let vs = vec one nought nought ∷ vec nought one nought ∷ [] in
    let (rc, fresh) = init_buffer small (pos 3) old in
    (rc ≡ success)
    × (vb_ave small (pos 3) (vs ++ take 1 fresh) (pos 3) ones ≡ (success, mean small vs))
unfolding is_unset
init_buffer-vb_ave_run =
    init_buffer-vb_ave small (ones ∷ ones ∷ ones ∷ [])
      (vec one nought nought ∷ vec nought one nought ∷ []) 1 3 ones refl (omega arith) (omega arith)
      (omega arith) (omega arith) (omega arith) (refl, (refl, tt))

abbrev corners : List (Vec Num)
corners = ones ∷ vec one nought nought ∷ vec nought one nought ∷ vec nought nought one ∷ []

abbrev full_var : AocVar Num
full_var = record {
  hbuf = corners ++ corners ++ corners ++ corners ++ corners;
  hobuf = corners;
  hraoc = nought;
}

-- One sample after another, from the last one down.
abbrev three_samples : List (List (Vec Num) × Vec Num)
three_samples = (corners, ones) ∷ (corners, ones) ∷ (corners, vec nought one one) ∷ []

after-last_set_example :
    let (h', ho') = after limited three_samples (init_aoc limited full_var, ones) in
    (n : ℕ) × (HeldAs limited h'.hbuf (samples limited three_samples) n
      × (last_set limited 17 h'.hbuf ≡ (if ltb n 4 then 0 else n)))
unfolding check_init
after-last_set_example =
    after-last_set limited three_samples full_var ones refl (refl, (refl, (refl, tt))) refl

abbrev no_params : Prms Num
no_params = record {
  hsuc_ho = none_set;
  hdata = replicate 32 none_set;
  aocv = full_var;
  hvbuf = replicate 32 none_set;
  ho = none_set;
  hs = ones;
  avbuf = replicate 32 none_set;
  acc_s = ones;
  hvec = none_set;
  avec = none_set;
  hstatus = pos 0;
}

abbrev two_then_one : List (Sample Num)
two_then_one = magnetic corners ones ∷ accelerometer (vec one nought nought) ∷ []

set_accelerometer-mean_example :
    let (rc, p') = set_accelerometer small ones (measured small two_then_one no_params) in
    (rc ≡ akm_success) × (p'.avec ≡ mean small (take 8 (ones ∷ echoes small two_then_one)))
unfolding is_unset
set_accelerometer-mean_example =
    set_accelerometer-mean small two_then_one ones no_params refl refl (refl, (refl, (refl, tt)))
