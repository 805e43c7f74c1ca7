-- ===== src/Wrapper/Count.antt =====
-- `list_get_status`: how setting and clearing one client's bit changes the count.
use akm_dash.Common.{
  ℕ, zero, suc, ◌≤◌, ◌<◌, ◌≡◌, refl, Bool, true, false, List, [], ◌∷◌, arith, length, set, take,
}
use akm_dash.Wrapper.Data.{Flag, closed, initialised, active, Status, test, put, count_flag}

pub test-put : (p : Flag) (b : Bool) (s : Status) → test p (put p b s) ≡ b
test-put closed b s = refl
test-put initialised b s = refl
test-put active b s = refl

module _ (p : Flag) where
  -- A client whose bit is set is counted.
  pub count_flag-pos :
      (n c : ℕ) (ss : List Status) (s : Status)
      → c < n
      → c < length ss
      → test p s ≡ true
      → 0 < count_flag p (take n (set ss c s))
  unfolding count_flag
  count_flag-pos zero c ss s h k t = absurd (omega arith)
  count_flag-pos (suc n) c [] s h k t = absurd (omega arith)
  count_flag-pos (suc n) zero (x ∷ ss) s h k t = ground arith
  count_flag-pos (suc n) (suc c) (x ∷ ss) s h k t = ground (arith, count_flag-pos n c ss s)

  pub count_flag-set-true :
      (n c : ℕ) (ss : List Status) (s : Status)
      → test p s ≡ true
      → count_flag p (take n ss) ≤ count_flag p (take n (set ss c s))
  unfolding count_flag
  count_flag-set-true zero c ss s t = omega arith
  count_flag-set-true (suc n) c [] s t = omega arith
  count_flag-set-true (suc n) zero (x ∷ ss) s t = ground arith
  count_flag-set-true (suc n) (suc c) (x ∷ ss) s t = ground (arith, count_flag-set-true n c ss s)

  pub count_flag-set-false :
      (n c : ℕ) (ss : List Status) (s : Status)
      → test p s ≡ false
      → count_flag p (take n (set ss c s)) ≤ count_flag p (take n ss)
  unfolding count_flag
  count_flag-set-false zero c ss s t = omega arith
  count_flag-set-false (suc n) c [] s t = omega arith
  count_flag-set-false (suc n) zero (x ∷ ss) s t = ground arith
  count_flag-set-false (suc n) (suc c) (x ∷ ss) s t = ground (arith, count_flag-set-false n c ss s)

  pub count_flag-le : (ss : List Status) → count_flag p ss ≤ length ss
  unfolding count_flag
  count_flag-le [] = omega arith
  count_flag-le (x ∷ ss) = ground (arith, count_flag-le ss)
