-- ===== src/Select/Callback.antt =====
-- When `sensors_select_callback` runs the driver's callback.
use akm_dash.Common.{
  ◌≡◌, ◌↔◌, refl, ℤ, pos, negsuc, ==ℤ_iff, ltb_ℤ, ltb, Bool-cases, inl, inr, is_pos, is_neg, Bool,
  true, false, List, [], ◌∷◌, arith, if◌then◌else◌,
}
use akm_dash.Select.{Select, Watch, watch, callback, react}

-- The driver's callback runs exactly if `select` has succeeded and reports the descriptor, which is
-- not negative, and nothing in the pipe, and the descriptor has not been replaced since the
-- callback looked at it: a report about a descriptor that was closed meanwhile is dropped.
pub react-callback :
    (ret : ℤ) (ctl_ready fd_ready : Bool) (w : Watch) (s : Select)
    → (react ret ctl_ready fd_ready w s ≡ callback) ↔ (
        (is_pos ret ≡ true)
        × (ctl_ready ≡ false)
        × (is_neg w.fd ≡ false)
        × (fd_ready ≡ true)
        × (s.fd ≡ w.fd))
unfolding react
react-callback ret ctl_ready fd_ready w s =
    ((λ h. ground (arith, ==ℤ_iff s.fd w.fd)), (λ h. ground (arith, ==ℤ_iff s.fd w.fd)))

-- No element of these is larger than `m`, and none is negative.
abbrev pub AllWithin : ℤ → List ℤ → Type 0
AllWithin m [] = Unit
AllWithin m (fd ∷ fds) = (ltb_ℤ m fd ≡ false) × (is_neg fd ≡ false) × AllWithin m fds

within :
    (c fd : ℤ)
    → is_neg c ≡ false
    → AllWithin (if ltb_ℤ fd c then c else fd) (c ∷ (if is_neg fd then [] else fd ∷ []))
within (pos a) (pos b) h = elim (Bool-cases (ltb b a)) [
  | inl less ↦ rw less (ground arith, refl, (less_not less, refl, tt))
  | inr same ↦ rw same (same, refl, (ground arith, refl, tt))
]
  where
    less_not : ltb b a ≡ true → ltb a b ≡ false
    less_not l = ground arith
within (pos a) (negsuc b) h = (ground arith, refl, tt)
within (negsuc a) fd h = cc

-- Where the pipe's descriptor is not negative, the set that `sensors_select_callback` gives to
-- `select` holds no negative number and none above the highest that it names.
pub watch_within :
    (s : Select) → is_neg s.ctl_read ≡ false → AllWithin (watch s).maxfd (watch s).readfds
unfolding watch
watch_within s h = within s.ctl_read s.fd h
