-- ===== src/Wrapper/Pace.antt =====
-- The driver's rate follows its clients' fastest rate: one sensor.
use mathlib.Core.Path.{ap₂}
use akm_dash.Common.{
  ℕ, ◌<◌, ◌≡◌, ◌≢◌, sym, ap, ◌∙◌, ℤ, pos, ◌==ℤ◌, ==ℤ_iff, Bool, true, false, not, ◌&&◌, some, List,
  arith, length, take, ==_refl, if◌then◌else◌, Bool-cases, if_both, inl, inr,
}
use akm_dash.Wrapper.{call, release, activate_one, set_delay_one}
use akm_dash.Wrapper.Data.{
  Flag, active, Entry, Call, Wrapper, no_rate, slot_at, entry_at, list_put_status, list_get_rate,
  list_set_rate, least_rate,
}
use akm_dash.Wrapper.Frame.{
  last_delay, entry_at-list_put_status, Frame-list_put_status, Frame-list_set_rate,
  log-list_put_status, log-list_set_rate,
}

-- A driver was last asked for the fastest of the rates that its sensor's clients ask for, if any
-- client asks for one.
abbrev pub IsPaced : ℕ → Wrapper → Type 0
IsPaced s w =
    list_get_rate s w ≢ no_rate → last_delay (slot_at s w).api w.log ≡ some (list_get_rate s w)

list_get_rate_cong :
    (s : ℕ) (w w' : Wrapper)
    → (entry_at s w').nr ≡ (entry_at s w).nr
    → (entry_at s w').rate ≡ (entry_at s w).rate
    → list_get_rate s w' ≡ list_get_rate s w
unfolding list_get_rate
list_get_rate_cong s w w' n r = ap₂ (λ k l. least_rate no_rate (take k l)) n r

list_get_rate-list_put_status :
    (s c : ℕ) (p : Flag) (b : Bool) (w : Wrapper)
    → s < length w.list
    → list_get_rate s (list_put_status s c p b w) ≡ list_get_rate s w
list_get_rate-list_put_status s c p b w h =
    let e = entry_at-list_put_status s c w h p b in
    list_get_rate_cong s w (list_put_status s c p b w) (ap (λ (x : Entry). x.nr) e)
      (ap (λ (x : Entry). x.rate) e)

-- A quiet step keeps the pace, if the rate has not changed.
IsPaced-quiet :
    (s : ℕ) (w w' : Wrapper)
    → (slot_at s w').api ≡ (slot_at s w).api
    → w'.log ≡ w.log
    → list_get_rate s w ≡ list_get_rate s w'
    → IsPaced s w
    → IsPaced s w'
IsPaced-quiet s w w' a l r p h = ap₂ last_delay a l ∙ p (λ e. h (sym r ∙ e)) ∙ ap some r

module _ (reply : List Call → ℤ) where
  IsPaced-call_set_delay :
      (s : ℕ) (w : Wrapper)
      → IsPaced s (call reply (Call.set_delay (slot_at s w).api (list_get_rate s w)) w).1
  unfolding call last_delay list_get_rate
  IsPaced-call_set_delay s w h = rw (==_refl (slot_at s w).api)

  IsPaced-call_activate :
      (s : ℕ) (enable : ℤ) (w : Wrapper)
      → IsPaced s w
      → IsPaced s (call reply (Call.activate (slot_at s w).api enable) w).1
  unfolding call last_delay list_get_rate
  IsPaced-call_activate s enable w p = p

  -- What `release` and `set_delay` share: the new rate goes to the driver, if it has changed.
  IsPaced-if_told :
      (s : ℕ) (rv : ℤ) (b : Bool) (w w' : Wrapper)
      → (slot_at s w').api ≡ (slot_at s w).api
      → w'.log ≡ w.log
      → (b ≡ false → list_get_rate s w' ≢ no_rate → list_get_rate s w ≡ list_get_rate s w')
      → IsPaced s w
      → IsPaced s
          (if b
            then call reply (Call.set_delay (slot_at s w').api (list_get_rate s w')) w'
            else (rv, w')).1
  IsPaced-if_told s rv b w w' a l r p =
      if_both (λ (x : ℤ × Wrapper). IsPaced s x.1) b
        (call reply (Call.set_delay (slot_at s w').api (list_get_rate s w')) w') (rv, w')
        (λ told. IsPaced-call_set_delay s w') (λ quiet h. IsPaced-quiet s w w' a l (r quiet h) p h)

  release-IsPaced :
      (s c : ℕ) (rv : ℤ) (w : Wrapper)
      → s < length w.list
      → IsPaced s w
      → IsPaced s (release reply s c rv w).1
  unfolding release
  release-IsPaced s c rv w h p =
      let w₁ = list_put_status s c active false w in
      let w₂ = list_set_rate s c no_rate w₁ in
      let f = Frame-list_put_status s c w h active false in
      let h₁ : s < length w₁.list = omega (arith, f.size) in
      IsPaced-if_told s rv
        (not (list_get_rate s w₂ ==ℤ no_rate) && not (list_get_rate s w₁ ==ℤ list_get_rate s w₂)) w
        w₂ ((Frame-list_set_rate s c w₁ h₁ no_rate).own_api ∙ f.own_api)
        (log-list_set_rate s c no_rate w₁ ∙ log-list_put_status s c active false w)
        (λ quiet ne.
          sym (list_get_rate-list_put_status s c active false w h)
          ∙ unchanged (list_get_rate s w₁) (list_get_rate s w₂) quiet ne)
        p
    where
      unchanged :
          (old new : ℤ)
          → (not (new ==ℤ no_rate) && not (old ==ℤ new)) ≡ false
          → new ≢ no_rate
          → old ≡ new
      unchanged old new q ne = ground (arith, ==ℤ_iff new no_rate, ==ℤ_iff old new)

  -- `sensors_wrapper_activate` on one sensor.
  pub activate_one-IsPaced :
      (enable : ℤ) (s c : ℕ) (rv : ℤ) (w : Wrapper)
      → s < length w.list
      → IsPaced s w
      → IsPaced s (activate_one reply enable s c rv w).1
  unfolding activate_one
  activate_one-IsPaced enable s c rv w h p = elim (Bool-cases (enable ==ℤ pos 0)) [
    | inl off ↦ rw off (idle _ _ _ (release-IsPaced s c rv w h p))
    | inr on ↦ rw on (
        idle _ _ _ (
          IsPaced-quiet s w (list_put_status s c active true w)
            (Frame-list_put_status s c w h active true).own_api
            (log-list_put_status s c active true w)
            (sym (list_get_rate-list_put_status s c active true w h)) p))
  ]
    where
      idle :
          (b : Bool) (r : ℤ) (v : Wrapper)
          → IsPaced s v
          → IsPaced s
              (if b then call reply (Call.activate (slot_at s v).api enable) v else (r, v)).1
      idle b r v q =
          if_both (λ (x : ℤ × Wrapper). IsPaced s x.1) b
            (call reply (Call.activate (slot_at s v).api enable) v) (r, v)
            (λ t. IsPaced-call_activate s enable v q) (λ t. q)

  -- `sensors_wrapper_set_delay` on one sensor.
  pub set_delay_one-IsPaced :
      (ns : ℤ) (s c : ℕ) (rv : ℤ) (w : Wrapper)
      → s < length w.list
      → IsPaced s w
      → IsPaced s (set_delay_one reply ns s c rv w).1
  unfolding set_delay_one
  set_delay_one-IsPaced ns s c rv w h p =
      let w₁ = list_set_rate s c ns w in
      elim (Bool-cases (list_get_rate s w ==ℤ list_get_rate s w₁)) [
        | inl same ↦ rw same (
            IsPaced-quiet s w w₁ (Frame-list_set_rate s c w h ns).own_api
              (log-list_set_rate s c ns w) ((==ℤ_iff _ _).0 same) p)
        | inr new ↦ rw new (IsPaced-call_set_delay s w₁)
      ]
