-- ===== src/Wrapper/Power.antt =====
-- The hardware is on exactly while a client is active: `sensors_wrapper_activate` on one sensor.
use akm_dash.Common.{
  ℕ, ◌≤◌, ◌<◌, ◌≡◌, sym, ap, ◌∙◌, ℤ, pos, ◌==ℤ◌, Bool, true, false, not, List, arith, length,
  get_or, ltb, ◌==◌, ==_refl, if◌then◌else◌, lt→ltb, ◌&&◌, if_both,
}
use akm_dash.Wrapper.{call, release}
use akm_dash.Wrapper.Data.{
  active, unused, Entry, Call, Wrapper, no_rate, slot_at, entry_at, list_get_status,
  list_put_status, list_get_rate, list_set_rate,
}
use akm_dash.Wrapper.Slots.{with_status}
use akm_dash.Wrapper.Count.{test-put, count_flag-pos, count_flag-set-true, count_flag-set-false}
use akm_dash.Wrapper.Frame.{
  powered, Frame, Frame-trans, entry_at-list_put_status, entry_at-list_set_rate,
  Frame-list_put_status, Frame-list_set_rate, log-list_put_status, log-list_set_rate,
  Frame-call_activate, Frame-call_set_delay,
}

-- The write of the enabling branch.
unfoldable pub enabled : ℕ → ℕ → Wrapper → Wrapper
enabled s c w = list_put_status s c active true w

-- A driver was last asked to be on exactly if one of its sensor's clients is active.
abbrev pub IsPowered : ℕ → Wrapper → Type 0
IsPowered s w = powered (slot_at s w).api w.log ≡ ltb 0 (list_get_status s active w)

-- The client is one of the sensor's.
abbrev pub IsClient : ℕ → ℕ → Wrapper → Type 0
IsClient s c w =
    (s < length w.list)
    × (c < (entry_at s w).nr)
    × ((entry_at s w).nr ≤ length (entry_at s w).status)

module _ (reply : List Call → ℤ) where
  -- What `release` does to its own sensor.
  pub record Released (s c : ℕ) (w w' : Wrapper) : Type 0 where
    pub frame : Frame s w w'
    pub power : powered (slot_at s w).api w'.log ≡ powered (slot_at s w).api w.log
    pub status : (entry_at s w').status ≡ (with_status s c w active false).status

  quiet : ℕ → ℕ → Wrapper → Wrapper
  quiet s c w = list_set_rate s c no_rate (list_put_status s c active false w)

  quiet-Released : (s c : ℕ) (w : Wrapper) → s < length w.list → Released s c w (quiet s c w)
  unfolding quiet
  quiet-Released s c w h =
      let w₁ = list_put_status s c active false w in
      let f = Frame-list_put_status s c w h active false in
      let h₁ : s < length w₁.list = omega (arith, f.size) in
      record {
        frame = Frame-trans f (Frame-list_set_rate s c w₁ h₁ no_rate);
        power =
            ap (powered (slot_at s w).api)
              (log-list_set_rate s c no_rate w₁ ∙ log-list_put_status s c active false w);
        status =
            ap (λ (e : Entry). e.status) (entry_at-list_set_rate s c w₁ h₁ no_rate)
            ∙ ap (λ (e : Entry). e.status) (entry_at-list_put_status s c w h active false);
      }

  Released-set_delay :
      (s c : ℕ) (ns : ℤ) (w w' : Wrapper)
      → Released s c w w'
      → Released s c w (call reply (Call.set_delay (slot_at s w').api ns) w').1
  unfolding call powered
  Released-set_delay s c ns w w' r = record {
    frame = Frame-trans r.frame (Frame-call_set_delay reply s w' ns);
    power = r.power;
    status = r.status;
  }

  pub release-Released :
      (s c : ℕ) (rv : ℤ) (w : Wrapper)
      → s < length w.list
      → Released s c w (release reply s c rv w).1
  unfolding release quiet
  release-Released s c rv w h =
      let w₂ = quiet s c w in
      let old = list_get_rate s (list_put_status s c active false w) in
      let new = list_get_rate s w₂ in
      if_both (λ (x : ℤ × Wrapper). Released s c w x.1) (not (new ==ℤ no_rate) && not (old ==ℤ new))
        (call reply (Call.set_delay (slot_at s w₂).api new) w₂) (rv, w₂)
        (λ e. Released-set_delay s c new w w₂ (quiet-Released s c w h))
        (λ e. quiet-Released s c w h)

  Released-count :
      {s c : ℕ} {w w' : Wrapper}
      → Released s c w w'
      → list_get_status s active w' ≤ list_get_status s active w
  unfolding list_get_status
  Released-count {s} {c} {w} {w'} r =
      rw (r.status, r.frame.own_nr)
        (count_flag-set-false active (entry_at s w).nr c (entry_at s w).status _
          (test-put active false (get_or (entry_at s w).status c unused)))

  abbrev pub call_if_idle : Bool → ℕ → ℤ → ℤ → Wrapper → ℤ × Wrapper
  call_if_idle idle s enable rv w =
      if idle then call reply (Call.activate (slot_at s w).api enable) w else (rv, w)

  -- The driver call of the disabling branch.
  pub disable-IsPowered :
      (s c : ℕ) (w w' : Wrapper) (rv enable : ℤ)
      → IsPowered s w
      → Released s c w w'
      → enable ≡ pos 0
      → let out = call_if_idle (list_get_status s active w' == 0) s enable rv w' in
        Frame s w out.1 × IsPowered s out.1
  unfolding call powered list_get_status
  disable-IsPowered s c w w' rv enable p r e =
      if_both (λ (x : ℤ × Wrapper). Frame s w x.1 × IsPowered s x.1)
        (list_get_status s active w' == 0) (call reply (Call.activate (slot_at s w').api enable) w')
        (rv, w')
        (λ idle. (
          Frame-trans r.frame (Frame-call_activate reply s w' enable),
          ground (arith, ==_refl (slot_at s w').api),
        ))
        (λ busy. (
          r.frame,
          ap (λ q. powered q w'.log) r.frame.own_api
              ∙ r.power
              ∙ p
              ∙ lt→ltb 0 (list_get_status s active w)
                  (omega (arith, Released-count r, some_of busy))
              ∙ sym (lt→ltb 0 (list_get_status s active w') (some_of busy)),
        ))
    where
      some_of : (list_get_status s active w' == 0) ≡ false → 0 < list_get_status s active w'
      some_of h = ground arith

  enabled_count :
      (s c : ℕ) (w : Wrapper)
      → IsClient s c w
      → (0 < list_get_status s active (enabled s c w))
        × (list_get_status s active w ≤ list_get_status s active (enabled s c w))
  unfolding list_get_status enabled
  enabled_count s c w k = rw (entry_at-list_put_status s c w k.0 active true) (
    count_flag-pos active (entry_at s w).nr c (entry_at s w).status _ k.1 (omega arith)
        (test-put active true (get_or (entry_at s w).status c unused)),
    count_flag-set-true active (entry_at s w).nr c (entry_at s w).status _
        (test-put active true (get_or (entry_at s w).status c unused)),
  )

  -- The driver call of the enabling branch.
  pub enable-IsPowered :
      (s c : ℕ) (w : Wrapper) (rv enable : ℤ)
      → IsPowered s w
      → IsClient s c w
      → (enable ==ℤ pos 0) ≡ false
      → let out = call_if_idle (list_get_status s active w == 0) s enable rv (enabled s c w) in
        Frame s w out.1 × IsPowered s out.1
  unfolding call powered enabled list_get_status
  enable-IsPowered s c w rv enable p k e =
      if_both (λ (x : ℤ × Wrapper). Frame s w x.1 × IsPowered s x.1)
        (list_get_status s active w == 0)
        (call reply (Call.activate (slot_at s (enabled s c w)).api enable) (enabled s c w))
        (rv, enabled s c w)
        (λ idle. (
          Frame-trans f (Frame-call_activate reply s (enabled s c w) enable),
          rw (==_refl (slot_at s (enabled s c w)).api, e)
              (sym (lt→ltb 0 (list_get_status s active (enabled s c w)) n.0)),
        ))
        (λ busy. (
          f,
          ap (λ q. powered q (enabled s c w).log) f.own_api
              ∙ ap (powered (slot_at s w).api) (log-list_put_status s c active true w)
              ∙ p
              ∙ lt→ltb 0 (list_get_status s active w) (ground arith)
              ∙ sym (lt→ltb 0 (list_get_status s active (enabled s c w)) n.0),
        ))
    where
      f : Frame s w (enabled s c w)
      f = Frame-list_put_status s c w k.0 active true

      n :
          (0 < list_get_status s active (enabled s c w))
          × (list_get_status s active w ≤ list_get_status s active (enabled s c w))
      n = enabled_count s c w k
