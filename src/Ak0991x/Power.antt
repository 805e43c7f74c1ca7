-- ===== src/Ak0991x/Power.antt =====
-- `ak0991x_activate` of sensors/ak0991xna.c: when the AKM library measures.
use akm_dash.Common.{
  ℕ, zero, suc, ◌≡◌, ◌≢◌, refl, sym, ◌∙◌, ap, ℤ, pos, negsuc, ◌==ℤ◌, is_neg, is_pos, Bool, true,
  false, not, Option, none, some, List, [], ◌∷◌, length, take, ◌==◌, Bool-cases, inl, inr,
  if◌then◌else◌, arith,
}
use akm_dash.Config.Text.{Bytes}
use akm_dash.Select.{Select, get_fd, set_fd, notify, suspend, resume}
use akm_dash.Ak0991x.{
  LibCall, dash_init, akl_init, dash_deinit, stop_measurement, start_measurement, set_vector,
  AkDesc, call, zero_or_failed, start, stop, set_interval, Outcome, switch_on, switch_off, activate,
}

true_ne : true ≢ false
true_ne e = cc

neg_not_pos : (x : ℤ) → is_neg x ≡ true → is_pos x ≡ false
neg_not_pos (negsuc n) e = refl
neg_not_pos (pos n) e = absurd (true_ne (sym e))

not_neg_pos : (x : ℤ) → is_neg x ≡ false → (x ==ℤ pos 0) ≡ false → is_pos x ≡ true
not_neg_pos (pos zero) n z = absurd (true_ne z)
not_neg_pos (pos (suc x)) n z = ground arith
not_neg_pos (negsuc x) n z = absurd (true_ne n)

module _ (lib : List LibCall → ℤ) where
  -- Whether the library measures: what the last start or stop that succeeded was.
  abbrev pub measures : List LibCall → Bool
  measures [] = false
  measures (start_measurement f ∷ log) =
      if lib (start_measurement f ∷ log) ==ℤ pos 0 then true else measures log
  measures (stop_measurement ∷ log) =
      if lib (stop_measurement ∷ log) ==ℤ pos 0 then false else measures log
  measures (dash_init ∷ log) = measures log
  measures (akl_init ∷ log) = measures log
  measures (dash_deinit ∷ log) = measures log
  measures (set_vector v s ∷ log) = measures log

  abbrev fd_of : AkDesc → ℤ
  fd_of d = d.select_worker.fd

  -- The library measures where the worker has a descriptor, which is not 0.
  pub record IsPaired (d : AkDesc) : Type 0 where
    pub paired : is_pos (fd_of d) ≡ measures d.calls
    pub nonzero : ((fd_of d) ==ℤ pos 0) ≡ false

  abbrev Started : ℤ × AkDesc → AkDesc → Type 0
  Started (r, d') d =
      (is_neg r ≡ false → measures d'.calls ≡ true) × (d'.select_worker ≡ d.select_worker)

  call_starts :
      (f : Option Bytes) (d : AkDesc)
      → Started (zero_or_failed lib (call lib (start_measurement f) d)) d
  unfolding call
  call_starts f d = elim (Bool-cases (lib (start_measurement f ∷ d.calls) ==ℤ pos 0)) [
    | inl e ↦ rw e ((λ k. refl), refl)
    | inr e ↦ rw e ((λ k. absurd (true_ne k)), refl)
  ]

  not-Started : (d : AkDesc) → Started (negsuc 0, d) d
  not-Started d = ((λ k. absurd (true_ne k)), refl)

  start-Started :
      (f : Option Bytes) (malloc : Bool) (sz : ℕ) (d : AkDesc) → Started (start lib f malloc sz d) d
  unfolding start
  start-Started none malloc sz d = call_starts none d
  start-Started (some f) false sz d = not-Started d
  start-Started (some f) true sz d = elim (Bool-cases (length (take sz f) == sz)) [
    | inl e ↦ rw e (call_starts (some (take sz f)) d)
    | inr e ↦ rw e (not-Started d)
  ]

  stop-measures :
      (written : Option ℕ) (malloc : Bool) (sz : ℕ) (d : AkDesc)
      → let (r, d') = stop lib written malloc sz d in
        (is_neg r ≡ false → measures d'.calls ≡ false) × (d'.select_worker ≡ d.select_worker)
  unfolding stop call
  stop-measures written false sz d = ((λ k. absurd (true_ne k)), refl)
  stop-measures written true sz d = elim (Bool-cases (lib (stop_measurement ∷ d.calls) ==ℤ pos 0)) [
    | inl e ↦ rw e ((λ k. rw e refl), refl)
    | inr e ↦ rw e ((λ k. absurd (true_ne k)), refl)
  ]

  set_fd_fd : (b : Bool) (fd : ℤ) (s : Select) → (set_fd b fd s).fd ≡ fd
  unfolding set_fd notify
  set_fd_fd true fd s = refl
  set_fd_fd false fd s = refl

  resume_fd : (b : Bool) (s : Select) → (resume b s).fd ≡ s.fd
  unfolding resume notify
  resume_fd true s = refl
  resume_fd false s = refl

  module _ (reply : List (Bytes × Bytes) → ℤ) (sz : ℕ) (o : Outcome) where
    -- A result, with whether the sensor was to be switched on.
    abbrev pub Switched : Bool → ℤ × AkDesc → Type 0
    Switched on (r, d') =
        (is_neg r ≡ false → (IsPaired d') × (is_pos (fd_of d') ≡ on))
        × (is_neg r ≡ true → is_pos (fd_of d') ≡ false)

    failed : (on : Bool) (d : AkDesc) → is_pos (fd_of d) ≡ false → Switched on (negsuc 0, d)
    failed on d e = ((λ k. absurd (true_ne k)), (λ k. e))

    succeeded :
        (on : Bool) (d : AkDesc)
        → is_pos (fd_of d) ≡ on
        → measures d.calls ≡ on
        → ((fd_of d) ==ℤ pos 0) ≡ false
        → Switched on (pos 0, d)
    succeeded on d e m z =
        ((λ k. (record { paired = e ∙ sym m; nonzero = z }, e)), (λ k. absurd (true_ne (sym k))))

    switch_on-Switched :
        (d : AkDesc)
        → is_neg (fd_of d) ≡ true
        → (o.opened ==ℤ pos 0) ≡ false
        → Switched true (switch_on lib reply sz o d)
    unfolding switch_on
    switch_on-Switched d n z =
        let (r, d') = start lib o.file o.malloc sz d in
        let (started, same) = start-Started o.file o.malloc sz d in
        let fd' : (resume o.second (set_fd o.first o.opened d'.select_worker)).fd ≡ o.opened =
          resume_fd o.second _ ∙ set_fd_fd o.first o.opened d'.select_worker in
        elim (Bool-cases (is_neg o.opened)) [
          | inl e ↦ rw e (failed true d (neg_not_pos (fd_of d) n))
          | inr e ↦ elim (Bool-cases (is_neg r)) [
            | inl f ↦
                rw (e, f) (failed true d' (ap (λ w. is_pos w.fd) same ∙ neg_not_pos (fd_of d) n))
            | inr f ↦
                rw (e, f)
                  (succeeded true _ (ap is_pos fd' ∙ not_neg_pos o.opened e z) (started f)
                    (ap (λ w. w ==ℤ pos 0) fd' ∙ z))
          ]
        ]

    set_interval_keeps :
        (d : AkDesc) → (set_interval reply (negsuc 0) d).1.select_worker ≡ d.select_worker
    unfolding set_interval
    set_interval_keeps d = refl

    switch_off-Switched : (d : AkDesc) → Switched false (switch_off lib reply sz o d)
    unfolding switch_off
    switch_off-Switched d =
        let d₁ : AkDesc = record d {
          select_worker = set_fd o.second (negsuc 0) (suspend o.first d.select_worker);
        } in
        let (r₂, d₂) = set_interval reply (negsuc 0) d₁ in
        let (r₃, d₃) = stop lib o.written o.malloc sz d₂ in
        let (stopped, same) = stop-measures o.written o.malloc sz d₂ in
        let gone : (fd_of d₂) ≡ negsuc 0 =
          ap (λ w. w.fd) (set_interval_keeps d₁) ∙ set_fd_fd o.second (negsuc 0) _ in
        let gone' : (fd_of d₃) ≡ negsuc 0 = ap (λ w. w.fd) same ∙ gone in
        elim (Bool-cases (is_neg r₂)) [
          | inl e ↦ rw e (failed false d₂ (ap is_pos gone))
          | inr e ↦ elim (Bool-cases (is_neg r₃)) [
            | inl f ↦ rw (e, f) (failed false d₃ (ap is_pos gone'))
            | inr f ↦
                rw (e, f)
                  (succeeded false d₃ (ap is_pos gone') (stopped f) (ap (λ w. w ==ℤ pos 0) gone'))
          ]
        ]

    -- Where the library measures just if the worker has a descriptor, which is not 0, and no
    -- device is opened as 0: if `ak0991x_activate` succeeds, this holds again, and it has a
    -- descriptor just if the sensor was to be on; and if it fails, the worker has none, so that it
    -- reads nothing.
    pub activate-IsPaired :
        (d : AkDesc) (enable : ℤ)
        → IsPaired d
        → (o.opened ==ℤ pos 0) ≡ false
        → let (r, d') = activate lib reply sz o enable d in
          (is_neg r ≡ false → (IsPaired d') × (is_pos d'.select_worker.fd ≡ not (enable ==ℤ pos 0)))
          × (is_neg r ≡ true → is_pos d'.select_worker.fd ≡ false)
    unfolding activate get_fd
    activate-IsPaired d enable k z = elim (Bool-cases (enable ==ℤ pos 0)) [
      | inl off ↦ elim (Bool-cases (is_pos (fd_of d))) [
        | inl p ↦ rw (off, p) (switch_off-Switched d)
        | inr p ↦ rw (off, p) (succeeded false d p (sym k.paired ∙ p) k.nonzero)
      ]
      | inr on ↦ elim (Bool-cases (is_neg (fd_of d))) [
        | inl n ↦ rw (on, n) (switch_on-Switched d n z)
        | inr n ↦
            let p : is_pos (fd_of d) ≡ true = not_neg_pos (fd_of d) n k.nonzero in
            rw (on, n) (succeeded true d p (sym k.paired ∙ p) k.nonzero)
      ]
    ]
