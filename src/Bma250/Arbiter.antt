-- ===== src/Bma250/Arbiter.antt =====
-- The rate of sensors/bma250_input.c while Android and another driver ask for rates.
use akm_dash.Common.{
  ◌≡◌, ◌≢◌, ◌⊎◌, inl, inr, refl, ap, sym, ◌∙◌, ℤ, pos, negsuc, ◌==ℤ◌, ==ℤ_iff, ℤ-discrete, ltb_ℤ,
  true, false, ◌&&◌, Option, some, List, [], ◌∷◌, set, if◌then◌else◌, arith,
}
use mathlib.Core.Path.{subst}
use akm_dash.Config.Text.{Bytes}
use akm_dash.Config.{◌>>=◌}
use akm_dash.Select
use akm_dash.Bma250.{
  BmaDesc, min_delay, arbitrate, least_from, set_delay, config_delay, fw_delay, found_at,
  request_delay, put_request, is_valid, find_free, behind_first, new_handle,
}

-- A call of `bma250_input_fw_delay`, or one of `bma250_input_request_delay` by the other driver,
-- which keeps its handle.
pub data Request : Type 0 where
  android : ℤ → Request
  client : ℤ → Request

-- What was asked for last, by Android and by the other driver.
abbrev pub asked : List Request → ℤ × ℤ → ℤ × ℤ
asked [] r = r
asked (android ns ∷ es) (a, c) = asked es (ns, c)
asked (client ns ∷ es) (a, c) = asked es (a, ns)

-- The rate for these two: the other driver counts where it asks for a higher rate than Android.
abbrev pub effective : ℤ × ℤ → ℤ
effective (a, c) =
    let usec = if ltb_ℤ (pos 0) c && ltb_ℤ c a then c else a in
    if ltb_ℤ usec min_delay then min_delay else usec

-- Nothing was asked for: no call of Android's, and the other driver gave up a rate that it did not
-- have.
abbrev pub IsSilent : List Request → Type 0
IsSilent [] = Unit
IsSilent (android ns ∷ es) = ⊥
IsSilent (client ns ∷ es) = (ns ≡ pos 0) × IsSilent es

ltb_ℤ-irrefl : (a : ℤ) → ltb_ℤ a a ≡ false
ltb_ℤ-irrefl a = ground arith

not_zero : (ns : ℤ) → ns ≢ pos 0 → (ns ==ℤ pos 0) ≡ false
not_zero ns n = ground (arith, ==ℤ_iff ns (pos 0))

arbitrate-effective : (a c : ℤ) → arbitrate (a ∷ c ∷ []) ≡ effective (a, c)
unfolding arbitrate least_from
arbitrate-effective a c = ground (arith, ltb_ℤ-irrefl a)

module _ {N : Type 0} (reply : List (Bytes × Bytes) → ℤ) where
  -- The calls with the other driver's handle.
  abbrev pub run : List Request → ℤ × BmaDesc N → Option (ℤ × BmaDesc N)
  run [] s = some s
  run (android ns ∷ es) (h, d) = run es (h, (fw_delay reply ns d).1)
  run (client ns ∷ es) (h, d) =
      request_delay reply h ns d >>= λ r. let (_, h', d') = r in run es (h', d')

  -- The driver's memory holds what was asked for last, and the handle is in use exactly while the
  -- other driver asks for something.
  pub record Holds (r : ℤ × ℤ) (s : ℤ × BmaDesc N) : Type 0 where
    pub held : s.1.delay_requests ≡ r.0 ∷ r.1 ∷ []
    pub free : r.1 ≡ pos 0 → s.0 ≡ negsuc 0
    pub used : r.1 ≢ pos 0 → s.0 ≡ pos 1

  -- Besides, the worker has the rate for both.
  pub record Agrees (r : ℤ × ℤ) (s : ℤ × BmaDesc N) : Type 0 where
    pub held : s.1.delay_requests ≡ r.0 ∷ r.1 ∷ []
    pub free : r.1 ≡ pos 0 → s.0 ≡ negsuc 0
    pub used : r.1 ≢ pos 0 → s.0 ≡ pos 1
    pub told : s.1.delay ≡ effective r
    pub paced : s.1.select_worker.delay ≡ effective r

  holds : {r : ℤ × ℤ} {s : ℤ × BmaDesc N} → Agrees r s → Holds r s
  holds g = record { held = g.held; free = g.free; used = g.used }

  config_delay-told :
      (d : BmaDesc N)
      → let (rc, d') = config_delay reply d in
        (rc ≡ pos 0)
        × (d'.delay_requests ≡ d.delay_requests)
        × (d'.delay ≡ arbitrate d.delay_requests)
        × (d'.select_worker.delay ≡ arbitrate d.delay_requests)
  unfolding config_delay set_delay Select.set_delay
  config_delay-told d = ground arith

  -- One call of `bma250_input_config_delay` with these requests.
  settled :
      (a c : ℤ) (d : BmaDesc N)
      → d.delay_requests ≡ a ∷ c ∷ []
      → let d' = (config_delay reply d).1 in
        (d'.delay_requests ≡ a ∷ c ∷ [])
        × (d'.delay ≡ effective (a, c))
        × (d'.select_worker.delay ≡ effective (a, c))
  settled a c d e =
      let (_, same, told, paced) = config_delay-told d in
      let rate : arbitrate d.delay_requests ≡ effective (a, c) =
        ap arbitrate e ∙ arbitrate-effective a c in
      (same ∙ e, told ∙ rate, paced ∙ rate)

  android-Agrees :
      (ns a c h : ℤ) (d : BmaDesc N)
      → Holds (a, c) (h, d)
      → Agrees (ns, c) (h, (fw_delay reply ns d).1)
  unfolding fw_delay
  android-Agrees ns a c h d g =
      let (held, told, paced) =
        settled ns c (record d { delay_requests = set d.delay_requests 0 ns })
          (ap (λ xs. set xs 0 ns) g.held) in
      record { held = held; free = g.free; used = g.used; told = told; paced = paced }

  found_at_one :
      (handle ns a c : ℤ) (d : BmaDesc N)
      → d.delay_requests ≡ a ∷ c ∷ []
      → (d' : BmaDesc N) × (found_at reply handle (pos 1) ns d ≡ some (pos 0, handle, d'))
        × (d'.delay_requests ≡ a ∷ ns ∷ [])
        × (d'.delay ≡ effective (a, ns))
        × (d'.select_worker.delay ≡ effective (a, ns))
  unfolding found_at put_request
  found_at_one handle ns a c d e =
      let d₁ = record d { delay_requests = set d.delay_requests 1 ns } in
      let (rc, _, _, _) = config_delay-told d₁ in
      let (held, told, paced) = settled a ns d₁ (ap (λ xs. set xs 1 ns) e) in
      ((config_delay reply d₁).1, rw rc refl, held, told, paced)

  -- The four cases of the other driver's call.
  start_when_free :
      (ns a : ℤ) (d : BmaDesc N)
      → (ns ==ℤ pos 0) ≡ false
      → d.delay_requests ≡ a ∷ pos 0 ∷ []
      → request_delay reply (negsuc 0) ns d ≡ found_at reply (pos 1) (pos 1) ns d
  unfolding request_delay is_valid find_free behind_first new_handle
  start_when_free ns a d n e =
      let free : new_handle (find_free 1 (behind_first d.delay_requests)) (negsuc 0) ≡ pos 1 =
        ap (λ xs. new_handle (find_free 1 (behind_first xs)) (negsuc 0)) e in
      rw (n, free) refl

  stop_when_free :
      (ns : ℤ) (d : BmaDesc N)
      → (ns ==ℤ pos 0) ≡ true
      → request_delay reply (negsuc 0) ns d ≡ some (negsuc 0, negsuc 0, d)
  unfolding request_delay is_valid
  stop_when_free ns d n = rw n refl

  stop_when_used :
      (ns : ℤ) (d : BmaDesc N)
      → (ns ==ℤ pos 0) ≡ true
      → request_delay reply (pos 1) ns d ≡ found_at reply (negsuc 0) (pos 1) ns d
  unfolding request_delay is_valid
  stop_when_used ns d n = rw n refl

  change_when_used :
      (ns : ℤ) (d : BmaDesc N)
      → (ns ==ℤ pos 0) ≡ false
      → request_delay reply (pos 1) ns d ≡ found_at reply (pos 1) (pos 1) ns d
  unfolding request_delay is_valid
  change_when_used ns d n = rw n refl

  -- What a call with the other driver's handle leaves.
  abbrev Serves : ℤ → ℤ → ℤ → BmaDesc N → Type 0
  Serves h ns a d =
      (rc h' : ℤ) × (d' : BmaDesc N) × (request_delay reply h ns d ≡ some (rc, h', d'))
      × Agrees (a, ns) (h', d')

  served :
      (h handle ns a c : ℤ) (d : BmaDesc N)
      → d.delay_requests ≡ a ∷ c ∷ []
      → request_delay reply h ns d ≡ found_at reply handle (pos 1) ns d
      → (ns ≡ pos 0 → handle ≡ negsuc 0)
      → (ns ≢ pos 0 → handle ≡ pos 1)
      → Serves h ns a d
  served h handle ns a c d e call free used =
      let (d', run, held, told, paced) = found_at_one handle ns a c d e in
      (
        pos 0,
        handle,
        d',
        call ∙ run,
        record { held = held; free = free; used = used; told = told; paced = paced },
      )

  client-Agrees : (ns a c h : ℤ) (d : BmaDesc N) → Agrees (a, c) (h, d) → Serves h ns a d
  client-Agrees ns a c h d g = elim (ℤ-discrete c (pos 0)) [
    | yes f ↦ elim (ℤ-discrete ns (pos 0)) [
      | yes n ↦ rw (g.free f) (
        negsuc 0,
        negsuc 0,
        d,
        stop_when_free ns d (rw n refl),
        record {
          held = g.held ∙ ap (λ x. a ∷ x ∷ []) (f ∙ sym n);
          free = λ z. refl;
          used = λ z. absurd (z n);
          told = g.told ∙ ap (λ x. effective (a, x)) (f ∙ sym n);
          paced = g.paced ∙ ap (λ x. effective (a, x)) (f ∙ sym n);
        },
      )
      | no n ↦ rw (g.free f) (
          served (negsuc 0) (pos 1) ns a c d g.held
            (start_when_free ns a d (not_zero ns n) (g.held ∙ ap (λ x. a ∷ x ∷ []) f))
            (λ z. absurd (n z)) (λ z. refl))
    ]
    | no u ↦ elim (ℤ-discrete ns (pos 0)) [
      | yes n ↦ rw (g.used u) (
          served (pos 1) (negsuc 0) ns a c d g.held (stop_when_used ns d (rw n refl)) (λ z. refl)
            (λ z. absurd (z n)))
      | no n ↦ rw (g.used u) (
          served (pos 1) (pos 1) ns a c d g.held (change_when_used ns d (not_zero ns n))
            (λ z. absurd (n z)) (λ z. refl))
    ]
  ]

  -- As `run_settles`, where the two have asked for these rates before.
  pub run-Agrees :
      (es : List Request) (r : ℤ × ℤ) (s : ℤ × BmaDesc N)
      → Agrees r s
      → (s' : ℤ × BmaDesc N) × (run es s ≡ some s') × Agrees (asked es r) s'
  run-Agrees [] r s g = (s, refl, g)
  run-Agrees (android ns ∷ es) (a, c) (h, d) g =
      run-Agrees es (ns, c) (h, (fw_delay reply ns d).1) (android-Agrees ns a c h d (holds g))
  run-Agrees (client ns ∷ es) (a, c) (h, d) g =
      let (rc, h', d', call, g') = client-Agrees ns a c h d g in
      rw call (run-Agrees es (a, ns) (h', d') g')

  -- From the driver's static state on, where no rate is asked for, and while one other driver beside
  -- Android asks for rates and keeps its handle, no call writes out of bounds, whatever the two ask
  -- for and in whatever order. After the calls the memory holds what each of them asked for last,
  -- the handle is in use exactly while the other driver asks for a rate, and the sensor's and its
  -- worker's delay are the other driver's, where it is positive and shorter than Android's, or else
  -- Android's, but 5000 at least. So where Android asks for nothing, with 0, the other driver's rate
  -- has no effect. Only where the other driver has done nothing but give up the rate that it does not
  -- have, and Android nothing, all is left as it was. The result of the writes to sysfs does not
  -- matter.
  pub run_settles :
      (es : List Request) (d : BmaDesc N)
      → d.delay_requests ≡ pos 0 ∷ pos 0 ∷ []
      → (s' : ℤ × BmaDesc N) × (run es (negsuc 0, d) ≡ some s')
        × ((IsSilent es × (s' ≡ (negsuc 0, d))) ⊎ Agrees (asked es (pos 0, pos 0)) s')
  run_settles [] d h = ((negsuc 0, d), refl, inl (tt, refl))
  run_settles (android ns ∷ es) d h =
      let (s', e, g) =
        run-Agrees es (ns, pos 0) (negsuc 0, (fw_delay reply ns d).1)
          (android-Agrees ns (pos 0) (pos 0) (negsuc 0) d
            (record { held = h; free = λ z. refl; used = λ n. absurd (n refl) })) in
      (s', e, inr g)
  run_settles (client ns ∷ es) d h = elim (ℤ-discrete ns (pos 0)) [
    | yes n ↦
        let (s', e, g) = run_settles es d h in
        let z : (ns ==ℤ pos 0) ≡ true = rw n refl in rw (stop_when_free ns d z) (s', e, idle n s' g)
    | no n ↦
        let (rc, h', d', call, g) =
          served (negsuc 0) (pos 1) ns (pos 0) (pos 0) d h
            (start_when_free ns (pos 0) d (not_zero ns n) h) (λ z. absurd (n z)) (λ z. refl) in
        let (s', e, g') = run-Agrees es (pos 0, ns) (h', d') g in rw call (s', e, inr g')
  ]
    where
      idle :
          ns ≡ pos 0
          → (s' : ℤ × BmaDesc N)
          → (IsSilent es × (s' ≡ (negsuc 0, d))) ⊎ Agrees (asked es (pos 0, pos 0)) s'
          → (IsSilent (client ns ∷ es) × (s' ≡ (negsuc 0, d))) ⊎ Agrees (asked es (pos 0, ns)) s'
      idle n s' (inl (q, same)) = inl ((n, q), same)
      idle n s' (inr g) = inr (subst (λ x. Agrees (asked es (pos 0, x)) s') (sym n) g)
