-- ===== src/Lsm303dlh/Setting.antt =====
-- A change of the rate of one sensor of sensors/lsm303dlh.c that is told to the kernel.
use akm_dash.Common.{
  ◌-◌, ◌≡◌, refl, ap, sym, ◌∙◌, ℤ, pos, ◌==ℤ◌, ==ℤ_iff, false, Bool-cases, inl, inr, Option, none,
  some, List, [], ◌∷◌, ◌++◌, length, leb, ◌==◌,
}
use akm_dash.Config.Text.{Bytes}
use akm_dash.Xyz.Attr.{
  Attrs, Reply, store_str_attr, append_attr, cut, open_attr, phys_path_size, written, same_text,
  rate2mode,
}
use akm_dash.Xyz.Stores.{
  same_text_refl, same_text-prefix, told, take-append, Fits, text_of, store_str_attr_lem,
  store_int_attr_lem,
}
use akm_dash.Lsm303dlh.{SensorDesc, System, change_mode, set_pollrate, apply_rate}

-- What decides about the rate stays the same, except the delays.
pub record SameSetting (d d' : SensorDesc) : Type 0 where
  pub rate_ms : d'.dev_attr_rate_ms ≡ d.dev_attr_rate_ms
  pub mode : d'.dev_attr_mode ≡ d.dev_attr_mode
  pub phys_path : d'.attrs.phys_path ≡ d.attrs.phys_path
  pub internal : d'.internal_delay ≡ d.internal_delay
  pub external : d'.external_delay ≡ d.external_delay

same_setting : (d : SensorDesc) → SameSetting d d
same_setting d = record {
  rate_ms = refl;
  mode = refl;
  phys_path = refl;
  internal = refl;
  external = refl;
}

-- The name of the attribute for the rate.
abbrev pub name_or : Option Bytes → Bytes
name_or none = []
name_or (some name) = name

store_str_attr-phys_path :
    (reply : Reply) (attr val : Bytes) (a : Attrs)
    → (store_str_attr reply attr val a).1.phys_path ≡ a.phys_path
unfolding store_str_attr append_attr cut open_attr
store_str_attr-phys_path reply attr val a = elim (Bool-cases (length a.phys_path == 0)) [
  | inl none_there ↦ rw none_there refl
  | inr there ↦ elim (Bool-cases (leb (phys_path_size - length a.phys_path) (length attr))) [
    | inl long ↦ rw (there, long) (take-append a.phys_path _)
    | inr short ↦ rw (there, short) (take-append a.phys_path _)
  ]
]

module _ (sys : System) where
  -- The directory of the sensor is known, the name of its rate's attribute fits behind it, every
  -- write to this attribute succeeds, and an attribute for the mode is another one.
  pub record Ready (d : SensorDesc) : Type 0 where
    pub rate_ms : Bytes
    pub named : d.dev_attr_rate_ms ≡ some rate_ms
    pub fits : Fits rate_ms d.attrs
    pub accepted :
        (v : Bytes) (log : List (Bytes × Bytes))
        → written (sys.reply ((d.attrs.phys_path ++ rate_ms, v) ∷ log)) ≡ pos 0
    pub mode_apart :
        (attr : Bytes)
        → d.dev_attr_mode ≡ some attr
        → Fits attr d.attrs × (same_text attr rate_ms ≡ false)

  -- The last text that was written to the sensor's attribute for the rate, with success, is that of
  -- the applied rate.
  abbrev pub IsTold : SensorDesc → Type 0
  IsTold d =
      told sys.reply (d.attrs.phys_path ++ name_or d.dev_attr_rate_ms) d.attrs.writes
      ≡ some (text_of d.applied_delay_ms)

  pub ready_same : (d d' : SensorDesc) → SameSetting d d' → Ready d → Ready d'
  ready_same d d' s r = record {
    rate_ms = r.rate_ms;
    named = s.rate_ms ∙ r.named;
    fits = rw s.phys_path r.fits;
    accepted = rw s.phys_path r.accepted;
    mode_apart = rw (s.mode, s.phys_path) r.mode_apart;
  }

  change_mode-SameSetting :
      (m : Option Bytes) (ms : ℤ) (d : SensorDesc) → SameSetting d (change_mode sys m ms d)
  unfolding change_mode
  change_mode-SameSetting none ms d = same_setting d
  change_mode-SameSetting (some attr) ms d =
      let old = d.dev_modes (rate2mode d.applied_delay_ms) in
      let new = d.dev_modes (rate2mode ms) in
      elim (Bool-cases (same_text old new)) [
        | inl same ↦ rw same (same_setting d)
        | inr differ ↦ rw differ (record {
          rate_ms = refl;
          mode = refl;
          phys_path = store_str_attr-phys_path sys.reply attr new d.attrs;
          internal = refl;
          external = refl;
        })
      ]

  -- A change of the mode does not touch the attribute for the rate.
  change_mode-told :
      (m : Option Bytes) (rate : Bytes) (ms : ℤ) (d : SensorDesc)
      → ((attr : Bytes) → m ≡ some attr → Fits attr d.attrs × (same_text attr rate ≡ false))
      → told sys.reply (d.attrs.phys_path ++ rate) (change_mode sys m ms d).attrs.writes
        ≡ told sys.reply (d.attrs.phys_path ++ rate) d.attrs.writes
  unfolding change_mode
  change_mode-told none rate ms d f = refl
  change_mode-told (some attr) rate ms d f =
      let (fits, apart) = f attr refl in
      let other = same_text-prefix d.attrs.phys_path attr rate ∙ apart in
      let new = d.dev_modes (rate2mode ms) in
      elim (Bool-cases (same_text (d.dev_modes (rate2mode d.applied_delay_ms)) new)) [
        | inl same ↦ rw same refl
        | inr differ ↦ rw (differ, store_str_attr_lem sys.reply attr new d.attrs fits, other) refl
      ]

  -- The sensor behind the write of a rate to its attribute.
  abbrev rate_written : Bytes → ℤ → SensorDesc → SensorDesc
  rate_written rate ms d = record d {
    attrs = record d.attrs { writes = (d.attrs.phys_path ++ rate, text_of ms) ∷ d.attrs.writes };
  }

  rate_written-told :
      (ms : ℤ) (d : SensorDesc) (r : Ready d)
      → told sys.reply (d.attrs.phys_path ++ r.rate_ms) (rate_written r.rate_ms ms d).attrs.writes
        ≡ some (text_of ms)
  rate_written-told ms d r =
      rw (same_text_refl (d.attrs.phys_path ++ r.rate_ms), r.accepted (text_of ms) d.attrs.writes)
        refl

  -- A new rate for a sensor that is ready.
  set_pollrate-told :
      (ms : ℤ) (d : SensorDesc) (r : Ready d)
      → (ms ==ℤ d.applied_delay_ms) ≡ false
      → let (rc, d') = set_pollrate sys r.rate_ms ms d in
        (rc ≡ pos 0)
        × SameSetting d d'
        × (told sys.reply (d.attrs.phys_path ++ r.rate_ms) d'.attrs.writes ≡ some (text_of ms))
  unfolding set_pollrate
  set_pollrate-told ms d r new =
      let m = change_mode-SameSetting d.dev_attr_mode ms (rate_written r.rate_ms ms d) in
      rw
        (
          new,
          store_int_attr_lem sys.reply r.rate_ms ms d.attrs,
          store_str_attr_lem sys.reply r.rate_ms (text_of ms) d.attrs r.fits,
          r.accepted (text_of ms) d.attrs.writes,
        )
        (
          refl,
          record {
            rate_ms = m.rate_ms;
            mode = m.mode;
            phys_path = m.phys_path;
            internal = m.internal;
            external = m.external;
          },
          change_mode-told d.dev_attr_mode r.rate_ms ms (rate_written r.rate_ms ms d) r.mode_apart
              ∙ rate_written-told ms d r,
        )

  apply_some :
      (ms : ℤ) (d : SensorDesc) (r : Ready d)
      → (ms ≡ d.applied_delay_ms
          → told sys.reply (d.attrs.phys_path ++ r.rate_ms) d.attrs.writes ≡ some (text_of ms))
      → let (rc, d') = apply_rate sys (some r.rate_ms) ms d in
        (rc ≡ pos 0)
        × SameSetting d d'
        × (d'.applied_delay_ms ≡ ms)
        × (told sys.reply (d.attrs.phys_path ++ r.rate_ms) d'.attrs.writes ≡ some (text_of ms))
  unfolding apply_rate
  apply_some ms d r before = elim (Bool-cases (ms ==ℤ d.applied_delay_ms)) [
    | inl old ↦
        let e = (==ℤ_iff ms d.applied_delay_ms).0 old in
        rw old (refl, same_setting d, sym e, before e)
    | inr new ↦
        let (rc, s, t) = set_pollrate-told ms d r new in
        rw (new, rc)
          (
            refl,
            record {
              rate_ms = s.rate_ms;
              mode = s.mode;
              phys_path = s.phys_path;
              internal = s.internal;
              external = s.external;
            },
            refl,
            t,
          )
  ]

  told_moved :
      (d d' : SensorDesc) (rate : Bytes)
      → SameSetting d d'
      → d.dev_attr_rate_ms ≡ some rate
      → told sys.reply (d.attrs.phys_path ++ rate) d'.attrs.writes
        ≡ some (text_of d'.applied_delay_ms)
      → IsTold d'
  told_moved d d' rate s n t = rw (s.phys_path, s.rate_ms, n) t

  pub apply_rate-IsTold :
      (ms : ℤ) (d : SensorDesc)
      → Ready d
      → (ms ≡ d.applied_delay_ms → IsTold d)
      → let (rc, d') = apply_rate sys d.dev_attr_rate_ms ms d in
        (rc ≡ pos 0) × SameSetting d d' × (d'.applied_delay_ms ≡ ms) × IsTold d'
  apply_rate-IsTold ms d r before =
      let named : apply_rate sys d.dev_attr_rate_ms ms d ≡ apply_rate sys (some r.rate_ms) ms d =
        ap (λ o. apply_rate sys o ms d) r.named in
      let (rc, s, a, t) = apply_some ms d r (λ e. before_told e (before e)) in
      rw named
        (rc, s, a, told_moved d _ r.rate_ms s r.named (t ∙ ap (λ v. some (text_of v)) (sym a)))
    where
      before_told :
          ms ≡ d.applied_delay_ms
          → IsTold d
          → told sys.reply (d.attrs.phys_path ++ r.rate_ms) d.attrs.writes ≡ some (text_of ms)
      before_told e t =
          ap (λ o. told sys.reply (d.attrs.phys_path ++ name_or o) d.attrs.writes) (sym r.named)
          ∙ t
          ∙ ap (λ v. some (text_of v)) (sym e)
