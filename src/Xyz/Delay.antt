-- ===== src/Xyz/Delay.antt =====
-- `sensor_xyz_set_delay`: the rate that the device is told.
use akm_dash.Common.{
  zero, suc, ◌≡◌, ◌≢◌, refl, ap, sym, ◌∙◌, ℤ, pos, negsuc, ◌==ℤ◌, ==ℤ_iff, true, false, not, Option,
  none, some, ◌∷◌, ◌++◌, Bool-cases, inl, inr, if_both, if◌then◌else◌,
}
use akm_dash.Config.Text.{Bytes}
use akm_dash.Xyz.Attr.{Reply, to_ms, same_text, rate2mode, written}
use akm_dash.Xyz.{SensorDesc, change_mode, set_delay}
use akm_dash.Xyz.Stores.{
  same_text_refl, same_text-prefix, Fits, told, text_of, store_str_attr_lem, store_int_attr_lem,
}

-- The attribute for the mode, if there is one, fits and is not that for the rate.
abbrev pub ModeFits : SensorDesc → Type 0
ModeFits d =
    (attr : Bytes)
    → d.dev_attr_mode ≡ some attr
    → Fits attr d.attrs × (same_text attr d.dev_attr_rate_ms ≡ false)

change_mode-told :
    (reply : Reply) (m : Option Bytes) (rate : Bytes) (ms : ℤ) (d : SensorDesc)
    → ((attr : Bytes) → m ≡ some attr → Fits attr d.attrs × (same_text attr rate ≡ false))
    → let d' = (change_mode reply m ms d).1 in
      (told reply (d.attrs.phys_path ++ rate) d'.attrs.writes
        ≡ told reply (d.attrs.phys_path ++ rate) d.attrs.writes)
      × (d'.attrs.phys_path ≡ d.attrs.phys_path)
unfolding change_mode
change_mode-told reply none rate ms d f = (refl, refl)
change_mode-told reply (some attr) rate ms d f =
    let (fits, apart) = f attr refl in
    let other = same_text-prefix d.attrs.phys_path attr rate ∙ apart in
    elim (Bool-cases
      (same_text (d.dev_modes (rate2mode d.applied_delay_ms)) (d.dev_modes (rate2mode ms)))) [
        | inl same ↦ rw same (refl, refl)
        | inr differ ↦
            rw
              (
                differ,
                store_str_attr_lem reply attr (d.dev_modes (rate2mode ms)) d.attrs fits,
                other,
              )
              (refl, refl)
      ]

-- The end of `sensor_xyz_set_delay`: only a result of 0 stores the rate.
abbrev settle : ℤ → SensorDesc → ℤ → ℤ × SensorDesc
settle rc d ms = if not (rc ==ℤ pos 0) then (rc, d) else (rc, record d { applied_delay_ms = ms })

settle_result : (rc : ℤ) (d : SensorDesc) (ms : ℤ) → (settle rc d ms).0 ≡ rc
settle_result rc d ms =
    if_both (λ (r : ℤ × SensorDesc). r.0 ≡ rc) (not (rc ==ℤ pos 0)) _ _ (λ h. refl) (λ h. refl)

settle_done :
    (rc : ℤ) (d : SensorDesc) (ms : ℤ)
    → (settle rc d ms).0 ≡ pos 0
    → settle rc d ms ≡ (rc, record d { applied_delay_ms = ms })
settle_done rc d ms h = rw ((==ℤ_iff rc (pos 0)).1 (sym (settle_result rc d ms) ∙ h)) refl

module _ (reply : Reply) where
  abbrev rate_path : SensorDesc → Bytes
  rate_path d = d.attrs.phys_path ++ d.dev_attr_rate_ms

  -- The driver after its write to the rate's attribute.
  abbrev rate_written : ℤ → SensorDesc → SensorDesc
  rate_written ms d = record d {
    attrs = record d.attrs { writes = (rate_path d, text_of ms) ∷ d.attrs.writes };
  }

  set_delay_same :
      (ns : ℤ) (d : SensorDesc)
      → (to_ms ns ==ℤ d.applied_delay_ms) ≡ true
      → set_delay reply ns d ≡ (pos 0, d)
  unfolding set_delay
  set_delay_same ns d e = rw e refl

  set_delay_refused :
      (ns : ℤ) (d : SensorDesc)
      → Fits d.dev_attr_rate_ms d.attrs
      → (to_ms ns ==ℤ d.applied_delay_ms) ≡ false
      → (written (reply (rate_written (to_ms ns) d).attrs.writes) ==ℤ pos 0) ≡ false
      → (set_delay reply ns d).0 ≡ written (reply (rate_written (to_ms ns) d).attrs.writes)
  unfolding set_delay
  set_delay_refused ns d fits e r =
      rw
        (
          e,
          store_int_attr_lem reply d.dev_attr_rate_ms (to_ms ns) d.attrs,
          store_str_attr_lem reply d.dev_attr_rate_ms (text_of (to_ms ns)) d.attrs fits,
          r,
        )
        refl

  set_delay_stored :
      (ns : ℤ) (d : SensorDesc)
      → Fits d.dev_attr_rate_ms d.attrs
      → (to_ms ns ==ℤ d.applied_delay_ms) ≡ false
      → (written (reply (rate_written (to_ms ns) d).attrs.writes) ==ℤ pos 0) ≡ true
      → set_delay reply ns d ≡ (
          let (rc, d') = change_mode reply d.dev_attr_mode (to_ms ns) (rate_written (to_ms ns) d) in
          if not (rc ==ℤ pos 0) then (rc, d') else (rc, record d' { applied_delay_ms = to_ms ns }))
  unfolding set_delay
  set_delay_stored ns d fits e r =
      rw
        (
          e,
          store_int_attr_lem reply d.dev_attr_rate_ms (to_ms ns) d.attrs,
          store_str_attr_lem reply d.dev_attr_rate_ms (text_of (to_ms ns)) d.attrs fits,
          r,
        )
        refl

  -- Where the attributes fit, and the rate was told already if it is the applied one, a
  -- `sensor_xyz_set_delay` that returns 0 has made the rate in milliseconds the applied one, and
  -- the value that was last written with success to the rate's attribute is its decimal text.
  pub set_delay-told :
      (ns : ℤ) (d : SensorDesc)
      → Fits d.dev_attr_rate_ms d.attrs
      → ModeFits d
      → (to_ms ns ≡ d.applied_delay_ms
          → told reply (rate_path d) d.attrs.writes ≡ some (text_of d.applied_delay_ms))
      → (set_delay reply ns d).0 ≡ pos 0
      → let d' = (set_delay reply ns d).1 in
        (d'.applied_delay_ms ≡ to_ms ns)
        × (told reply (rate_path d) d'.attrs.writes ≡ some (text_of (to_ms ns)))
  set_delay-told ns d fits modes before ok = elim (Bool-cases (to_ms ns ==ℤ d.applied_delay_ms)) [
    | inl same ↦
        (let e = (==ℤ_iff (to_ms ns) d.applied_delay_ms).0 same in
          rw (set_delay_same ns d same) (sym e, before e ∙ ap (λ v. some (text_of v)) (sym e)))
    | inr new ↦
        elim (Bool-cases (written (reply (rate_written (to_ms ns) d).attrs.writes) ==ℤ pos 0)) [
          | inl good ↦
              rw
                (
                  set_delay_stored ns d fits new good,
                  settle_done _ _ (to_ms ns) (
                      ap (λ (r : ℤ × SensorDesc). r.0) (sym (set_delay_stored ns d fits new good))
                      ∙ ok),
                )
                (
                  refl,
                  (change_mode-told reply d.dev_attr_mode d.dev_attr_rate_ms (to_ms ns)
                        (rate_written (to_ms ns) d) modes).0
                      ∙ rw (same_text_refl (rate_path d), good) refl,
                )
          | inr bad ↦ absurd (not_zero bad (sym (set_delay_refused ns d fits new bad) ∙ ok))
        ]
  ]
    where
      not_zero : {x : ℤ} → (x ==ℤ pos 0) ≡ false → x ≢ pos 0
      not_zero {x = pos zero} f e = cc
      not_zero {x = pos (suc n)} f e = cc
      not_zero {x = negsuc n} f e = cc
