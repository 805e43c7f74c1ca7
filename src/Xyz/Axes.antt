-- ===== src/Xyz/Axes.antt =====
-- The axes of sensors/sensor_xyz.c: what the configuration may set, and what a sample holds.
use akm_dash.Common.{
  suc, ◌≡◌, refl, ap, ◌∙◌, ℤ, pos, negsuc, ◌==ℤ◌, true, ◌&&◌, Option, none, some, List, [], ◌∷◌,
  length, Bool-cases, inl, inr, arith,
}
use akm_dash.Config
use akm_dash.Config.{Store, live, Entry}
use akm_dash.Config.Text.{Bytes}
use akm_dash.Select
use akm_dash.Xyz.Attr.{Reply}
use akm_dash.Xyz.{
  SensorDesc, init, config_read_axis, config_read_sensor_map, overlay, stored, all_between,
  init_mode, found_path, axis_map, axis_sign,
}

-- Three numbers in a range.
abbrev pub IsTriple : ℤ → ℤ → List ℤ → Type 0
IsTriple lo hi xs = (length xs ≡ 3) × (all_between lo hi xs ≡ true)

-- The map leads to the three axes, and the signs are -1, 0 or 1.
abbrev pub IsOriented : SensorDesc → Type 0
IsOriented d = IsTriple (pos 0) (pos 2) d.map × IsTriple (negsuc 0) (pos 1) d.sign

length-overlay : (xs js : List ℤ) → length (overlay xs js) ≡ length js
unfolding overlay
length-overlay xs [] = refl
length-overlay [] (j ∷ js) = refl
length-overlay (x ∷ xs) (j ∷ js) = ap suc (length-overlay xs js)

config_read_axis-IsTriple :
    (prefix key : Bytes) (lo hi : ℤ) (junk old : List ℤ) (es : List Entry)
    → length junk ≡ 3
    → IsTriple lo hi old
    → (new : List ℤ) × (config_read_axis prefix key lo hi junk old (live es) ≡ some new)
      × IsTriple lo hi new
unfolding config_read_axis Config.get_key
config_read_axis-IsTriple prefix key lo hi junk old es l h =
    let r = Config.value_of (Config.find_entry prefix key es) Config.type_array_int 3 in
    let tmp = overlay (stored r.1) junk in
    elim (Bool-cases (r.0 ==ℤ pos 0 && all_between lo hi tmp)) [
      | inl good ↦ (tmp, rw good refl, (length-overlay (stored r.1) junk ∙ l, ground arith))
      | inr bad ↦ (old, rw bad refl, h)
    ]

config_read_sensor_map-IsOriented :
    (junk junk' : List ℤ) (es : List Entry) (d : SensorDesc)
    → length junk ≡ 3
    → length junk' ≡ 3
    → IsOriented d
    → (d' : SensorDesc) × (config_read_sensor_map junk junk' (live es) d ≡ some d') × IsOriented d'
unfolding config_read_sensor_map Config.have_config_file
config_read_sensor_map-IsOriented junk junk' [] d l l' h = (d, refl, h)
config_read_sensor_map-IsOriented junk junk' (e ∷ es) d l l' (m, g) =
    let (m', read_map, ok) =
      config_read_axis-IsTriple d.map_prefix axis_map (pos 0) (pos 2) junk d.map (e ∷ es) l m in
    let (g', read_sign, ok') =
      config_read_axis-IsTriple d.map_prefix axis_sign (negsuc 0) (pos 1) junk' d.sign (e ∷ es) l'
        g in
    (record d { map = m'; sign = g' }, rw (read_map, read_sign) refl, (ok, ok'))

abbrev at_path : Option Bytes → SensorDesc → SensorDesc
at_path phys d = record d {
  attrs = record { phys_path = found_path phys; writes = d.attrs.writes };
}

get_fd-init :
    (old : Select.Select) (pipe : Option (ℤ × ℤ))
    → Select.get_fd (Select.init old (negsuc 0) pipe) ≡ negsuc 0
unfolding Select.get_fd Select.init
get_fd-init old none = refl
get_fd-init old (some p) = refl

module _ (reply : Reply) where
  init_mode-axes :
      (m : Option Bytes) (d : SensorDesc)
      → ((init_mode reply m d).map ≡ d.map) × ((init_mode reply m d).sign ≡ d.sign)
  unfolding init_mode
  init_mode-axes none d = (refl, refl)
  init_mode-axes (some attr) d = (refl, refl)

  -- Whatever the configuration file holds, `sensor_xyz_init` returns 0, without a descriptor, and
  -- leaves a map into the three axes and signs between -1 and 1, if the driver's own ones are: a
  -- value that is not in range, or has too many numbers, is not taken over. What stood on the stack
  -- before does not matter for it.
  pub init-IsOriented :
      (phys : Option Bytes) (pipe : Option (ℤ × ℤ)) (junk junk' : List ℤ) (es : List Entry)
      (d : SensorDesc)
      → length junk ≡ 3
      → length junk' ≡ 3
      → IsOriented d
      → (d' : SensorDesc) × (init reply phys pipe junk junk' (live es) d ≡ some (pos 0, d'))
        × IsOriented d'
        × (Select.get_fd d'.worker ≡ negsuc 0)
  unfolding init
  init-IsOriented phys pipe junk junk' es d l l' h =
      let (d₁, run, (m, g)) =
        config_read_sensor_map-IsOriented junk junk' es (at_path phys d) l l' h in
      let (m', g') = init_mode-axes d₁.dev_attr_mode d₁ in
      let d₂ = init_mode reply d₁.dev_attr_mode d₁ in
      (
        record d₂ { worker = Select.init d₂.worker (negsuc 0) pipe },
        rw run refl,
        (rw m' m, rw g' g),
        get_fd-init d₂.worker pipe,
      )
