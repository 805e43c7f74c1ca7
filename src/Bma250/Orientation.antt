-- ===== src/Bma250/Orientation.antt =====
-- `bma250_input_read_config` of sensors/bma250_input.c: all of the six values or none.
use akm_dash.Common.{
  ◌≡◌, refl, ap, sym, ◌∙◌, ℤ, pos, ltb_ℤ, true, false, ◌||◌, Bool-cases, inl, inr, Option, none,
  some, List, [], ◌∷◌, Option-cases, arith, codes,
}
use mathlib.Core.Path.{ap₂}
use akm_dash.Config.Text.{Bytes, atoi}
use akm_dash.Config
use akm_dash.Config.{Entry, live, ints, type_int}
use akm_dash.Bma250.{
  BmaDesc, prefix, conf_values, in_bounds, prepend, read_values, take_over, read_config,
}

abbrev pub Between : ℤ → ℤ → ℤ → Type 0
Between lo hi v = (ltb_ℤ v lo ≡ false) × (ltb_ℤ hi v ≡ false)

-- These are the numbers that the entries hold for these keys, and all are in their ranges.
abbrev pub Reads : List Entry → List (Bytes × ℤ × ℤ) → List ℤ → Type 0
Reads es [] [] = Unit
Reads es [] (v ∷ vs) = ⊥
Reads es (c ∷ cs) [] = ⊥
Reads es ((key, lo, hi) ∷ cs) (v ∷ vs) =
    ((e : Entry) × (Config.find_entry prefix key es ≡ some e) × (v ≡ atoi e.value))
    × Between lo hi v
    × Reads es cs vs

-- The keys of the configuration file with their ranges.
abbrev pub keys : List (Bytes × ℤ × ℤ)
keys =
    (codes "axis_x", pos 0, pos 2)
    ∷ (codes "axis_y", pos 0, pos 2)
    ∷ (codes "axis_z", pos 0, pos 2)
    ∷ (codes "neg_x", pos 0, pos 1)
    ∷ (codes "neg_y", pos 0, pos 1)
    ∷ (codes "neg_z", pos 0, pos 1)
    ∷ []

-- Every axis is one of the three, and every sign is given by 0 or 1.
pub record IsOriented {N : Type 0} (d : BmaDesc N) : Type 0 where
  pub axis_x : Between (pos 0) (pos 2) d.axis_x
  pub axis_y : Between (pos 0) (pos 2) d.axis_y
  pub axis_z : Between (pos 0) (pos 2) d.axis_z
  pub neg_x : Between (pos 0) (pos 1) d.neg_x
  pub neg_y : Between (pos 0) (pos 1) d.neg_y
  pub neg_z : Between (pos 0) (pos 1) d.neg_z

-- What the loop has at its end: the values, if there are values.
abbrev Outcome : List Entry → List (Bytes × ℤ × ℤ) → Option (List ℤ) → Type 0
Outcome es cs none = (vs : List ℤ) → ¬ Reads es cs vs
Outcome es cs (some vs) = Reads es cs vs

module _ (key : Bytes) (lo hi : ℤ) (cs : List (Bytes × ℤ × ℤ)) (es : List Entry) where
  none_found :
      (vs : List ℤ) → Config.find_entry prefix key es ≡ none → ¬ Reads es ((key, lo, hi) ∷ cs) vs
  none_found [] n r = r
  none_found (v ∷ vs) n ((e, f, _), _, _) = cc

  outside :
      (e : Entry) (vs : List ℤ)
      → Config.find_entry prefix key es ≡ some e
      → ltb_ℤ (atoi e.value) lo || ltb_ℤ hi (atoi e.value) ≡ true
      → ¬ Reads es ((key, lo, hi) ∷ cs) vs
  outside e [] f o r = r
  outside e (v ∷ vs) f o ((e', f', same), (above, below), _) =
      let one : e ≡ e' = cc in
      let eq : atoi e.value ≡ v = ap (λ (x : Entry). atoi x.value) one ∙ sym same in
      let low : ltb_ℤ (atoi e.value) lo ≡ false = rw eq above in
      let high : ltb_ℤ hi (atoi e.value) ≡ false = rw eq below in ground arith

  behind : (vs : List ℤ) → ((vs' : List ℤ) → ¬ Reads es cs vs') → ¬ Reads es ((key, lo, hi) ∷ cs) vs
  behind [] h r = r
  behind (v ∷ vs) h (_, _, r) = h vs r

  read_one :
      (rest : Option (List ℤ))
      → Outcome es cs rest
      → Outcome es ((key, lo, hi) ∷ cs) (
          prepend
            (in_bounds lo hi (Config.value_of (Config.find_entry prefix key es) type_int 4))
            rest)
  unfolding prepend in_bounds Config.value_of Config.parse_value
  read_one rest h = elim (Option-cases (Config.find_entry prefix key es)) [
    | inl missing ↦ rw missing (λ vs r. none_found vs missing r)
    | inr (e, found) ↦ elim (Bool-cases (ltb_ℤ (atoi e.value) lo || ltb_ℤ hi (atoi e.value))) [
      | inl out ↦ rw (found, out) (λ vs r. outside e vs found out r)
      | inr inside ↦ rw (found, inside) (read_rest rest h e found inside)
    ]
  ]
    where
      read_rest :
          (rest : Option (List ℤ))
          → Outcome es cs rest
          → (e : Entry) → Config.find_entry prefix key es ≡ some e
          → ltb_ℤ (atoi e.value) lo || ltb_ℤ hi (atoi e.value) ≡ false
          → Outcome es ((key, lo, hi) ∷ cs) (prepend (some (atoi e.value)) rest)
      read_rest none h e f i = λ vs r. behind vs h r
      read_rest (some vs) h e f i =
          let low : ltb_ℤ (atoi e.value) lo ≡ false = ground arith in
          let high : ltb_ℤ hi (atoi e.value) ≡ false = ground arith in
          ((e, f, refl), (low, high), h)

read_values_lem :
    (cs : List (Bytes × ℤ × ℤ)) (es : List Entry)
    → (o : Option (List ℤ)) × (read_values cs (live es) ≡ some o) × Outcome es cs o
unfolding read_values Config.get_key
read_values_lem [] es = (some [], refl, tt)
read_values_lem ((key, lo, hi) ∷ cs) es =
    let (rest, run, h) = read_values_lem cs es in
    (
      prepend (in_bounds lo hi (Config.value_of (Config.find_entry prefix key es) type_int 4)) rest,
      rw run refl,
      read_one key lo hi cs es rest h,
    )

same_reading :
    (cs : List (Bytes × ℤ × ℤ)) (es : List Entry) (vs ws : List ℤ)
    → Reads es cs vs
    → Reads es cs ws
    → vs ≡ ws
same_reading [] es [] [] r q = refl
same_reading [] es [] (w ∷ ws) r q = absurd q
same_reading [] es (v ∷ vs) ws r q = absurd r
same_reading (c ∷ cs) es [] ws r q = absurd r
same_reading (c ∷ cs) es (v ∷ vs) [] r q = absurd q
same_reading ((key, lo, hi) ∷ cs) es (v ∷ vs) (w ∷ ws) ((e, f, a), _, r) ((e', f', b), _, q) =
    let one : e ≡ e' = cc in
    ap₂ ◌∷◌ (a ∙ ap (λ (x : Entry). atoi x.value) one ∙ sym b) (same_reading cs es vs ws r q)

nothing_found : (key : Bytes) → Config.find_entry prefix key [] ≡ none
unfolding Config.find_entry
nothing_found key = refl

no_reading : (vs : List ℤ) → ¬ Reads [] conf_values vs
no_reading [] r = r
no_reading (v ∷ vs) ((e, f, _), _, _) = let n = nothing_found (codes "axis_x") in cc

module _ {N : Type 0} where
  taken_IsOriented :
      (es : List Entry) (vs : List ℤ) (d : BmaDesc N)
      → Reads es conf_values vs
      → IsOriented (take_over (some vs) d)
  unfolding take_over
  taken_IsOriented es (x ∷ y ∷ z ∷ nx ∷ ny ∷ nz ∷ []) d r =
      let (_, bx, (_, by, (_, bz, (_, cx, (_, cy, (_, cz, _)))))) = r in
      record { axis_x = bx; axis_y = by; axis_z = bz; neg_x = cx; neg_y = cy; neg_z = cz }
  taken_IsOriented es ([]) d r = absurd r
  taken_IsOriented es (x ∷ []) d r = absurd r.2
  taken_IsOriented es (x ∷ y ∷ []) d r = absurd r.2.2
  taken_IsOriented es (x ∷ y ∷ z ∷ []) d r = absurd r.2.2.2
  taken_IsOriented es (x ∷ y ∷ z ∷ nx ∷ []) d r = absurd r.2.2.2.2
  taken_IsOriented es (x ∷ y ∷ z ∷ nx ∷ ny ∷ []) d r = absurd r.2.2.2.2.2
  taken_IsOriented es (x ∷ y ∷ z ∷ nx ∷ ny ∷ nz ∷ v ∷ vs) d r = absurd r.2.2.2.2.2.2

  take_six :
      (x y z nx ny nz : ℤ) (d : BmaDesc N)
      → take_over (some (x ∷ y ∷ z ∷ nx ∷ ny ∷ nz ∷ [])) d
        ≡ record d { axis_x = x; axis_y = y; axis_z = z; neg_x = nx; neg_y = ny; neg_z = nz }
  unfolding take_over
  take_six x y z nx ny nz d = refl

  take_none : (d : BmaDesc N) → take_over none d ≡ d
  unfolding take_over
  take_none d = refl

  read_config_live :
      (es : List Entry) (d : BmaDesc N)
      → (o : Option (List ℤ)) × (read_config (live es) d ≡ some (take_over o d))
        × Outcome es conf_values o
  unfolding read_config take_over Config.have_config_file
  read_config_live [] d = (none, refl, no_reading)
  read_config_live (e ∷ es) d =
      let (o, run, h) = read_values_lem conf_values (e ∷ es) in (o, rw run refl, h)

  -- `bma250_input_read_config` takes over the six numbers of the configuration file where it holds
  -- a number in its range for every key: that of `axis_x` is `axis_x`, and so on, and nothing else
  -- changes. It changes nothing at all where one is missing or not in its range. In either case the axes stay between 0 and 2, and the signs 0 or 1, if they were.
  pub read_config-IsOriented :
      (es : List Entry) (d : BmaDesc N)
      → IsOriented d
      → (d' : BmaDesc N) × (read_config (live es) d ≡ some d')
        × IsOriented d'
        × ((x y z nx ny nz : ℤ)
            → Reads es keys (x ∷ y ∷ z ∷ nx ∷ ny ∷ nz ∷ [])
            → d'
              ≡ record d { axis_x = x; axis_y = y; axis_z = z; neg_x = nx; neg_y = ny; neg_z = nz })
        × (((vs : List ℤ) → ¬ Reads es keys vs) → d' ≡ d)
  read_config-IsOriented es d h =
      let (o, run, out) = read_config_live es d in
      (
        take_over o d,
        run,
        oriented o out,
        (λ x y z nx ny nz r. taken o out _ r ∙ take_six x y z nx ny nz d),
        (λ n. kept o out n),
      )
    where
      oriented : (o : Option (List ℤ)) → Outcome es conf_values o → IsOriented (take_over o d)
      oriented none out = rw (take_none d) h
      oriented (some vs) out = taken_IsOriented es vs d out

      taken :
          (o : Option (List ℤ))
          → Outcome es conf_values o
          → (vs : List ℤ) → Reads es conf_values vs
          → take_over o d ≡ take_over (some vs) d
      taken none out vs r = absurd (out vs r)
      taken (some ws) out vs r =
          ap (λ xs. take_over (some xs) d) (same_reading conf_values es ws vs out r)

      kept :
          (o : Option (List ℤ))
          → Outcome es conf_values o
          → ((vs : List ℤ) → ¬ Reads es conf_values vs)
          → take_over o d ≡ d
      kept none out n = take_none d
      kept (some ws) out n = absurd (n ws out)
