-- ===== src/Bma250/Motion.antt =====
-- `bma250_input_read` of sensors/bma250_input.c: the sample that it reports.
use akm_dash.Common.{
  ℕ, ◌<◌, ◌≡◌, refl, ap, ◌∙◌, ℤ, pos, negsuc, ◌==ℤ◌, ltb, true, ◌||◌, List, [], ◌∷◌, ◌++◌, length,
  get_or, set, length-set, ◌==◌, get_or-set_self, get_or-set_ne, if◌then◌else◌, lt→ltb, ==_refl,
  ==_ne, if_both, arith,
}
use native.Mathlib.Decide.{ℕ_discrete}
use akm_dash.Proximity.{InputEvent, ev_abs, ev_syn}
use akm_dash.Bma250.{BmaDesc, abs_misc, data_at, component, acceleration, read}
use akm_dash.Bma250.Orientation.{IsOriented, Between}

-- An event of one of the axes, or the temperature.
abbrev pub AllMotion : List InputEvent → Type 0
AllMotion [] = Unit
AllMotion (e ∷ es) = (e.type ≡ ev_abs) × (ltb e.code 3 || e.code == abs_misc ≡ true) × AllMotion es

abbrev pub index : ℤ → ℕ
index (pos i) = i
index (negsuc i) = 3

module _ {N : Type 0} (ev2grav : ℤ → N) (negated : N → N) (zero_n : N) where
  -- The value of an axis after these events, which was `old` before them.
  abbrev pub latest : ℕ → List InputEvent → N → N
  latest i [] old = old
  latest i (e ∷ es) old = latest i es (if e.code == i then ev2grav e.value else old)

  -- What a component of the sample must be.
  abbrev pub expected : ℤ → ℤ → List InputEvent → List N → N
  expected neg axis es xs =
      let v = latest (index axis) es (get_or xs (index axis) zero_n) in
      if neg ==ℤ pos 0 then v else negated v

  abbrev after : List InputEvent → List N → List N
  after [] xs = xs
  after (e ∷ es) xs = after es (if ltb e.code 3 then set xs e.code (ev2grav e.value) else xs)

  step_at :
      (i : ℕ) (e : InputEvent) (xs : List N)
      → i < 3
      → length xs ≡ 3
      → let v = ev2grav e.value in
        get_or (if ltb e.code 3 then set xs e.code v else xs) i zero_n
        ≡ (if e.code == i then v else get_or xs i zero_n)
  step_at i e xs h l = elim (ℕ_discrete e.code i) [
    | yes same ↦
        rw (same, lt→ltb i 3 h, ==_refl i)
          (get_or-set_self xs i (ev2grav e.value) zero_n (omega arith))
    | no ne ↦ rw (==_ne e.code i ne) (
        if_both (λ ys. get_or ys i zero_n ≡ get_or xs i zero_n) (ltb e.code 3) _ _
          (λ t. get_or-set_ne xs (ev2grav e.value) zero_n ne) (λ f. refl))
  ]

  length_after_one :
      (e : InputEvent) (xs : List N)
      → length (if ltb e.code 3 then set xs e.code (ev2grav e.value) else xs) ≡ length xs
  length_after_one e xs =
      if_both (λ ys. length ys ≡ length xs) (ltb e.code 3) _ _
        (λ t. length-set xs e.code (ev2grav e.value)) (λ f. refl)

  after-latest :
      (i : ℕ) (es : List InputEvent) (xs : List N)
      → i < 3
      → length xs ≡ 3
      → get_or (after es xs) i zero_n ≡ latest i es (get_or xs i zero_n)
  after-latest i [] xs h l = refl
  after-latest i (e ∷ es) xs h l =
      after-latest i es _ h (length_after_one e xs ∙ l) ∙ ap (latest i es) (step_at i e xs h l)

  component_lem :
      (neg axis : ℤ) (es : List InputEvent) (xs : List N)
      → Between (pos 0) (pos 2) axis
      → length xs ≡ 3
      → component ev2grav negated zero_n neg axis (after es xs) ≡ expected neg axis es xs
  unfolding component data_at
  component_lem neg (pos i) es xs b l = rw (after-latest i es xs (ground arith) l) refl
  component_lem neg (negsuc i) es xs b l = absurd (ground arith)

  read_moves :
      (es : List InputEvent) (e : InputEvent) (rest : List InputEvent) (d : BmaDesc N)
      → AllMotion es
      → e.type ≡ ev_syn
      → let d' = record d { current_data = after es d.current_data } in
        read ev2grav negated zero_n (es ++ e ∷ rest) d
        ≡ (record d' { sent = d.sent ++ acceleration ev2grav negated zero_n d' ∷ [] }, rest)
  unfolding read
  read_moves [] e rest d m s = rw s refl
  read_moves (x ∷ es) e rest d (t, c, m) s = rw (t, c) (read_moves es e rest _ m s)

  acceleration_lem :
      (es : List InputEvent) (d : BmaDesc N)
      → length d.current_data ≡ 3
      → IsOriented d
      → acceleration ev2grav negated zero_n (record d { current_data = after es d.current_data })
        ≡ expected d.neg_x d.axis_x es d.current_data
          ∷ expected d.neg_y d.axis_y es d.current_data
          ∷ expected d.neg_z d.axis_z es d.current_data
          ∷ []
  unfolding acceleration
  acceleration_lem es d l o =
      rw
        (
          component_lem d.neg_x d.axis_x es d.current_data o.axis_x l,
          component_lem d.neg_y d.axis_y es d.current_data o.axis_y l,
          component_lem d.neg_z d.axis_z es d.current_data o.axis_z l,
        )
        refl

  -- Where the axes are oriented, `bma250_input_read` reports once, at the first synchronisation
  -- event, whatever events of the axes and of the temperature stand before it. Each component is
  -- the value of the last event of the axis that the configuration gives it, or the one known
  -- before, negated where the configuration says so. The events behind it are left for the next
  -- call.
  pub read-sample :
      (es : List InputEvent) (e : InputEvent) (rest : List InputEvent) (d : BmaDesc N)
      → AllMotion es
      → e.type ≡ ev_syn
      → length d.current_data ≡ 3
      → IsOriented d
      → (xs : List N) × (read ev2grav negated zero_n (es ++ e ∷ rest) d ≡ (
        record d {
          current_data = xs;
          sent =
              d.sent
              ++ (expected d.neg_x d.axis_x es d.current_data
                  ∷ expected d.neg_y d.axis_y es d.current_data
                  ∷ expected d.neg_z d.axis_z es d.current_data
                  ∷ [])
                ∷ [];
        },
        rest,
      ))
        × ((i : ℕ) → i < 3 → get_or xs i zero_n ≡ latest i es (get_or d.current_data i zero_n))
  read-sample es e rest d m s l o = (
    after es d.current_data,
    rw (read_moves es e rest d m s, acceleration_lem es d l o) refl,
    (λ i h. after-latest i es d.current_data h l),
  )
