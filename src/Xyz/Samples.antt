-- ===== src/Xyz/Samples.antt =====
-- `sensor_xyz_read`: what the samples hold that it passes to `sensors_wrapper_data`.
use native.Mathlib.Decide.{ℕ_discrete}
use akm_dash.Common.{
  ℕ, zero, suc, ◌<◌, ◌≡◌, ◌≢◌, refl, ap, sym, ◌∙◌, ℤ, pos, true, false, List, [], ◌∷◌, ◌++◌, get_or,
  Bool-cases, inl, inr, arith, if◌then◌else◌, ◌==◌, ==_refl, ==_ne,
}
use akm_dash.Xyz.{SensorDesc, InputEvent, handle_events, handle_event, set_axis, times}
use akm_dash.Xyz.Axis.{
  IsMapped, is_axis, latest, axis_hit, axis_miss, Frame, handle_event-Frame, in_frame, set_axis_at,
}

-- One event, as `latest` has it.
handle_event_at :
    (i : ℕ) (e : InputEvent) (d : SensorDesc) (m : IsMapped d)
    → i < 3
    → get_or (handle_event e d).values (m.place i) (pos 0) ≡ (
        if is_axis i d e
        then times e.value (get_or d.sign i (pos 0))
        else get_or d.values (m.place i) (pos 0))
handle_event_at i e d m h = elim (Bool-cases (is_axis 0 d e)) [
  | inl t ↦ hit 0 (omega arith) t
  | inr t ↦ elim (Bool-cases (is_axis 1 d e)) [
    | inl t' ↦ hit 1 (omega arith) t'
    | inr t' ↦ elim (Bool-cases (is_axis 2 d e)) [
      | inl t'' ↦ hit 2 (omega arith) t''
      | inr t'' ↦ rw (axis_miss e d t t' t'', miss i h t t' t'') refl
    ]
  ]
]
  where
    miss :
        (i : ℕ)
        → i < 3
        → is_axis 0 d e ≡ false
        → is_axis 1 d e ≡ false
        → is_axis 2 d e ≡ false
        → is_axis i d e ≡ false
    miss zero k a b c = a
    miss (suc zero) k a b c = b
    miss (suc (suc zero)) k a b c = c
    miss (suc (suc (suc n))) k a b c = absurd (omega arith)

    other : (j : ℕ) → j < 3 → is_axis j d e ≡ true → i ≢ j → is_axis i d e ≡ false
    other j k t ne = ground (arith, m.coded i j h k)

    hit :
        (j : ℕ)
        → j < 3
        → is_axis j d e ≡ true
        → get_or (handle_event e d).values (m.place i) (pos 0) ≡ (
            if is_axis i d e
            then times e.value (get_or d.sign i (pos 0))
            else get_or d.values (m.place i) (pos 0))
    hit j k t = elim (ℕ_discrete i j) [
      | yes same ↦
          rw (axis_hit j e d m k t, same, t)
            (ap (λ n. get_or (set_axis j e.value d).values (m.place n) (pos 0)) (sym same)
              ∙ (set_axis_at i j e.value d m h k).0 same
              ∙ ap (λ n. times e.value (get_or d.sign n (pos 0))) same)
      | no ne ↦ rw (axis_hit j e d m k t, other j k t ne) ((set_axis_at i j e.value d m h k).1 ne)
    ]

latest-Frame :
    (i : ℕ) (d d' : SensorDesc) (es : List InputEvent) (old : ℤ)
    → Frame d d'
    → latest i d' es old ≡ latest i d es old
latest-Frame i d d' [] old f = refl
latest-Frame i d d' (e ∷ es) old f = rw (f.data_type, f.code, f.sign) (latest-Frame i d d' es _ f)

handle_events-latest :
    (i : ℕ) (es : List InputEvent) (d : SensorDesc) (m : IsMapped d)
    → i < 3
    → get_or (handle_events es d).values (m.place i) (pos 0)
      ≡ latest i d es (get_or d.values (m.place i) (pos 0))
unfolding handle_events
handle_events-latest i [] d m h = refl
handle_events-latest i (e ∷ es) d m h =
    let f = handle_event-Frame e d in
    handle_events-latest i es (handle_event e d) (in_frame d (handle_event e d) f m) h
    ∙ latest-Frame i d (handle_event e d) es _ f
    ∙ ap (latest i d es) (handle_event_at i e d m h)

handle_events-append :
    (es fs : List InputEvent) (d : SensorDesc)
    → handle_events (es ++ fs) d ≡ handle_events fs (handle_events es d)
unfolding handle_events
handle_events-append [] fs d = refl
handle_events-append (e ∷ es) fs d = handle_events-append es fs (handle_event e d)

handle_events-types :
    (es : List InputEvent) (d : SensorDesc)
    → ((handle_events es d).ev_type_data ≡ d.ev_type_data)
      × ((handle_events es d).ev_type_sync ≡ d.ev_type_sync)
unfolding handle_events
handle_events-types [] d = (refl, refl)
handle_events-types (e ∷ es) d =
    let f = handle_event-Frame e d in
    let (t, s) = handle_events-types es (handle_event e d) in (t ∙ f.data_type, s ∙ f.sync_type)

synced :
    (e : InputEvent) (d : SensorDesc)
    → (e.type == d.ev_type_data) ≡ false
    → e.type ≡ d.ev_type_sync
    → (handle_event e d).samples ≡ d.samples ++ d.values ∷ []
unfolding handle_event
synced e d n s = ground (arith, ==_refl e.type)

-- Where the three axes are mapped to different places of `data` and have different codes,
-- `sensor_xyz_read` passes on a sample at a synchronisation event, whatever events stand before it:
-- the place of each axis holds the value of the axis' last event, with the axis' sign, and where
-- there was none the value of the sample before. Events of other codes and types do not matter.
pub handle_events-sample :
    (es : List InputEvent) (e : InputEvent) (d : SensorDesc) (m : IsMapped d)
    → e.type ≡ d.ev_type_sync
    → d.ev_type_sync ≢ d.ev_type_data
    → (sample : List ℤ) × ((handle_events (es ++ e ∷ []) d).samples
        ≡ (handle_events es d).samples ++ sample ∷ [])
      × ((i : ℕ)
          → i < 3
          → get_or sample (m.place i) (pos 0) ≡ latest i d es (get_or d.values (m.place i) (pos 0)))
unfolding handle_events
handle_events-sample es e d m s ne =
    let (t, u) = handle_events-types es d in
    (
      (handle_events es d).values,
      rw (handle_events-append es (e ∷ []) d) (
          synced e (handle_events es d) (rw (t, s) (==_ne d.ev_type_sync d.ev_type_data ne))
            (s ∙ sym u)),
      (λ i h. handle_events-latest i es d m h),
    )
