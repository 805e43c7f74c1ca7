-- ===== src/Xyz/Axis.antt =====
-- One event of `sensor_xyz_read`: which axis it changes, and what it leaves.
use akm_dash.Common.{if_both}
use akm_dash.Common.{
  ℕ, zero, suc, ◌<◌, ◌≡◌, ◌≢◌, refl, sym, ℤ, pos, negsuc, Bool, true, false, ◌&&◌, List, [], ◌∷◌,
  length, get_or, get_or-set_self, get_or-set_ne, length-set, arith, if◌then◌else◌, ◌==◌, ==_ne,
}
use akm_dash.Xyz.{SensorDesc, InputEvent, handle_event, set_axis, times, put_at}

-- The three axes are mapped to different places, and have different codes.
pub record IsMapped (d : SensorDesc) : Type 0 where
  pub place : ℕ → ℕ
  pub inside : (i : ℕ) → i < 3 → place i < length d.values
  pub mapped : (i : ℕ) → i < 3 → get_or d.map i (pos 0) ≡ pos (place i)
  pub apart : (i j : ℕ) → i < 3 → j < 3 → place i ≡ place j → i ≡ j
  pub coded : (i j : ℕ) → i < 3 → j < 3 → get_or d.ev_code i 0 ≡ get_or d.ev_code j 0 → i ≡ j

-- Whether an event is one of this axis.
abbrev pub is_axis : ℕ → SensorDesc → InputEvent → Bool
is_axis i d e = e.type == d.ev_type_data && e.code == get_or d.ev_code i 0

-- The value of an axis after some events: that of the last event of the axis, with the axis' sign,
-- or what it was before.
abbrev pub latest : ℕ → SensorDesc → List InputEvent → ℤ → ℤ
latest i d [] old = old
latest i d (e ∷ es) old =
    latest i d es (if is_axis i d e then times e.value (get_or d.sign i (pos 0)) else old)

pub axis_hit :
    (i : ℕ) (e : InputEvent) (d : SensorDesc)
    → IsMapped d
    → i < 3
    → is_axis i d e ≡ true
    → handle_event e d ≡ set_axis i e.value d
unfolding handle_event
axis_hit zero e d m h t = ground arith
axis_hit (suc zero) e d m h t =
    let ne : (get_or d.ev_code 1 0 == get_or d.ev_code 0 0) ≡ false =
      ==_ne (get_or d.ev_code 1 0) (get_or d.ev_code 0 0)
        (λ q. absurd (omega (arith, m.coded 1 0 (omega arith) (omega arith) q))) in
    ground arith
axis_hit (suc (suc zero)) e d m h t =
    let ne : (get_or d.ev_code 2 0 == get_or d.ev_code 0 0) ≡ false =
      ==_ne (get_or d.ev_code 2 0) (get_or d.ev_code 0 0)
        (λ q. absurd (omega (arith, m.coded 2 0 (omega arith) (omega arith) q))) in
    let ne' : (get_or d.ev_code 2 0 == get_or d.ev_code 1 0) ≡ false =
      ==_ne (get_or d.ev_code 2 0) (get_or d.ev_code 1 0)
        (λ q. absurd (omega (arith, m.coded 2 1 (omega arith) (omega arith) q))) in
    ground arith
axis_hit (suc (suc (suc i))) e d m h t = absurd (omega arith)

pub axis_miss :
    (e : InputEvent) (d : SensorDesc)
    → is_axis 0 d e ≡ false
    → is_axis 1 d e ≡ false
    → is_axis 2 d e ≡ false
    → (handle_event e d).values ≡ d.values
unfolding handle_event
axis_miss e d h h' h'' = ground arith

-- What no event changes.
pub record Frame (d d' : SensorDesc) : Type 0 where
  pub map : d'.map ≡ d.map
  pub sign : d'.sign ≡ d.sign
  pub code : d'.ev_code ≡ d.ev_code
  pub data_type : d'.ev_type_data ≡ d.ev_type_data
  pub sync_type : d'.ev_type_sync ≡ d.ev_type_sync
  pub size : length d'.values ≡ length d.values

pub length-put_at : (xs : List ℤ) (i v : ℤ) → length (put_at xs i v) ≡ length xs
unfolding put_at
length-put_at xs (pos i) v = length-set xs i v
length-put_at xs (negsuc i) v = refl

pub set_axis-Frame : (i : ℕ) (v : ℤ) (d : SensorDesc) → Frame d (set_axis i v d)
unfolding set_axis
set_axis-Frame i v d = record {
  map = refl;
  sign = refl;
  code = refl;
  data_type = refl;
  sync_type = refl;
  size = length-put_at d.values (get_or d.map i (pos 0)) (times v (get_or d.sign i (pos 0)));
}

pub unchanged-Frame : (d : SensorDesc) → Frame d d
unchanged-Frame d = record {
  map = refl;
  sign = refl;
  code = refl;
  data_type = refl;
  sync_type = refl;
  size = refl;
}

pub handle_event-Frame : (e : InputEvent) (d : SensorDesc) → Frame d (handle_event e d)
unfolding handle_event
handle_event-Frame e d =
    if_both (Frame d) (e.type == d.ev_type_data) _ _
      (λ h.
        if_both (Frame d) (e.code == get_or d.ev_code 0 0) _ _ (λ k. set_axis-Frame 0 e.value d)
          (λ k.
            if_both (Frame d) (e.code == get_or d.ev_code 1 0) _ _ (λ l. set_axis-Frame 1 e.value d)
              (λ l.
                if_both (Frame d) (e.code == get_or d.ev_code 2 0) _ _
                  (λ m. set_axis-Frame 2 e.value d) (λ m. unchanged-Frame d))))
      (λ h.
        if_both (Frame d) (e.type == d.ev_type_sync) _ _
          (λ k. record {
            map = refl;
            sign = refl;
            code = refl;
            data_type = refl;
            sync_type = refl;
            size = refl;
          })
          (λ k. unchanged-Frame d))

-- The same places after a change that keeps the frame.
abbrev pub in_frame : (d d' : SensorDesc) → Frame d d' → IsMapped d → IsMapped d'
in_frame d d' f m = record {
  place = m.place;
  inside = λ i h. rw f.size (m.inside i h);
  mapped = λ i h. rw f.map (m.mapped i h);
  apart = m.apart;
  coded = rw f.code m.coded;
}

-- The place of an axis after an event of this or another axis.
pub set_axis_at :
    (i j : ℕ) (v : ℤ) (d : SensorDesc) (m : IsMapped d)
    → i < 3
    → j < 3
    → (i ≡ j
        → get_or (set_axis j v d).values (m.place i) (pos 0) ≡ times v (get_or d.sign i (pos 0)))
      × (i ≢ j
          → get_or (set_axis j v d).values (m.place i) (pos 0)
            ≡ get_or d.values (m.place i) (pos 0))
unfolding set_axis put_at
set_axis_at i j v d m h k = (
  (λ e. rw (m.mapped j k, e) (get_or-set_self d.values (m.place j) _ (pos 0) (m.inside j k))),
  (λ ne. rw (m.mapped j k) (get_or-set_ne d.values _ (pos 0) (λ e. ne (m.apart i j h k (sym e))))),
)
