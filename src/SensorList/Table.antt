-- ===== src/SensorList/Table.antt =====
-- The operations on the arrays of sensors_list.c against the abstract table.
use akm_dash.Common.{
  ℕ, zero, suc, ◌+◌, ◌≤◌, ◌<◌, ◌≡◌, refl, ap, ◌∙◌, pos, negsuc, some, List, [], ◌∷◌, ◌++◌, arith,
  length, get_or, set, length-set, ltb, Bool-cases, inl, inr,
}
use akm_dash.SensorList.{
  Sensor, ApiPtr, SensorTable, null_sensor, dash_max_sensors, register, find_api, shift_down,
}
use akm_dash.SensorList.Rows.{rows, contents, IsValid, position, remove_at}

rows-set_end :
    (n : ℕ) (ss : List Sensor) (ps : List ApiPtr) (s : Sensor) (p : ApiPtr)
    → n < length ss
    → n < length ps
    → rows (suc n) (set ss n s) (set ps n p) ≡ rows n ss ps ++ (s, p) ∷ []
rows-set_end n [] ps s p h k = absurd (omega arith)
rows-set_end n (t ∷ ss) [] s p h k = absurd (omega arith)
rows-set_end zero (t ∷ ss) (q ∷ ps) s p h k = refl
rows-set_end (suc n) (t ∷ ss) (q ∷ ps) s p h k =
    ap (◌∷◌ (t, q)) (rows-set_end n ss ps s p (omega arith) (omega arith))

-- On a well-formed table, `sensors_list_register` with both arguments given appends the pair and
-- returns 0 while fewer than sixteen are registered; at sixteen it returns -1 and changes nothing.
-- The table stays well formed.
pub register_appends :
    (x : Sensor) (p : ApiPtr) {s : SensorTable}
    → IsValid s
    → let (rc, s') = register (some x) (some p) s in
      IsValid s'
      × (s.number_of_sensors < dash_max_sensors
          → (rc ≡ pos 0) × (contents s' ≡ contents s ++ (x, p) ∷ []))
      × (s.number_of_sensors ≡ dash_max_sensors → (rc ≡ negsuc 0) × (s' ≡ s))
unfolding register
register_appends x p {s} v = elim (Bool-cases (ltb 15 s.number_of_sensors)) [
  | inl full ↦ rw full (v, (λ h. absurd (ground arith)), (λ h. (refl, refl)))
  | inr room ↦ rw room (
    record {
      sensors_full = length-set s.sensors s.number_of_sensors x ∙ v.sensors_full;
      apis_full = length-set s.sensor_apis s.number_of_sensors p ∙ v.apis_full;
      bounded = ground arith;
    },
    (λ h. (
      refl,
      rows-set_end s.number_of_sensors s.sensors s.sensor_apis x p (omega (arith, v.sensors_full))
          (omega (arith, v.apis_full)),
    )),
    (λ h. absurd (ground arith)),
  )
]

find_api_cons :
    (k i : ℕ) (p q : ApiPtr) (ps : List ApiPtr)
    → find_api k (suc i) p (q ∷ ps) ≡ suc (find_api k i p ps)
unfolding find_api
find_api_cons zero i p q ps = refl
find_api_cons (suc k) i p q ps = ground (arith, find_api_cons k (suc i) p q ps)

pub find_api-position :
    (k : ℕ) (p : ApiPtr) (ss : List Sensor) (ps : List ApiPtr)
    → k ≤ length ss
    → k ≤ length ps
    → find_api k 0 p ps ≡ position p (rows k ss ps)
unfolding find_api
find_api-position zero p ss ps h k = refl
find_api-position (suc n) p [] ps h k = absurd (omega arith)
find_api-position (suc n) p (s ∷ ss) [] h k = absurd (omega arith)
find_api-position (suc n) p (s ∷ ss) (q ∷ ps) h k =
    ground (arith, find_api_cons n 0 p q ps, find_api-position n p ss ps)

shift_down_cons {ℓ} :
    {A : Type ℓ} (d : A) (k i : ℕ) (x : A) (xs : List A)
    → shift_down d k (suc i) (x ∷ xs) ≡ x ∷ shift_down d k i xs
unfolding shift_down
shift_down_cons d zero i x xs = refl
shift_down_cons d (suc k) i x xs = shift_down_cons d k (suc i) x (set xs i (get_or xs (suc i) d))

pub length-shift_down {ℓ} :
    {A : Type ℓ} (d : A) (k i : ℕ) (xs : List A) → length (shift_down d k i xs) ≡ length xs
unfolding shift_down
length-shift_down d zero i xs = refl
length-shift_down d (suc k) i xs =
    length-shift_down d k (suc i) (set xs i (get_or xs (suc i) d))
    ∙ length-set xs i (get_or xs (suc i) d)

-- Closing the gap at the front.
rows-shift_down_front :
    (k : ℕ) (ss : List Sensor) (ps : List ApiPtr)
    → suc k ≤ length ss
    → suc k ≤ length ps
    → rows k (shift_down null_sensor k 0 ss) (shift_down 0 k 0 ps)
      ≡ remove_at 0 (rows (suc k) ss ps)
unfolding shift_down
rows-shift_down_front k [] ps h l = absurd (omega arith)
rows-shift_down_front k (s ∷ ss) [] h l = absurd (omega arith)
rows-shift_down_front zero (s ∷ ss) (p ∷ ps) h l = refl
rows-shift_down_front (suc k) (s ∷ []) (p ∷ ps) h l = absurd (omega arith)
rows-shift_down_front (suc k) (s ∷ t ∷ ss) (p ∷ []) h l = absurd (omega arith)
rows-shift_down_front (suc k) (s ∷ t ∷ ss) (p ∷ q ∷ ps) h l =
    rw (shift_down_cons null_sensor k 0 t (t ∷ ss), shift_down_cons 0 k 0 q (q ∷ ps))
      (ap (◌∷◌ (t, q)) (rows-shift_down_front k (t ∷ ss) (q ∷ ps) (omega arith) (omega arith)))

pub rows-shift_down :
    (k i n : ℕ) (ss : List Sensor) (ps : List ApiPtr)
    → k + i ≡ n
    → suc n ≤ length ss
    → suc n ≤ length ps
    → rows n (shift_down null_sensor k i ss) (shift_down 0 k i ps)
      ≡ remove_at i (rows (suc n) ss ps)
rows-shift_down k zero n ss ps e h l =
    let e' : k ≡ n = omega arith in
    rw (← e') (rows-shift_down_front k ss ps (omega arith) (omega arith))
rows-shift_down k (suc i) n [] ps e h l = absurd (omega arith)
rows-shift_down k (suc i) n (s ∷ ss) [] e h l = absurd (omega arith)
rows-shift_down k (suc i) zero (s ∷ ss) (p ∷ ps) e h l = absurd (omega arith)
rows-shift_down k (suc i) (suc n) (s ∷ ss) (p ∷ ps) e h l =
    rw (shift_down_cons null_sensor k i s ss, shift_down_cons 0 k i p ps)
      (ap (◌∷◌ (s, p)) (rows-shift_down k i n ss ps (omega arith) (omega arith) (omega arith)))
