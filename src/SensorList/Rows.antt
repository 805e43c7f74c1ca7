-- ===== src/SensorList/Rows.antt =====
-- The abstract view of the table of sensors_list.c: the registered pairs, oldest first.
use akm_dash.Common.{
  ℕ, zero, suc, ◌≤◌, ◌≡◌, ◌≢◌, refl, ap, ℤ, ◌==ℤ◌, Option, none, some, List, [], ◌∷◌, ◌++◌, arith,
  length, ◌==◌, ==_refl, ==_ne, if◌then◌else◌,
}
use akm_dash.SensorList.{Sensor, ApiPtr, SensorTable, dash_max_sensors}

abbrev pub Row : Type 0
Row = Sensor × ApiPtr

-- The first `n` places of the two arrays.
abbrev pub rows : ℕ → List Sensor → List ApiPtr → List Row
rows zero ss ps = []
rows (suc n) [] ps = []
rows (suc n) (s ∷ ss) [] = []
rows (suc n) (s ∷ ss) (p ∷ ps) = (s, p) ∷ rows n ss ps

abbrev pub contents : SensorTable → List Row
contents s = rows s.number_of_sensors s.sensors s.sensor_apis

pub record IsValid (s : SensorTable) : Type 0 where
  pub sensors_full : length s.sensors ≡ dash_max_sensors
  pub apis_full : length s.sensor_apis ≡ dash_max_sensors
  pub bounded : s.number_of_sensors ≤ dash_max_sensors

-- Without the first row of a function table.
abbrev pub remove : ApiPtr → List Row → List Row
remove p [] = []
remove p ((s, q) ∷ r) = if q == p then r else (s, q) ∷ remove p r

abbrev pub position : ApiPtr → List Row → ℕ
position p [] = 0
position p ((s, q) ∷ r) = if q == p then 0 else suc (position p r)

abbrev pub remove_at : ℕ → List Row → List Row
remove_at i [] = []
remove_at zero (x ∷ r) = r
remove_at (suc i) (x ∷ r) = x ∷ remove_at i r

-- The function table of the first row with a handle.
abbrev pub lookup_handle : ℤ → List Row → Option ApiPtr
lookup_handle h [] = none
lookup_handle h ((s, q) ∷ r) = if s.handle ==ℤ h then some q else lookup_handle h r

abbrev pub ptrs : List Row → List ApiPtr
ptrs [] = []
ptrs ((s, q) ∷ r) = q ∷ ptrs r

abbrev pub NotIn : ApiPtr → List Row → Type 0
NotIn p [] = Unit
NotIn p ((s, q) ∷ r) = (q ≢ p) × NotIn p r

-- No function table is registered twice.
abbrev pub Distinct : List Row → Type 0
Distinct [] = Unit
Distinct ((s, q) ∷ r) = NotIn q r × Distinct r

pub length-rows :
    (n : ℕ) (ss : List Sensor) (ps : List ApiPtr)
    → n ≤ length ss
    → n ≤ length ps
    → length (rows n ss ps) ≡ n
length-rows zero ss ps h k = refl
length-rows (suc n) [] ps h k = absurd (omega arith)
length-rows (suc n) (s ∷ ss) [] h k = absurd (omega arith)
length-rows (suc n) (s ∷ ss) (p ∷ ps) h k = ap suc (length-rows n ss ps (omega arith) (omega arith))

pub length-contents : {s : SensorTable} → IsValid s → length (contents s) ≡ s.number_of_sensors
length-contents {s} v =
    length-rows s.number_of_sensors s.sensors s.sensor_apis (omega arith) (omega arith)

pub position-le : (p : ApiPtr) (r : List Row) → position p r ≤ length r
position-le p [] = omega arith
position-le p ((s, q) ∷ r) = ground (arith, position-le p r)

pub remove_absent : (p : ApiPtr) (r : List Row) → position p r ≡ length r → remove p r ≡ r
remove_absent p [] h = refl
remove_absent p ((s, q) ∷ r) h = ground (arith, remove_absent p r)

pub remove_at-position :
    (p : ApiPtr) (r : List Row) → position p r ≢ length r → remove_at (position p r) r ≡ remove p r
remove_at-position p [] h = refl
remove_at-position p ((s, q) ∷ r) h = ground (arith, remove_at-position p r)

-- Removing the row that follows rows of other function tables.
pub remove_middle :
    (p : ApiPtr) (done todo : List Row) (s : Sensor)
    → NotIn p done
    → remove p (done ++ (s, p) ∷ todo) ≡ done ++ todo
remove_middle p [] todo s h = ground (arith, ==_refl p)
remove_middle p ((t, q) ∷ done) todo s h =
    ground (arith, ==_ne q p h.0, remove_middle p done todo s h.1)

pub NotIn-append : (p : ApiPtr) (xs ys : List Row) → NotIn p xs → NotIn p ys → NotIn p (xs ++ ys)
NotIn-append p [] ys h k = k
NotIn-append p ((s, q) ∷ xs) ys h k = (h.0, NotIn-append p xs ys h.1 k)
