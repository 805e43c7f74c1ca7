-- ===== src/SensorList/Middle.antt =====
-- Rows in the middle of the table of sensors_list.c, where no function table stands twice.
use akm_dash.Common.{
  ℕ, zero, suc, ◌≤◌, ◌<◌, ◌≡◌, ◌≢◌, sym, List, [], ◌∷◌, ◌++◌, arith, length, get_or, ==_refl,
}
use akm_dash.SensorList.{Sensor, ApiPtr}
use akm_dash.SensorList.Rows.{Row, rows, remove, NotIn, Distinct, length-rows}

-- The pointer that the loop reads at `i` is that of row `i`.
pub get_or-rows :
    (n i : ℕ) (ss : List Sensor) (ps : List ApiPtr) (done todo : List Row) (x : Sensor) (p : ApiPtr)
    → rows n ss ps ≡ done ++ (x, p) ∷ todo
    → length done ≡ i
    → get_or ps i 0 ≡ p
get_or-rows zero i ss ps [] todo x p e l = cc
get_or-rows zero i ss ps (d ∷ done) todo x p e l = cc
get_or-rows (suc n) i [] ps [] todo x p e l = cc
get_or-rows (suc n) i [] ps (d ∷ done) todo x p e l = cc
get_or-rows (suc n) i (s ∷ ss) [] [] todo x p e l = cc
get_or-rows (suc n) i (s ∷ ss) [] (d ∷ done) todo x p e l = cc
get_or-rows (suc n) zero (s ∷ ss) (q ∷ ps) [] todo x p e l = cc
get_or-rows (suc n) (suc i) (s ∷ ss) (q ∷ ps) [] todo x p e l = absurd (omega arith)
get_or-rows (suc n) zero (s ∷ ss) (q ∷ ps) (d ∷ done) todo x p e l = absurd (omega arith)
get_or-rows (suc n) (suc i) (s ∷ ss) (q ∷ ps) (d ∷ done) todo x p e l =
    get_or-rows n i ss ps done todo x p (cc) (omega arith)

pub remove_registered :
    (n i : ℕ) (ss : List Sensor) (ps : List ApiPtr)
    → i < n
    → n ≤ length ss
    → n ≤ length ps
    → suc (length (remove (get_or ps i 0) (rows n ss ps))) ≡ n
remove_registered zero i ss ps h a b = absurd (omega arith)
remove_registered (suc n) i [] ps h a b = absurd (omega arith)
remove_registered (suc n) i (s ∷ ss) [] h a b = absurd (omega arith)
remove_registered (suc n) zero (s ∷ ss) (p ∷ ps) h a b =
    ground (arith, ==_refl p, length-rows n ss ps)
remove_registered (suc n) (suc i) (s ∷ ss) (p ∷ ps) h a b =
    ground (arith, remove_registered n i ss ps, length-rows n ss ps)

pub NotIn-without :
    (q : ApiPtr) (done todo : List Row) (x : Row)
    → NotIn q (done ++ x ∷ todo)
    → NotIn q (done ++ todo)
NotIn-without q [] todo (s, p) h = h.1
NotIn-without q ((t, o) ∷ done) todo x h = (h.0, NotIn-without q done todo x h.1)

pub NotIn-middle :
    (q : ApiPtr) (done todo : List Row) (x : Sensor) (p : ApiPtr)
    → NotIn q (done ++ (x, p) ∷ todo)
    → p ≢ q
NotIn-middle q [] todo x p h = h.0
NotIn-middle q ((t, o) ∷ done) todo x p h = NotIn-middle q done todo x p h.1

pub Distinct-without :
    (done todo : List Row) (x : Row) → Distinct (done ++ x ∷ todo) → Distinct (done ++ todo)
Distinct-without [] todo (s, p) h = h.1
Distinct-without ((t, o) ∷ done) todo x h =
    (NotIn-without o done todo x h.0, Distinct-without done todo x h.1)

pub Distinct-middle :
    (done todo : List Row) (x : Sensor) (p : ApiPtr)
    → Distinct (done ++ (x, p) ∷ todo)
    → NotIn p done
Distinct-middle [] todo x p h = tt
Distinct-middle ((t, o) ∷ done) todo x p h =
    ((λ e. NotIn-middle o done todo x p h.0 (sym e)), Distinct-middle done todo x p h.1)
