-- ===== src/Wrapper/Deliver.antt =====
-- `sensors_wrapper_data`: who receives a sample.
use akm_dash.Common.{
  ℕ, ◌≡◌, ◌≢◌, refl, ap, ◌∙◌, Bool, ◌&&◌, none, some, List, [], ◌∷◌, ◌++◌, map, take, ==_refl,
  ==_ne, if◌then◌else◌, Bool-cases, inl, inr,
}
use akm_dash.SensorList.{ApiPtr}
use akm_dash.Wrapper.{find_slot, deliver_all, wrapper_data}
use akm_dash.Wrapper.Data.{active, Status, test, Slot, Call, Wrapper}

-- The active clients that have a `data` function, by client number.
abbrev pub receivers : (ApiPtr → Bool) → List ApiPtr → List Status → List ApiPtr
receivers has_data [] ss = []
receivers has_data (p ∷ ps) [] = []
receivers has_data (p ∷ ps) (s ∷ ss) =
    let rest = receivers has_data ps ss in if test active s && has_data p then p ∷ rest else rest

-- A log after these calls, the first one made first.
abbrev pub logged : List Call → List Call → List Call
logged [] log = log
logged (c ∷ cs) log = logged cs (c ∷ log)

deliver_all-logged :
    (has_data : ApiPtr → Bool) (ps : List ApiPtr) (ss : List Status) (log : List Call)
    → deliver_all has_data ps ss log ≡ logged (map Call.deliver (receivers has_data ps ss)) log
unfolding deliver_all
deliver_all-logged h [] ss log = refl
deliver_all-logged h (p ∷ ps) [] log = refl
deliver_all-logged h (p ∷ ps) (s ∷ ss) log = elim (Bool-cases (test active s && h p)) [
  | inl yes' ↦ rw yes' (deliver_all-logged h ps ss (Call.deliver p ∷ log))
  | inr no' ↦ rw no' (deliver_all-logged h ps ss log)
]

-- No slot of the list is this sensor's.
abbrev pub IsUnknown : ℕ → List Slot → Type 0
IsUnknown ptr [] = Unit
IsUnknown ptr (s ∷ r) = (ptr ≢ s.sensor) × IsUnknown ptr r

find_slot_unknown : (ptr : ℕ) (l : List Slot) → IsUnknown ptr l → find_slot ptr l ≡ none
unfolding find_slot
find_slot_unknown ptr [] u = refl
find_slot_unknown ptr (s ∷ r) u = rw (==_ne ptr s.sensor u.0) (find_slot_unknown ptr r u.1)

find_slot_first :
    (x : Slot) (l r : List Slot) → IsUnknown x.sensor l → find_slot x.sensor (l ++ x ∷ r) ≡ some x
unfolding find_slot
find_slot_first x [] r u = rw (==_refl x.sensor)
find_slot_first x (s ∷ l) r u = rw (==_ne x.sensor s.sensor u.0) (find_slot_first x l r u.1)

-- `sensors_wrapper_data` calls `data` of exactly the active clients of the first sensor registered
-- at that address that have one, each once and in the order of the client numbers, and changes
-- nothing in the list. A sensor that is not registered changes nothing at all.
pub wrapper_data_delivers :
    (has_data : ApiPtr → Bool) (w : Wrapper) (l r : List Slot) (x : Slot)
    → IsUnknown x.sensor l
    → (w.list ≡ l ++ x ∷ r
        → wrapper_data has_data x.sensor w ≡ record w {
          log =
              logged
                (map Call.deliver (
                  receivers has_data
                    (take x.entry.nr x.entry.api)
                    (take x.entry.nr x.entry.status)))
                w.log;
        })
      × (w.list ≡ l → wrapper_data has_data x.sensor w ≡ w)
unfolding wrapper_data
wrapper_data_delivers has_data w l r x u = (
  (λ e.
      rw (ap (find_slot x.sensor) e ∙ find_slot_first x l r u, wrapper_data)
        (ap (λ g. record w { log = g })
          (deliver_all-logged has_data (take x.entry.nr x.entry.api)
            (take x.entry.nr x.entry.status) w.log))),
  (λ e. rw (ap (find_slot x.sensor) e ∙ find_slot_unknown x.sensor l u, wrapper_data)),
)
