-- ===== src/Proximity/Reports.antt =====
-- `sharp_read`: which distances the proximity sensor reports.
use akm_dash.Common.{◌≡◌, refl, ℤ, pos, ◌==ℤ◌, Bool, not, List, [], ◌∷◌, ◌++◌}
use akm_dash.Proximity.{SharpDesc, InputEvent, ev_abs, ev_syn, abs_distance, sharp_read}

-- Changes of the distance, by the values that the kernel reports.
abbrev pub moves : List ℤ → List InputEvent
moves [] = []
moves (v ∷ vs) = record { type = ev_abs; code = abs_distance; value = v } ∷ moves vs

-- The distance after these changes.
abbrev pub last_distance : Bool → List ℤ → Bool
last_distance far [] = far
last_distance far (v ∷ vs) = last_distance (not (v ==ℤ pos 0)) vs

-- `sharp_read` reports once, at the first synchronisation event, the distance of the last change
-- before it, or the one known already; it is 1.0 for any value but 0. The events behind it are left
-- for the next call.
pub sharp_read-report :
    (vs : List ℤ) (e : InputEvent) (rest : List InputEvent) (d : SharpDesc)
    → e.type ≡ ev_syn
    → sharp_read (moves vs ++ e ∷ rest) d ≡ (
      record d {
        distance = last_distance d.distance vs;
        sent = d.sent ++ last_distance d.distance vs ∷ [];
      },
      rest,
    )
unfolding sharp_read
sharp_read-report [] e rest d h = rw h refl
sharp_read-report (v ∷ vs) e rest d h =
    sharp_read-report vs e rest (record d { distance = not (v ==ℤ pos 0) }) h
