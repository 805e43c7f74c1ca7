-- ===== src/Wrapper/Reopen.antt =====
-- A second call of `sensors_wrapper_init` for the same client.
use akm_dash.Common.{
  ℕ, zero, suc, ◌+◌, ◌<◌, ◌≡◌, ◌≢◌, refl, ◌∙◌, ℤ, pos, negsuc, ◌==ℤ◌, ==ℤ_iff, false, some, List,
  arith, length, get_or, Bool-cases, inl, inr,
}
use akm_dash.SensorList.{ApiPtr}
use akm_dash.Wrapper.{exhausted, find_sensor, wrapper_init}
use akm_dash.Wrapper.Data.{Call, Wrapper, Access, slot_at}
use akm_dash.Wrapper.Find.{find_sensor_other}
use akm_dash.Wrapper.Init.{scan_stop}

-- No registered sensor is of this type.
abbrev pub NoneOfType : ℤ → Wrapper → Type 0
NoneOfType t w = (i : ℕ) → i < length w.list → (slot_at i w).sensor_type ≢ t

module _ (reply : List Call → ℤ) (self : ApiPtr) where
  find_sensor_none :
      (k i : ℕ) (err : ℤ) (d : Access) (w : Wrapper)
      → k + i ≡ length w.list
      → NoneOfType (get_or d.match d.nr (pos 0)) w
      → find_sensor reply self k i err d w ≡ exhausted err d w
  find_sensor_none zero i err d w e n = unfold find_sensor in refl
  find_sensor_none (suc k) i err d w e n =
      find_sensor_other reply self k i err d w
        (differs (slot_at i w).sensor_type (get_or d.match d.nr (pos 0)) (n i (omega arith)))
      ∙ find_sensor_none k (suc i) err d w (omega arith) n
    where
      differs : (a b : ℤ) → a ≢ b → (a ==ℤ b) ≡ false
      differs a b ne = elim (Bool-cases (a ==ℤ b)) [
        | inl t ↦ absurd (ne ((==ℤ_iff a b).0 t))
        | inr f ↦ f
      ]

  -- Where no registered sensor is of the type at place `nr` of the client's `match`,
  -- `sensors_wrapper_init` returns -1 and changes nothing. For a client that is connected already,
  -- `nr` is the place behind the types that it wants: a second `init`, after the HAL was closed
  -- and is opened again, fails though all its sensors are there.
  pub wrapper_init_missing :
      (d : Access) (w : Wrapper)
      → NoneOfType (get_or d.match d.nr (pos 0)) w
      → wrapper_init reply self d w ≡ some (negsuc 0, d, w)
  unfolding wrapper_init
  wrapper_init_missing d w n =
      scan_stop reply self d.m_nr (negsuc 0) (negsuc 0) d d w w
        (find_sensor_none (length w.list) 0 (negsuc 0) d w (omega arith) n)
