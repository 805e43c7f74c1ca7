-- ===== src/Wrapper/Connect.antt =====
-- What a connection of `sensors_wrapper_init` does for the client, and leaves to the others.
use native.Mathlib.Decide.{ℕ_discrete}
use mathlib.Core.Path.{subst}
use akm_dash.Common.{
  ℕ, suc, ◌+◌, ◌≤◌, ◌<◌, ◌≡◌, ◌≢◌, sym, ap, ◌∙◌, ℤ, pos, true, arith, length, get_or,
  get_or-set_self, get_or-set_ne, length-set,
}
use akm_dash.SensorList.{ApiPtr}
use akm_dash.Wrapper.Data.{initialised, unused, test, put, Slot, Wrapper, Access, slot_at, entry_at}
use akm_dash.Wrapper.Join.{Joins}

-- Every sensor has room for `r` more clients.
abbrev pub HasRoom : ℕ → Wrapper → Type 0
HasRoom r w =
    (j : ℕ)
    → j < length w.list
    → ((entry_at j w).nr + r ≤ length (entry_at j w).api)
      × ((entry_at j w).nr + r ≤ length (entry_at j w).status)

-- The slot is of this type, and this client of it has this function table and is initialised.
abbrev pub ServesSlot : ApiPtr → ℤ → Slot → ℕ → Type 0
ServesSlot self t x c =
    (x.sensor_type ≡ t)
    × (c < x.entry.nr)
    × (get_or x.entry.api c 0 ≡ self)
    × (test initialised (get_or x.entry.status c unused) ≡ true)

abbrev pub Serves : ApiPtr → ℤ → Wrapper → ℕ → ℕ → Type 0
Serves self t w s c = (s < length w.list) × ServesSlot self t (slot_at s w) c

-- Place `k` of the access field names a sensor of the type that the client wants there, and a
-- client number of it that is this client's.
abbrev pub IsConnected : ApiPtr → Access → Wrapper → ℕ → Type 0
IsConnected self d w k =
    Serves self (get_or d.match k (pos 0)) w (get_or d.sensor k 0) (get_or d.client k 0)

module _ {self : ApiPtr} {d d' : Access} {w w' : Wrapper} (j : Joins self d w d' w') where
  pub Serves-new :
      HasRoom 1 w → Serves self (get_or d.match d.nr (pos 0)) w' j.i (entry_at j.i w).nr
  Serves-new room =
      let e = entry_at j.i w in
      let r = room j.i j.inside in
      (
        omega (arith, j.size, j.inside),
        subst (λ (x : Slot). ServesSlot self (get_or d.match d.nr (pos 0)) x e.nr) (sym j.slot)
            (
              j.matches,
              omega arith,
              get_or-set_self e.api e.nr self 0 (omega arith),
              ap (test initialised) (get_or-set_self e.status e.nr _ unused (omega arith)),
            ),
      )

  pub Serves-old : (t : ℤ) (s c : ℕ) → Serves self t w s c → Serves self t w' s c
  Serves-old t s c (h, v) = (
    omega (arith, j.size),
    elim (ℕ_discrete j.i s) [
      | yes e ↦
          (let (m, lt, own, flag) = subst (λ k. ServesSlot self t (slot_at k w) c) (sym e) v in
            let ne : (entry_at j.i w).nr ≢ c = λ q. absurd (omega arith) in
            subst (λ k. ServesSlot self t (slot_at k w') c) e
              (subst (λ (x : Slot). ServesSlot self t x c) (sym j.slot)
                (
                  m,
                  omega arith,
                  get_or-set_ne (entry_at j.i w).api self 0 ne ∙ own,
                  ap (test initialised) (get_or-set_ne (entry_at j.i w).status _ unused ne) ∙ flag,
                )))
      | no ne ↦ subst (λ (x : Slot). ServesSlot self t x c) (sym (j.others s ne)) v
    ],
  )

  pub IsConnected-new : HasRoom 1 w → IsConnected self d' w' d.nr
  IsConnected-new room = rw (j.match, j.new_sensor, j.new_client) (Serves-new room)

  pub IsConnected-old : (k : ℕ) → d.nr ≢ k → IsConnected self d w k → IsConnected self d' w' k
  IsConnected-old k ne v =
      rw (j.match, j.old_sensors k ne, j.old_clients k ne)
        (Serves-old (get_or d.match k (pos 0)) (get_or d.sensor k 0) (get_or d.client k 0) v)

  pub HasRoom-after : (r : ℕ) → HasRoom (suc r) w → HasRoom r w'
  HasRoom-after r room s h = elim (ℕ_discrete j.i s) [
    | yes e ↦
        subst
          (λ k.
            ((entry_at k w').nr + r ≤ length (entry_at k w').api)
            × ((entry_at k w').nr + r ≤ length (entry_at k w').status))
          e
          (subst
            (λ (x : Slot).
              (x.entry.nr + r ≤ length x.entry.api) × (x.entry.nr + r ≤ length x.entry.status))
            (sym j.slot)
            (let q = room j.i j.inside in
              let en = entry_at j.i w in
              (
                omega (arith, length-set en.api en.nr self),
                omega (
                  arith,
                  length-set en.status en.nr (put initialised true (get_or en.status en.nr unused)),
                ),
              )))
    | no ne ↦
        subst
          (λ (x : Slot).
            (x.entry.nr + r ≤ length x.entry.api) × (x.entry.nr + r ≤ length x.entry.status))
          (sym (j.others s ne))
          (let q = room s (omega (arith, j.size)) in (omega arith, omega arith))
  ]
