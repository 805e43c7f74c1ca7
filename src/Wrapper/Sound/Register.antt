-- ===== src/Wrapper/Sound/Register.antt =====
-- How `sensors_wrapper_register` keeps the invariant of sensors_wrapper.c.
use akm_dash.Common.{
  ℕ, zero, suc, ◌≤◌, ◌<◌, ◌≡◌, ◌≢◌, refl, sym, ap, ◌∙◌, false, some, List, [], ◌∷◌, ◌++◌, length,
  get_or, take, ltb, if_both, length-append, arith,
}
use native.Mathlib.Decide.{ℕ_discrete}
use mathlib.Core.Path.{subst}
use akm_dash.SensorList.{ApiPtr, Sensor}
use akm_dash.Wrapper.{register}
use akm_dash.Wrapper.Data.{
  active, unused, test, Slot, null_slot, Wrapper, fresh_entry, list_size, slot_at, count_flag,
  list_get_status,
}
use akm_dash.Wrapper.Frame.{powered}
use akm_dash.Wrapper.Sound.{Sound}

get_or-append_old :
    (xs : List Slot) (x : Slot) (j : ℕ)
    → j < length xs
    → get_or (xs ++ x ∷ []) j null_slot ≡ get_or xs j null_slot
get_or-append_old [] x j h = absurd (omega arith)
get_or-append_old (y ∷ xs) x zero h = refl
get_or-append_old (y ∷ xs) x (suc j) h = get_or-append_old xs x j (omega arith)

get_or-append_new : (xs : List Slot) (x : Slot) → get_or (xs ++ x ∷ []) (length xs) null_slot ≡ x
get_or-append_new [] x = refl
get_or-append_new (y ∷ xs) x = get_or-append_new xs x

abbrev new_slot : ℕ → Sensor → ApiPtr → Slot
new_slot ptr s api = record { sensor = ptr; sensor_type = s.type; api = api; entry = fresh_entry }

abbrev with_slot : Slot → Wrapper → Wrapper
with_slot x w = record w { list = w.list ++ x ∷ [] }

-- What holds of the old slots and of the new one holds of all.
each_slot :
    (P : Slot → Type 0) (x : Slot) (w : Wrapper)
    → ((j : ℕ) → j < length w.list → P (slot_at j w))
    → P x
    → (j : ℕ) → j < length (with_slot x w).list
    → P (slot_at j (with_slot x w))
each_slot P x w old new j h = elim (ℕ_discrete (length w.list) j) [
  | yes e ↦
      subst (λ k. P (slot_at k (with_slot x w))) e (subst P (sym (get_or-append_new w.list x)) new)
  | no ne ↦
      let k : j < length w.list = omega (arith, length-append w.list (x ∷ [])) in
      subst P (sym (get_or-append_old w.list x j k)) (old j k)
]

unused_bits : (c : ℕ) → test active (get_or fresh_entry.status c unused) ≡ false
unused_bits zero = refl
unused_bits (suc zero) = refl
unused_bits (suc (suc zero)) = refl
unused_bits (suc (suc (suc zero))) = refl
unused_bits (suc (suc (suc (suc c)))) = refl

module _ (ptr : ℕ) (s : Sensor) (api : ApiPtr) (w : Wrapper) where
  old_api :
      (j : ℕ)
      → j < length w.list
      → (slot_at j (with_slot (new_slot ptr s api) w)).api ≡ (slot_at j w).api
  old_api j h = ap (λ (x : Slot). x.api) (get_or-append_old w.list (new_slot ptr s api) j h)

  new_api : (j : ℕ) → length w.list ≡ j → (slot_at j (with_slot (new_slot ptr s api) w)).api ≡ api
  new_api j e =
      subst (λ k. (slot_at k (with_slot (new_slot ptr s api) w)).api ≡ api) e
        (ap (λ (x : Slot). x.api) (get_or-append_new w.list (new_slot ptr s api)))

  in_front :
      (j : ℕ)
      → j < length (with_slot (new_slot ptr s api) w).list
      → length w.list ≢ j
      → j < length w.list
  in_front j h ne = omega (arith, length-append w.list (new_slot ptr s api ∷ []))

  with_slot-Sound :
      ((j : ℕ) → j < length w.list → (slot_at j w).api ≢ api)
      → Sound w
      → Sound (with_slot (new_slot ptr s api) w)
  unfolding list_get_status count_flag
  with_slot-Sound fresh v = record {
    powered_all = record {
      power =
          each_slot
            (λ x. powered x.api w.log ≡ ltb 0 (count_flag active (take x.entry.nr x.entry.status)))
            (new_slot ptr s api) w v.powered_all.power (v.known api fresh);
      distinct = λ i j h k e. elim (ℕ_discrete (length w.list) i) [
        | yes a ↦ elim (ℕ_discrete (length w.list) j) [
          | yes b ↦ sym a ∙ b
          | no b ↦
              let q = in_front j k b in absurd (fresh j q (sym (old_api j q) ∙ sym e ∙ new_api i a))
        ]
        | no a ↦
            let q = in_front i h a in
            elim (ℕ_discrete (length w.list) j) [
              | yes b ↦ absurd (fresh i q (sym (old_api i q) ∙ e ∙ new_api j b))
              | no b ↦
                  let r = in_front j k b in
                  v.powered_all.distinct i j q r (sym (old_api i q) ∙ e ∙ old_api j r)
            ]
      ];
    };
    idle =
        each_slot
          (λ x. (c : ℕ) → x.entry.nr ≤ c → test active (get_or x.entry.status c unused) ≡ false)
          (new_slot ptr s api) w v.idle (λ c n. unused_bits c);
    known = λ p n. v.known p (λ j h e.
        n j (omega (arith, length-append w.list (new_slot ptr s api ∷ []))) (old_api j h ∙ e));
  }

  pub register-Sound :
      ((j : ℕ) → j < length w.list → (slot_at j w).api ≢ api)
      → Sound w
      → Sound (register (some (ptr, s)) (some api) w)
  unfolding register
  register-Sound fresh v =
      if_both Sound (ltb (length w.list) list_size) (with_slot (new_slot ptr s api) w) w
        (λ e. with_slot-Sound fresh v) (λ e. v)
