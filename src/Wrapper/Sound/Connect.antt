-- ===== src/Wrapper/Sound/Connect.antt =====
-- How the connection of a client keeps the invariant of sensors_wrapper.c.
use akm_dash.Common.{
  ℕ, zero, suc, ◌≤◌, ◌<◌, ◌≡◌, refl, sym, ap, ◌∙◌, true, false, List, [], ◌∷◌, length, get_or, set,
  take, ltb, arith,
}
use native.Mathlib.Decide.{ℕ_discrete}
use mathlib.Core.Path.{subst}
use akm_dash.SensorList.{ApiPtr}
use akm_dash.Wrapper.Data.{
  Flag, active, initialised, Status, unused, test, put, Slot, Wrapper, Access, slot_at, entry_at,
  count_flag, list_get_status,
}
use akm_dash.Wrapper.Frame.{powered}
use akm_dash.Wrapper.Join.{Joins, joined}
use akm_dash.Wrapper.Sound.{Sound}

count_flag-next :
    (p : Flag) (n : ℕ) (ss : List Status) (s : Status)
    → test p s ≡ false
    → count_flag p (take (suc n) (set ss n s)) ≡ count_flag p (take n ss)
unfolding count_flag
count_flag-next p zero [] s t = refl
count_flag-next p zero (x ∷ ss) s t = rw t refl
count_flag-next p (suc n) [] s t = refl
count_flag-next p (suc n) (x ∷ ss) s t = rw (count_flag-next p n ss s t) refl

still_idle :
    (n : ℕ) (ss : List Status) (s : Status) (k : ℕ)
    → test active s ≡ false
    → test active (get_or ss k unused) ≡ false
    → test active (get_or (set ss n s) k unused) ≡ false
still_idle n [] s k t u = refl
still_idle zero (x ∷ ss) s zero t u = t
still_idle zero (x ∷ ss) s (suc k) t u = u
still_idle (suc n) (x ∷ ss) s zero t u = u
still_idle (suc n) (x ∷ ss) s (suc k) t u = still_idle n ss s k t u

module _ {self : ApiPtr} {d d' : Access} {w w' : Wrapper} (j : Joins self d w d' w') where
  -- What holds of the joined slot and of the others holds of all.
  each_joined :
      (P : Slot → Type 0)
      → ((k : ℕ) → k < length w.list → P (slot_at k w))
      → P (record (slot_at j.i w) { entry = joined self (entry_at j.i w) })
      → (k : ℕ) → k < length w'.list
      → P (slot_at k w')
  each_joined P old new k h = elim (ℕ_discrete j.i k) [
    | yes e ↦ subst (λ t. P (slot_at t w')) e (subst P (sym j.slot) new)
    | no ne ↦ subst P (sym (j.others k ne)) (old k (omega (arith, j.size)))
  ]

  joined_api : (k : ℕ) → (slot_at k w').api ≡ (slot_at k w).api
  joined_api k = elim (ℕ_discrete j.i k) [
    | yes e ↦
        subst (λ t. (slot_at t w').api ≡ (slot_at t w).api) e (ap (λ (x : Slot). x.api) j.slot)
    | no ne ↦ ap (λ (x : Slot). x.api) (j.others k ne)
  ]

  pub Joins-Sound : ((p : ApiPtr) → powered p w'.log ≡ powered p w.log) → Sound w → Sound w'
  unfolding list_get_status
  Joins-Sound same v =
      let e = entry_at j.i w in
      let x = put initialised true (get_or e.status e.nr unused) in
      let off : test active x ≡ false = v.idle j.i j.inside e.nr (omega arith) in
      record {
        powered_all = record {
          power =
              each_joined
                (λ y.
                  powered y.api w'.log ≡ ltb 0 (count_flag active (take y.entry.nr y.entry.status)))
                (λ k h. same (slot_at k w).api ∙ v.powered_all.power k h)
                (same (slot_at j.i w).api
                  ∙ v.powered_all.power j.i j.inside
                  ∙ ap (ltb 0) (sym (count_flag-next active e.nr e.status x off)));
          distinct = λ i k h g q.
              v.powered_all.distinct i k (omega (arith, j.size)) (omega (arith, j.size))
                (sym (joined_api i) ∙ q ∙ joined_api k);
        };
        idle =
            each_joined
              (λ y. (c : ℕ) → y.entry.nr ≤ c → test active (get_or y.entry.status c unused) ≡ false)
              v.idle
              (λ c n. still_idle e.nr e.status x c off (v.idle j.i j.inside c (omega arith)));
        known = λ p n. same p ∙ v.known p (λ k h q. n k (omega (arith, j.size)) (joined_api k ∙ q));
      }
