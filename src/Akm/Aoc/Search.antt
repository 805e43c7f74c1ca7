-- ===== src/Akm/Aoc/Search.antt =====
-- The search for the number of samples in `AKFS_AOC` of libs/libakm/oss/akfs_aoc.c.
use akm_dash.Common.{
  ℕ, zero, suc, ◌+◌, ◌-◌, ◌≤◌, ◌<◌, ◌≡◌, refl, sym, ap, ◌∙◌, true, false, List, [], ◌∷◌, ◌++◌,
  length, get_or, take, replicate, length-take, ltb, le→ltb, lt→ltb, arith, if◌then◌else◌,
}
use native.Mathlib.Decide.{ℕ_discrete}
use akm_dash.Akm.{Vec, Arith, init_vec}
use akm_dash.Akm.Shift.{get_or-append_left, get_or-append_right, get_or-take}
use akm_dash.Akm.Held.{Held}
use akm_dash.Akm.Aoc.{check_init, last_set}

module _ {N : Type 0} (a : Arith N) where
  abbrev pub AllKnown : List (Vec N) → Type 0
  AllKnown [] = Unit
  AllKnown (v ∷ vs) = (check_init a v ≡ false) × AllKnown vs

  known_at :
      (s : List (Vec N)) (i : ℕ)
      → AllKnown s
      → i < length s
      → check_init a (get_or s i (init_vec a)) ≡ false
  known_at [] i k h = absurd (omega arith)
  known_at (x ∷ s) zero (k, ks) h = k
  known_at (x ∷ s) (suc i) (k, ks) h = known_at s i ks (omega arith)

  get_or-replicate : (n i : ℕ) → get_or (replicate n (init_vec a)) i (init_vec a) ≡ init_vec a
  get_or-replicate zero i = refl
  get_or-replicate (suc n) zero = refl
  get_or-replicate (suc n) (suc i) = get_or-replicate n i

  -- The search ends at the last vector that is known.
  last_set_at :
      (k n : ℕ) (buf : List (Vec N))
      → n ≤ k + 3
      → ((i : ℕ) → i < n → check_init a (get_or buf i (init_vec a)) ≡ false)
      → ((i : ℕ) → n ≤ i → check_init a (get_or buf i (init_vec a)) ≡ true)
      → last_set a k buf ≡ (if ltb n 4 then 0 else n)
  unfolding last_set
  last_set_at zero n buf h low high = rw (lt→ltb n 4 (omega arith)) refl
  last_set_at (suc k) n buf h low high = elim (ℕ_discrete n (suc (k + 3))) [
    | yes e ↦ rw (low (k + 3) (omega arith), le→ltb n 4 (omega arith)) (sym e)
    | no ne ↦ rw (high (k + 3) (omega arith)) (last_set_at k n buf (omega arith) low high)
  ]

  pub last_set-Held :
      (buf stream : List (Vec N)) (n : ℕ)
      → Held a 20 buf stream n
      → AllKnown stream
      → check_init a (init_vec a) ≡ true
      → last_set a 17 buf ≡ (if ltb n 4 then 0 else n)
  last_set-Held buf stream n (l, s, e) known init = last_set_at 17 n buf (omega arith) low high
    where
      pad : List (Vec N)
      pad = replicate (20 - n) (init_vec a)

      size : length (take n stream) ≡ n
      size = omega (arith, length-take n stream)

      low : (i : ℕ) → i < n → check_init a (get_or buf i (init_vec a)) ≡ false
      low i h =
          ap (λ w. check_init a (get_or w i (init_vec a))) e
          ∙ ap (check_init a) (
              get_or-append_left (take n stream) pad i (init_vec a) (omega (arith, size))
              ∙ get_or-take n stream i (init_vec a) h)
          ∙ known_at stream i known (omega arith)

      high : (i : ℕ) → n ≤ i → check_init a (get_or buf i (init_vec a)) ≡ true
      high i h =
          let at : i ≡ length (take n stream) + (i - n) = omega (arith, size) in
          ap (λ w. check_init a (get_or w i (init_vec a))) e
          ∙ ap (λ j. check_init a (get_or (take n stream ++ pad) j (init_vec a))) at
          ∙ ap (check_init a) (
              get_or-append_right (take n stream) pad (i - n) (init_vec a)
              ∙ get_or-replicate (20 - n) (i - n))
          ∙ init
