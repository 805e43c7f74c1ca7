-- ===== src/Akm/Measure/Echo.antt =====
-- The buffer of accelerations in libs/libakm/oss/akfs_measure.c.
use akm_dash.Common.{
  ℕ, zero, suc, ◌-◌, ◌≤◌, ◌<◌, ◌≡◌, refl, sym, ap, ◌∙◌, pos, true, ◌⊎◌, List, [], ◌∷◌, ◌++◌, length,
  get_or, set, take, replicate, length-take, ltb, ltb→lt, ltb→le, Bool-cases, inl, inr, arith,
}
use mathlib.Core.Path.{subst}
use akm_dash.Akm.{Vec, Arith, success, init_vec, shift_from, vb_ave, is_unset}
use akm_dash.Akm.Shift.{shift_from-taken}
use akm_dash.Akm.Average.{AllSet, mean, vb_ave-mean, first_behind, init_vec-is_unset}
use akm_dash.Akm.Held.{
  Held, length-Held, Held-more, Held-full, take-taken, take_rest, shift_from-front,
}

module _ {N : Type 0} (a : Arith N) where
  abbrev pub doubled : List (Vec N) → List (Vec N)
  doubled [] = []
  doubled (v ∷ vs) = v ∷ v ∷ vs

  -- The buffer holds the newest vectors, all of them or as many as it has room for.
  abbrev pub Newest : List (Vec N) → List (Vec N) → Type 0
  Newest buf stream = (n : ℕ) × ((Held a 32 buf stream n) × ((n ≡ length stream) ⊎ (n ≡ 32)))

  pub push-Newest :
      (x : Vec N) (buf stream : List (Vec N))
      → Newest buf stream
      → Newest (set (shift_from a 31 1 buf) 0 x) (x ∷ stream)
  push-Newest x buf stream (n, (h, k)) = elim (Bool-cases (ltb 31 n)) [
    | inl full ↦
        let (l, s, e) = h in
        let all : n ≡ 32 = omega (arith, ltb→lt 31 n full) in
        (32, (Held-full a 31 x buf stream (subst (Held a 32 buf stream) all h), inr refl))
    | inr room ↦
        let r : n ≤ 31 = ltb→le 31 n room in
        (suc n, (Held-more a 31 x buf stream n r h, one_more r k))
  ]
    where
      one_more :
          n ≤ 31 → (n ≡ length stream) ⊎ (n ≡ 32) → (suc n ≡ suc (length stream)) ⊎ (suc n ≡ 32)
      one_more r (inl e) = inl (omega arith)
      one_more r (inr e) = absurd (omega arith)

  length-Newest : (buf stream : List (Vec N)) → Newest buf stream → length buf ≡ 32
  length-Newest buf stream (n, (h, k)) = length-Held a 32 buf stream n h

  shift_from-same :
      (buf : List (Vec N))
      → length buf ≡ 32
      → shift_from a 31 1 buf ≡ set (shift_from a 31 1 buf) 0 (get_or buf 0 (init_vec a))
  shift_from-same [] l = absurd (omega arith)
  shift_from-same (y ∷ buf) l =
      let e : shift_from a 31 1 (y ∷ buf) ≡ y ∷ take 31 (y ∷ buf) =
        shift_from-taken a 32 1 (y ∷ buf) l (omega arith) (omega arith) in
      e ∙ sym (ap (λ w. set w 0 y) e)

  front-Newest :
      (buf : List (Vec N)) (v : Vec N) (vs : List (Vec N))
      → Newest buf (v ∷ vs)
      → get_or buf 0 (init_vec a) ≡ v
  front-Newest buf v vs (zero, (h, inl e)) = absurd (omega arith)
  front-Newest buf v vs (zero, (h, inr e)) = absurd (omega arith)
  front-Newest buf v vs (suc n, ((l, s, e), k)) = ap (λ w. get_or w 0 (init_vec a)) e

  -- With no write to the front, the first vector is doubled.
  pub shift-Newest :
      (buf stream : List (Vec N))
      → Newest buf stream
      → Newest (shift_from a 31 1 buf) (doubled stream)
  shift-Newest buf [] k = none_yet k
    where
      none_yet : Newest buf [] → Newest (shift_from a 31 1 buf) []
      none_yet (zero, ((l, s, e), k)) =
          let full : length buf ≡ 32 = length-Held a 32 buf [] 0 (l, s, e) in
          (
            0,
            (
              (
                l,
                s,
                shift_from-same buf full
                    ∙ shift_from-front a 31 _ buf full
                    ∙ ap (λ w. get_or w 0 (init_vec a) ∷ take 31 w) e,
              ),
              k,
            ),
          )
      none_yet (suc n, ((l, s, e), k)) = absurd (omega arith)
  shift-Newest buf (v ∷ vs) k =
      let same = shift_from-same buf (length-Newest buf (v ∷ vs) k) in
      subst (λ w. Newest w (v ∷ v ∷ vs))
        (sym (same ∙ ap (set (shift_from a 31 1 buf) 0) (front-Newest buf v vs k)))
        (push-Newest v buf (v ∷ vs) k)

  AllSet-take : (n : ℕ) (s : List (Vec N)) → AllSet a s → AllSet a (take n s)
  AllSet-take zero s k = tt
  AllSet-take (suc n) [] k = tt
  AllSet-take (suc n) (x ∷ s) (k, ks) = (k, AllSet-take n s ks)

  take-all : (n : ℕ) (s : List (Vec N)) → length s ≤ n → take n s ≡ s
  take-all zero [] h = refl
  take-all zero (x ∷ s) h = absurd (omega arith)
  take-all (suc n) [] h = refl
  take-all (suc n) (x ∷ s) h = ap (◌∷◌ x) (take-all n s (omega arith))

  averaged_at :
      (buf vs rest : List (Vec N)) (was : Vec N)
      → buf ≡ vs ++ rest
      → length buf ≡ 32
      → length vs ≤ 8
      → AllSet a vs
      → (length vs ≡ 8) ⊎ (is_unset a (get_or (vs ++ rest) (length vs) (init_vec a)) ≡ true)
      → vb_ave a (pos 32) buf (pos 8) was ≡ (success, mean a vs)
  averaged_at buf vs rest was e l few k stop =
      let size : 32 ≡ length (vs ++ rest) = sym l ∙ ap length e in
      ap (λ n. vb_ave a (pos n) buf (pos 8) was) size
      ∙ ap (λ w. vb_ave a (pos (length (vs ++ rest))) w (pos 8) was) e
      ∙ vb_ave-mean a vs rest 8 was (omega arith) few (omega (arith, size)) k stop

  pub vb_ave-Newest :
      (buf stream : List (Vec N)) (was : Vec N)
      → a.equal a.init_value a.init_value ≡ true
      → Newest buf stream
      → AllSet a stream
      → vb_ave a (pos 32) buf (pos 8) was ≡ (success, mean a (take 8 stream))
  vb_ave-Newest buf stream was eq (n, (h, k)) known = elim (Bool-cases (ltb (length stream) 8)) [
    | inl few ↦
        let (l, s, e) = h in
        let f : length stream < 8 = ltb→lt (length stream) 8 few in
        let all : take n stream ≡ stream = take-all n stream (counted f k) in
        let e' : buf ≡ stream ++ replicate (32 - n) (init_vec a) =
          e ∙ ap (λ w. w ++ replicate (32 - n) (init_vec a)) all in
        averaged_at buf stream (replicate (32 - n) (init_vec a)) was e'
          (length-Held a 32 buf stream n h) (omega arith) known
          (inr (
            ap (is_unset a) (first_behind a stream (32 - n) (omega arith))
            ∙ init_vec-is_unset a eq))
        ∙ ap (λ w. (success, mean a w)) (sym (take-all 8 stream (omega arith)))
    | inr many ↦
        let (l, s, e) = h in
        let m : 8 ≤ length stream = ltb→le (length stream) 8 many in
        let full : length buf ≡ 32 = length-Held a 32 buf stream n h in
        let (t, parts) = take_rest 8 buf (omega arith) in
        let first : take 8 buf ≡ take 8 stream =
          ap (take 8) e ∙ take-taken 8 n stream _ (enough m k) l in
        let count : length (take 8 stream) ≡ 8 = omega (arith, length-take 8 stream) in
        averaged_at buf (take 8 stream) t was (parts ∙ ap (λ w. w ++ t) first) full (omega arith)
          (AllSet-take 8 stream known) (inl count)
  ]
    where
      counted : length stream < 8 → (n ≡ length stream) ⊎ (n ≡ 32) → length stream ≤ n
      counted f (inl x) = omega arith
      counted f (inr x) = omega arith

      enough : 8 ≤ length stream → (n ≡ length stream) ⊎ (n ≡ 32) → 8 ≤ n
      enough m (inl x) = omega arith
      enough m (inr x) = omega arith
