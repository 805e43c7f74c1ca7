-- ===== src/Akm/Average.antt =====
-- `AKFS_InitBuffer` and `AKFS_VbAve` of libs/libakm/oss: the mean of the vectors that are set.
use akm_dash.Common.{
  ℕ, zero, suc, ◌+◌, ◌-◌, ◌≤◌, ◌<◌, ◌≡◌, refl, sym, ap, ◌∙◌, pos, true, false, ◌⊎◌, List, [], ◌∷◌,
  ◌++◌, length, get_or, set, take, replicate, length-append, length-replicate, append_assoc, le→ltb,
  ==_ne, inl, inr, arith,
}
use mathlib.Core.Path.{subst}
use akm_dash.Akm.{
  Vec, Arith, success, init_vec, init_from, init_buffer, is_unset, sum_from, mean_of, zero_vec,
  vb_ave,
}
use akm_dash.Akm.Shift.{get_or-append_left}

module _ {N : Type 0} (a : Arith N) where
  -- The sum of these vectors, in their order, from `s` on.
  abbrev pub total : List (Vec N) → Vec N → Vec N
  total [] s = s
  total (v ∷ vs) s =
      total vs (record { x = a.plus s.x v.x; y = a.plus s.y v.y; z = a.plus s.z v.z })

  abbrev pub AllSet : List (Vec N) → Type 0
  AllSet [] = Unit
  AllSet (v ∷ vs) = (is_unset a v ≡ false) × AllSet vs

  -- The mean of these vectors, or zero where there is none.
  abbrev pub mean : List (Vec N) → Vec N
  mean vs = mean_of a (length vs, total vs (zero_vec a))

  pub set-append :
      (before old : List (Vec N)) (x v : Vec N)
      → set (before ++ x ∷ old) (length before) v ≡ (before ++ v ∷ []) ++ old
  set-append [] old x v = refl
  set-append (b ∷ before) old x v = ap (◌∷◌ b) (set-append before old x v)

  pub init_from-replicate :
      (before old : List (Vec N))
      → init_from a (length old) (length before) (before ++ old)
        ≡ before ++ replicate (length old) (init_vec a)
  unfolding init_from
  init_from-replicate before [] = refl
  init_from-replicate before (x ∷ old) =
      let v = init_vec a in
      let next : suc (length before) ≡ length (before ++ v ∷ []) =
        omega (arith, length-append before (v ∷ [])) in
      ap (init_from a (length old) (suc (length before))) (set-append before old x v)
      ∙ ap (λ n. init_from a (length old) n ((before ++ v ∷ []) ++ old)) next
      ∙ init_from-replicate (before ++ v ∷ []) old
      ∙ append_assoc before (v ∷ []) (replicate (length old) v)

  sum_stops :
      (m i : ℕ) (w : List (Vec N)) (s : Vec N)
      → (m ≡ 0) ⊎ (is_unset a (get_or w i (init_vec a)) ≡ true)
      → sum_from a m i w s ≡ (i, s)
  unfolding sum_from
  sum_stops zero i w s e = refl
  sum_stops (suc m) i w s (inl e) = absurd (omega arith)
  sum_stops (suc m) i w s (inr e) = rw e refl

  sum_goes_on :
      (m i : ℕ) (w : List (Vec N)) (s v : Vec N)
      → get_or w i (init_vec a) ≡ v
      → is_unset a v ≡ false
      → sum_from a (suc m) i w s
        ≡ sum_from a m
            (suc i)
            w
            (record { x = a.plus s.x v.x; y = a.plus s.y v.y; z = a.plus s.z v.z })
  unfolding sum_from
  sum_goes_on m i w s v e k =
      let k' : is_unset a (get_or w i (init_vec a)) ≡ false = ap (is_unset a) e ∙ k in
      rw (k', e) refl

  -- From index `i` on the buffer holds these vectors, and then the loop ends.
  sum_from-total :
      (vs w : List (Vec N)) (i m : ℕ) (s : Vec N)
      → ((j : ℕ) → j < length vs → get_or w (i + j) (init_vec a) ≡ get_or vs j (init_vec a))
      → AllSet vs
      → (m ≡ 0) ⊎ (is_unset a (get_or w (i + length vs) (init_vec a)) ≡ true)
      → sum_from a (length vs + m) i w s ≡ (i + length vs, total vs s)
  sum_from-total [] w i m s h k stop =
      let none : i + 0 ≡ i = omega arith in
      let all : 0 + m ≡ m = omega arith in
      ap (λ n. sum_from a n i w s) all
      ∙ ends m (subst (λ n. (m ≡ 0) ⊎ (is_unset a (get_or w n (init_vec a)) ≡ true)) none stop)
      ∙ ap (λ n. (n, s)) (sym none)
    where
      ends :
          (m : ℕ)
          → (m ≡ 0) ⊎ (is_unset a (get_or w i (init_vec a)) ≡ true)
          → sum_from a m i w s ≡ (i, s)
      ends m e = sum_stops m i w s e
  sum_from-total (v ∷ vs) w i m s h (k, ks) stop =
      let here : i + 0 ≡ i = omega arith in
      let first : get_or w i (init_vec a) ≡ v =
        ap (λ n. get_or w n (init_vec a)) (sym here) ∙ h 0 (omega arith) in
      let rounds : suc (length vs) + m ≡ suc (length vs + m) = omega arith in
      let index : suc i + length vs ≡ i + suc (length vs) = omega arith in
      let s' : Vec N = record { x = a.plus s.x v.x; y = a.plus s.y v.y; z = a.plus s.z v.z } in
      ap (λ n. sum_from a n i w s) rounds
      ∙ sum_goes_on (length vs + m) i w s v first k
      ∙ sum_from-total vs w (suc i) m s'
          (λ j l.
            let next : suc i + j ≡ i + suc j = omega arith in
            ap (λ n. get_or w n (init_vec a)) next ∙ h (suc j) (omega arith))
          ks (subst (λ n. (m ≡ 0) ⊎ (is_unset a (get_or w n (init_vec a)) ≡ true)) (sym index) stop)
      ∙ ap (λ n. (n, total vs s')) index

  -- `AKFS_VbAve` gives the mean of the vectors at the start of the buffer that are set, `nave` of
  -- them at most: where it holds fewer, it is that of those before the first one that is not set,
  -- and zero where there is none.
  pub vb_ave-mean :
      (vs rest : List (Vec N)) (nave : ℕ) (vave : Vec N)
      → 0 < nave
      → length vs ≤ nave
      → nave ≤ length (vs ++ rest)
      → AllSet vs
      → (length vs ≡ nave) ⊎ (is_unset a (get_or (vs ++ rest) (length vs) (init_vec a)) ≡ true)
      → vb_ave a (pos (length (vs ++ rest))) (vs ++ rest) (pos nave) vave ≡ (success, mean vs)
  unfolding vb_ave
  vb_ave-mean vs rest nave vave p l r k stop =
      let m = nave - length vs in
      let count : nave ≡ length vs + m = omega arith in
      let all : 0 + length vs ≡ length vs = omega arith in
      let run : sum_from a nave 0 (vs ++ rest) (zero_vec a) ≡ (length vs, total vs (zero_vec a)) =
        ap (λ n. sum_from a n 0 (vs ++ rest) (zero_vec a)) count
        ∙ sum_from-total vs (vs ++ rest) 0 m (zero_vec a)
            (λ j h.
              let same : 0 + j ≡ j = omega arith in
              ap (λ n. get_or (vs ++ rest) n (init_vec a)) same
              ∙ get_or-append_left vs rest j (init_vec a) h)
            k (ends stop)
        ∙ ap (λ n. (n, total vs (zero_vec a))) all in
      rw
        (
          ==_ne nave 0 (λ e. absurd (omega arith)),
          ==_ne (length (vs ++ rest)) 0 (λ e. absurd (omega arith)),
          le→ltb (length (vs ++ rest)) nave r,
          run,
        )
        refl
    where
      ends :
          (length vs ≡ nave) ⊎ (is_unset a (get_or (vs ++ rest) (length vs) (init_vec a)) ≡ true)
          → (nave - length vs ≡ 0)
            ⊎ (is_unset a (get_or (vs ++ rest) (0 + length vs) (init_vec a)) ≡ true)
      ends (inl e) = inl (omega arith)
      ends (inr e) =
          let all : length vs ≡ 0 + length vs = omega arith in
          inr (subst (λ n. is_unset a (get_or (vs ++ rest) n (init_vec a)) ≡ true) all e)

  init_buffer-replicate :
      (old : List (Vec N))
      → 0 < length old
      → init_buffer a (pos (length old)) old ≡ (success, replicate (length old) (init_vec a))
  unfolding init_buffer
  init_buffer-replicate old h =
      rw (==_ne (length old) 0 (λ e. absurd (omega arith)), init_from-replicate [] old) refl

  pub take-replicate : (n m : ℕ) (x : Vec N) → n ≤ m → take n (replicate m x) ≡ replicate n x
  take-replicate zero m x h = refl
  take-replicate (suc n) zero x h = absurd (omega arith)
  take-replicate (suc n) (suc m) x h = ap (◌∷◌ x) (take-replicate n m x (omega arith))

  pub first_behind :
      (vs : List (Vec N)) (n : ℕ)
      → 0 < n
      → get_or (vs ++ replicate n (init_vec a)) (length vs) (init_vec a) ≡ init_vec a
  first_behind [] zero h = refl
  first_behind [] (suc n) h = refl
  first_behind (v ∷ vs) n h = first_behind vs n h

  pub init_vec-is_unset : a.equal a.init_value a.init_value ≡ true → is_unset a (init_vec a) ≡ true
  unfolding is_unset
  init_vec-is_unset e = rw e refl

  -- A buffer that `AKFS_InitBuffer` has cleared and that has then got some vectors in front, at
  -- most `nave` and fewer than it holds, has their mean for `AKFS_VbAve`, if the initial value is
  -- equal to itself.
  pub init_buffer-vb_ave :
      (old vs : List (Vec N)) (n nave : ℕ) (vave : Vec N)
      → a.equal a.init_value a.init_value ≡ true
      → n + length vs ≡ length old
      → 0 < n
      → 0 < nave
      → length vs ≤ nave
      → nave ≤ length old
      → AllSet vs
      → let (rc, fresh) = init_buffer a (pos (length old)) old in
        (rc ≡ success)
        × (vb_ave a (pos (length old)) (vs ++ take n fresh) (pos nave) vave ≡ (success, mean vs))
  init_buffer-vb_ave old vs n nave vave eq l more p fits r k =
      let x = init_vec a in
      let size : length old ≡ length (vs ++ replicate n x) =
        omega (arith, length-append vs (replicate n x), length-replicate n x) in
      let unset : is_unset a (get_or (vs ++ replicate n x) (length vs) x) ≡ true =
        ap (is_unset a) (first_behind vs n more) ∙ init_vec-is_unset eq in
      rw
        (
          init_buffer-replicate old (omega arith),
          take-replicate n (length old) x (omega arith),
          size,
        )
        (refl, vb_ave-mean vs (replicate n x) nave vave p fits (omega (arith, size)) k (inr unset))
