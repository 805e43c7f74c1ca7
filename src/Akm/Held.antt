-- ===== src/Akm/Held.antt =====
-- Buffers of libs/libakm/oss that hold the newest vectors of a stream and then unset ones.
use akm_dash.Common.{
  ℕ, zero, suc, ◌+◌, ◌-◌, ◌≤◌, ◌≡◌, refl, sym, ap, ◌∙◌, List, [], ◌∷◌, ◌++◌, length, set, take,
  replicate, length-append, length-replicate, length-take, append-nil, arith,
}
use akm_dash.Akm.{Vec, Arith, init_vec, init_from, shift_from}
use akm_dash.Akm.Shift.{shift_from-taken}
use akm_dash.Akm.Average.{init_from-replicate, take-replicate}

module _ {A : Type 0} where
  pub take-taken :
      (m n : ℕ) (s t : List A) → m ≤ n → n ≤ length s → take m (take n s ++ t) ≡ take m s
  take-taken zero n s t h l = refl
  take-taken (suc m) zero s t h l = absurd (omega arith)
  take-taken (suc m) (suc n) [] t h l = absurd (omega arith)
  take-taken (suc m) (suc n) (x ∷ s) t h l =
      ap (◌∷◌ x) (take-taken m n s t (omega arith) (omega arith))

  pub replicate_plus : (n m : ℕ) (x : A) → replicate n x ++ replicate m x ≡ replicate (n + m) x
  replicate_plus zero m x = let e : m ≡ 0 + m = omega arith in ap (λ k. replicate k x) e
  replicate_plus (suc n) m x =
      let e : suc (n + m) ≡ suc n + m = omega arith in
      ap (◌∷◌ x) (replicate_plus n m x) ∙ ap (λ k. replicate k x) e

  -- A list is what `take` gives and a rest.
  pub take_rest : (m : ℕ) (s : List A) → m ≤ length s → (t : List A) × (s ≡ take m s ++ t)
  take_rest zero s h = (s, refl)
  take_rest (suc m) [] h = absurd (omega arith)
  take_rest (suc m) (x ∷ s) h = let (t, e) = take_rest m s (omega arith) in (t, ap (◌∷◌ x) e)

module _ {N : Type 0} (a : Arith N) where
  pub take-padded :
      (m n k : ℕ) (s : List (Vec N))
      → n ≤ m
      → m ≤ n + k
      → n ≤ length s
      → take m (take n s ++ replicate k (init_vec a)) ≡ take n s ++ replicate (m - n) (init_vec a)
  take-padded m zero k s h l g =
      let e : m ≡ m - 0 = omega arith in
      take-replicate a m k (init_vec a) (omega arith) ∙ ap (λ i. replicate i (init_vec a)) e
  take-padded zero (suc n) k s h l g = absurd (omega arith)
  take-padded (suc m) (suc n) k [] h l g = absurd (omega arith)
  take-padded (suc m) (suc n) k (x ∷ s) h l g =
      let e : m - n ≡ suc m - suc n = omega arith in
      ap (◌∷◌ x) (take-padded m n k s (omega arith) (omega arith) (omega arith))
      ∙ ap (λ i. x ∷ (take n s ++ replicate i (init_vec a))) e

  -- The buffer holds the newest `n` vectors of the stream, whose newest comes first.
  abbrev pub Held : ℕ → List (Vec N) → List (Vec N) → ℕ → Type 0
  Held size buf stream n =
      (n ≤ length stream) × (n ≤ size) × (buf ≡ take n stream ++ replicate (size - n) (init_vec a))

  pub length-Held :
      (size : ℕ) (buf stream : List (Vec N)) (n : ℕ) → Held size buf stream n → length buf ≡ size
  length-Held size buf stream n (l, s, e) = omega (
    arith,
    ap length e,
    length-append (take n stream) (replicate (size - n) (init_vec a)),
    length-take n stream,
    length-replicate (size - n) (init_vec a),
  )

  pub init_from-Held :
      (buf : List (Vec N)) → Held (length buf) (init_from a (length buf) 0 buf) [] 0
  init_from-Held buf =
      let e : length buf ≡ length buf - 0 = omega arith in
      (
        omega arith,
        omega arith,
        init_from-replicate a [] buf ∙ ap (λ i. replicate i (init_vec a)) e,
      )

  pub shift_from-front :
      (m : ℕ) (x : Vec N) (buf : List (Vec N))
      → length buf ≡ suc m
      → set (shift_from a m 1 buf) 0 x ≡ x ∷ take m buf
  shift_from-front m x [] l = absurd (omega arith)
  shift_from-front m x (y ∷ buf) l =
      let u : suc m - 1 ≡ m = omega arith in
      ap (λ k. set (shift_from a k 1 (y ∷ buf)) 0 x) (sym u)
      ∙ ap (λ w. set w 0 x) (shift_from-taken a (suc m) 1 (y ∷ buf) l (omega arith) (omega arith))
      ∙ ap (λ k. x ∷ take k (y ∷ buf)) u

  -- A vector more in front of a buffer with room for it.
  pub Held-more :
      (m : ℕ) (x : Vec N) (buf stream : List (Vec N)) (n : ℕ)
      → n ≤ m
      → Held (suc m) buf stream n
      → Held (suc m) (set (shift_from a m 1 buf) 0 x) (x ∷ stream) (suc n)
  Held-more m x buf stream n room h =
      let (l, s, e) = h in
      let r : m - n ≡ suc m - suc n = omega arith in
      (
        omega arith,
        omega arith,
        shift_from-front m x buf (length-Held (suc m) buf stream n h)
            ∙ ap (λ w. x ∷ take m w) e
            ∙ ap (◌∷◌ x) (take-padded m n (suc m - n) stream room (omega arith) l)
            ∙ ap (λ i. x ∷ (take n stream ++ replicate i (init_vec a))) r,
      )

  -- And in front of a full one.
  pub Held-full :
      (m : ℕ) (x : Vec N) (buf stream : List (Vec N))
      → Held (suc m) buf stream (suc m)
      → Held (suc m) (set (shift_from a m 1 buf) 0 x) (x ∷ stream) (suc m)
  Held-full m x buf stream h =
      let (l, s, e) = h in
      let none : 0 ≡ suc m - suc m = omega arith in
      (
        omega arith,
        omega arith,
        shift_from-front m x buf (length-Held (suc m) buf stream (suc m) h)
            ∙ ap (λ w. x ∷ take m w) e
            ∙ ap (◌∷◌ x) (take-taken m (suc m) stream _ (omega arith) l)
            ∙ ap (◌∷◌ x) (sym (append-nil (take m stream)))
            ∙ ap (λ i. x ∷ (take m stream ++ replicate i (init_vec a))) none,
      )
