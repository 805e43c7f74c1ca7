-- ===== src/Fifo/Queue.antt =====
-- The queue of sensors_fifo.c against a list of at most eight events.
use akm_dash.Common.{
  ℕ, zero, suc, ◌≤◌, ◌<◌, ◌≡◌, refl, ap, ◌∙◌, List, [], ◌∷◌, ◌++◌, arith, length, take, length-set,
  take-set_end, ltb, lt→ltb, Bool-cases, inl, inr,
}
use akm_dash.Fifo.{Fifo, fifo_len, put, copy, get_all}

module _ {ℓ} {E : Type ℓ} where
  pub record IsValid (f : Fifo E) : Type ℓ where
    pub full_size : length f.fifo ≡ fifo_len
    pub bounded : f.fifo_i ≤ fifo_len

  -- The events in the queue, oldest first.
  abbrev pub contents : Fifo E → List E
  contents f = take f.fifo_i f.fifo

  -- On a well-formed queue, `sensors_fifo_put` appends the event while the queue holds fewer than
  -- eight; with eight in it the event is dropped and the queue is left as it is. The queue stays
  -- well formed.
  pub put_refines :
      (e : E) {f : Fifo E}
      → IsValid f
      → IsValid (put e f)
        × (f.fifo_i < fifo_len → contents (put e f) ≡ contents f ++ e ∷ [])
        × (f.fifo_i ≡ fifo_len → put e f ≡ f)
  unfolding put
  put_refines e {f} v = elim (Bool-cases (ltb f.fifo_i 8)) [
    | inl room ↦ rw room (
      record { full_size = length-set f.fifo f.fifo_i e ∙ v.full_size; bounded = ground arith },
      (λ h. take-set_end f.fifo f.fifo_i e (omega (arith, v.full_size))),
      (λ h. absurd (ground arith)),
    )
    | inr full ↦ rw full (v, (λ h. absurd (ground arith)), (λ h. refl))
  ]

  -- The rounds from index `i` on copy what stands there.
  copy_cons :
      (d x : E) (k i n len : ℕ) (xs : List E)
      → copy d k (suc i) (suc len) (record { fifo_i = suc n; fifo = x ∷ xs })
        ≡ copy d k i len (record { fifo_i = n; fifo = xs })
  unfolding copy
  copy_cons d x zero i n len xs = refl
  copy_cons d x (suc k) i n len xs = ground (arith, copy_cons d x k (suc i) n len xs)

  copy_none :
      (d : E) (k i n : ℕ) (xs : List E) → copy d k i 0 (record { fifo_i = n; fifo = xs }) ≡ []
  unfolding copy
  copy_none d zero i n xs = refl
  copy_none d (suc k) i n xs = ground arith

  copy-take :
      (d : E) (n len : ℕ) (xs : List E)
      → n ≤ length xs
      → copy d n 0 len (record { fifo_i = n; fifo = xs }) ≡ take len (take n xs)
  unfolding copy
  copy-take d zero zero xs h = refl
  copy-take d zero (suc len) xs h = refl
  copy-take d (suc n) len [] h = absurd (omega arith)
  copy-take d (suc n) zero (x ∷ xs) h = ground arith
  copy-take d (suc n) (suc len) (x ∷ xs) h =
      rw (lt→ltb 0 (suc n) (omega arith), lt→ltb 0 (suc len) (omega arith))
        (ap (◌∷◌ x) (copy_cons d x n 0 n len xs ∙ copy-take d n len xs (omega arith)))

  -- On a well-formed queue, `sensors_fifo_get_all` with room for `len` events gives the oldest
  -- `len` of the queue, or all if there are fewer, in order, and empties the queue: the events past
  -- `len` are lost.
  pub get_all_refines :
      (d : E) (len : ℕ) {f : Fifo E}
      → IsValid f
      → let (xs, f') = get_all d len f in
        (xs ≡ take len (contents f)) × (contents f' ≡ []) × IsValid f'
  unfolding get_all
  get_all_refines d len {f} v = (
    copy-take d f.fifo_i len f.fifo (omega (arith, v.full_size, v.bounded)),
    refl,
    record { full_size = v.full_size; bounded = omega arith },
  )
