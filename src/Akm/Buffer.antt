-- ===== src/Akm/Buffer.antt =====
-- `AKFS_VbNorm` of libs/libakm/oss/akfs_vnorm.c: a buffer of the newest vectors.
use akm_dash.Common.{
  ℕ, zero, suc, ◌+◌, ◌-◌, ◌≤◌, ◌<◌, ◌≡◌, refl, sym, ap, ◌∙◌, pos, true, false, ◌⊎◌, List, [], ◌∷◌,
  ◌++◌, map, length, get_or, set, take, length-set, length-append, length-take, length-map,
  get_or-set_self, get_or-set_ne, ltb, le→ltb, ltb→lt, ltb→le, ==_ne, Bool-cases, inl, inr, arith,
}
use native.Mathlib.Decide.{ℕ_discrete}
use akm_dash.Akm.{
  Vec, Arith, success, error, init_vec, normalized, norm_from, is_sensitive, norm_shifted, vb_norm,
}
use akm_dash.Akm.Shift.{
  list_ext, get_or-append_left, get_or-append_right, get_or-take, buf_shift-moved,
}

module _ {N : Type 0} (a : Arith N) (o s : Vec N) (tgt : N) (vdata : List (Vec N)) where
  abbrev norm_at : ℕ → Vec N
  norm_at i = normalized a o s tgt (get_or vdata i (init_vec a))

  length-norm_from :
      (k i : ℕ) (v : List (Vec N)) → length (norm_from a k i vdata o s tgt v) ≡ length v
  unfolding norm_from
  length-norm_from zero i v = refl
  length-norm_from (suc k) i v = length-norm_from k (suc i) _ ∙ length-set v i (norm_at i)

  -- The loop writes the places from `i` to `i + k` and no others.
  norm_from_other :
      (k i j : ℕ) (v : List (Vec N))
      → (j < i) ⊎ (i + k ≤ j)
      → get_or (norm_from a k i vdata o s tgt v) j (init_vec a) ≡ get_or v j (init_vec a)
  unfolding norm_from
  norm_from_other zero i j v h = refl
  norm_from_other (suc k) i j v (inl h) =
      norm_from_other k (suc i) j _ (inl (omega arith))
      ∙ get_or-set_ne v _ (init_vec a) (λ (e : i ≡ j). absurd (omega arith))
  norm_from_other (suc k) i j v (inr h) =
      norm_from_other k (suc i) j _ (inr (omega arith))
      ∙ get_or-set_ne v _ (init_vec a) (λ (e : i ≡ j). absurd (omega arith))

  norm_from_written :
      (k i j : ℕ) (v : List (Vec N))
      → i + k ≤ length v
      → i ≤ j
      → j < i + k
      → get_or (norm_from a k i vdata o s tgt v) j (init_vec a) ≡ norm_at j
  unfolding norm_from
  norm_from_written zero i j v l h g = absurd (omega arith)
  norm_from_written (suc k) i j v l h g = elim (ℕ_discrete i j) [
    | yes e ↦
        norm_from_other k (suc i) j _ (inl (omega arith))
        ∙ ap (λ n. get_or (set v i (norm_at i)) n (init_vec a)) (sym e)
        ∙ get_or-set_self v i (norm_at i) (init_vec a) (omega arith)
        ∙ ap norm_at e
    | no ne ↦
        norm_from_written k (suc i) j _ (omega (arith, length-set v i (norm_at i))) (omega arith)
          (omega arith)
  ]

  get_or-map :
      (xs : List (Vec N)) (i : ℕ)
      → i < length xs
      → get_or (map (normalized a o s tgt) xs) i (init_vec a)
        ≡ normalized a o s tgt (get_or xs i (init_vec a))
  get_or-map [] i h = absurd (omega arith)
  get_or-map (x ∷ xs) zero h = refl
  get_or-map (x ∷ xs) (suc i) h = get_or-map xs i (omega arith)

  abbrev news : ℕ → List (Vec N)
  news n = map (normalized a o s tgt) (take n vdata)

  -- The loop on the buffer whose first `n` places are to be overwritten.
  norm_from-map :
      (n : ℕ) (front old : List (Vec N))
      → length front ≡ n
      → n ≤ length vdata
      → norm_from a n 0 vdata o s tgt (front ++ old)
        ≡ map (normalized a o s tgt) (take n vdata) ++ old
  norm_from-map n front old l h = list_ext _ _ (init_vec a) same_length place
    where
      length-news : length (news n) ≡ n
      length-news =
          omega (arith, length-map (take n vdata) (normalized a o s tgt), length-take n vdata)

      same_length : length (norm_from a n 0 vdata o s tgt (front ++ old)) ≡ length ((news n) ++ old)
      same_length = omega (
        arith,
        length-norm_from n 0 (front ++ old),
        length-append front old,
        length-append (news n) old,
        length-news,
      )

      place :
          (i : ℕ)
          → i < length (norm_from a n 0 vdata o s tgt (front ++ old))
          → get_or (norm_from a n 0 vdata o s tgt (front ++ old)) i (init_vec a)
            ≡ get_or ((news n) ++ old) i (init_vec a)
      place i k = elim (Bool-cases (ltb i n)) [
        | inl new ↦
            let f : i < n = ltb→lt i n new in
            norm_from_written n 0 i (front ++ old) (omega (arith, length-append front old))
              (omega arith) (omega arith)
            ∙ sym (
                get_or-append_left (news n) old i (init_vec a) (omega (arith, length-news))
                ∙ get_or-map (take n vdata) i (omega (arith, length-take n vdata))
                ∙ ap (normalized a o s tgt) (get_or-take n vdata i (init_vec a) f))
        | inr later ↦
            let g : n ≤ i = ltb→le i n later in
            let x : i ≡ length front + (i - n) = omega arith in
            let y : i ≡ length (news n) + (i - n) = omega (arith, length-news) in
            norm_from_other n 0 i (front ++ old) (inr (omega arith))
            ∙ ap (λ m. get_or (front ++ old) m (init_vec a)) x
            ∙ get_or-append_right front old (i - n) (init_vec a)
            ∙ sym (
                ap (λ m. get_or ((news n) ++ old) m (init_vec a)) y
                ∙ get_or-append_right (news n) old (i - n) (init_vec a))
      ]

  -- `AKFS_VbNorm` with positive sizes, not more new vectors than the two arrays hold, and a
  -- sensitivity that passes the check, succeeds and keeps the newest vectors: the new ones, shifted by
  -- the offset and scaled, before the old ones, as many as the buffer holds. With a sensitivity that
  -- does not pass it fails and leaves the buffer.
  pub vb_norm-newest :
      (nbuf : ℕ) (vvec : List (Vec N))
      → 0 < nbuf
      → nbuf ≤ length vdata
      → nbuf ≤ length vvec
      → let out =
          vb_norm a (pos (length vdata)) vdata (pos nbuf) o s tgt (pos (length vvec)) vvec in
        (is_sensitive a s tgt ≡ true
          → out ≡ (
            success,
            map (normalized a o s tgt) (take nbuf vdata) ++ take (length vvec - nbuf) vvec,
          ))
        × (is_sensitive a s tgt ≡ false → out ≡ (error, vvec))
  unfolding vb_norm norm_shifted
  vb_norm-newest nbuf vvec p h l =
      rw
        (
          ==_ne (length vdata) 0 (λ e. absurd (omega arith)),
          ==_ne (length vvec) 0 (λ e. absurd (omega arith)),
          ==_ne nbuf 0 (λ e. absurd (omega arith)),
          le→ltb nbuf 1 p,
          le→ltb (length vdata) nbuf h,
          le→ltb (length vvec) nbuf l,
        )
        (
          (λ fine.
              rw
                (
                  fine,
                  buf_shift-moved a (length vvec) nbuf vvec refl p l,
                  norm_from-map nbuf (take nbuf vvec) (take (length vvec - nbuf) vvec)
                      (omega (arith, length-take nbuf vvec)) h,
                )
                refl),
          (λ bad. rw bad refl),
        )
