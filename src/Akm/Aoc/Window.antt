-- ===== src/Akm/Aoc/Window.antt =====
-- The buffer of the newest samples in `AKFS_AOC` of libs/libakm/oss/akfs_aoc.c.
use akm_dash.Common.{
  ℕ, suc, ◌+◌, ◌-◌, ◌≤◌, ◌<◌, ◌≡◌, refl, sym, ap, ◌∙◌, Bool, true, false, ◌||◌, ◌⊎◌, Option, none,
  some, List, [], ◌∷◌, ◌++◌, length, get_or, take, replicate, length-append, length-take,
  append_assoc, ltb, Bool-cases, ltb→lt, ltb→le, inl, inr, arith, if◌then◌else◌,
}
use mathlib.Core.Path.{subst}
use akm_dash.Akm.{Vec, Arith, success, error, init_vec, init_from}
use akm_dash.Akm.Average.{init_from-replicate}
use akm_dash.Akm.Held.{
  Held, length-Held, init_from-Held, Held-more, Held-full, take-taken, take-padded, take_rest,
  replicate_plus,
}
use akm_dash.Akm.Aoc.{
  AocVar, check_init, push_front, last_set, are_close, mean_var_of, update_offset, estimated,
  sphere, points_of, aoc, init_aoc,
}
use akm_dash.Akm.Aoc.Search.{AllKnown, last_set-Held}

module _ {N : Type 0} (a : Arith N) where
  -- The buffer holds the newest `n` vectors of the stream, all of them or no fewer than ten.
  abbrev pub HeldAs : List (Vec N) → List (Vec N) → ℕ → Type 0
  HeldAs buf stream n = (Held a 20 buf stream n) × ((n ≡ length stream) ⊎ (10 ≤ n))

  -- The lower half of the buffer survives a sphere that is accepted.
  clear-Held :
      (buf stream : List (Vec N)) (n : ℕ)
      → HeldAs buf stream n
      → (m : ℕ) × (HeldAs (init_from a 10 10 buf) stream m)
  clear-Held buf stream n (h, all_or) = elim (Bool-cases (ltb 10 n)) [
    | inl more ↦
        let (l, s, e) = h in
        let m : 10 < n = ltb→lt 10 n more in
        (
          10,
          (
            (
              omega arith,
              omega arith,
              cleared
                  ∙ ap (λ w. w ++ replicate 10 (init_vec a))
                      (ap (take 10) e ∙ take-taken 10 n stream _ (omega arith) l),
            ),
            inr (omega arith),
          ),
        )
    | inr less ↦
        let (l, s, e) = h in
        let m : n ≤ 10 = ltb→le 10 n less in
        let all : 10 - n + 10 ≡ 20 - n = omega arith in
        (
          n,
          (
            (
              l,
              s,
              cleared
                  ∙ ap (λ w. w ++ replicate 10 (init_vec a))
                      (ap (take 10) e ∙ take-padded a 10 n (20 - n) stream m (omega arith) l)
                  ∙ append_assoc (take n stream) _ _
                  ∙ ap (◌++◌ (take n stream)) (
                      replicate_plus (10 - n) 10 (init_vec a)
                      ∙ ap (λ i. replicate i (init_vec a)) all),
            ),
            all_or,
          ),
        )
  ]
    where
      long : 20 ≡ length buf
      long = sym (length-Held a 20 buf stream n h)

      cleared : init_from a 10 10 buf ≡ take 10 buf ++ replicate 10 (init_vec a)
      cleared =
          let (t, e) = take_rest 10 buf (omega (arith, long)) in
          let before : length (take 10 buf) ≡ 10 = omega (arith, long, length-take 10 buf) in
          let after : length t ≡ 10 =
            omega (arith, long, ap length e, length-append (take 10 buf) t, before) in
          ap (init_from a 10 10) e
          ∙ ap (λ i. init_from a i 10 (take 10 buf ++ t)) (sym after)
          ∙ ap (λ i. init_from a (length t) i (take 10 buf ++ t)) (sym before)
          ∙ init_from-replicate a (take 10 buf) t
          ∙ ap (λ i. take 10 buf ++ replicate i (init_vec a)) after

  one_more : {n m : ℕ} → (n ≡ m) ⊎ (10 ≤ n) → (suc n ≡ suc m) ⊎ (10 ≤ suc n)
  one_more (inl e) = inl (omega arith)
  one_more (inr h) = inr (omega arith)

  push_front-Held :
      (x : Vec N) (buf stream : List (Vec N)) (n : ℕ)
      → HeldAs buf stream n
      → (m : ℕ) × (HeldAs (push_front a 19 x buf) (x ∷ stream) m)
  unfolding push_front
  push_front-Held x buf stream n (h, all_or) = elim (Bool-cases (ltb 19 n)) [
    | inl full ↦
        let (l, s, e) = h in
        let all : n ≡ 20 = omega (arith, ltb→lt 19 n full) in
        (20, (Held-full a 19 x buf stream (subst (Held a 20 buf stream) all h), inr (omega arith)))
    | inr room ↦ (suc n, (Held-more a 19 x buf stream n (ltb→le 19 n room) h, one_more all_or))
  ]

  -- The variables are the same in the three results.
  same_vars :
      (b c : Bool) (h : AocVar N) (i j k : ℕ) (p q r : Vec N)
      → let out : ℕ × AocVar N × Vec N =
          if b then (i, h, p) else if c then (j, h, q) else (k, h, r) in
        out.1 ≡ h
  same_vars true c h i j k p q r = refl
  same_vars false true h i j k p q r = refl
  same_vars false false h i j k p q r = refl

  -- The buffer holds some of the newest vectors of the stream.
  abbrev HeldBy : AocVar N → List (Vec N) → Type 0
  HeldBy h stream = (n : ℕ) × (HeldAs h.hbuf stream n)

  update_offset-vars :
      (c ho : Vec N) (h : AocVar N)
      → (update_offset a c h ho).1
        ≡ record h { hobuf = push_front a 3 c h.hobuf; hbuf = init_from a 10 10 h.hbuf }
  unfolding update_offset
  update_offset-vars c ho h =
      let hobuf = push_front a 3 c h.hobuf in
      let h' : AocVar N = record h { hobuf = hobuf; hbuf = init_from a 10 10 h.hbuf } in
      let (mean, var) = mean_var_of a hobuf in
      let tempf = a.times h.hraoc a.steady in
      same_vars (check_init a (get_or hobuf 3 (init_vec a)))
        (a.at_most tempf var.x || a.at_most tempf var.y || a.at_most tempf var.z) h' error error
        success ho ho mean

  update_offset-Held :
      (c ho : Vec N) (h : AocVar N) (stream : List (Vec N))
      → HeldBy h stream
      → HeldBy ((update_offset a c h ho).1) stream
  update_offset-Held c ho h stream (n, k) =
      subst (λ v. HeldBy v stream) (sym (update_offset-vars c ho h)) (clear-Held h.hbuf stream n k)

  estimated-Held :
      (points : List (Vec N)) (s : Option (Vec N × N)) (ho : Vec N) (h : AocVar N)
      → (stream : List (Vec N)) → HeldBy h stream
      → HeldBy ((estimated a points s h ho).1) stream
  unfolding estimated
  estimated-Held points none ho h stream k = k
  estimated-Held points (some (c, r)) ho h stream k = elim (Bool-cases (are_close a r points)) [
    | inl e ↦ rw e k
    | inr e ↦ rw e (update_offset-Held c ho (record h { hraoc = r }) stream k)
  ]

  aoc-Held :
      (fourpoints : List (Vec N)) (x ho : Vec N) (h : AocVar N) (stream : List (Vec N))
      → HeldBy h stream
      → HeldBy ((aoc a fourpoints x h ho).1) (x ∷ stream)
  unfolding aoc
  aoc-Held fourpoints x ho h stream (n, k) =
      let h' : AocVar N = record h { hbuf = push_front a 19 x h.hbuf } in
      let num = last_set a 17 (push_front a 19 x h.hbuf) in
      let points = points_of a (take num (push_front a 19 x h.hbuf)) fourpoints in
      let k' = push_front-Held x h.hbuf stream n k in
      elim (Bool-cases (ltb num 4)) [
        | inl e ↦ rw e k'
        | inr e ↦ rw e (estimated-Held points (sphere a points) ho h' (x ∷ stream) k')
      ]

  -- The variables after these samples, the newest first, each with what stands in `fourpoints`.
  abbrev pub after : List (List (Vec N) × Vec N) → AocVar N × Vec N → AocVar N × Vec N
  after [] s = s
  after ((p, x) ∷ xs) s =
      let (h, ho) = after xs s in let (rc, h', ho') = aoc a p x h ho in (h', ho')

  abbrev pub samples : List (List (Vec N) × Vec N) → List (Vec N)
  samples [] = []
  samples ((p, x) ∷ xs) = x ∷ samples xs

  after-Held :
      (xs : List (List (Vec N) × Vec N)) (h : AocVar N) (ho : Vec N)
      → length h.hbuf ≡ 20
      → HeldBy ((after xs (init_aoc a h, ho)).0) (samples xs)
  unfolding init_aoc
  after-Held [] h ho l = (
    0,
    (subst (λ i. Held a i (init_from a i 0 h.hbuf) [] 0) l (init_from-Held a h.hbuf), inl refl),
  )
  after-Held ((p, x) ∷ xs) h ho l =
      let s = after xs (init_aoc a h, ho) in
      aoc-Held p x s.1 s.0 (samples xs) (after-Held xs h ho l)

  -- After `AKFS_InitAOC` and any samples below AKFS_FMAX, of which each went through `AKFS_AOC`, the
  -- buffer holds just the newest `n` of them (all, or at least ten), the newest first, and then values that are not set,
  -- whatever was estimated on the way; and the search for the number of the samples finds `n`, or 0
  -- where there are fewer than four. AKFS_FMAX is to be at most itself.
  pub after-last_set :
      (xs : List (List (Vec N) × Vec N)) (h : AocVar N) (ho : Vec N)
      → length h.hbuf ≡ 20
      → AllKnown a (samples xs)
      → check_init a (init_vec a) ≡ true
      → let (h', ho') = after xs (init_aoc a h, ho) in
        (n : ℕ) × (HeldAs h'.hbuf (samples xs) n
          × (last_set a 17 h'.hbuf ≡ (if ltb n 4 then 0 else n)))
  after-last_set xs h ho l known init =
      let s = after xs (init_aoc a h, ho) in
      let (n, k) = after-Held xs h ho l in
      (n, (k, last_set-Held a s.0.hbuf (samples xs) n k.0 known init))
