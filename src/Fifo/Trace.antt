-- ===== src/Fifo/Trace.antt =====
-- What a reader is given by sensors_fifo.c over a whole run of puts and reads.
use akm_dash.Common.{
  ℕ, zero, suc, ◌≡◌, ◌≢◌, refl, ◌∙◌, List, [], ◌∷◌, ◌++◌, append-nil, append_assoc, arith, take,
}
use native.Mathlib.Decide.{ℕ_discrete}
use mathlib.Core.Path.{subst}
use akm_dash.Fifo.{
  put, Reader, idle, waiting, woken, Event, put_one, enter, spurious, leave, State, finish, apply,
  run,
}
use akm_dash.Fifo.Queue.{IsValid, contents, put_refines, get_all_refines}

-- The first list without some of the events of the second, in the same order.
pub data Subsequence {ℓ} {E : Type ℓ} : List E → List E → Type ℓ where
  done : Subsequence [] []
  drop : {e : E} {xs ys : List E} → Subsequence xs ys → Subsequence xs (e ∷ ys)
  keep : {e : E} {xs ys : List E} → Subsequence xs ys → Subsequence (e ∷ xs) (e ∷ ys)

module _ {ℓ} {E : Type ℓ} where
  Subsequence-refl : (xs : List E) → Subsequence xs xs
  Subsequence-refl [] = done
  Subsequence-refl (x ∷ xs) = keep (Subsequence-refl xs)

  Subsequence-nil : (ys : List E) → Subsequence [] ys
  Subsequence-nil [] = done
  Subsequence-nil (y ∷ ys) = drop (Subsequence-nil ys)

  Subsequence-append :
      {xs ys : List E} (us vs : List E)
      → Subsequence xs ys
      → Subsequence us vs
      → Subsequence (xs ++ us) (ys ++ vs)
  Subsequence-append us vs done t = t
  Subsequence-append us vs (drop s) t = drop (Subsequence-append us vs s t)
  Subsequence-append us vs (keep s) t = keep (Subsequence-append us vs s t)

  Subsequence-trans :
      {ys zs : List E} → Subsequence ys zs → {xs : List E} → Subsequence xs ys → Subsequence xs zs
  Subsequence-trans done s = s
  Subsequence-trans (drop t) s = drop (Subsequence-trans t s)
  Subsequence-trans (keep t) (drop s) = drop (Subsequence-trans t s)
  Subsequence-trans (keep t) (keep s) = keep (Subsequence-trans t s)

  Subsequence-take : (n : ℕ) (xs : List E) → Subsequence (take n xs) xs
  Subsequence-take zero xs = Subsequence-nil xs
  Subsequence-take (suc n) [] = done
  Subsequence-take (suc n) (x ∷ xs) = keep (Subsequence-take n xs)

  -- The events that were put.
  abbrev pub puts : List (Event E) → List E
  puts [] = []
  puts (put_one e ∷ es) = e ∷ puts es
  puts (enter ∷ es) = puts es
  puts (spurious ∷ es) = puts es
  puts (leave n ∷ es) = puts es

  -- What the reader was given, and then what still stands in the queue.
  abbrev pub kept : State E → List E
  kept s = s.given ++ contents s.queue

module _ {ℓ} {E : Type ℓ} (d : E) where
  finish_step :
      (r : Reader) (n : ℕ) (s : State E)
      → IsValid s.queue
      → IsValid (finish d r n s).queue × Subsequence (kept (finish d r n s)) (kept s)
  unfolding finish
  finish_step idle n s v = (v, Subsequence-refl (kept s))
  finish_step waiting n s v = (v, Subsequence-refl (kept s))
  finish_step woken n s v =
      let (e, z, v') = get_all_refines d n v in
      (
        v',
        rw (e, append-nil)
            (Subsequence-append (take n (contents s.queue)) (contents s.queue)
              (Subsequence-refl s.given) (Subsequence-take n (contents s.queue))),
      )

  put_step :
      (e : E) (s : State E)
      → IsValid s.queue
      → IsValid (put e s.queue)
        × Subsequence (s.given ++ contents (put e s.queue)) (kept s ++ e ∷ [])
  put_step e s v =
      let (v', room, full) = put_refines e v in
      (
        v',
        elim (ℕ_discrete s.queue.fifo_i 8) [
          | yes at_end ↦ rw (full at_end) (
              rw append-nil at (
                Subsequence-append [] (e ∷ []) (Subsequence-refl (kept s))
                  (Subsequence-nil (e ∷ []))))
          | no before ↦
              rw (room (omega (arith, v.bounded)), ← append_assoc)
                (Subsequence-refl (kept s ++ e ∷ []))
        ],
      )

  apply_step :
      (e : Event E) (s : State E)
      → IsValid s.queue
      → IsValid (apply d e s).queue × Subsequence (kept (apply d e s)) (kept s ++ puts (e ∷ []))
  unfolding apply
  apply_step (put_one e) s v = put_step e s v
  apply_step enter s v = (v, rw append-nil (Subsequence-refl (kept s)))
  apply_step spurious s v = (v, rw append-nil (Subsequence-refl (kept s)))
  apply_step (leave n) s v = let (v', q) = finish_step s.reader n s v in (v', rw append-nil q)

  puts_cons : (e : Event E) (es : List (Event E)) → puts (e ∷ []) ++ puts es ≡ puts (e ∷ es)
  puts_cons (put_one e) es = refl
  puts_cons enter es = refl
  puts_cons spurious es = refl
  puts_cons (leave n) es = refl

  run_step :
      (es : List (Event E)) (s : State E)
      → IsValid s.queue
      → IsValid (run d es s).queue × Subsequence (kept (run d es s)) (kept s ++ puts es)
  unfolding run
  run_step [] s v = (v, rw append-nil (Subsequence-refl (kept s)))
  run_step (e ∷ es) s v =
      let (v', first) = apply_step e s v in
      let (v'', rest) = run_step es (apply d e s) v' in
      (
        v'',
        rw (← puts_cons e es, ← append_assoc)
            (Subsequence-trans
              (Subsequence-append (puts es) (puts es) first (Subsequence-refl (puts es))) rest),
      )

  -- Over any run of puts, reads and spurious wake-ups from an empty queue, what the reader is given, and after it what
  -- the queue holds, are events that were put, each at most once for each put and in the order of
  -- the puts.
  pub run_in_order :
      (es : List (Event E)) (s : State E)
      → IsValid s.queue
      → s.queue.fifo_i ≡ 0
      → s.given ≡ []
      → Subsequence ((run d es s).given ++ contents (run d es s).queue) (puts es)
  run_in_order es s v z g =
      let empty : kept s ≡ [] = rw (g, z) in
      subst (λ (l : List E). Subsequence (kept (run d es s)) (l ++ puts es)) empty
        (run_step es s v).1

  -- No event of these is a put or a spurious wake-up.
  abbrev pub NoWake : List (Event E) → Type 0
  NoWake [] = Unit
  NoWake (put_one e ∷ es) = ⊥
  NoWake (enter ∷ es) = NoWake es
  NoWake (spurious ∷ es) = ⊥
  NoWake (leave n ∷ es) = NoWake es

  NoWake-head : (e : Event E) (es : List (Event E)) → NoWake (e ∷ es) → NoWake (e ∷ [])
  NoWake-head (put_one e) es n = n
  NoWake-head enter es n = tt
  NoWake-head spurious es n = n
  NoWake-head (leave k) es n = tt

  NoWake-tail : (e : Event E) (es : List (Event E)) → NoWake (e ∷ es) → NoWake es
  NoWake-tail (put_one e) es n = absurd n
  NoWake-tail enter es n = n
  NoWake-tail spurious es n = absurd n
  NoWake-tail (leave k) es n = n

  asleep_step :
      (e : Event E) (s : State E)
      → NoWake (e ∷ [])
      → s.reader ≢ woken
      → ((apply d e s).reader ≢ woken)
        × ((apply d e s).given ≡ s.given)
        × ((apply d e s).queue ≡ s.queue)
  unfolding apply
  asleep_step (put_one e) s n h = absurd n
  asleep_step enter s n h = ground arith
  asleep_step spurious s n h = absurd n
  asleep_step (leave k) s n h = ground arith

  -- A reader that has not been woken waits for the next wake-up, also where the queue holds events
  -- already: as long as nothing is put and `pthread_cond_wait` does not return spuriously, it is
  -- given nothing, and the events stay.
  pub enter_waits :
      (es : List (Event E)) (s : State E)
      → NoWake es
      → s.reader ≢ woken
      → ((run d es s).given ≡ s.given) × ((run d es s).queue ≡ s.queue)
  unfolding run
  enter_waits [] s n h = (refl, refl)
  enter_waits (e ∷ es) s n h =
      let (h', g, q) = asleep_step e s (NoWake-head e es n) h in
      let (g', q') = enter_waits es (apply d e s) (NoWake-tail e es n) h' in (g' ∙ g, q' ∙ q)
