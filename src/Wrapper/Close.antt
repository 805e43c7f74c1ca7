-- ===== src/Wrapper/Close.antt =====
-- `sensors_wrapper_close`: the driver is closed when its last client is.
use mathlib.Core.Path.{ap₂}
use akm_dash.Common.{
  if_both, ℕ, ◌<◌, ◌≡◌, refl, sym, ap, ◌∙◌, ℤ, Bool, true, false, List, [], ◌∷◌, arith, length,
  get_or, set, take, ◌==◌, ==_iff, if◌then◌else◌, Bool-cases, ◌↔◌, inl, inr, length-set,
  length-take,
}
use akm_dash.SensorList.{ApiPtr}
use akm_dash.Wrapper.{call, close_one, close_all, wrapper_close}
use akm_dash.Wrapper.Data.{
  Flag, closed, Status, unused, test, put, Entry, Call, Wrapper, Access, no_rate, slot_at, entry_at,
  Link, links, list_get_status, list_put_status, list_set_rate, count_flag,
}
use akm_dash.Wrapper.Count.{count_flag-le}
use akm_dash.Wrapper.Frame.{
  last_delay, entry_at-list_put_status, entry_at-list_set_rate, Frame-list_put_status,
  Frame-list_set_rate, log-list_put_status, log-list_set_rate,
}
use akm_dash.Wrapper.Power.{IsClient}

-- Every one of these clients has the bit.
abbrev pub AllFlag : Flag → List Status → Type 0
AllFlag p [] = Unit
AllFlag p (s ∷ ss) = (test p s ≡ true) × AllFlag p ss

count_flag_all : (p : Flag) (ss : List Status) → AllFlag p ss → count_flag p ss ≡ length ss
unfolding count_flag
count_flag_all p [] a = refl
count_flag_all p (s ∷ ss) a = ground (arith, count_flag_all p ss a.1)

all_of_count : (p : Flag) (ss : List Status) → count_flag p ss ≡ length ss → AllFlag p ss
unfolding count_flag
all_of_count p [] e = tt
all_of_count p (s ∷ ss) e = elim (Bool-cases (test p s)) [
  | inl t ↦ (t, all_of_count p ss (ground arith))
  | inr f ↦ absurd (ground (arith, count_flag-le p ss))
]

-- The entry after the client's CLOSE bit is set and its rate is given up.
abbrev pub closing : ℕ → Entry → Entry
closing c e = record e {
  status = set e.status c (put closed true (get_or e.status c unused));
  rate = set e.rate c no_rate;
}

closing_writes : ℕ → ℕ → Wrapper → Wrapper
closing_writes s c w = list_set_rate s c no_rate (list_put_status s c closed true w)

module _ (s c : ℕ) (w : Wrapper) (h : s < length w.list) where
  entry_at-closing_writes : entry_at s (closing_writes s c w) ≡ closing c (entry_at s w)
  unfolding closing_writes
  entry_at-closing_writes =
      let w₁ = list_put_status s c closed true w in
      let h₁ : s < length w₁.list =
        omega (arith, (Frame-list_put_status s c w h closed true).size) in
      entry_at-list_set_rate s c w₁ h₁ no_rate
      ∙ ap (λ (e : Entry). record e { rate = set e.rate c no_rate })
          (entry_at-list_put_status s c w h closed true)

  log-closing_writes : (closing_writes s c w).log ≡ w.log
  unfolding closing_writes
  log-closing_writes =
      log-list_set_rate s c no_rate (list_put_status s c closed true w)
      ∙ log-list_put_status s c closed true w

  api-closing_writes : (slot_at s (closing_writes s c w)).api ≡ (slot_at s w).api
  unfolding closing_writes
  api-closing_writes =
      let w₁ = list_put_status s c closed true w in
      let f = Frame-list_put_status s c w h closed true in
      let h₁ : s < length w₁.list = omega (arith, f.size) in
      (Frame-list_set_rate s c w₁ h₁ no_rate).own_api ∙ f.own_api

  length-closing_writes : length (closing_writes s c w).list ≡ length w.list
  unfolding closing_writes
  length-closing_writes =
      let w₁ = list_put_status s c closed true w in
      let f = Frame-list_put_status s c w h closed true in
      let h₁ : s < length w₁.list = omega (arith, f.size) in
      (Frame-list_set_rate s c w₁ h₁ no_rate).size ∙ f.size

-- Every link names a registered sensor.
abbrev pub AllInside : List Link → Wrapper → Type 0
AllInside [] w = Unit
AllInside ((s, c) ∷ r) w = (s < length w.list) × AllInside r w

AllInside-same :
    (ls : List Link) (w w' : Wrapper)
    → length w'.list ≡ length w.list
    → AllInside ls w
    → AllInside ls w'
AllInside-same [] w w' e h = tt
AllInside-same ((s, c) ∷ r) w w' e (h, k) = (omega arith, AllInside-same r w w' e k)

module _ (reply : List Call → ℤ) where
  close_one_lem :
      (s c : ℕ) (w : Wrapper)
      → close_one reply s c w ≡ (
          if list_get_status s closed (closing_writes s c w)
            == (entry_at s (closing_writes s c w)).nr
          then (call reply
              (Call.close (slot_at s (closing_writes s c w)).api)
              (closing_writes s c w)).1
          else closing_writes s c w)
  unfolding close_one closing_writes
  close_one_lem s c w = refl

  -- The test of the loop: every client of the sensor has asked for the close.
  count-closed :
      (s c : ℕ) (w : Wrapper)
      → IsClient s c w
      → let e = closing c (entry_at s w) in
        ((list_get_status s closed (closing_writes s c w) == (entry_at s (closing_writes s c w)).nr)
          ≡ true)
        ↔ AllFlag closed (take e.nr e.status)
  unfolding list_get_status
  count-closed s c w (h, k, room) =
      let e = closing c (entry_at s w) in
      let len : length (take e.nr e.status) ≡ e.nr = omega (
        arith,
        length-take e.nr e.status,
        length-set (entry_at s w).status c
            (put closed true (get_or (entry_at s w).status c unused)),
      ) in
      rw (entry_at-closing_writes s c w h) (
        (λ q. all_of_count closed (take e.nr e.status) ((==_iff _ _).0 q ∙ sym len)),
        (λ a. (==_iff _ _).1 (count_flag_all closed (take e.nr e.status) a ∙ len)),
      )

  -- On a sensor of a closing client, `sensors_wrapper_close` sets the client's CLOSE bit, gives up
  -- its rate, and closes the driver exactly if every client of the sensor has the CLOSE bit then;
  -- no other call is made.
  pub close_one_closes :
      (s c : ℕ) (w : Wrapper)
      → IsClient s c w
      → let w' = close_one reply s c w in
        let e = closing c (entry_at s w) in
        (entry_at s w' ≡ e)
        × (AllFlag closed (take e.nr e.status) → w'.log ≡ Call.close (slot_at s w).api ∷ w.log)
        × (¬ AllFlag closed (take e.nr e.status) → w'.log ≡ w.log)
  close_one_closes s c w v =
      let w₁ = closing_writes s c w in
      let t = list_get_status s closed w₁ == (entry_at s w₁).nr in
      elim (Bool-cases t) [
        | inl last ↦
            rw (close_one_lem s c w, last)
              (unfold call in
                (
                  entry_at-closing_writes s c w v.0,
                  (λ a.
                      ap₂ (λ p l. Call.close p ∷ l) (api-closing_writes s c w v.0)
                        (log-closing_writes s c w v.0)),
                  (λ n. absurd (n ((count-closed s c w v).0 last))),
                ))
        | inr more ↦
            rw (close_one_lem s c w, more)
              (
                entry_at-closing_writes s c w v.0,
                (λ a. absurd (not_both more ((count-closed s c w v).1 a))),
                (λ n. log-closing_writes s c w v.0),
              )
      ]
    where
      not_both : {b : Bool} → b ≡ false → b ≡ true → ⊥
      not_both p q = cc

  close_one-last_delay :
      (s c : ℕ) (p : ApiPtr) (w : Wrapper)
      → s < length w.list
      → (length (close_one reply s c w).list ≡ length w.list)
        × (last_delay p (close_one reply s c w).log ≡ last_delay p w.log)
  unfolding call last_delay
  close_one-last_delay s c p w h = rw (close_one_lem s c w) (
      if_both
        (λ (v : Wrapper).
          (length v.list ≡ length w.list) × (last_delay p v.log ≡ last_delay p w.log))
        (list_get_status s closed w₁ == (entry_at s w₁).nr)
        (call reply (Call.close (slot_at s w₁).api) w₁).1 w₁ (λ last. quiet) (λ more. quiet))
    where
      w₁ : Wrapper
      w₁ = closing_writes s c w

      quiet : (length w₁.list ≡ length w.list) × (last_delay p w₁.log ≡ last_delay p w.log)
      quiet = (length-closing_writes s c w h, ap (last_delay p) (log-closing_writes s c w h))

  close_all-last_delay :
      (ls : List Link) (p : ApiPtr) (w : Wrapper)
      → AllInside ls w
      → last_delay p (close_all reply ls w).log ≡ last_delay p w.log
  unfolding close_all
  close_all-last_delay [] p w h = refl
  close_all-last_delay ((s, c) ∷ r) p w (h, k) =
      let (size, same) = close_one-last_delay s c p w h in
      close_all-last_delay r p (close_one reply s c w)
        (AllInside-same r w (close_one reply s c w) size k)
      ∙ same

  -- `sensors_wrapper_close` of a client whose sensors are registered tells no driver a new rate:
  -- also where the closing client was the one that asked for the fastest rate, a driver that other
  -- clients still use keeps that rate.
  pub wrapper_close-last_delay :
      (d : Access) (p : ApiPtr) (w : Wrapper)
      → AllInside (links d) w
      → last_delay p (wrapper_close reply d w).log ≡ last_delay p w.log
  unfolding wrapper_close
  wrapper_close-last_delay d p w h = close_all-last_delay (links d) p w h
