-- ===== src/Wrapper/Quiet.antt =====
-- Steps of sensors_wrapper.c that neither switch a driver nor mark a client as active or idle.
use akm_dash.Common.{
  ℕ, zero, suc, ◌<◌, ◌≡◌, refl, sym, ◌∙◌, ℤ, pos, ◌==ℤ◌, Bool, true, List, [], ◌∷◌, length, get_or,
  set, take, ◌==◌, if_both, Option-cases, inl, inr, arith,
}
use native.Mathlib.Decide.{ℕ_discrete}
use mathlib.Core.Path.{subst}
use akm_dash.SensorList.{ApiPtr}
use akm_dash.Wrapper.{
  call, set_delay_one, set_delay_all, wrapper_set_delay, close_one, close_all, wrapper_close,
  deliver_all, wrapper_data, find_slot,
}
use akm_dash.Wrapper.Data.{
  Flag, active, closed, Status, unused, test, put, Entry, Slot, Call, Wrapper, Access, no_rate,
  slot_at, entry_at, set_entry, Link, links, count_flag, list_get_status, list_put_status,
  list_set_rate, list_get_rate,
}
use akm_dash.Wrapper.Slots.{
  slot_at-set_entry_self, slot_at-set_entry_ne, length-set_entry, with_status, with_rate,
  list_put_status_lem, list_set_rate_lem,
}
use akm_dash.Wrapper.Frame.{powered}
use akm_dash.Wrapper.Close.{AllInside}

-- The slots agree in their driver, their clients and the ACTIVE bits.
pub record SameUse (x y : Slot) : Type 0 where
  pub api : y.api ≡ x.api
  pub nr : y.entry.nr ≡ x.entry.nr
  pub bits :
      (c : ℕ)
      → test active (get_or y.entry.status c unused) ≡ test active (get_or x.entry.status c unused)
  pub count :
      count_flag active (take y.entry.nr y.entry.status)
      ≡ count_flag active (take x.entry.nr x.entry.status)

pub record Quiet (w w' : Wrapper) : Type 0 where
  pub size : length w'.list ≡ length w.list
  pub slots : (j : ℕ) → SameUse (slot_at j w) (slot_at j w')
  pub power : (p : ApiPtr) → powered p w'.log ≡ powered p w.log

pub same_use : (x : Slot) → SameUse x x
same_use x = record { api = refl; nr = refl; bits = λ c. refl; count = refl }

pub quiet : (w : Wrapper) → Quiet w w
quiet w = record { size = refl; slots = λ j. same_use (slot_at j w); power = λ p. refl }

pub Quiet-trans : {u v w : Wrapper} → Quiet u v → Quiet v w → Quiet u w
Quiet-trans f g = record {
  size = g.size ∙ f.size;
  slots = λ j.
      let a = f.slots j in
      let b = g.slots j in
      record {
        api = b.api ∙ a.api;
        nr = b.nr ∙ a.nr;
        bits = λ c. b.bits c ∙ a.bits c;
        count = b.count ∙ a.count;
      };
  power = λ p. g.power p ∙ f.power p;
}

-- A write that keeps the bit.
count_flag-set_same :
    (p : Flag) (n c : ℕ) (ss : List Status) (s : Status)
    → test p s ≡ test p (get_or ss c unused)
    → count_flag p (take n (set ss c s)) ≡ count_flag p (take n ss)
unfolding count_flag
count_flag-set_same p zero c ss s t = refl
count_flag-set_same p (suc n) c [] s t = refl
count_flag-set_same p (suc n) zero (x ∷ ss) s t = rw t refl
count_flag-set_same p (suc n) (suc c) (x ∷ ss) s t = rw (count_flag-set_same p n c ss s t) refl

bits-set_same :
    (p : Flag) (c : ℕ) (ss : List Status) (s : Status)
    → test p s ≡ test p (get_or ss c unused)
    → (k : ℕ) → test p (get_or (set ss c s) k unused) ≡ test p (get_or ss k unused)
bits-set_same p c [] s t k = refl
bits-set_same p zero (x ∷ ss) s t zero = t
bits-set_same p zero (x ∷ ss) s t (suc k) = refl
bits-set_same p (suc c) (x ∷ ss) s t zero = refl
bits-set_same p (suc c) (x ∷ ss) s t (suc k) = bits-set_same p c ss s t k

set_entry-Quiet :
    (s : ℕ) (e : Entry) (w : Wrapper)
    → s < length w.list
    → SameUse (slot_at s w) (record (slot_at s w) { entry = e })
    → Quiet w (set_entry s e w)
unfolding set_entry
set_entry-Quiet s e w h u = record {
  size = length-set_entry s e w;
  slots = λ j. elim (ℕ_discrete s j) [
    | yes same ↦
        subst (λ k. SameUse (slot_at k w) (slot_at k (set_entry s e w))) same
          (subst (SameUse (slot_at s w)) (sym (slot_at-set_entry_self s e w h)) u)
    | no ne ↦
        subst (SameUse (slot_at j w)) (sym (slot_at-set_entry_ne s j e w ne))
          (same_use (slot_at j w))
  ];
  power = λ p. refl;
}

module _ (s c : ℕ) (w : Wrapper) (h : s < length w.list) where
  list_set_rate-Quiet : (r : ℤ) → Quiet w (list_set_rate s c r w)
  list_set_rate-Quiet r = rw (list_set_rate_lem s c w r) (
      set_entry-Quiet s (with_rate s c w r) w h
        (record { api = refl; nr = refl; bits = λ k. refl; count = refl }))

  close-Quiet : Quiet w (list_put_status s c closed true w)
  close-Quiet =
      let ss = (entry_at s w).status in
      let x = put closed true (get_or ss c unused) in
      rw (list_put_status_lem s c w closed true) (
        set_entry-Quiet s (with_status s c w closed true) w h (record {
          api = refl;
          nr = refl;
          bits = bits-set_same active c ss x refl;
          count = count_flag-set_same active (entry_at s w).nr c ss x refl;
        }))

module _ (reply : List Call → ℤ) where
  call_set_delay-Quiet :
      (q : ApiPtr) (ns : ℤ) (w : Wrapper) → Quiet w (call reply (Call.set_delay q ns) w).1
  unfolding call powered
  call_set_delay-Quiet q ns w = record {
    size = refl;
    slots = λ j. same_use (slot_at j w);
    power = λ p. refl;
  }

  call_close-Quiet : (q : ApiPtr) (w : Wrapper) → Quiet w (call reply (Call.close q) w).1
  unfolding call powered
  call_close-Quiet q w = record {
    size = refl;
    slots = λ j. same_use (slot_at j w);
    power = λ p. refl;
  }

  set_delay_one-Quiet :
      (ns : ℤ) (s c : ℕ) (rv : ℤ) (w : Wrapper)
      → s < length w.list
      → Quiet w (set_delay_one reply ns s c rv w).1
  unfolding set_delay_one
  set_delay_one-Quiet ns s c rv w h =
      let w₁ = list_set_rate s c ns w in
      if_both (λ (r : ℤ × Wrapper). Quiet w r.1) (list_get_rate s w ==ℤ list_get_rate s w₁) (rv, w₁)
        (call reply (Call.set_delay (slot_at s w₁).api (list_get_rate s w₁)) w₁)
        (λ e. list_set_rate-Quiet s c w h ns)
        (λ e. Quiet-trans (list_set_rate-Quiet s c w h ns) (call_set_delay-Quiet _ _ w₁))

  inside_after : (ls : List Link) (w w' : Wrapper) → Quiet w w' → AllInside ls w → AllInside ls w'
  inside_after [] w w' q h = tt
  inside_after ((s, c) ∷ ls) w w' q (h, k) = (omega (arith, q.size), inside_after ls w w' q k)

  set_delay_all-Quiet :
      (ns : ℤ) (ls : List Link) (rv : ℤ) (w : Wrapper)
      → AllInside ls w
      → Quiet w (set_delay_all reply ns ls rv w).1
  unfolding set_delay_all
  set_delay_all-Quiet ns [] rv w h = quiet w
  set_delay_all-Quiet ns ((s, c) ∷ ls) rv w (h, k) =
      let (rv', w') = set_delay_one reply ns s c rv w in
      let q = set_delay_one-Quiet ns s c rv w h in
      Quiet-trans q (set_delay_all-Quiet ns ls rv' w' (inside_after ls w w' q k))

  pub wrapper_set_delay-Quiet :
      (d : Access) (ns : ℤ) (w : Wrapper)
      → AllInside (links d) w
      → Quiet w (wrapper_set_delay reply d ns w).1
  unfolding wrapper_set_delay
  wrapper_set_delay-Quiet d ns w h = set_delay_all-Quiet ns (links d) (pos 0) w h

  close_one-Quiet : (s c : ℕ) (w : Wrapper) → s < length w.list → Quiet w (close_one reply s c w)
  unfolding close_one
  close_one-Quiet s c w h =
      let w₀ = list_put_status s c closed true w in
      let w₁ = list_set_rate s c no_rate w₀ in
      let q₀ = close-Quiet s c w h in
      let q₁ = Quiet-trans q₀ (list_set_rate-Quiet s c w₀ (omega (arith, q₀.size)) no_rate) in
      if_both (Quiet w) (list_get_status s closed w₁ == (entry_at s w₁).nr)
        (call reply (Call.close (slot_at s w₁).api) w₁).1 w₁
        (λ e. Quiet-trans q₁ (call_close-Quiet (slot_at s w₁).api w₁)) (λ e. q₁)

  close_all-Quiet : (ls : List Link) (w : Wrapper) → AllInside ls w → Quiet w (close_all reply ls w)
  unfolding close_all
  close_all-Quiet [] w h = quiet w
  close_all-Quiet ((s, c) ∷ ls) w (h, k) =
      let q = close_one-Quiet s c w h in
      Quiet-trans q (close_all-Quiet ls (close_one reply s c w) (inside_after ls w _ q k))

  pub wrapper_close-Quiet :
      (d : Access) (w : Wrapper) → AllInside (links d) w → Quiet w (wrapper_close reply d w)
  unfolding wrapper_close
  wrapper_close-Quiet d w h = close_all-Quiet (links d) w h

deliver_all-power :
    (has_data : ApiPtr → Bool) (ps : List ApiPtr) (ss : List Status) (log : List Call) (q : ApiPtr)
    → powered q (deliver_all has_data ps ss log) ≡ powered q log
unfolding deliver_all powered
deliver_all-power has_data [] ss log q = refl
deliver_all-power has_data (p ∷ ps) [] log q = refl
deliver_all-power has_data (p ∷ ps) (s ∷ ss) log q =
    deliver_all-power has_data ps ss _ q
    ∙ if_both (λ (l : List Call). powered q l ≡ powered q log) _ (Call.deliver p ∷ log) log
        (λ e. refl) (λ e. refl)

pub wrapper_data-Quiet :
    (has_data : ApiPtr → Bool) (ptr : ℕ) (w : Wrapper) → Quiet w (wrapper_data has_data ptr w)
unfolding wrapper_data
wrapper_data-Quiet has_data ptr w = elim (Option-cases (find_slot ptr w.list)) [
  | inl missing ↦ rw (wrapper_data, missing) (quiet w)
  | inr (x, found) ↦
      rw (wrapper_data, found)
        (record {
          size = refl;
          slots = λ j. same_use (slot_at j w);
          power = λ q. deliver_all-power has_data _ _ w.log q;
        })
]
