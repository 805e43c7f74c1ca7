-- ===== src/Wrapper/Release.antt =====
-- What `sensors_wrapper_activate` for `!enable` does to the rates of the client.
use native.Mathlib.Decide.{ℕ_discrete}
use mathlib.Core.Path.{subst}
use akm_dash.Common.{
  ℕ, zero, suc, ◌<◌, ◌≡◌, refl, ap, ◌∙◌, ℤ, pos, ◌==ℤ◌, ◌==◌, false, not, ◌&&◌, List, [], ◌∷◌,
  arith, length, get_or, set, if_both,
}
use akm_dash.Wrapper.{call, release, activate_one, activate_all}
use akm_dash.Wrapper.Data.{
  active, Entry, Slot, Call, Wrapper, Link, slot_at, entry_at, list_put_status, list_set_rate,
  list_get_rate, list_get_status, no_rate,
}
use akm_dash.Wrapper.Frame.{
  Frame, entry_at-list_put_status, entry_at-list_set_rate, Frame-list_put_status,
}
use akm_dash.Wrapper.Switch.{
  Powered, AllClients, Frame-Powered, Frame-AllClients, activate_one-IsPowered,
}

-- The place of this client in the rates of sensor `s` asks for nothing.
abbrev pub GivenUp : ℕ → ℕ → Wrapper → Type 0
GivenUp s c w = get_or (entry_at s w).rate c no_rate ≡ no_rate

-- The client asks for nothing at any of its sensors.
abbrev pub AllGivenUp : List Link → Wrapper → Type 0
AllGivenUp [] w = Unit
AllGivenUp ((s, c) ∷ r) w = GivenUp s c w × AllGivenUp r w

get_or-set_default : (xs : List ℤ) (i : ℕ) (d : ℤ) → get_or (set xs i d) i d ≡ d
get_or-set_default [] i d = refl
get_or-set_default (x ∷ xs) zero d = refl
get_or-set_default (x ∷ xs) (suc i) d = get_or-set_default xs i d

set_default_keeps :
    (xs : List ℤ) (i j : ℕ) (d : ℤ) → get_or xs j d ≡ d → get_or (set xs i d) j d ≡ d
set_default_keeps [] i j d h = refl
set_default_keeps (x ∷ xs) zero zero d h = refl
set_default_keeps (x ∷ xs) zero (suc j) d h = h
set_default_keeps (x ∷ xs) (suc i) zero d h = h
set_default_keeps (x ∷ xs) (suc i) (suc j) d h = set_default_keeps xs i j d h

module _ (reply : List Call → ℤ) where
  release-rate :
      (s c : ℕ) (rv : ℤ) (w : Wrapper)
      → s < length w.list
      → (entry_at s (release reply s c rv w).1).rate ≡ set (entry_at s w).rate c no_rate
  unfolding release call
  release-rate s c rv w h =
      let w₁ = list_put_status s c active false w in
      let w₂ = list_set_rate s c no_rate w₁ in
      let f = Frame-list_put_status s c w h active false in
      let h₁ : s < length w₁.list = omega (arith, f.size) in
      let e : (entry_at s w₂).rate ≡ set (entry_at s w).rate c no_rate =
        ap (λ (x : Entry). x.rate) (entry_at-list_set_rate s c w₁ h₁ no_rate)
        ∙ ap (λ (x : Entry). set x.rate c no_rate)
            (entry_at-list_put_status s c w h active false) in
      if_both (λ (x : ℤ × Wrapper). (entry_at s x.1).rate ≡ set (entry_at s w).rate c no_rate)
        (not (list_get_rate s w₂ ==ℤ no_rate) && not (list_get_rate s w₁ ==ℤ list_get_rate s w₂))
        (call reply (Call.set_delay (slot_at s w₂).api (list_get_rate s w₂)) w₂) (rv, w₂)
        (λ told. e) (λ quiet. e)

  activate_one-rate :
      (s c : ℕ) (rv : ℤ) (w : Wrapper)
      → s < length w.list
      → (entry_at s (activate_one reply (pos 0) s c rv w).1).rate
        ≡ set (entry_at s w).rate c no_rate
  unfolding activate_one call
  activate_one-rate s c rv w h =
      let w₁ = (release reply s c rv w).1 in
      if_both (λ (x : ℤ × Wrapper). (entry_at s x.1).rate ≡ set (entry_at s w).rate c no_rate)
        (list_get_status s active w₁ == 0)
        (call reply (Call.activate (slot_at s w₁).api (pos 0)) w₁) (release reply s c rv w)
        (λ t. release-rate s c rv w h) (λ t. release-rate s c rv w h)

  -- What a client has given up, no other switch-off gives back.
  activate_one-GivenUp :
      (s c j k : ℕ) (rv : ℤ) (w : Wrapper)
      → s < length w.list
      → Frame s w (activate_one reply (pos 0) s c rv w).1
      → GivenUp j k w
      → GivenUp j k (activate_one reply (pos 0) s c rv w).1
  activate_one-GivenUp s c j k rv w h f g = elim (ℕ_discrete s j) [
    | yes e ↦
        subst (λ i. GivenUp i k w → GivenUp i k (activate_one reply (pos 0) s c rv w).1) e
          (λ own.
            ap (λ xs. get_or xs k no_rate) (activate_one-rate s c rv w h)
            ∙ set_default_keeps (entry_at s w).rate c k no_rate own)
          g
    | no ne ↦ ap (λ (x : Slot). get_or x.entry.rate k no_rate) (f.other j ne) ∙ g
  ]

  activate_all-GivenUp :
      (j k : ℕ) (ls : List Link) (rv : ℤ) (w : Wrapper)
      → Powered w
      → AllClients ls w
      → GivenUp j k w
      → GivenUp j k (activate_all reply (pos 0) ls rv w).1
  unfolding activate_all
  activate_all-GivenUp j k [] rv w v a g = g
  activate_all-GivenUp j k ((s, c) ∷ r) rv w v a g =
      let (rv', w') = activate_one reply (pos 0) s c rv w in
      let (f, p) = activate_one-IsPowered reply (pos 0) s c rv w (v.power s a.0.0) a.0 in
      activate_all-GivenUp j k r rv' w' (Frame-Powered s w w' a.0.0 f p v)
        (Frame-AllClients s r w w' f a.1) (activate_one-GivenUp s c j k rv w a.0.0 f g)

  pub activate_all-AllGivenUp :
      (ls : List Link) (rv : ℤ) (w : Wrapper)
      → Powered w
      → AllClients ls w
      → AllGivenUp ls (activate_all reply (pos 0) ls rv w).1
  unfolding activate_all
  activate_all-AllGivenUp [] rv w v a = tt
  activate_all-AllGivenUp ((s, c) ∷ r) rv w v a =
      let (rv', w') = activate_one reply (pos 0) s c rv w in
      let (f, p) = activate_one-IsPowered reply (pos 0) s c rv w (v.power s a.0.0) a.0 in
      let v' = Frame-Powered s w w' a.0.0 f p v in
      let a' = Frame-AllClients s r w w' f a.1 in
      (
        activate_all-GivenUp s c r rv' w' v' a' (
            ap (λ xs. get_or xs c no_rate) (activate_one-rate s c rv w a.0.0)
            ∙ get_or-set_default (entry_at s w).rate c no_rate),
        activate_all-AllGivenUp r rv' w' v' a',
      )
