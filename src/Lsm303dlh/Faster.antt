-- ===== src/Lsm303dlh/Faster.antt =====
-- The faster one of two rates, as sensors/lsm303dlh.c means it: the lesser delay, where 0 asks for
-- no rate.
use akm_dash.Common.{
  ◌≡◌, ◌≢◌, refl, ℤ, pos, negsuc, ◌==ℤ◌, ==ℤ_iff, ltb_ℤ, true, false, ◌⊎◌, inl, inr, Bool-cases,
  arith, if◌then◌else◌,
}
use akm_dash.Lsm303dlh.{required_ms}

-- The delay `ms` serves both users: 1000 where neither asks for one, the delay of the one that asks,
-- or that one of the two than which neither is less.
abbrev pub IsFaster : ℤ → ℤ → ℤ → Type 0
IsFaster ms int ext =
    (int ≡ pos 0 → ext ≡ pos 0 → ms ≡ pos 1000)
    × (int ≡ pos 0 → ext ≢ pos 0 → ms ≡ ext)
    × (int ≢ pos 0 → ext ≡ pos 0 → ms ≡ int)
    × (int ≢ pos 0
        → ext ≢ pos 0
        → ((ms ≡ int) ⊎ (ms ≡ ext)) × (ltb_ℤ int ms ≡ false) × (ltb_ℤ ext ms ≡ false))

ltb_ℤ_irreflexive : (a : ℤ) → ltb_ℤ a a ≡ false
ltb_ℤ_irreflexive (pos a) = ground arith
ltb_ℤ_irreflexive (negsuc a) = ground arith

ltb_ℤ_asymmetric : (a b : ℤ) → ltb_ℤ a b ≡ true → ltb_ℤ b a ≡ false
ltb_ℤ_asymmetric (pos a) (pos b) h = ground arith
ltb_ℤ_asymmetric (pos a) (negsuc b) h = cc
ltb_ℤ_asymmetric (negsuc a) (pos b) h = refl
ltb_ℤ_asymmetric (negsuc a) (negsuc b) h = ground arith

is_zero : (a : ℤ) → a ≡ pos 0 → (a ==ℤ pos 0) ≡ true
is_zero a e = (==ℤ_iff a (pos 0)).1 e

not_zero : (a : ℤ) → a ≢ pos 0 → (a ==ℤ pos 0) ≡ false
not_zero a e = elim (Bool-cases (a ==ℤ pos 0)) [
  | inl z ↦ absurd (e ((==ℤ_iff a (pos 0)).0 z))
  | inr n ↦ n
]

lesser :
    (int ext : ℤ)
    → let ms = if ltb_ℤ int ext then int else ext in
      ((ms ≡ int) ⊎ (ms ≡ ext)) × (ltb_ℤ int ms ≡ false) × (ltb_ℤ ext ms ≡ false)
lesser int ext = elim (Bool-cases (ltb_ℤ int ext)) [
  | inl less ↦ rw less (inl refl, ltb_ℤ_irreflexive int, ltb_ℤ_asymmetric int ext less)
  | inr more ↦ rw more (inr refl, more, ltb_ℤ_irreflexive ext)
]

pub required_ms-IsFaster : (int ext : ℤ) → IsFaster (required_ms int ext) int ext
unfolding required_ms
required_ms-IsFaster int ext = (
  (λ i e. rw (is_zero int i, is_zero ext e) refl),
  (λ i e. rw (is_zero int i, not_zero ext e) refl),
  (λ i e. rw (not_zero int i, is_zero ext e) refl),
  (λ i e. rw (not_zero int i, not_zero ext e) (lesser int ext)),
)

pub required_ms_asks : (int ext : ℤ) → required_ms int ext ≢ pos 0
unfolding required_ms
required_ms_asks int ext = elim (Bool-cases (int ==ℤ pos 0)) [
  | inl i ↦ elim (Bool-cases (ext ==ℤ pos 0)) [
    | inl e ↦ rw (i, e) (λ z. cc)
    | inr e ↦ rw (i, e) (asks ext e)
  ]
  | inr i ↦ elim (Bool-cases (ext ==ℤ pos 0)) [
    | inl e ↦ rw (i, e) (asks int i)
    | inr e ↦
        rw (i, e)
          (elim (Bool-cases (ltb_ℤ int ext)) [
            | inl less ↦ rw less (asks int i)
            | inr more ↦ rw more (asks ext e)
          ])
  ]
]
  where
    asks : (a : ℤ) → (a ==ℤ pos 0) ≡ false → a ≢ pos 0
    asks a n z = cc (n, is_zero a z)
