-- ===== src/Wrapper/Rate.antt =====
-- `list_get_rate`: the fastest rate that a client asks for.
use mathlib.Core.Path.{ap₂}
use akm_dash.Common.{
  ◌-◌, ap, sym, to_u64, lt→ltb, ltb→lt, ltb→le, Bool, ℕ, ◌≤◌, ◌<◌, ◌^◌, ◌≡◌, refl, ◌⊎◌, inl, inr,
  ◌∙◌, ℤ, pos, negsuc, IsInt64, is_neg, true, List, [], ◌∷◌, arith, take, ltb, if◌then◌else◌,
  Bool-cases,
}
use akm_dash.Wrapper.Data.{no_rate, least_rate, list_get_rate, entry_at, Wrapper}

abbrev pub AllInt64 : List ℤ → Type 0
AllInt64 [] = Unit
AllInt64 (r ∷ rs) = IsInt64 r × AllInt64 rs

abbrev pub AllNegative : List ℤ → Type 0
AllNegative [] = Unit
AllNegative (r ∷ rs) = (is_neg r ≡ true) × AllNegative rs

abbrev pub Has : ℤ → List ℤ → Type 0
Has x [] = ⊥
Has x (r ∷ rs) = (r ≡ x) ⊎ Has x rs

abbrev pub NotFaster : ℕ → ℤ → Type 0
NotFaster n (pos k) = n ≤ k
NotFaster n (negsuc k) = Unit

abbrev pub NoneFaster : ℕ → List ℤ → Type 0
NoneFaster n [] = Unit
NoneFaster n (r ∷ rs) = NotFaster n r × NoneFaster n rs

-- No client asks for a rate, or this is the least of the rates that are asked for.
abbrev pub IsFastest : ℤ → List ℤ → Type 0
IsFastest m rs =
    ((m ≡ no_rate) × AllNegative rs) ⊎ ((n : ℕ) × (m ≡ pos n) × Has (pos n) rs × NoneFaster n rs)

to_u64-small : (n : ℕ) → n < 2 ^ 63 → to_u64 (pos n) ≡ n
to_u64-small n h = omega arith

-- Between rates that are asked for, the loop compares as numbers.
least_rate-step :
    (a k : ℕ) (rs : List ℤ)
    → a < 2 ^ 63
    → k < 2 ^ 63
    → least_rate (pos a) (pos k ∷ rs) ≡ least_rate (if ltb k a then pos k else pos a) rs
unfolding least_rate
least_rate-step a k rs h g =
    ap (λ b. least_rate (if b then pos k else pos a) rs)
      (ap₂ ltb (to_u64-small k g) (to_u64-small a h))

least_rate-start :
    (k : ℕ) (rs : List ℤ) → k < 2 ^ 63 → least_rate no_rate (pos k ∷ rs) ≡ least_rate (pos k) rs
unfolding least_rate
least_rate-start k rs h =
    ap (λ b. least_rate (if b then pos k else no_rate) rs)
      (lt→ltb (to_u64 (pos k)) (2 ^ 64 - 1) (omega arith))

least_rate_pos :
    (a : ℕ) (rs : List ℤ)
    → a < 2 ^ 63
    → AllInt64 rs
    → (n : ℕ) × (least_rate (pos a) rs ≡ pos n)
      × (n ≤ a)
      × ((n ≡ a) ⊎ Has (pos n) rs)
      × NoneFaster n rs
unfolding least_rate
least_rate_pos a [] h v = (a, refl, omega arith, inl refl, tt)
least_rate_pos a (negsuc k ∷ rs) h v =
    let (n, e, l, m, f) = least_rate_pos a rs h v.1 in
    (n, e, l, elim m [ inl q ↦ inl q | inr q ↦ inr (inr q) ], (tt, f))
least_rate_pos a (pos k ∷ rs) h v = elim (Bool-cases (ltb k a)) [
  | inl less ↦
      (let (n, e, l, m, f) = least_rate_pos k rs v.0 v.1 in
        let lt = ltb→lt k a less in
        (
          n,
          least_rate-step a k rs h v.0
              ∙ ap (λ (b : Bool). least_rate (if b then pos k else pos a) rs) less
              ∙ e,
          omega arith,
          inr (elim m [ inl q ↦ inl (ap pos (sym q)) | inr q ↦ inr q ]),
          (l, f),
        ))
  | inr same ↦
      (let (n, e, l, m, f) = least_rate_pos a rs h v.1 in
        let le = ltb→le k a same in
        (
          n,
          least_rate-step a k rs h v.0
              ∙ ap (λ (b : Bool). least_rate (if b then pos k else pos a) rs) same
              ∙ e,
          l,
          elim m [ inl q ↦ inl q | inr q ↦ inr (inr q) ],
          (omega arith, f),
        ))
]

least_rate-IsFastest : (rs : List ℤ) → AllInt64 rs → IsFastest (least_rate no_rate rs) rs
unfolding least_rate
least_rate-IsFastest [] v = inl (refl, tt)
least_rate-IsFastest (negsuc k ∷ rs) v = elim (least_rate-IsFastest rs v.1) [
  | inl (e, a) ↦ inl (e, (refl, a))
  | inr (n, e, m, f) ↦ inr (n, e, inr m, (tt, f))
]
least_rate-IsFastest (pos k ∷ rs) v =
    let (n, e, l, m, f) = least_rate_pos k rs v.0 v.1 in
    inr (
      n,
      least_rate-start k rs v.0 ∙ e,
      elim m [ inl q ↦ inl (ap pos (sym q)) | inr q ↦ inr q ],
      (l, f),
    )

-- Where the rates of a sensor's clients are `int64_t` values, `list_get_rate` is the least rate
-- that one of them asks for, though it compares in `uint64_t`; it is NO_RATE exactly where every
-- client's rate is negative.
pub list_get_rate-IsFastest :
    (i : ℕ) (w : Wrapper)
    → let rates = take (entry_at i w).nr (entry_at i w).rate in
      AllInt64 rates → IsFastest (list_get_rate i w) rates
unfolding list_get_rate
list_get_rate-IsFastest i w v = least_rate-IsFastest (take (entry_at i w).nr (entry_at i w).rate) v
