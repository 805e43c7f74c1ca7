-- ===== src/Akm/Shift.antt =====
-- `AKFS_InitBuffer` and `AKFS_BufShift` of libs/libakm/oss/akfs_device.c.
use akm_dash.Common.{
  ℕ, zero, suc, ◌+◌, ◌-◌, ◌≤◌, ◌<◌, ◌≡◌, refl, sym, ap, ◌∙◌, pos, ◌⊎◌, List, [], ◌∷◌, ◌++◌, length,
  get_or, set, take, length-set, get_or-set_self, get_or-set_ne, ltb, le→ltb, ltb→lt, ltb→le,
  length-append, length-take, Bool-cases, inl, inr, arith,
}
use native.Mathlib.Decide.{ℕ_discrete}
use mathlib.Core.Path.{ap₂}
use akm_dash.Akm.{Vec, Arith, success, init_vec, shift_from, buf_shift}

-- Lists of one length that agree at each place are equal.
pub list_ext :
    {A : Type 0} (xs ys : List A) (d : A)
    → length xs ≡ length ys
    → ((i : ℕ) → i < length xs → get_or xs i d ≡ get_or ys i d)
    → xs ≡ ys
list_ext [] [] d l h = refl
list_ext [] (y ∷ ys) d l h = absurd (omega arith)
list_ext (x ∷ xs) [] d l h = absurd (omega arith)
list_ext (x ∷ xs) (y ∷ ys) d l h =
    ap₂ ◌∷◌ (h zero (omega arith)) (list_ext xs ys d (omega arith) (λ i k. h (suc i) (omega arith)))

pub get_or-append_left :
    {A : Type 0} (xs ys : List A) (i : ℕ) (d : A)
    → i < length xs
    → get_or (xs ++ ys) i d ≡ get_or xs i d
get_or-append_left [] ys i d h = absurd (omega arith)
get_or-append_left (x ∷ xs) ys zero d h = refl
get_or-append_left (x ∷ xs) ys (suc i) d h = get_or-append_left xs ys i d (omega arith)

pub get_or-append_right :
    {A : Type 0} (xs ys : List A) (i : ℕ) (d : A)
    → get_or (xs ++ ys) (length xs + i) d ≡ get_or ys i d
get_or-append_right [] ys i d = let none : 0 + i ≡ i = omega arith in ap (λ k. get_or ys k d) none
get_or-append_right (x ∷ xs) ys i d =
    let next : suc (length xs) + i ≡ suc (length xs + i) = omega arith in
    ap (λ k. get_or (x ∷ (xs ++ ys)) k d) next ∙ get_or-append_right xs ys i d

pub get_or-take :
    {A : Type 0} (n : ℕ) (xs : List A) (i : ℕ) (d : A)
    → i < n
    → get_or (take n xs) i d ≡ get_or xs i d
get_or-take zero xs i d h = absurd (omega arith)
get_or-take (suc n) [] i d h = refl
get_or-take (suc n) (x ∷ xs) zero d h = refl
get_or-take (suc n) (x ∷ xs) (suc i) d h = get_or-take n xs i d (omega arith)

module _ {N : Type 0} (a : Arith N) where
  length-shift_from : (k shift : ℕ) (v : List (Vec N)) → length (shift_from a k shift v) ≡ length v
  unfolding shift_from
  length-shift_from zero shift v = refl
  length-shift_from (suc k) shift v =
      length-shift_from k shift _ ∙ length-set v (k + shift) (get_or v k (init_vec a))

  -- The places that the loop does not write.
  shift_from_other :
      (k shift i : ℕ) (v : List (Vec N))
      → (i < shift) ⊎ (k + shift ≤ i)
      → get_or (shift_from a k shift v) i (init_vec a) ≡ get_or v i (init_vec a)
  unfolding shift_from
  shift_from_other zero shift i v h = refl
  shift_from_other (suc k) shift i v (inl h) =
      shift_from_other k shift i _ (inl h)
      ∙ get_or-set_ne v _ (init_vec a) (λ (e : k + shift ≡ i). absurd (omega arith))
  shift_from_other (suc k) shift i v (inr h) =
      shift_from_other k shift i _ (inr (omega arith))
      ∙ get_or-set_ne v _ (init_vec a) (λ (e : k + shift ≡ i). absurd (omega arith))

  -- The places that it writes hold what stood `shift` places before.
  shift_from_moved :
      (k shift i : ℕ) (v : List (Vec N))
      → 0 < shift
      → k + shift ≤ length v
      → i < k
      → get_or (shift_from a k shift v) (i + shift) (init_vec a) ≡ get_or v i (init_vec a)
  unfolding shift_from
  shift_from_moved zero shift i v s l h = absurd (omega arith)
  shift_from_moved (suc k) shift i v s l h = elim (ℕ_discrete i k) [
    | yes e ↦
        shift_from_other k shift (i + shift) _ (inr (omega arith))
        ∙ ap (λ j. get_or (set v (k + shift) (get_or v k (init_vec a))) (j + shift) (init_vec a)) e
        ∙ get_or-set_self v (k + shift) _ (init_vec a) (omega arith)
        ∙ ap (λ j. get_or v j (init_vec a)) (sym e)
    | no ne ↦
        shift_from_moved k shift i _ s
          (omega (arith, length-set v (k + shift) (get_or v k (init_vec a)))) (omega arith)
        ∙ get_or-set_ne v _ (init_vec a) (λ (e : k + shift ≡ i). absurd (omega arith))
  ]

  pub shift_from-taken :
      (len shift : ℕ) (v : List (Vec N))
      → length v ≡ len
      → 0 < shift
      → shift ≤ len
      → shift_from a (len - shift) shift v ≡ take shift v ++ take (len - shift) v
  shift_from-taken len shift v l s h = list_ext _ _ (init_vec a) same_length place
    where
      same_length :
          length (shift_from a (len - shift) shift v)
          ≡ length (take shift v ++ take (len - shift) v)
      same_length = omega (
        arith,
        length-shift_from (len - shift) shift v,
        length-append (take shift v) (take (len - shift) v),
        length-take shift v,
        length-take (len - shift) v,
      )

      place :
          (i : ℕ)
          → i < length (shift_from a (len - shift) shift v)
          → get_or (shift_from a (len - shift) shift v) i (init_vec a)
            ≡ get_or (take shift v ++ take (len - shift) v) i (init_vec a)
      place i k = elim (Bool-cases (ltb i shift)) [
        | inl first ↦
            let f : i < shift = ltb→lt i shift first in
            shift_from_other (len - shift) shift i v (inl f)
            ∙ sym (
                get_or-append_left (take shift v) (take (len - shift) v) i (init_vec a)
                  (omega (arith, length-take shift v))
                ∙ get_or-take shift v i (init_vec a) f)
        | inr later ↦
            let g : shift ≤ i = ltb→le i shift later in
            let up : i ≡ i - shift + shift = omega arith in
            let from : i ≡ length (take shift v) + (i - shift) =
              omega (arith, length-take shift v) in
            let b : i - shift < len - shift =
              omega (arith, length-shift_from (len - shift) shift v) in
            ap (λ n. get_or (shift_from a (len - shift) shift v) n (init_vec a)) up
            ∙ shift_from_moved (len - shift) shift (i - shift) v s (omega arith) b
            ∙ sym (
                ap (λ n. get_or (take shift v ++ take (len - shift) v) n (init_vec a)) from
                ∙ get_or-append_right (take shift v) (take (len - shift) v) (i - shift) (init_vec a)
                ∙ get_or-take (len - shift) v (i - shift) (init_vec a) b)
      ]

  -- `AKFS_BufShift` moves the vectors of a buffer up by `shift` places; the first ones stay.
  pub buf_shift-moved :
      (len shift : ℕ) (v : List (Vec N))
      → length v ≡ len
      → 0 < shift
      → shift ≤ len
      → buf_shift a (pos len) (pos shift) v ≡ (success, take shift v ++ take (len - shift) v)
  unfolding buf_shift
  buf_shift-moved len shift v l s h =
      rw (le→ltb shift 1 s, le→ltb len shift h)
        (ap (λ w. (success, w)) (shift_from-taken len shift v l s h))
