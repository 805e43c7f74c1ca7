-- ===== src/Xyz/Stores.antt =====
-- What a store of an attribute of sensors/sensor_xyz.c writes, and where.
use akm_dash.Common.{
  ℕ, zero, suc, ◌-◌, ◌≤◌, ◌<◌, ◌≡◌, refl, ap, ℤ, pos, negsuc, ◌==ℤ◌, true, false, Option, none,
  some, List, [], ◌∷◌, ◌++◌, length, take, leb, ◌==◌, take_all, ==_refl, if_both, length-append,
  ltb, ◌+◌, ◌/◌, ◌%◌, ◌&&◌, arith, if◌then◌else◌,
}
use akm_dash.Config.Text.{Bytes, newline}
use akm_dash.Xyz.Attr.{
  Attrs, Reply, store_str_attr, store_int_attr, decimal, decimal_from, same_text, phys_path_size,
  written,
}

pub take-append : (p x : Bytes) → take (length p) (p ++ x) ≡ p
take-append [] x = refl
take-append (c ∷ p) x = ap (◌∷◌ c) (take-append p x)

pub take_fits : (n : ℕ) (p : Bytes) → length p < n → take (n - 1) p ≡ p
take_fits n p h = take_all (n - 1) p (omega arith)

pub same_text_refl : (p : Bytes) → same_text p p ≡ true
unfolding same_text
same_text_refl [] = refl
same_text_refl (c ∷ p) = ground (arith, ==_refl c, same_text_refl p)

pub same_text-prefix : (p a b : Bytes) → same_text (p ++ a) (p ++ b) ≡ same_text a b
unfolding same_text
same_text-prefix [] a b = refl
same_text-prefix (c ∷ p) a b = ground (arith, ==_refl c, same_text-prefix p a b)

-- The directory of the device is known, and the name of the attribute fits behind it.
abbrev pub Fits : Bytes → Attrs → Type 0
Fits attr a = (0 < length a.phys_path) × (length attr < phys_path_size - length a.phys_path)

-- The value that was last written to a file with success.
abbrev pub told : Reply → Bytes → List (Bytes × Bytes) → Option Bytes
told reply path [] = none
told reply path ((p, v) ∷ log) =
    if same_text p path && (written (reply ((p, v) ∷ log)) ==ℤ pos 0)
    then some v
    else told reply path log

abbrev pub text_of : ℤ → Bytes
text_of ms = decimal ms ++ newline ∷ []

pub store_str_attr_lem :
    (reply : Reply) (attr val : Bytes) (a : Attrs)
    → Fits attr a
    → store_str_attr reply attr val a ≡ (
      written (reply ((a.phys_path ++ attr, val) ∷ a.writes)),
      record a { writes = (a.phys_path ++ attr, val) ∷ a.writes },
    )
unfolding store_str_attr
store_str_attr_lem reply attr val a (h, k) =
    let e : (length a.phys_path == 0) ≡ false = ground arith in
    let f : leb (phys_path_size - length a.phys_path) (length attr) ≡ false = ground arith in
    rw (e, f, take_fits (phys_path_size - length a.phys_path) attr k, take-append a.phys_path attr)
      refl

pub length-decimal_from : (k n : ℕ) (s : Bytes) → length (decimal_from k n s) ≤ k + length s
unfolding decimal_from
length-decimal_from zero n s = omega arith
length-decimal_from (suc k) n s =
    if_both (λ (r : Bytes). length r ≤ suc k + length s) (ltb n 10) _ _ (λ h. omega arith)
      (λ h. omega (arith, length-decimal_from k (n / 10) ((48 + n % 10) ∷ s)))

pub length-text_of : (v : ℤ) → length (text_of v) < 16
unfolding decimal
length-text_of (pos n) =
    omega (arith, length-decimal_from 10 n [], length-append (decimal_from 10 n []) (newline ∷ []))
length-text_of (negsuc n) = omega (
  arith,
  length-decimal_from 10 (suc n) [],
  length-append (decimal_from 10 (suc n) []) (newline ∷ []),
)

-- The text of an `int` always fits into the buffer.
pub store_int_attr_lem :
    (reply : Reply) (attr : Bytes) (v : ℤ) (a : Attrs)
    → store_int_attr reply attr v a ≡ store_str_attr reply attr (text_of v) a
unfolding store_int_attr
store_int_attr_lem reply attr v a = rw (le→leb_not 16 (length (text_of v)) (length-text_of v)) refl
  where
    le→leb_not : (m n : ℕ) → n < m → leb m n ≡ false
    le→leb_not m n h = ground arith
