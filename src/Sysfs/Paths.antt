-- ===== src/Sysfs/Paths.antt =====
-- The files that sensors_sysfs.c opens.
use akm_dash.Common.{
  ℕ, suc, ◌≤◌, ◌<◌, ◌≡◌, ◌∙◌, refl, ℤ, pos, negsuc, none, some, List, [], ◌∷◌, ◌++◌, length, leb,
  length-append, take_all, false, arith,
}
use akm_dash.Config.Text.{Bytes}
use akm_dash.Xyz.Stores.{length-decimal_from}
use akm_dash.Sysfs.{
  Sysfs, input_dev, sysfs_path_max, input_class_path, decimal_long, sysfs_write, sysfs_write_int,
  sysfs_init, init_input,
}

length-decimal_long : (v : ℤ) → length (decimal_long v) ≤ 21
unfolding decimal_long
length-decimal_long (pos n) = omega (arith, length-decimal_from 20 n [])
length-decimal_long (negsuc n) = omega (arith, length-decimal_from 20 (suc n) [])

leb-false : (m n : ℕ) → n < m → leb m n ≡ false
leb-false m n h = ground arith

-- The text of a number is never cut.
write_int_whole :
    (reply : List (Bytes × Bytes) → ℤ) (attribute : Bytes) (v : ℤ) (s : Sysfs)
    → sysfs_write_int reply attribute v s ≡ sysfs_write reply attribute (decimal_long v) s
unfolding sysfs_write_int
write_int_whole reply attribute v s =
    let e : leb 32 (length (decimal_long v)) ≡ false =
      leb-false 32 (length (decimal_long v)) (omega (arith, length-decimal_long v)) in
    rw e refl

init_whole :
    (nr : ℤ) (str : Bytes) (s : Sysfs)
    → sysfs_init (some nr) str input_dev s
      ≡ (pos 0, record s { path = input_class_path ++ decimal_long nr })
unfolding sysfs_init init_input
init_whole nr str s =
    let e : leb sysfs_path_max (length (input_class_path ++ decimal_long nr)) ≡ false =
      leb-false sysfs_path_max (length (input_class_path ++ decimal_long nr))
        (omega (arith, short nr)) in
    rw (e, take_all 63 (input_class_path ++ decimal_long nr) (short nr)) refl
  where
    short : (nr : ℤ) → length (input_class_path ++ decimal_long nr) ≤ 63
    short nr =
        omega (arith, length-decimal_long nr, length-append input_class_path (decimal_long nr))

sysfs_write_lem :
    (reply : List (Bytes × Bytes) → ℤ) (attribute value : Bytes) (s : Sysfs)
    → length (s.path ++ b'/' ∷ attribute) < sysfs_path_max
    → let log = (s.path ++ b'/' ∷ attribute, value) ∷ s.writes in
      sysfs_write reply attribute value s ≡ (reply log, record s { writes = log })
unfolding sysfs_write
sysfs_write_lem reply attribute value s h =
    let e : leb sysfs_path_max (length (s.path ++ b'/' ∷ attribute)) ≡ false =
      leb-false sysfs_path_max _ h in
    rw e refl

init_missing : (str : Bytes) (s : Sysfs) → sysfs_init none str input_dev s ≡ (negsuc 0, s)
unfolding sysfs_init init_input
init_missing str s = refl

-- For an input device that was found, `sensors_sysfs_init` returns 0, and a number is then written
-- whole, as a decimal text, to the attribute in the directory of that device, if the attribute's
-- name has at most 19 bytes; the result of the write is passed on. For a device that was not found
-- it returns -1 and changes nothing.
pub write_int-file :
    (reply : List (Bytes × Bytes) → ℤ) (nr v : ℤ) (str attribute : Bytes) (s : Sysfs)
    → length attribute < 20
    → let (rc, s') = sysfs_init (some nr) str input_dev s in
      let log =
        ((input_class_path ++ decimal_long nr) ++ b'/' ∷ attribute, decimal_long v) ∷ s.writes in
      (rc ≡ pos 0)
      × (sysfs_write_int reply attribute v s' ≡ (reply log, record s' { writes = log }))
      × (sysfs_init none str input_dev s ≡ (negsuc 0, s))
write_int-file reply nr v str attribute s h = rw (init_whole nr str s) (
  refl,
  write_int_whole reply attribute v (at_device nr s)
      ∙ sysfs_write_lem reply attribute (decimal_long v) (at_device nr s) fits,
  init_missing str s,
)
  where
    at_device : ℤ → Sysfs → Sysfs
    at_device nr s = record s { path = input_class_path ++ decimal_long nr }

    fits : length ((input_class_path ++ decimal_long nr) ++ b'/' ∷ attribute) < 64
    fits = omega (
      arith,
      length-decimal_long nr,
      length-append (input_class_path ++ decimal_long nr) (b'/' ∷ attribute),
      length-append input_class_path (decimal_long nr),
    )
