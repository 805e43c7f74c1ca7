-- ===== src/Sysfs.antt =====
-- sensors_sysfs.c: attributes in the directory of a device.
pub mod Paths
mod Tests
use akm_dash.Common.{
  ℕ, suc, ◌+◌, ℤ, pos, negsuc, Option, none, some, List, [], ◌∷◌, ◌++◌, length, take, leb, codes,
  if◌then◌else◌,
}
use akm_dash.Config.Text.{Bytes}
use akm_dash.Xyz.Attr.{decimal_from}

-- `struct sensors_sysfs_t`, by its path; and the files that were opened with what was written, the
-- latest first.
pub record Sysfs : Type 0 where
  pub path : Bytes
  pub writes : List (Bytes × Bytes)

abbrev pub sysfs_path_max : ℕ
sysfs_path_max = 64

-- `enum sensors_sysfs_type`.
pub data SysfsType : Type 0 where
  abs_path input_dev : SysfsType

abbrev pub input_class_path : Bytes
input_class_path = codes "/sys/class/input/input"

-- The text that `%lld` gives; a `long long` has at most twenty digits.
unfoldable pub decimal_long : ℤ → Bytes
unfolding decimal_from
decimal_long (pos n) = decimal_from 20 n []
decimal_long (negsuc n) = b'-' ∷ decimal_from 20 (suc n) []

-- `sensors_sysfs_write`. What it returns from `open` and `write` on, the number of bytes or an
-- error number negated, is a function of the files so far.
unfoldable pub sysfs_write : (List (Bytes × Bytes) → ℤ) → Bytes → Bytes → Sysfs → ℤ × Sysfs
sysfs_write reply attribute value s =
    let file = s.path ++ b'/' ∷ attribute in
    if leb sysfs_path_max (length file)
    then (negsuc 0, s)
    else (let log = (file, value) ∷ s.writes in (reply log, record s { writes = log }))

-- `sensors_sysfs_write_int`, with its buffer of 32 bytes.
unfoldable pub sysfs_write_int : (List (Bytes × Bytes) → ℤ) → Bytes → ℤ → Sysfs → ℤ × Sysfs
unfolding sysfs_write decimal_long
sysfs_write_int reply attribute value s =
    let buf = decimal_long value in
    if leb 32 (length buf) then (negsuc 0, s) else sysfs_write reply attribute buf s

-- The directory of an input device with this number, which `snprintf` cuts to the array.
unfoldable pub init_input : Option ℤ → Sysfs → ℤ × Sysfs
unfolding decimal_long
init_input none s = (negsuc 0, s)
init_input (some nr) s =
    let text = input_class_path ++ decimal_long nr in
    (if leb sysfs_path_max (length text) then negsuc 0 else pos 0, record s { path = take 63 text })

-- `sensors_sysfs_init`, with the number in the entry that `sensors_input_cache_get` gives.
unfoldable pub sysfs_init : Option ℤ → Bytes → SysfsType → Sysfs → ℤ × Sysfs
unfolding init_input
sysfs_init found str input_dev s = init_input found s
sysfs_init found str abs_path s = (pos 0, record s { path = take 63 str })
