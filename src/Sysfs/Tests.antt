-- ===== src/Sysfs/Tests.antt =====
-- Runs of sensors_sysfs.c.
use akm_dash.Common.{◌≡◌, refl, ℤ, pos, negsuc, none, some, List, [], ◌∷◌, ◌++◌, codes, arith}
use akm_dash.Config.Text.{Bytes}
use akm_dash.Sysfs.{
  Sysfs, abs_path, input_dev, input_class_path, decimal_long, sysfs_write_int, sysfs_init,
}
use akm_dash.Sysfs.Paths.{write_int-file}

abbrev nowhere : Sysfs
nowhere = record { path = []; writes = [] }

abbrev accepts : List (Bytes × Bytes) → ℤ
accepts log = pos 1

absolute :
    sysfs_init none (codes "/sys/als") abs_path nowhere
    ≡ (pos 0, record { path = codes "/sys/als"; writes = [] })
unfolding sysfs_init
absolute = refl

write_int-file_run :
    let (rc, s') = sysfs_init (some (pos 4)) [] input_dev nowhere in
    let log : List (Bytes × Bytes) =
      ((input_class_path ++ decimal_long (pos 4)) ++ b'/' ∷ codes "poll", decimal_long (pos 20))
      ∷ [] in
    (rc ≡ pos 0)
    × (sysfs_write_int accepts (codes "poll") (pos 20) s' ≡ (pos 1, record s' { writes = log }))
    × (sysfs_init none [] input_dev nowhere ≡ (negsuc 0, nowhere))
write_int-file_run = write_int-file accepts (pos 4) (pos 20) [] (codes "poll") nowhere (omega arith)
