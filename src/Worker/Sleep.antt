-- ===== src/Worker/Sleep.antt =====
-- `sensor_nano_sleep` of sensors_worker.c.
use akm_dash.Common.{ℕ, ◌+◌, ◌*◌, ◌<◌, ◌/◌, ◌%◌, ◌≡◌, refl, pos, negsuc, none, some, arith}
use akm_dash.Worker.{nano_sleep}

-- `sensor_nano_sleep` returns at once exactly for the values that are not positive; else the
-- seconds and nanoseconds that it asks for add up to its argument, and the nanoseconds stay below
-- a second, as `nanosleep` requires.
pub nano_sleep_exact :
    (n : ℕ)
    → (nano_sleep (negsuc n) ≡ none)
      × (nano_sleep (pos 0) ≡ none)
      × (0 < n
          → (t : ℕ × ℕ) × (nano_sleep (pos n) ≡ some t)
            × (t.0 * 1000000000 + t.1 ≡ n)
            × (t.1 < 1000000000))
unfolding nano_sleep
nano_sleep_exact n =
    (refl, refl, (λ h. ((n / 1000000000, n % 1000000000), ground arith, omega arith, omega arith)))
