-- ===== src/Hal/Open.antt =====
-- What stands in the HAL's table after sensors_module.c has opened it.
use akm_dash.Common.{ℕ, suc, ◌≡◌, refl, ℤ, pos, Bool, true, none, some, ◌∙◌}
use akm_dash.SensorList.{SensorTable, foreach_api}
use akm_dash.SensorList.Rows.{IsValid, contents, Distinct}
use akm_dash.SensorList.Visit.{visit, foreach_api_visits}
use akm_dash.Config
use akm_dash.Config.{Store, Files, ◌>>=◌}
use akm_dash.Hal.{Drivers, Hal, open_module, started, configured, safe_init}

module _ {W : Type 0} (drivers : Drivers W) (alloc : ℕ → Bool) (files : Files) (h : Hal W) where
  open_module-started :
      (rc : ℤ) (st : Store)
      → Config.read alloc files none h.config ≡ some (rc, st)
      → open_module drivers true true alloc files h ≡ (
          started
            (foreach_api (safe_init drivers st) h.table (some h.world))
            (record h { config = st })
          >>= λ h₂. some (pos 0, true, record h₂ { fifo_ready = true; devices = suc h₂.devices }))
  unfolding open_module configured
  open_module-started rc st e = rw e refl

  -- On a well-formed table where no function table is registered twice, let the configuration be
  -- read without a use of freed memory, with any result `rc`, into the list `st`, which may be one
  -- whose nodes are freed. Then `sensors_module_open` for the poll interface calls `init` of each
  -- registered sensor once, in order, with that configuration. If none of them uses freed memory,
  -- it returns 0 and sets the device, and those whose `init` returned 0 are what
  -- `sensors_list_get` shows. If one of them does, as an `init` that asks for a key does where the
  -- list is freed, the open has no result.
  pub open_module_publishes :
      (rc : ℤ) (st : Store)
      → Config.read alloc files none h.config ≡ some (rc, st)
      → IsValid h.table
      → Distinct (contents h.table)
      → let (kept, end) = visit (safe_init drivers st) (contents h.table) (some h.world) in
        ((w : W)
          → end ≡ some w
          → (t : SensorTable) × (open_module drivers true true alloc files h
              ≡ some (
                pos 0,
                true,
                record {
                  table = t;
                  config = st;
                  fifo_ready = true;
                  devices = suc h.devices;
                  world = w;
                },
              ))
            × IsValid t
            × (contents t ≡ kept))
        × (end ≡ none → open_module drivers true true alloc files h ≡ none)
  unfolding started
  open_module_publishes rc st e v d =
      let (t, run, valid, rows) = foreach_api_visits (safe_init drivers st) (some h.world) v d in
      (
        (λ w ends. (t, open_module-started rc st e ∙ rw (run, ends) refl, valid, rows)),
        (λ ends. open_module-started rc st e ∙ rw (run, ends) refl),
      )
