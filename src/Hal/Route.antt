-- ===== src/Hal/Route.antt =====
-- How sensors_module.c routes a request to the function table of a handle.
use akm_dash.Common.{◌≡◌, refl, ℤ, pos, negsuc, is_neg, none, some, if◌then◌else◌}
use akm_dash.SensorList.{ApiPtr}
use akm_dash.SensorList.Rows.{IsValid, contents, lookup_handle}
use akm_dash.SensorList.Lookup.{get_api_from_handle_refines}
use akm_dash.Hal.{Drivers, Hal, activate, set_delay, activate_api, set_delay_api}

module _ {W : Type 0} (drivers : Drivers W) (handle : ℤ) where
  activate_looks_up :
      (enabled : ℤ) (h : Hal W)
      → IsValid h.table
      → activate drivers handle enabled h
        ≡ activate_api drivers (lookup_handle handle (contents h.table)) enabled h
  unfolding activate
  activate_looks_up enabled h v = rw (get_api_from_handle_refines handle v) refl

  set_delay_looks_up :
      (ns : ℤ) (h : Hal W)
      → IsValid h.table
      → set_delay drivers handle ns h
        ≡ set_delay_api drivers (lookup_handle handle (contents h.table)) ns h
  unfolding set_delay
  set_delay_looks_up ns h v = rw (get_api_from_handle_refines handle v) refl

  -- On a well-formed table, for a handle that no registered sensor has, `sensors_module_activate`
  -- and `sensors_module_set_delay` return -1 and call no driver. Otherwise they call the function
  -- of the first registered sensor with the handle, once, and change nothing but what it changes:
  -- the result of `activate` is -1 for a negative one and 0 for all others, that of `set_delay` is
  -- passed on.
  pub requests_routed :
      (enabled ns : ℤ) (h : Hal W)
      → IsValid h.table
      → (lookup_handle handle (contents h.table) ≡ none
          → (activate drivers handle enabled h ≡ (negsuc 0, h))
            × (set_delay drivers handle ns h ≡ (negsuc 0, h)))
        × ((p : ApiPtr)
            → lookup_handle handle (contents h.table) ≡ some p
            → (activate drivers handle enabled h ≡ (
              if is_neg (drivers.activate p enabled h.world).0 then negsuc 0 else pos 0,
              record h { world = (drivers.activate p enabled h.world).1 },
            ))
              × (set_delay drivers handle ns h ≡ (
                (drivers.set_delay p ns h.world).0,
                record h { world = (drivers.set_delay p ns h.world).1 },
              )))
  unfolding activate_api set_delay_api
  requests_routed enabled ns h v = (
    (λ e. (rw (activate_looks_up enabled h v, e) refl, rw (set_delay_looks_up ns h v, e) refl)),
    (λ p e. (rw (activate_looks_up enabled h v, e) refl, rw (set_delay_looks_up ns h v, e) refl)),
  )
