-- ===== src/Hal.antt =====
-- sensors_module.c: the entry points of the HAL, which route requests to the registered sensors.
pub mod Route
pub mod Open
mod Tests
use akm_dash.Common.{
  ℕ, suc, ◌-◌, ℤ, pos, negsuc, ◌==ℤ◌, is_neg, Bool, true, false, Option, none, some, List, [], ◌∷◌,
  if◌then◌else◌,
}
use akm_dash.SensorList.{ApiPtr, SensorTable, get_api_from_handle, foreach_api}
use akm_dash.Config
use akm_dash.Config.{Store, Files, ◌>>=◌}

-- What the function pointers of the registered tables do to the rest of the program. `init` reads
-- the configuration; `none` is a use of freed memory.
pub record Drivers (W : Type 0) : Type 0 where
  pub init : Store → ApiPtr → W → Option (ℤ × W)
  pub activate : ApiPtr → ℤ → W → ℤ × W
  pub set_delay : ApiPtr → ℤ → W → ℤ × W

-- The HAL: the table, the configuration, whether the queue's mutex and condition are initialised,
-- the number of devices that are allocated, and the rest.
pub record Hal (W : Type 0) : Type 0 where
  pub table : SensorTable
  pub config : Store
  pub fifo_ready : Bool
  pub devices : ℕ
  pub world : W

-- The state after `sensors_config_read(NULL)`, whose result is ignored.
unfoldable pub configured : {W : Type 0} → Option (ℤ × Store) → Hal W → Option (Hal W)
configured none h = none
configured (some (rc, st)) h = some (record h { config = st })

-- The state after the loop over the `init` functions.
unfoldable pub started : {W : Type 0} → Option (SensorTable × Option W) → Hal W → Option (Hal W)
started none h = none
started (some (t, none)) h = none
started (some (t, some w)) h = some (record h { table = t; world = w })

module _ {W : Type 0} (drivers : Drivers W) where
  unfoldable pub result_of : Option (ℤ × W) → ℤ × Option W
  result_of none = (pos 0, none)
  result_of (some (rc, w)) = (rc, some w)

  -- One round of that loop, for as long as no freed memory was used.
  unfoldable pub safe_init : Store → ApiPtr → Option W → ℤ × Option W
  unfolding result_of
  safe_init st api none = (pos 0, none)
  safe_init st api (some w) = result_of (drivers.init st api w)

  unfoldable pub set_delay_api : Option ApiPtr → ℤ → Hal W → ℤ × Hal W
  set_delay_api none ns h = (negsuc 0, h)
  set_delay_api (some api) ns h =
      let (rc, w) = drivers.set_delay api ns h.world in (rc, record h { world = w })

  -- `sensors_module_set_delay`.
  unfoldable pub set_delay : ℤ → ℤ → Hal W → ℤ × Hal W
  unfolding set_delay_api
  set_delay handle ns h = set_delay_api (get_api_from_handle handle h.table) ns h

  unfoldable pub activate_api : Option ApiPtr → ℤ → Hal W → ℤ × Hal W
  activate_api none enabled h = (negsuc 0, h)
  activate_api (some api) enabled h =
      let (rc, w) = drivers.activate api enabled h.world in
      (if is_neg rc then negsuc 0 else pos 0, record h { world = w })

  -- `sensors_module_activate`.
  unfoldable pub activate : ℤ → ℤ → Hal W → ℤ × Hal W
  unfolding activate_api
  activate handle enabled h = activate_api (get_api_from_handle handle h.table) enabled h

  -- `sensors_module_open`: whether the id is SENSORS_HARDWARE_POLL, and whether `malloc` succeeds.
  -- Beside the result stands whether `*device` is set. `none` is a use of freed memory, by the
  -- reader of the configuration or by an `init`, or a loop that has not ended.
  unfoldable pub open_module : Bool → Bool → (ℕ → Bool) → Files → Hal W → Option (ℤ × Bool × Hal W)
  unfolding configured started safe_init
  open_module false malloc alloc files h = some (pos 0, false, h)
  open_module true false alloc files h = some (negsuc 0, false, h)
  open_module true true alloc files h =
      configured (Config.read alloc files none h.config) h >>= λ h₁.
      started (foreach_api (safe_init h₁.config) h₁.table (some h₁.world)) h₁ >>= λ h₂.
      some (pos 0, true, record h₂ { fifo_ready = true; devices = suc h₂.devices })

-- `sensors_module_poll` over what one call of `sensors_fifo_get_all` after the other gives;
-- `none` is a call that still waits.
unfoldable pub poll {ℓ} : {E : Type ℓ} → List (List E) → Option (List E)
poll [] = none
poll ([] ∷ r) = poll r
poll ((e ∷ es) ∷ r) = some (e ∷ es)

-- `sensors_module_close`.
unfoldable pub close_module : {W : Type 0} → Hal W → Option (ℤ × Hal W)
close_module h = Config.destroy h.config >>= λ st.
    some (pos 0, record h { config = st; fifo_ready = false; devices = h.devices - 1 })
