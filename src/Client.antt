-- ===== src/Client.antt =====
-- Clients of the wrapper: sensors/wrappers/bma250na_input_accelerometer.c,
-- sensors/wrappers/lsm303dlhx_accelerometer.c and sensors/wrappers/l3g4200d_gyroscope.c.
pub mod Queued
mod Tests
use akm_dash.Common.{ℕ, ℤ, pos, List, [], ◌∷◌, get_or, replicate}
use akm_dash.SensorList.{Sensor, SensorTable, ApiPtr}
use akm_dash.SensorList
use akm_dash.Common.{some}
use akm_dash.Wrapper.Data.{Access}
use akm_dash.Fifo.{Fifo}
use akm_dash.Fifo

-- The arithmetic of `float`, with GRAVITY_EARTH and DPS_2_RADPS.
pub record Scalar (N : Type 0) : Type 0 where
  pub of_int : ℤ → N
  pub times : N → N → N
  pub over : N → N → N
  pub gravity_earth : N
  pub dps_2_radps : N

-- `struct sensor_data_t` without its sensor and size.
pub record SensorData (N : Type 0) : Type 0 where
  pub values : List ℤ
  pub scale : N
  pub status : ℤ
  pub timestamp : ℤ

-- What the clients set in a `sensors_event_t`.
pub record SensorsEvent (N : Type 0) : Type 0 where
  pub version : ℤ
  pub sensor : ℤ
  pub type : ℤ
  pub timestamp : ℤ
  pub status : ℤ
  pub x : N
  pub y : N
  pub z : N

-- `struct wrapper_desc`, with the version that is set in its sensor.
pub record WrapperDesc : Type 0 where
  pub sensor : Sensor
  pub version : ℤ
  pub access : Access

-- An access field before `init`, for a client of one type.
abbrev wants : ℤ → Access
wants t = record {
  sensor = replicate 4 0;
  client = replicate 4 0;
  nr = 0;
  match = t ∷ pos 0 ∷ pos 0 ∷ pos 0 ∷ [];
  m_nr = 1;
}

-- SENSOR_TYPE_ACCELEROMETER is 1 and SENSOR_TYPE_GYROSCOPE is 4; the version is the size of an
-- event.
abbrev pub bma250_input : ℤ → WrapperDesc
bma250_input size = record {
  sensor = record { handle = pos 1; type = pos 1 };
  version = size;
  access = wants (pos 1);
}

abbrev pub st_accelerometer : ℤ → WrapperDesc
st_accelerometer size = record {
  sensor = record { handle = pos 1; type = pos 1 };
  version = size;
  access = wants (pos 1);
}

abbrev pub st_gyroscope : ℤ → WrapperDesc
st_gyroscope size = record {
  sensor = record { handle = pos 12; type = pos 4 };
  version = size;
  access = wants (pos 4);
}

module _ {N : Type 0} (scalar : Scalar N) where
  abbrev pub event_of : WrapperDesc → ℤ → SensorData N → (ℕ → N) → SensorsEvent N
  event_of d timestamp sd value = record {
    version = d.version;
    sensor = d.sensor.handle;
    type = d.sensor.type;
    timestamp = timestamp;
    status = sd.status;
    x = value 0;
    y = value 1;
    z = value 2;
  }

  abbrev pub acceleration : SensorData N → ℕ → N
  acceleration sd axis =
      scalar.times (scalar.times (scalar.of_int (get_or sd.values axis (pos 0))) sd.scale)
        scalar.gravity_earth

  abbrev pub rotation : SensorData N → ℕ → N
  rotation sd axis =
      scalar.over (scalar.times (scalar.of_int (get_or sd.values axis (pos 0))) sd.scale)
        scalar.dps_2_radps

  -- `bma250_data`, which keeps the time of the sample.
  unfoldable pub bma250_data :
      WrapperDesc → SensorData N → Fifo (SensorsEvent N) → Fifo (SensorsEvent N)
  bma250_data d sd q = Fifo.put (event_of d sd.timestamp sd (acceleration sd)) q

  -- `accelerometer_data`, with what `get_current_nano_time` returns.
  unfoldable pub accelerometer_data :
      WrapperDesc → ℤ → SensorData N → Fifo (SensorsEvent N) → Fifo (SensorsEvent N)
  accelerometer_data d now sd q = Fifo.put (event_of d now sd (acceleration sd)) q

  -- `gyroscope_data`.
  unfoldable pub gyroscope_data :
      WrapperDesc → ℤ → SensorData N → Fifo (SensorsEvent N) → Fifo (SensorsEvent N)
  gyroscope_data d now sd q = Fifo.put (event_of d now sd (rotation sd)) q

-- `bma250_register`, `accelerometer_register` and `gyroscope_register`, for the address of the
-- client's function table; the result is ignored.
unfoldable pub register_client : WrapperDesc → ApiPtr → SensorTable → SensorTable
register_client d api s = (SensorList.register (some d.sensor) (some api) s).1
