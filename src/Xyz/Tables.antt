-- ===== src/Xyz/Tables.antt =====
-- The drivers that are tables for sensors/sensor_xyz.c: sensors/l3g4200d_gyro.c,
-- sensors/lsm303dlhx_mag.c and sensors/lsm303dlhx_acc.c, before their `init`.
use akm_dash.Common.{pos, Option, none, some, [], ◌∷◌, codes}
use akm_dash.Config.Text.{Bytes}
use akm_dash.Worker
use akm_dash.Select.{Select}
use akm_dash.Xyz.Attr.{DevMode}
use akm_dash.Xyz.{SensorDesc}

-- What C leaves at zero.
abbrev zeroed : Select
zeroed = record {
  worker = record { mode = Worker.no_init; delay_ns = pos 0; place = Worker.exited; polls = 0 };
  fd = pos 0;
  ctl_read = pos 0;
  ctl_write = pos 0;
  delay = pos 0;
  wakeups = 0;
  closed = [];
}

-- The fields that the three files share: EV_ABS is 3, EV_SYN is 0, ABS_X to ABS_Z are 0 to 2.
abbrev pub table_of : Bytes → Option Bytes → (DevMode → Bytes) → SensorDesc
table_of map_prefix mode modes = record {
  attrs = record { phys_path = []; writes = [] };
  worker = zeroed;
  values = pos 0 ∷ pos 0 ∷ pos 0 ∷ [];
  map_prefix = map_prefix;
  map = pos 0 ∷ pos 1 ∷ pos 2 ∷ [];
  sign = pos 1 ∷ pos 1 ∷ pos 1 ∷ [];
  applied_delay_ms = pos 0;
  dev_path = [];
  dev_attr_rate_ms = codes "pollrate_ms";
  dev_attr_mode = mode;
  dev_modes = modes;
  ev_type_data = 3;
  ev_type_sync = 0;
  ev_code = 0 ∷ 1 ∷ 2 ∷ [];
  samples = [];
}

abbrev no_modes : DevMode → Bytes
no_modes m = []

abbrev polls : DevMode → Bytes
polls m = codes "poll"

abbrev pub gyroscope : SensorDesc
gyroscope = table_of (codes "l3g4200d-gyroscope") none no_modes

abbrev pub magnetometer : SensorDesc
magnetometer = table_of (codes "lsm303dlhx-magnetic") none no_modes

-- With ST_LSM303DLH, and with ST_LSM303DLHC.
abbrev pub lsm303dlh_accelerometer : SensorDesc
lsm303dlh_accelerometer = table_of (codes "lsm303dlh-acceleration") none no_modes

abbrev pub lsm303dlhc_accelerometer : SensorDesc
lsm303dlhc_accelerometer = table_of (codes "lsm303dlhc-acceleration") (some (codes "mode")) polls
