-- ===== src/Client/Tests.antt =====
-- Runs of the clients over integers in place of `float`.
use akm_dash.Config.Text.{negate}
use akm_dash.Common.{suc, ◌*◌, ◌≡◌, refl, ℤ, pos, negsuc, [], ◌∷◌, replicate}
use akm_dash.SensorList.{null_sensor, SensorTable, register}
use akm_dash.SensorList.Rows.{contents}
use akm_dash.Fifo.{Fifo}
use akm_dash.Fifo.Queue
use akm_dash.Client.{Scalar, SensorData, SensorsEvent, bma250_input, register_client}

-- The product of whole numbers.
abbrev product : ℤ → ℤ → ℤ
product (pos m) (pos n) = pos (m * n)
product (pos m) (negsuc n) = negate (m * suc n)
product (negsuc m) (pos n) = negate (suc m * n)
product (negsuc m) (negsuc n) = pos (suc m * suc n)

abbrev integers : Scalar ℤ
integers = record {
  of_int = λ x. x;
  times = λ x y. product x y;
  over = λ x y. y;
  gravity_earth = pos 10;
  dps_2_radps = pos 57;
}

abbrev sample : SensorData ℤ
sample = record {
  values = pos 1 ∷ negsuc 1 ∷ pos 3 ∷ [];
  scale = pos 1;
  status = pos 3;
  timestamp = pos 99;
}

abbrev no_event : SensorsEvent ℤ
no_event = record {
  version = pos 0;
  sensor = pos 0;
  type = pos 0;
  timestamp = pos 0;
  status = pos 0;
  x = pos 0;
  y = pos 0;
  z = pos 0;
}

abbrev empty : Fifo (SensorsEvent ℤ)
empty = record { fifo_i = 0; fifo = replicate 8 no_event }

abbrev no_sensors : SensorTable
no_sensors = record {
  sensors = replicate 16 null_sensor;
  sensor_apis = replicate 16 0;
  number_of_sensors = 0;
}

registered :
    contents (register_client (bma250_input (pos 100)) 7 no_sensors)
    ≡ ((record { handle = pos 1; type = pos 1 }, 7) ∷ [])
unfolding register_client register
registered = refl
