-- ===== src/Lib.antt =====
-- The sensor HAL of this repository: sensors that other programs reach through the table of
-- sensors_list.c, by the entry points of sensors_module.c.
--
-- The parts and the files that model them:
--   SensorList  sensors_list.c: the table of sensors and their function tables. A function table is
--               a number; the table is the two arrays and the number of places in use.
--   Wrapper     sensors_wrapper.c, sensors_wrapper.h: Android sensors (the clients) that share the
--               hardware. Wrapper/Data has its state and the routines on the list. What the drivers
--               are asked is a log of calls, and what a driver returns is any function of the log.
--   Worker      sensors_worker.c: the polling thread, in steps between its uses of the mutex, and
--               the calls that control it, which run under the mutex.
--   Select      sensors_select.c: a worker that waits for a descriptor, with the pipe that wakes it.
--   Fifo        sensors_fifo.c: the queue from the drivers to the reader in `sensors_module_poll`,
--               with the condition on which the reader waits, which may wake it spuriously.
--   Config      sensors_config.c: the configuration file, from its bytes to the values. Config/Text
--               writes out what it uses of the C library: sscanf, strtok_r, strncmp, atoi, fgets.
--   Xyz         sensors/sensor_xyz.c, sensors/sensor_xyz.h: what the drivers of three-axis input
--               devices share. Xyz/Attr has the attributes in sysfs: what is opened for writing is
--               a log, and what becomes of a write is any function of the log.
--   Client      three clients of the wrapper in sensors/wrappers: bma250na_input_accelerometer.c,
--               lsm303dlhx_accelerometer.c and l3g4200d_gyroscope.c, over any arithmetic for float.
--   Proximity   sensors/sharp_gp2.c: the driver of a proximity sensor.
--   Apds970x    sensors/apds970x.c: the driver of another, with a threshold that follows the distance.
--   Bma250      sensors/bma250_input.c: the driver of an accelerometer, whose rate Android and the
--               driver of a compass ask for. The arithmetic of float is an argument.
--   Ak0991x     sensors/ak0991xna.c: the driver of a magnetometer, which starts and stops the AKM
--               library and gives it the samples too. What the library returns is a function of the
--               calls so far, which are a log.
--   Lsm303dlh   sensors/lsm303dlh.c: an accelerometer and a magnetometer that Android and a compass
--               share: activation and rates.
--   InputCache  sensors_input_cache.c, sensors/sensor_util_list.h: the input devices that were
--               found, in a doubly linked list. InputCache/Node has the pointers in memory, by address.
--   Sysfs       sensors_sysfs.c: attributes in the directory of a device.
--   Hal         sensors_module.c: open, close, activate, set_delay and poll over the other parts.
--   Akm         libs/libakm/oss/akfs_device.c, akfs_vnorm.c: vectors and their buffers in the
--               algorithms for a compass, over any arithmetic for AKFLOAT. What a theorem needs of
--               the arithmetic is among its hypotheses. Akm/Aoc has the offset calibration of akfs_aoc.c
--               in the same directory, Akm/Measure what akfs_measure.c does with a sample.
-- Common has the shared names and lemmas: the integers, tests on numbers, lists.
--
-- A client of the HAL opens it: `sensors_module_open` reads the configuration and calls `init` of
-- every function table in the table, which for a wrapped sensor is `sensors_wrapper_init`. Requests
-- go by the handle to the function table, for a wrapped sensor to `sensors_wrapper_activate` and
-- `sensors_wrapper_set_delay`, which ask the shared drivers. A driver's worker thread reads the
-- hardware and calls `sensors_wrapper_data`, whose receivers put events into the queue.
--
-- Loops: those that count are structural recursion on the rounds that are left. The loop of
-- `sensors_list_foreach_api`, which may stay at an index, has one round of fuel more than the table
-- has rows; the jumps of `sensors_wrapper_init` have one more than the client wants sensors; the
-- lines of a file are at most its bytes; `lookup` of the input cache takes more rounds than there are
-- nodes. In each case a theorem says that this is enough.
-- A `none` of a whole operation is otherwise a use of freed memory, as its comment says.
--
-- Numbers: `int` and `int64_t` are integers without bound, since the modelled code only compares
-- and stores them, counts up to 16, or adds no more than the array sizes; where `list_get_rate`
-- compares in `uint64_t`, and where `sensor_xyz_set_delay` makes an `int` of an `int64_t`, the
-- conversion is written out. The division of doubles in `sensor_nano_sleep`
-- is taken as exact.
--
-- Not modelled: log output; the other drivers in sensors/ and the other clients in
-- sensors/wrappers/, which are functions that the model takes as arguments; the init and the reading
-- of lsm303dlh.c; sensors/sensor_util.c, which searches directories; of libs/ the rest of libakm
-- (the direction, the interface in akl_apis.c), and the stubs for the algorithms of vendors; test/.
pub mod Common
pub mod SensorList
pub mod Wrapper
pub mod Worker
pub mod Fifo
pub mod Config
pub mod Select
pub mod Hal
pub mod Xyz
pub mod Proximity
pub mod Apds970x
pub mod Bma250
pub mod Ak0991x
pub mod Lsm303dlh
pub mod Akm
pub mod InputCache
pub mod Sysfs
pub mod Client
