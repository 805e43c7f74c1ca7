-- ===== src/Worker.antt =====
-- sensors_worker.c: the polling thread of a sensor and the four calls that control it.
pub mod Control
pub mod LostWakeup
pub mod Sleep
mod Tests
use akm_dash.Common.{
  ℕ, zero, suc, ◌/◌, ◌%◌, ℤ, pos, negsuc, Option, none, some, List, [], ◌∷◌, ◌==◌, if◌then◌else◌,
}

-- `enum sensors_worker_mode`.
pub data Mode : Type 0 where
  no_init sleep running destroy : Mode

-- Where the thread stands: before it reads the mode; with the mode that it has read; in
-- `pthread_cond_wait`; woken up there; behind the `switch`; or ended.
pub data Place : Type 0 where
  top : Place
  decided : Mode → Place
  waiting woken pausing exited : Place

-- The worker's fields, the thread's place and the number of `poll_callback` calls so far.
pub record Worker : Type 0 where
  pub mode : Mode
  pub delay_ns : ℤ
  pub place : Place
  pub polls : ℕ

-- `sensors_worker_init`: 200000000 ns, and a thread that has not run.
unfoldable pub init : Worker
init = record { mode = sleep; delay_ns = pos 200000000; place = top; polls = 0 }

-- What the `switch` does with the mode that was read. The callback is counted.
unfoldable pub switch : Mode → Worker → Worker
switch destroy w = record w { place = exited }
switch sleep w = record w { place = waiting }
switch running w = record w { place = pausing; polls = suc w.polls }
switch no_init w = record w { place = pausing; polls = suc w.polls }

-- One step of `sensors_worker_internal_worker` up to the next point where it takes or gives up the
-- mutex. A waiting thread, which only a broadcast wakes (spurious wake-ups are left out), and an
-- ended thread do not move.
unfoldable pub thread_at : Place → Worker → Worker
unfolding switch
thread_at top w = record w { place = decided w.mode }
thread_at (decided m) w = switch m w
thread_at waiting w = w
thread_at woken w = record w { place = pausing }
thread_at pausing w = record w { place = top }
thread_at exited w = w

unfoldable pub thread : Worker → Worker
unfolding thread_at
thread w = thread_at w.place w

-- `pthread_cond_broadcast` wakes the thread if it waits, and is not remembered if it does not.
unfoldable pub broadcast : Place → Place
broadcast waiting = woken
broadcast top = top
broadcast (decided m) = decided m
broadcast woken = woken
broadcast pausing = pausing
broadcast exited = exited

-- The broadcast of `resume` and `destroy`, which depends on the mode before.
unfoldable pub wake_from : Mode → Place → Place
unfolding broadcast
wake_from sleep p = broadcast p
wake_from no_init p = p
wake_from running p = p
wake_from destroy p = p

unfoldable pub set_delay : ℤ → Worker → Worker
set_delay ns w = record w { delay_ns = ns }

unfoldable pub suspend : Worker → Worker
suspend w = record w { mode = sleep }

unfoldable pub resume : Worker → Worker
unfolding wake_from
resume w = record w { mode = running; place = wake_from w.mode w.place }

-- `sensors_worker_destroy` up to its `pthread_join`, which returns when the thread has ended.
unfoldable pub request_destroy : Worker → Worker
unfolding wake_from
request_destroy w = record w { mode = destroy; place = wake_from w.mode w.place }

-- What may happen next: a step of the thread, or one of the calls, each under the mutex.
pub data Event : Type 0 where
  step : Event
  delay : ℤ → Event
  pause : Event
  go : Event
  end : Event

unfoldable pub apply : Event → Worker → Worker
unfolding thread set_delay suspend resume request_destroy
apply step w = thread w
apply (delay ns) w = set_delay ns w
apply pause w = suspend w
apply go w = resume w
apply end w = request_destroy w

unfoldable pub run : List Event → Worker → Worker
run [] w = w
run (e ∷ es) w = run es (apply e w)

-- The seconds and nanoseconds that `sensor_nano_sleep` sleeps; `none` where it returns at once. Its
-- division of `double`s is exact to the second for the values below 2 ^ 53.
unfoldable pub nano_sleep : ℤ → Option (ℕ × ℕ)
nano_sleep (negsuc n) = none
nano_sleep (pos n) = if n == 0 then none else some (n / 1000000000, n % 1000000000)
