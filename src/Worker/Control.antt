-- ===== src/Worker/Control.antt =====
-- What the control calls of sensors_worker.c achieve, where no wake-up is lost.
use akm_dash.Common.{ℕ, zero, suc, ◌+◌, ◌≤◌, ◌≡◌, ◌≢◌, refl, List, [], ◌∷◌, arith}
use akm_dash.Worker.{
  no_init, sleep, running, destroy, Place, top, decided, waiting, woken, pausing, exited, Worker,
  thread, suspend, resume, request_destroy, Event, step, delay, pause, go, end, apply, run,
}

abbrev pub thread_steps : ℕ → Worker → Worker
thread_steps zero w = w
thread_steps (suc n) w = thread_steps n (thread w)

-- The thread is not between its read of SENSOR_SLEEP and the wait, and waits only while the mode
-- is SENSOR_SLEEP.
abbrev pub IsAttentive : Worker → Type 0
IsAttentive w = (w.place ≢ decided sleep) × (w.place ≡ waiting → w.mode ≡ sleep)

-- After `sensors_worker_destroy` of a worker that does not stand between its read of SENSOR_SLEEP
-- and the wait, and whose thread waits only in SENSOR_SLEEP, the thread ends within four of its own
-- steps, so that the join returns, and it makes at most one more callback.
pub destroy_ends :
    (w : Worker)
    → IsAttentive w
    → let w' = thread_steps 4 (request_destroy w) in (w'.place ≡ exited) × (w'.polls ≤ w.polls + 1)
unfolding thread request_destroy
destroy_ends w h = ground arith

-- `sensors_worker_resume` of a worker that waits in SENSOR_SLEEP makes the thread call back: one
-- more call has been made after four of its steps.
pub resume_polls :
    (w : Worker)
    → w.mode ≡ sleep
    → w.place ≡ waiting
    → (thread_steps 4 (resume w)).polls ≡ suc w.polls
unfolding thread resume
resume_polls w h k = ground arith

-- The callbacks that a thread makes before it looks at the mode again.
abbrev pending : Place → ℕ
pending top = 0
pending (decided running) = 1
pending (decided no_init) = 1
pending (decided sleep) = 0
pending (decided destroy) = 0
pending waiting = 0
pending woken = 0
pending pausing = 0
pending exited = 0

pending-le : (p : Place) → pending p ≤ 1
pending-le top = omega arith
pending-le (decided running) = omega arith
pending-le (decided no_init) = omega arith
pending-le (decided sleep) = omega arith
pending-le (decided destroy) = omega arith
pending-le waiting = omega arith
pending-le woken = omega arith
pending-le pausing = omega arith
pending-le exited = omega arith

thread_asleep :
    (w : Worker)
    → w.mode ≡ sleep
    → ((thread w).mode ≡ sleep)
      × ((thread w).polls + pending (thread w).place ≤ w.polls + pending w.place)
unfolding thread
thread_asleep w h = ground arith

steps_asleep :
    (n : ℕ) (w : Worker) → w.mode ≡ sleep → (thread_steps n w).polls ≤ w.polls + pending w.place
steps_asleep zero w h = omega arith
steps_asleep (suc n) w h =
    let (m, le) = thread_asleep w h in omega (arith, steps_asleep n (thread w) m)

-- After `sensors_worker_suspend` the thread makes at most one more callback, however far it runs.
pub suspend_quiets : (n : ℕ) (w : Worker) → (thread_steps n (suspend w)).polls ≤ w.polls + 1
unfolding suspend
suspend_quiets n w =
    omega (arith, steps_asleep n (record w { mode = sleep }) refl, pending-le w.place)

-- No `sensors_worker_destroy` among the events.
abbrev pub NoDestroy : List Event → Type 0
NoDestroy [] = Unit
NoDestroy (e ∷ es) = (e ≢ end) × NoDestroy es

-- The thread has not ended, and is not about to.
abbrev pub IsAlive : Worker → Type 0
IsAlive w = (w.mode ≢ destroy) × (w.place ≢ decided destroy) × (w.place ≢ exited)

apply-IsAlive : (e : Event) (w : Worker) → e ≢ end → IsAlive w → IsAlive (apply e w)
unfolding apply
apply-IsAlive step w n h = ground arith
apply-IsAlive (delay ns) w n h = h
apply-IsAlive pause w n h = ground arith
apply-IsAlive go w n h = ground arith
apply-IsAlive end w n h = absurd (n refl)

-- The polling thread ends only by `sensors_worker_destroy`: from a worker that is alive, under any
-- sequence of its own steps and of the other three calls, it stays alive.
pub run-IsAlive : (es : List Event) (w : Worker) → NoDestroy es → IsAlive w → IsAlive (run es w)
unfolding run
run-IsAlive [] w n h = h
run-IsAlive (e ∷ es) w n h = run-IsAlive es (apply e w) n.1 (apply-IsAlive e w n.0 h)
