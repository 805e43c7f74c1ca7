-- ===== src/Worker/LostWakeup.antt =====
-- A wake-up that sensors_worker.c loses: the thread gives up the mutex between its read of the mode
-- and its wait, and waits without looking again.
use akm_dash.Common.{◌≡◌, ◌≢◌, refl, ◌∙◌, List, [], ◌∷◌, arith}
use akm_dash.Worker.{
  sleep, decided, waiting, Worker, Event, step, delay, pause, go, end, apply, run,
}

-- The thread waits though it is not to sleep.
abbrev pub IsLost : Worker → Type 0
IsLost w = (w.place ≡ waiting) × (w.mode ≢ sleep)

-- No `sensors_worker_suspend` among the events.
abbrev pub NoSuspend : List Event → Type 0
NoSuspend [] = Unit
NoSuspend (e ∷ es) = (e ≢ pause) × NoSuspend es

apply-IsLost :
    (e : Event) (w : Worker)
    → e ≢ pause
    → IsLost w
    → IsLost (apply e w) × ((apply e w).polls ≡ w.polls)
unfolding apply
apply-IsLost step w n h = ground arith
apply-IsLost (delay ns) w n h = ground arith
apply-IsLost pause w n h = absurd (n refl)
apply-IsLost go w n h = ground arith
apply-IsLost end w n h = ground arith

run-IsLost :
    (es : List Event) (w : Worker)
    → NoSuspend es
    → IsLost w
    → IsLost (run es w) × ((run es w).polls ≡ w.polls)
unfolding run
run-IsLost [] w n h = (h, refl)
run-IsLost (e ∷ es) w n h =
    let (l, p) = apply-IsLost e w n.0 h in
    let (l', p') = run-IsLost es (apply e w) n.1 l in (l', p' ∙ p)

resume_race :
    (w : Worker)
    → w.place ≡ decided sleep
    → IsLost (apply step (apply go w)) × ((apply step (apply go w)).polls ≡ w.polls)
unfolding apply
resume_race w h = ground arith

-- If `sensors_worker_resume` runs after the thread has read SENSOR_SLEEP and before it waits, the
-- wake-up is lost: from then on, without a spurious wake-up, the thread waits and makes no
-- callback, whatever calls of `resume`, `set_delay` and `destroy` follow, if no `suspend` does.
pub resume_lost :
    (es : List Event) (w : Worker)
    → w.place ≡ decided sleep
    → NoSuspend es
    → let w' = run (go ∷ step ∷ es) w in (w'.place ≡ waiting) × (w'.polls ≡ w.polls)
unfolding run
resume_lost es w h n =
    let (l, p) = resume_race w h in
    let (l', p') = run-IsLost es (apply step (apply go w)) n l in (l'.0, p' ∙ p)
