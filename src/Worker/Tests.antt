-- ===== src/Worker/Tests.antt =====
-- Runs of the thread of sensors_worker.c.
use akm_dash.Common.{ℕ, ◌+◌, ◌*◌, ◌<◌, ◌≤◌, ◌≡◌, refl, pos, negsuc, none, some, List, [], ◌∷◌}
use akm_dash.Worker.{
  sleep, running, decided, waiting, exited, Worker, init, suspend, resume, request_destroy, Event,
  step, delay, pause, go, end, apply, run, nano_sleep,
}
use akm_dash.Worker.Control.{
  thread_steps, destroy_ends, resume_polls, suspend_quiets, IsAlive, run-IsAlive,
}
use akm_dash.Worker.LostWakeup.{resume_lost}
use akm_dash.Worker.Sleep.{nano_sleep_exact}

abbrev asleep : Worker
asleep = record { mode = sleep; delay_ns = pos 0; place = waiting; polls = 0 }

abbrev busy : Worker
busy = record { mode = running; delay_ns = pos 0; place = decided running; polls = 5 }

-- The state that the race needs is reached from the start.
abbrev racing : Worker
racing = record { mode = sleep; delay_ns = pos 200000000; place = decided sleep; polls = 0 }

racing_reached : run (step ∷ []) init ≡ racing
unfolding run init apply
racing_reached = refl

destroy_ends_example :
    let w = thread_steps 4 (request_destroy busy) in (w.place ≡ exited) × (w.polls ≤ 5 + 1)
destroy_ends_example = destroy_ends busy ((λ e. cc), (λ e. cc))

resume_polls_run : (thread_steps 4 (resume asleep)).polls ≡ 1
resume_polls_run = resume_polls asleep refl refl

suspend_quiets_run : (thread_steps 9 (suspend busy)).polls ≤ 5 + 1
suspend_quiets_run = suspend_quiets 9 busy

abbrev working : List Event
working = go ∷ step ∷ delay (pos 5) ∷ pause ∷ []

run-IsAlive_example : IsAlive (run working busy)
run-IsAlive_example =
    run-IsAlive working busy ((λ e. cc), ((λ e. cc), ((λ e. cc), ((λ e. cc), tt))))
      ((λ e. cc), (λ e. cc), (λ e. cc))

resume_lost_example :
    let w = run (go ∷ step ∷ go ∷ step ∷ end ∷ []) racing in (w.place ≡ waiting) × (w.polls ≡ 0)
resume_lost_example =
    resume_lost (go ∷ step ∷ end ∷ []) racing refl ((λ e. cc), ((λ e. cc), ((λ e. cc), tt)))

nano_sleep_exact_run :
    (nano_sleep (negsuc 1500000000) ≡ none)
    × (nano_sleep (pos 0) ≡ none)
    × (0 < 1500000000
        → (t : ℕ × ℕ) × (nano_sleep (pos 1500000000) ≡ some t)
          × (t.0 * 1000000000 + t.1 ≡ 1500000000)
          × (t.1 < 1000000000))
nano_sleep_exact_run = nano_sleep_exact 1500000000
