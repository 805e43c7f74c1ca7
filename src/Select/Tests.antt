-- ===== src/Select/Tests.antt =====
-- Runs of sensors_select.c with the pipe at the descriptors 5 and 6.
use akm_dash.Common.{◌≡◌, refl, pos, negsuc, true, some, [], ◌∷◌}
use akm_dash.Worker
use akm_dash.Select.{
  Select, init, destroy, set_fd, watch, react, drain, close_fd, close_all, notify,
}
use akm_dash.Select.Descriptors.{set_all, set_all-destroy}

abbrev memory : Select
memory = record {
  worker = Worker.init;
  fd = pos 0;
  ctl_read = pos 0;
  ctl_write = pos 0;
  delay = pos 0;
  wakeups = 0;
  closed = [];
}

abbrev started : Select
started = record memory {
  worker = Worker.set_delay (pos 0) Worker.init;
  fd = pos 9;
  ctl_read = pos 5;
  ctl_write = pos 6;
}

init_runs : init memory (pos 9) (some (pos 5, pos 6)) ≡ started
unfolding init
init_runs = refl

notified : (set_fd true (pos 4) started).wakeups ≡ 1
unfolding set_fd notify
notified = refl

-- A driver that closes its descriptor, and one that never had any.
closed_once : (destroy (set_fd true (negsuc 0) started)).closed ≡ pos 9 ∷ pos 5 ∷ pos 6 ∷ []
unfolding destroy close_all close_fd set_fd notify
closed_once = refl

pipe_first : react (pos 2) true true (watch started) started ≡ drain
unfolding react
pipe_first = refl

set_all-destroy_run :
    (destroy (set_all (pos 3 ∷ pos 4 ∷ []) started)).closed
    ≡ pos 9 ∷ pos 3 ∷ pos 4 ∷ pos 5 ∷ pos 6 ∷ []
set_all-destroy_run = set_all-destroy (pos 3 ∷ pos 4 ∷ []) started refl refl refl (refl, (refl, tt))
