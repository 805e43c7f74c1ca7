-- ===== src/Select.antt =====
-- sensors_select.c: a worker that waits for a file descriptor, and the pipe that wakes it.
pub mod Descriptors
pub mod Callback
mod Tests
use akm_dash.Common.{
  ℕ, suc, ◌-◌, ℤ, pos, negsuc, ◌==ℤ◌, ltb_ℤ, is_pos, is_neg, Bool, true, false, not, ◌&&◌, ◌||◌,
  Option, none, some, List, [], ◌∷◌, ◌++◌, if◌then◌else◌,
}
use akm_dash.Worker
use akm_dash.Worker.{Worker}

-- The fields of `struct sensors_select_t`; the number of wake-ups that stand in the pipe; and the
-- descriptors closed so far, the latest last.
pub record Select : Type 0 where
  pub worker : Worker
  pub fd : ℤ
  pub ctl_read : ℤ
  pub ctl_write : ℤ
  pub delay : ℤ
  pub wakeups : ℕ
  pub closed : List ℤ

-- `sensors_select_init` on the memory `old`; `none` is a failed `pipe`.
unfoldable pub init : Select → ℤ → Option (ℤ × ℤ) → Select
init old fd none = record old {
  worker = Worker.set_delay (pos 0) Worker.init;
  fd = fd;
  delay = pos 0;
}
init old fd (some (r, w)) = record old {
  worker = Worker.set_delay (pos 0) Worker.init;
  fd = fd;
  ctl_read = r;
  ctl_write = w;
  delay = pos 0;
}

-- `scheduler_select_notify`. A failed write is only logged.
unfoldable pub notify : Bool → Select → Select
notify true s = record s { wakeups = suc s.wakeups }
notify false s = s

unfoldable pub close_fd : ℤ → List ℤ → List ℤ
close_fd fd closed = if is_pos fd then closed ++ fd ∷ [] else closed

unfoldable pub set_delay : ℤ → Select → Select
set_delay ns s = record s { delay = ns }

unfoldable pub suspend : Bool → Select → Select
unfolding notify
suspend written s = notify written (record s { worker = Worker.suspend s.worker })

unfoldable pub resume : Bool → Select → Select
unfolding notify
resume written s = notify written (record s { worker = Worker.resume s.worker })

-- `sensors_select_set_fd`; the flag says whether the write to the pipe succeeds.
unfoldable pub set_fd : Bool → ℤ → Select → Select
unfolding notify close_fd
set_fd written fd s = notify written (record s { closed = close_fd s.fd s.closed; fd = fd })

unfoldable pub get_fd : Select → ℤ
get_fd s = s.fd

-- `sensors_select_destroy`, from the return of the worker's `destroy` on.
unfoldable pub close_all : Select → Select
unfolding close_fd
close_all s = record s {
  closed = close_fd s.ctl_write (close_fd s.ctl_read (close_fd s.fd s.closed));
  fd = if is_pos s.fd then negsuc 0 else s.fd;
}

unfoldable pub destroy : Select → Select
unfolding close_all
destroy s = close_all (record s { worker = Worker.request_destroy s.worker })

-- What `sensors_select_callback` gives to `select`: the highest number, the set, and its own copy
-- of `fd`.
pub record Watch : Type 0 where
  pub maxfd : ℤ
  pub readfds : List ℤ
  pub fd : ℤ

unfoldable pub watch : Select → Watch
watch s = record {
  maxfd = if ltb_ℤ s.fd s.ctl_read then s.ctl_read else s.fd;
  readfds = s.ctl_read ∷ (if is_neg s.fd then [] else s.fd ∷ []);
  fd = s.fd;
}

-- What the callback does after `select`: nothing, reading the pipe, or the driver's callback.
pub data Action : Type 0 where
  nothing drain callback : Action

-- The rest of `sensors_select_callback`, with the state at that time: the value of `select`, and
-- whether it has left the pipe and `fd` in the set.
unfoldable pub react : ℤ → Bool → Bool → Watch → Select → Action
react ret ctl_ready fd_ready w s =
    if is_neg ret || ret ==ℤ pos 0
    then nothing
    else if ctl_ready
    then drain
    else if not (is_neg w.fd) && fd_ready && s.fd ==ℤ w.fd
    then callback
    else nothing
