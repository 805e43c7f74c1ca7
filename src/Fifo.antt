-- ===== src/Fifo.antt =====
-- sensors_fifo.c: the queue of events between the sensors and the reader of the HAL.
pub mod Queue
pub mod Trace
mod Tests
use akm_dash.Common.{
  ℕ, zero, suc, ◌+◌, Bool, true, false, ◌&&◌, List, [], ◌∷◌, ◌++◌, get_or, set, ltb, if◌then◌else◌,
}

abbrev pub fifo_len : ℕ
fifo_len = 8

-- The static `sensors_fifo`, without its mutex and condition, over any type of events.
pub record Fifo {ℓ} (E : Type ℓ) : Type ℓ where
  pub fifo_i : ℕ
  pub fifo : List E

module _ {ℓ} {E : Type ℓ} where
  -- `sensors_fifo_put` under the mutex. A full queue drops the event.
  unfoldable pub put : E → Fifo E → Fifo E
  put e f =
      if ltb f.fifo_i fifo_len
      then record { fifo_i = suc f.fifo_i; fifo = set f.fifo f.fifo_i e }
      else f

  -- The copy loop of `sensors_fifo_get_all` from index `i` on: what it writes to `data`. The first
  -- argument bounds the rounds; `d` is what a read outside the array would give.
  unfoldable pub copy : E → ℕ → ℕ → ℕ → Fifo E → List E
  copy d zero i len f = []
  copy d (suc k) i len f =
      let rest = copy d k (suc i) len f in
      if ltb i f.fifo_i && ltb i len then get_or f.fifo i d ∷ rest else []

  -- `sensors_fifo_get_all` from its wake-up on: the events copied, as many as it returns, and the
  -- queue after it. The loop ends before its index reaches `fifo_i`.
  unfoldable pub get_all : E → ℕ → Fifo E → List E × Fifo E
  unfolding copy
  get_all d len f = (copy d f.fifo_i 0 len f, record f { fifo_i = 0 })

-- The reader in `sensors_module_poll`: outside of a call, waiting on the condition, or woken.
pub data Reader : Type 0 where
  idle waiting woken : Reader

-- What may happen: a put, a reader that calls `get_all`, a return of `pthread_cond_wait` without a
-- put, which it is allowed, or a woken reader that goes on with room for this many events.
pub data Event {ℓ} (E : Type ℓ) : Type ℓ where
  put_one : E → Event E
  enter : Event E
  spurious : Event E
  leave : ℕ → Event E

-- The queue, its reader and what the reader has been given, oldest first.
pub record State {ℓ} (E : Type ℓ) : Type ℓ where
  pub queue : Fifo E
  pub reader : Reader
  pub given : List E

-- A wake-up, by `pthread_cond_broadcast` in `sensors_fifo_put` or spurious; it is not remembered
-- for a later reader.
unfoldable pub wake : Reader → Reader
wake idle = idle
wake waiting = woken
wake woken = woken

-- `pthread_cond_wait` in `sensors_fifo_get_all`, whatever the queue holds.
unfoldable pub start : Reader → Reader
start idle = waiting
start waiting = waiting
start woken = woken

module _ {ℓ} {E : Type ℓ} (d : E) where
  -- A reader that has not been woken does not go on.
  unfoldable pub finish : Reader → ℕ → State E → State E
  unfolding get_all
  finish idle len s = s
  finish waiting len s = s
  finish woken len s =
      let (xs, q) = get_all d len s.queue in
      record { queue = q; reader = idle; given = s.given ++ xs }

  unfoldable pub apply : Event E → State E → State E
  unfolding put wake start finish
  apply (put_one e) s = record s { queue = put e s.queue; reader = wake s.reader }
  apply enter s = record s { reader = start s.reader }
  apply spurious s = record s { reader = wake s.reader }
  apply (leave len) s = finish s.reader len s

  unfoldable pub run : List (Event E) → State E → State E
  run [] s = s
  run (e ∷ es) s = run es (apply e s)
