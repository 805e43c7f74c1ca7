-- ===== src/Client/Queued.antt =====
-- What the clients put into the event queue.
use akm_dash.Fifo.{Fifo}
use akm_dash.Fifo
