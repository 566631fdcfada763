-- ===== src/Socket/Step.antt =====
-- What can happen to a socket of common/socket/Socket.js, as steps that the browser, the server
-- and the rest of the client choose. An event that the browser cannot raise changes nothing.
use gonitor.Prelude.{ℕ, Bool, Option, none, some, List, [], ◌∷◌, String}
use gonitor.Socket.Timers.{Job, clear_timeout, job_of}
use gonitor.Socket.{
  Socket, ReadyState, connecting, opened, closing, closed, Result, returned, thrown, Packet, send,
  fire_send, on_open, on_close, on_error, on_message, reconnected, destroy,
}
use gonitor.Socket

-- `server_closes` is the begin of the closing handshake, which no handler sees.
pub data Event (M D : Type 0) : Type 0 where
  opens server_closes closes fails destroys : Event M D
  receives : Packet D → Event M D
  fires : ℕ → Event M D
  sends : M → Event M D

module _ {M D App : Type 0} where
  abbrev pub connect : Option ReadyState → Socket M D App → Socket M D App
  connect (some ReadyState.connecting) s = on_open (record s { ws = some ReadyState.opened })
  connect _ s = s

  abbrev pub begin_close : Option ReadyState → Socket M D App → Socket M D App
  begin_close (some ReadyState.opened) s = record s { ws = some ReadyState.closing }
  begin_close _ s = s

  abbrev pub disconnect : Option ReadyState → Socket M D App → Socket M D App
  disconnect none s = s
  disconnect (some ReadyState.closed) s = s
  disconnect (some _) s = on_close (record s { ws = some ReadyState.closed })

  abbrev pub deliver : Option ReadyState → Packet D → Socket M D App → Socket M D App
  deliver (some ReadyState.opened) p s = on_message p s
  deliver _ p s = s

module _ {M D App : Type 0} (has_websocket : Bool) (stringify : M → String) where
  -- An exception in a timer's function leaves the object as it was.
  abbrev pub after : Socket M D App → Result (Socket M D App) → Socket M D App
  after s (returned s') = s'
  after s (thrown e) = s

  -- The function that a timer runs.
  unfoldable pub run_job : Job → Socket M D App → Socket M D App
  run_job Job.beat s = Socket.beat s
  run_job Job.server_beat s = Socket.server_beat s
  run_job Job.poll s = fire_send stringify s
  run_job Job.reconnect s = after s (reconnected has_websocket s)

  -- The timer `i` is over, and its function runs, if it is still pending.
  unfoldable pub fire : ℕ → Option Job → Socket M D App → Socket M D App
  unfolding run_job
  fire i none s = s
  fire i (some job) s = run_job job (record s { timers = clear_timeout (some i) s.timers })

  unfoldable pub step : Socket M D App → Event M D → Socket M D App
  unfolding fire
  step s opens = connect s.ws s
  step s server_closes = begin_close s.ws s
  step s closes = disconnect s.ws s
  step s fails = on_error s
  step s destroys = destroy s
  step s (receives p) = deliver s.ws p s
  step s (fires i) = fire i (job_of i s.timers.pending) s
  step s (sends m) = send m s

  abbrev pub run : Socket M D App → List (Event M D) → Socket M D App
  run s [] = s
  run s (e ∷ es) = run (step s e) es
