-- ===== src/Socket/Queue.antt =====
-- The message queue of common/socket/Socket.js: what `send` takes is sent once, in order, and
-- over an open connection only.
use gonitor.Prelude.{
  ℕ, Bool, true, false, Option, none, some, List, [], ◌∷◌, ◌++◌, map, String, ◌≡◌, refl, sym, ap,
  ◌∙◌, append_assoc, append-nil, map-append, arith,
}
use gonitor.Socket
use gonitor.Socket.Timers.{Job, set_timeout, job_of}
use gonitor.Socket.{
  Socket, Packet, ReadyState, opened, connecting, is_connected, send, send_all, drain, fire_send_on,
  fire_send, run_open_cb, on_open, on_close, stop_heart, restart_heart, reset_retries, on_reconnect,
  reconnect_unless_destroyed, on_error, on_message, reconnected, destroy, create,
}
use gonitor.Socket.Step.{
  Event, opens, server_closes, closes, fails, destroys, receives, fires, sends, run_job, fire, step,
  run, connect, begin_close, disconnect, deliver,
}

-- What an event gives to `send`: the callback of `onopen`, a heartbeat, or the client's message.
abbrev pub pushed_by_job : {M : Type 0} → Job → M → List M
pushed_by_job Job.beat m = m ∷ []
pushed_by_job Job.server_beat m = m ∷ []
pushed_by_job Job.poll m = []
pushed_by_job Job.reconnect m = []

module _ {M D App : Type 0} where
  abbrev pub pushed_by_timer : Option Job → Socket M D App → List M
  pushed_by_timer none s = []
  pushed_by_timer (some job) s = pushed_by_job job s.options.heart_msg

  abbrev pub pushed_by_open : Option ReadyState → Socket M D App → List M
  pushed_by_open (some ReadyState.connecting) s = run_open_cb s.options.open_cb s.app
  pushed_by_open _ s = []

  abbrev pub pushed : Socket M D App → Event M D → List M
  pushed s opens = pushed_by_open s.ws s
  pushed s (fires i) = pushed_by_timer (job_of i s.timers.pending) s
  pushed s (sends m) = m ∷ []
  pushed s server_closes = []
  pushed s closes = []
  pushed s fails = []
  pushed s destroys = []
  pushed s (receives p) = []

module _ {M D App : Type 0} (stringify : M → String) where
  -- Everything that was ever given to `send`, as text: what was sent, and then what waits.
  abbrev pub history : Socket M D App → List String
  history s = s.sent ++ map stringify s.message_queue

  -- The recursion of `fireSend` over an open connection, in one go.
  pub drain_lem :
      (ms : List M) (s : Socket M D App)
      → drain stringify ms s ≡ record s {
        message_queue = [];
        sent = s.sent ++ map stringify ms;
        timers = set_timeout Job.poll 100 s.timers;
      }
  unfolding drain
  drain_lem [] s = λ i. record s {
    message_queue = [];
    sent = sym (append-nil s.sent) i;
    timers = set_timeout Job.poll 100 s.timers;
  }
  drain_lem (m ∷ ms) s =
      drain_lem ms (record s { message_queue = ms; sent = s.sent ++ stringify m ∷ [] }) ∙ λ i.
      record s {
        message_queue = [];
        sent = append_assoc s.sent (stringify m ∷ []) (map stringify ms) i;
        timers = set_timeout Job.poll 100 s.timers;
      }

  history-send : (m : M) (s : Socket M D App) → history (send m s) ≡ history s ++ stringify m ∷ []
  unfolding send
  history-send m s = simp (map-append, append_assoc)

  history-send_all :
      (ms : List M) (s : Socket M D App) → history (send_all ms s) ≡ history s ++ map stringify ms
  history-send_all [] s = sym (append-nil _)
  history-send_all (m ∷ ms) s = history-send_all ms (send m s) ∙ simp (history-send, append_assoc)

  history-fire_send_on :
      (q : List M) (connected : Bool) (s : Socket M D App)
      → s.message_queue ≡ q
      → history (fire_send_on stringify q connected s) ≡ history s
  unfolding fire_send_on
  history-fire_send_on [] connected s e = refl
  history-fire_send_on (m ∷ ms) false s e = refl
  history-fire_send_on (m ∷ ms) true s e =
      ap history (drain_lem (m ∷ ms) s) ∙ append-nil _ ∙ ap (λ q. s.sent ++ map stringify q) (sym e)

  history-on_open :
      (s : Socket M D App)
      → history (on_open s) ≡ history s ++ map stringify (run_open_cb s.options.open_cb s.app)
  unfolding on_open restart_heart reset_retries
  history-on_open s = history-send_all (run_open_cb s.options.open_cb s.app) _

  history-on_close : (s : Socket M D App) → history (on_close s) ≡ history s
  unfolding on_close reconnect_unless_destroyed stop_heart on_reconnect reset_retries
  history-on_close s = ground arith

  history-on_message : (p : Packet D) (s : Socket M D App) → history (on_message p s) ≡ history s
  unfolding on_message restart_heart
  history-on_message p s = ground arith

  history-reconnected :
      (has_websocket : Bool) (s : Socket M D App)
      → history (run_job has_websocket stringify Job.reconnect s) ≡ history s
  unfolding run_job reconnected
  history-reconnected has_websocket s = ground arith

  module _ (has_websocket : Bool) where
    history-run_job :
        (job : Job) (s : Socket M D App)
        → history (run_job has_websocket stringify job s)
          ≡ history s ++ map stringify (pushed_by_job job s.options.heart_msg)
    unfolding run_job Socket.beat Socket.server_beat send restart_heart
    history-run_job Job.beat s = history-send s.options.heart_msg s
    history-run_job Job.server_beat s = history-send s.options.heart_msg s
    history-run_job Job.poll s =
        history-fire_send_on s.message_queue (is_connected s.ws) s refl ∙ sym (append-nil _)
    history-run_job Job.reconnect s = history-reconnected has_websocket s ∙ sym (append-nil _)

    history-connect :
        (r : Option ReadyState) (s : Socket M D App)
        → history (connect r s) ≡ history s ++ map stringify (pushed_by_open r s)
    history-connect none s = sym (append-nil _)
    history-connect (some ReadyState.connecting) s = history-on_open _
    history-connect (some _) s = sym (append-nil _)

    history-disconnect :
        (r : Option ReadyState) (s : Socket M D App) → history (disconnect r s) ≡ history s ++ []
    history-disconnect none s = sym (append-nil _)
    history-disconnect (some ReadyState.closed) s = sym (append-nil _)
    history-disconnect (some _) s = history-on_close _ ∙ sym (append-nil _)

    history-deliver :
        (r : Option ReadyState) (p : Packet D) (s : Socket M D App)
        → history (deliver r p s) ≡ history s ++ []
    history-deliver none p s = sym (append-nil _)
    history-deliver (some ReadyState.opened) p s = history-on_message p s ∙ sym (append-nil _)
    history-deliver (some _) p s = sym (append-nil _)

    history-begin_close :
        (r : Option ReadyState) (s : Socket M D App) → history (begin_close r s) ≡ history s ++ []
    history-begin_close none s = sym (append-nil _)
    history-begin_close (some ReadyState.opened) s = sym (append-nil _)
    history-begin_close (some _) s = sym (append-nil _)

    history-fire :
        (i : ℕ) (job : Option Job) (s : Socket M D App)
        → history (fire has_websocket stringify i job s)
          ≡ history s ++ map stringify (pushed_by_timer job s)
    unfolding fire
    history-fire i none s = sym (append-nil _)
    history-fire i (some job) s = history-run_job job _

    pub history-step :
        (s : Socket M D App) (e : Event M D)
        → history (step has_websocket stringify s e) ≡ history s ++ map stringify (pushed s e)
    unfolding step destroy on_error stop_heart
    history-step s opens = history-connect s.ws s
    history-step s server_closes = history-begin_close s.ws s
    history-step s closes = history-disconnect s.ws s
    history-step s fails = sym (append-nil _)
    history-step s destroys = sym (append-nil _)
    history-step s (receives p) = history-deliver s.ws p s
    history-step s (fires i) = history-fire i (job_of i s.timers.pending) s
    history-step s (sends m) = history-send m s

    -- All that a run of events gives to `send`.
    abbrev pub pushed_by_run : Socket M D App → List (Event M D) → List M
    pushed_by_run s [] = []
    pushed_by_run s (e ∷ es) = pushed s e ++ pushed_by_run (step has_websocket stringify s e) es

    -- After any events, what was sent followed by what waits in the queue is what was there
    -- before, followed by all that was given to `send` since, in order: no message is lost, sent
    -- twice or overtaken.
    pub history-run :
        (s : Socket M D App) (es : List (Event M D))
        → history (run has_websocket stringify s es)
          ≡ history s ++ map stringify (pushed_by_run s es)
    history-run s [] = sym (append-nil _)
    history-run s (e ∷ es) =
        history-run (step has_websocket stringify s e) es
        ∙ simp (history-step s e, append_assoc, map-append)
