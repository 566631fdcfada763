-- ===== src/Socket/Delivery.antt =====
-- When the queue of web/client/src/common/socket/Socket.js is sent: over an open connection only,
-- and a pending timer does it.
use gonitor.Prelude.{
  ℕ, suc, ◌<◌, Bool, true, false, Option, none, some, List, [], ◌∷◌, ◌++◌, map, String, ◌≡◌, refl,
  sym, append-nil, arith, subst, ◌∙◌, ap,
}
use gonitor.Socket.Timers.{Job, Timer, job_of}
use gonitor.Socket.Timers.Laws.{count, Descends}
use gonitor.Socket.Timers.Named.{is_poll}
use gonitor.Socket.{
  Socket, Packet, Options, ReadyState, Result, returned, thrown, new, create, blank, run_open_cb,
  is_connected, send, send_all, drain, fire_send_on, on_open, on_close, on_error, on_message,
  on_reconnect, reconnect_unless_destroyed, stop_heart, restart_heart, reset_retries, reconnected,
  destroy,
}
use gonitor.Socket
use gonitor.Socket.Queue.{drain_lem, history}
use gonitor.Socket.Valid.{IsValid}
use gonitor.Socket.Valid.Handlers.{unfired}
use gonitor.Socket.Valid.Steps.{run-IsValid}
use gonitor.Socket.Step.{
  Event, opens, server_closes, closes, fails, destroys, receives, fires, sends, run_job, fire, step,
  run, connect, begin_close, disconnect, deliver,
}

abbrev FoundPoll : ℕ → List Timer → Type 0
FoundPoll n ts = (i : ℕ) × (i < n) × (job_of i ts ≡ some Job.poll)

find_poll_cons :
    (n : ℕ) (t : Timer) (ts : List Timer) (j : Job)
    → t.job ≡ j
    → t.id < n
    → (0 < count is_poll ts → FoundPoll t.id ts)
    → 0 < count is_poll (t ∷ ts)
    → FoundPoll n (t ∷ ts)
unfolding job_of
find_poll_cons n t ts Job.poll e b rest h = (t.id, b, ground arith)
find_poll_cons n t ts j e b rest h =
    let (i, lt, found) = rest (ground arith) in (i, omega arith, ground arith)

-- If a poll is pending, then `job_of` finds one.
find_poll : (n : ℕ) (ts : List Timer) → Descends n ts → 0 < count is_poll ts → FoundPoll n ts
find_poll n [] d h = absurd (omega arith)
find_poll n (t ∷ ts) d h = find_poll_cons n t ts t.job refl d.0 (find_poll t.id ts d.1) h

module _ {M D App : Type 0} (has_websocket : Bool) (stringify : M → String) where
  fire_send_connected :
      (q : List M) (s : Socket M D App)
      → s.message_queue ≡ q
      → ((fire_send_on stringify q true s).message_queue ≡ [])
        × ((fire_send_on stringify q true s).sent ≡ history stringify s)
  unfolding fire_send_on
  fire_send_connected [] s e =
      (e, sym (append-nil s.sent) ∙ ap (λ q. s.sent ++ map stringify q) (sym e))
  fire_send_connected (m ∷ ms) s e = (
    ap (λ r. r.message_queue) (drain_lem stringify (m ∷ ms) s),
    ap (λ r. r.sent) (drain_lem stringify (m ∷ ms) s) ∙ ap (λ q. s.sent ++ map stringify q) (sym e),
  )

  step-poll :
      (s : Socket M D App) (i : ℕ)
      → job_of i s.timers.pending ≡ some Job.poll
      → s.ws ≡ some ReadyState.opened
      → step has_websocket stringify s (fires i)
        ≡ fire_send_on stringify s.message_queue true (unfired i s)
  unfolding step fire run_job
  step-poll s i h e =
      ap (λ o. fire has_websocket stringify i o s) h
      ∙ ap (λ r. fire_send_on stringify s.message_queue (is_connected r) (unfired i s)) e

  -- If the connection of a socket that satisfies the invariant is open, then a pending timer
  -- sends the whole queue, in order: after it has run the queue is empty, and what was sent is
  -- what was sent before followed by the queue.
  pub poll_pending :
      (s : Socket M D App)
      → IsValid s
      → s.ws ≡ some ReadyState.opened
      → (i : ℕ) × (job_of i s.timers.pending ≡ some Job.poll)
        × ((step has_websocket stringify s (fires i)).message_queue ≡ [])
        × ((step has_websocket stringify s (fires i)).sent ≡ history stringify s)
  poll_pending s v e =
      let (i, b, h) = find_poll s.timers.next_id s.timers.pending v.core.named.order (v.polled e) in
      let sent = fire_send_connected s.message_queue (unfired i s) refl in
      (
        i,
        h,
        ap (λ r. r.message_queue) (step-poll s i h e) ∙ sent.0,
        ap (λ r. r.sent) (step-poll s i h e) ∙ sent.1,
      )

  sent-send_all : (ms : List M) (s : Socket M D App) → (send_all ms s).sent ≡ s.sent
  unfolding send
  sent-send_all [] s = refl
  sent-send_all (m ∷ ms) s = sent-send_all ms (send m s)

  sent-on_open : (s : Socket M D App) → (on_open s).sent ≡ s.sent
  unfolding on_open restart_heart reset_retries
  sent-on_open s =
      sent-send_all (run_open_cb s.options.open_cb s.app) (restart_heart (reset_retries s))

  sent-on_close : (s : Socket M D App) → (on_close s).sent ≡ s.sent
  unfolding on_close reconnect_unless_destroyed on_reconnect stop_heart reset_retries
  sent-on_close s = ground arith

  sent-fire_send :
      (q : List M) (s : Socket M D App) → (fire_send_on stringify q false s).sent ≡ s.sent
  unfolding fire_send_on
  sent-fire_send [] s = refl
  sent-fire_send (m ∷ ms) s = refl

  sent-fire :
      (i : ℕ) (o : Option Job) (s : Socket M D App)
      → is_connected s.ws ≡ false
      → (fire has_websocket stringify i o s).sent ≡ s.sent
  unfolding fire run_job Socket.beat Socket.server_beat send restart_heart reconnected create
  sent-fire i none s c = refl
  sent-fire i (some Job.beat) s c = refl
  sent-fire i (some Job.server_beat) s c = refl
  sent-fire i (some Job.poll) s c =
      ap (λ b. (fire_send_on stringify s.message_queue b (unfired i s)).sent) c
      ∙ sent-fire_send s.message_queue (unfired i s)
  sent-fire i (some Job.reconnect) s c = ground arith

  pub sent-connect : (r : Option ReadyState) (s : Socket M D App) → (connect r s).sent ≡ s.sent
  sent-connect none s = refl
  sent-connect (some ReadyState.connecting) s = sent-on_open _
  sent-connect (some _) s = refl

  pub sent-begin_close :
      (r : Option ReadyState) (s : Socket M D App) → (begin_close r s).sent ≡ s.sent
  sent-begin_close none s = refl
  sent-begin_close (some ReadyState.opened) s = refl
  sent-begin_close (some _) s = refl

  pub sent-disconnect :
      (r : Option ReadyState) (s : Socket M D App) → (disconnect r s).sent ≡ s.sent
  sent-disconnect none s = refl
  sent-disconnect (some ReadyState.closed) s = refl
  sent-disconnect (some _) s = sent-on_close _

  pub sent-deliver :
      (r : Option ReadyState) (p : Packet D) (s : Socket M D App) → (deliver r p s).sent ≡ s.sent
  unfolding on_message restart_heart
  sent-deliver none p s = refl
  sent-deliver (some ReadyState.opened) p s = ground arith
  sent-deliver (some _) p s = refl

  -- While the connection is not open, no event sends anything: messages wait in the queue.
  pub sent-step :
      (s : Socket M D App) (e : Event M D)
      → is_connected s.ws ≡ false
      → (step has_websocket stringify s e).sent ≡ s.sent
  unfolding step on_error destroy stop_heart send
  sent-step s opens c = sent-connect s.ws s
  sent-step s server_closes c = sent-begin_close s.ws s
  sent-step s closes c = sent-disconnect s.ws s
  sent-step s fails c = refl
  sent-step s destroys c = refl
  sent-step s (receives p) c = sent-deliver s.ws p s
  sent-step s (fires i) c = sent-fire i (job_of i s.timers.pending) s c
  sent-step s (sends m) c = refl

  pub create-eq-returned :
      (t s : Socket M D App)
      → create has_websocket t ≡ returned s
      → s ≡ record t { ws = some ReadyState.connecting; connections = suc t.connections }
  unfolding create
  create-eq-returned t s e = ground arith

  new-IsValid :
      (options : Options M D App) (app : App) (s : Socket M D App)
      → new has_websocket options app ≡ returned s
      → IsValid s
  unfolding new create
  new-IsValid options app s e =
      subst IsValid (sym (create-eq-returned (blank options app) s e)) (record {
        core = record {
          named = record {
            order = tt;
            beat_all = tt;
            beat_only = tt;
            beat_below = tt;
            server_all = tt;
            server_only = tt;
            server_below = tt;
            reconnect_all = tt;
            reconnect_only = tt;
            reconnect_below = tt;
          };
          one_heart = omega arith;
          one_reconnect = omega arith;
          waits = λ h. absurd (omega arith);
        };
        polled = λ h. cc;
      })

  -- Whatever events follow the constructor, the socket satisfies the invariant: its handles name
  -- its timers, at most one timer of the heart and one of the reconnection are pending, an open
  -- connection has a poll of the queue pending, and a reconnection is pending only while the
  -- connection is closed and the socket is not destroyed.
  pub run-new :
      (options : Options M D App) (app : App) (s : Socket M D App) (es : List (Event M D))
      → new has_websocket options app ≡ returned s
      → IsValid (run has_websocket stringify s es)
  run-new options app s es e =
      run-IsValid has_websocket stringify s es (new-IsValid options app s e)
