-- ===== src/Socket.antt =====
-- Class `Socket` (web/client/src/common/socket/Socket.js): a WebSocket with a message queue, a
-- heartbeat and a bounded number of reconnections. Its children prove what it keeps.
--
-- The browser is a parameter: `has_websocket` says whether it has the class `WebSocket`, and
-- `stringify` is `JSON.stringify`. A callback of the options acts on the rest of the client,
-- `App`, and may call `send` on the socket: `open_cb` gives the messages that it sends. Console
-- output is left out. The handlers of a connection that is closed for good no longer run, so
-- only the current connection is kept.
pub mod Timers
pub mod Step
pub mod Queue
pub mod Valid
pub mod Delivery
pub mod Outbox
pub mod Chains
pub mod Reconnect
pub mod Destroy
pub mod Tests
use gonitor.Prelude.{
  ℕ, suc, ◌+◌, Bool, true, false, not, ◌||◌, Option, none, some, List, [], ◌∷◌, ◌++◌, String,
  truthy, if◌then◌else◌, ◌==◌, nat_eq,
}
use gonitor.Prelude.Int.{ℤ, pos, negsuc, pred, is_pos, is_minus_one}
use Timers.{
  Job, TimerTable, set_timeout, clear_timeout, Heart, new_heart, reset, started, start, awaiting,
  await_server,
}

-- `ws.readyState`
pub data ReadyState : Type 0 where
  connecting opened closing closed : ReadyState

abbrev pub is_open : ReadyState → Bool
is_open ReadyState.opened = true
is_open _ = false

-- `options`, with the callbacks that are functions, `none` for any other value.
pub record Options (M D App : Type 0) : Type 0 where
  pub url : Option String
  pub heart_time : ℕ
  pub heart_msg : M
  pub is_reconnect : Bool
  pub is_restory : Bool
  pub reconnect_time : ℕ
  pub reconnect_count : ℤ
  pub open_cb : Option (App → List M)
  pub close_cb : Option (App → App)
  pub message_cb : Option (D → App → App)
  pub error_cb : Option (App → App)

-- The fields of the object, its timers, the state of its connection, and two records of what it
-- did: `connections` counts the calls of `new WebSocket`, `sent` lists the arguments of `ws.send`.
pub record Socket (M D App : Type 0) : Type 0 where
  pub heart : Heart
  pub timers : TimerTable
  pub ws : Option ReadyState
  pub reconnect_timer : Option ℕ
  pub reconnect_count : ℤ
  pub message_queue : List M
  pub options : Options M D App
  pub app : App
  pub connections : ℕ
  pub sent : List String

pub data Result (A : Type 0) : Type 0 where
  returned : A → Result A
  thrown : String → Result A

-- A parsed message of the server: `{code, data, msg}`.
pub record Packet (D : Type 0) : Type 0 where
  pub code : ℕ
  pub content : D
  pub msg : String

-- `!this.options.url`
abbrev pub has_url : Option String → Bool
has_url none = false
has_url (some u) = truthy u

abbrev pub is_connected : Option ReadyState → Bool
is_connected none = false
is_connected (some r) = is_open r

abbrev pub run_open_cb : {M App : Type 0} → Option (App → List M) → App → List M
run_open_cb none app = []
run_open_cb (some cb) app = cb app

abbrev pub run_cb : {App : Type 0} → Option (App → App) → App → App
run_cb none app = app
run_cb (some cb) app = cb app

abbrev pub run_message_cb : {D App : Type 0} → Option (D → App → App) → D → App → App
run_message_cb none d app = app
run_message_cb (some cb) d app = cb d app

-- `ws.close()`: the connection is closing, unless it is closed.
abbrev pub close_ws : Option ReadyState → Option ReadyState
close_ws none = none
close_ws (some ReadyState.closed) = some ReadyState.closed
close_ws (some _) = some ReadyState.closing

module _ {M D App : Type 0} where
  -- `send(data)` only puts the message into the queue.
  unfoldable pub send : M → Socket M D App → Socket M D App
  send m s = record s { message_queue = s.message_queue ++ m ∷ [] }

  abbrev pub send_all : List M → Socket M D App → Socket M D App
  send_all [] s = s
  send_all (m ∷ ms) s = send_all ms (send m s)

  -- `super.reset()` and `super.start(...)`
  unfoldable pub stop_heart : Socket M D App → Socket M D App
  stop_heart s = record s { timers = reset s.heart s.timers }

  unfoldable pub restart_heart : Socket M D App → Socket M D App
  restart_heart s =
      let ts = reset s.heart s.timers in
      record s { heart = started s.heart ts; timers = start s.heart ts }

  -- What the timers of the heart do: `cb(e)` sends the heartbeat, and the next stage is set.
  unfoldable pub beat : Socket M D App → Socket M D App
  beat s =
      let s' = send s.options.heart_msg s in
      record s' { heart = awaiting s'.heart s'.timers; timers = await_server s'.heart s'.timers }

  unfoldable pub server_beat : Socket M D App → Socket M D App
  server_beat s = restart_heart (send s.options.heart_msg s)

  -- The first two lines of `onopen`, and the last branch of `onReconnect`
  unfoldable pub reset_retries : Socket M D App → Socket M D App
  reset_retries s = record s {
    timers = clear_timeout s.reconnect_timer s.timers;
    options = record (s.options) { reconnect_count = s.reconnect_count };
  }

  -- `onopen`
  unfoldable pub on_open : Socket M D App → Socket M D App
  on_open s =
      let s₂ = restart_heart (reset_retries s) in
      let s₃ = send_all (run_open_cb s₂.options.open_cb s₂.app) s₂ in
      record s₃ { timers = set_timeout Job.poll 100 s₃.timers }

  -- `onReconnect()`
  unfoldable pub on_reconnect : Socket M D App → Socket M D App
  on_reconnect s =
      if is_pos s.options.reconnect_count || is_minus_one s.options.reconnect_count
      then record s {
        reconnect_timer = some s.timers.next_id;
        timers = set_timeout Job.reconnect s.options.reconnect_time s.timers;
      }
      else reset_retries s

  -- `!this.options.isRestory && this.onReconnect()`
  unfoldable pub reconnect_unless_destroyed : Socket M D App → Socket M D App
  reconnect_unless_destroyed s = if s.options.is_restory then s else on_reconnect s

  -- `onclose`
  unfoldable pub on_close : Socket M D App → Socket M D App
  on_close s =
      let s₂ = reconnect_unless_destroyed (stop_heart s) in
      record s₂ { app = run_cb s₂.options.close_cb s₂.app }

  -- `onerror`
  unfoldable pub on_error : Socket M D App → Socket M D App
  on_error s = record s { app = run_cb s.options.error_cb s.app }

  -- `onmessage`, behind `JSON.parse`
  unfoldable pub on_message : Packet D → Socket M D App → Socket M D App
  on_message p s =
      if p.code == 200
      then (let s' = restart_heart s in
          record s' { app = run_message_cb s'.options.message_cb p.content s'.app })
      else s

  -- `destroy()`
  unfoldable pub destroy : Socket M D App → Socket M D App
  destroy s =
      let s' = stop_heart s in
      record s' {
        timers = clear_timeout s'.reconnect_timer s'.timers;
        options = record (s'.options) { is_restory = true };
        ws = close_ws s'.ws;
      }

module _ {M D App : Type 0} (stringify : M → String) where
  -- The recursion of `fireSend()` over the queue, where the connection is open: every message is
  -- sent, and then the empty queue is polled again in 100 ms.
  unfoldable pub drain : List M → Socket M D App → Socket M D App
  drain [] s = record s { message_queue = []; timers = set_timeout Job.poll 100 s.timers }
  drain (m ∷ ms) s = drain ms (record s { message_queue = ms; sent = s.sent ++ stringify m ∷ [] })

  -- `fireSend()`: by the queue and, unless that is empty, by `readyState`.
  unfoldable pub fire_send_on : List M → Bool → Socket M D App → Socket M D App
  unfolding drain
  fire_send_on [] connected s = record s { timers = set_timeout Job.poll 100 s.timers }
  fire_send_on (m ∷ ms) false s = s
  fire_send_on (m ∷ ms) true s = drain (m ∷ ms) s

  abbrev pub fire_send : Socket M D App → Socket M D App
  fire_send s = fire_send_on s.message_queue (is_connected s.ws) s

-- The object with its fields as the class sets them, before `create`
abbrev pub blank : {M D App : Type 0} → Options M D App → App → Socket M D App
blank options app = record {
  heart = new_heart;
  timers = record { next_id = 1; pending = [] };
  ws = none;
  reconnect_timer = none;
  reconnect_count = pos 10;
  message_queue = [];
  options = options;
  app = app;
  connections = 0;
  sent = [];
}

module _ {M D App : Type 0} (has_websocket : Bool) where
  -- `create()`
  unfoldable pub create : Socket M D App → Result (Socket M D App)
  create s =
      if not has_websocket
      then thrown "The current browser does not support it and cannot be used"
      else if not (has_url s.options.url)
      then thrown "The address does not exist, the channel cannot be established"
      else returned (record s { ws = some ReadyState.connecting; connections = suc s.connections })

  -- `constructor(ops)`, `options` being the defaults with `ops` assigned over them
  unfoldable pub new : Options M D App → App → Result (Socket M D App)
  unfolding create
  new options app = create (blank options app)

  -- The timer that `onReconnect` sets. An exception of `create` ends it.
  unfoldable pub reconnected : Socket M D App → Result (Socket M D App)
  unfolding create
  reconnected s = elim (create s) [
    | thrown e ↦ thrown e
    | returned s' ↦ returned (
        if is_minus_one s'.options.reconnect_count then s' else record s' {
          options = record (s'.options) { reconnect_count = pred s'.options.reconnect_count };
        })
  ]
