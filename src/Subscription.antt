-- ===== src/Subscription.antt =====
-- The subscriptions of the client (web/client/src/common/socket/Websocket.js): the registry
-- `subscribed` of receiving functions, the options of `wbSocket`, and the effect of `useSubscribe`.
-- A receiving function is a value of the parameter `H`, and a call of it is recorded with its
-- data. Target identifiers are numbers, as the server's are; a route's identifier that is no
-- number is left out. The client's url and the handler keys, which Random makes, are arguments.
pub mod Registry
pub mod Messages
pub mod Resend
pub mod Random
pub mod Tests
use gonitor.Prelude.{
  ℕ, Bool, true, false, Option, none, some, List, [], ◌∷◌, ◌++◌, map, String, if◌then◌else◌, ◌==◌,
  nat_eq, string_eq, get, put, put_int, remove,
}
use gonitor.Prelude.Int.{pos}
use gonitor.Socket.{Socket, Options, Packet, Result, new, send}

-- `SubscribeType`
abbrev pub task_type : String
task_type = "TASK"

abbrev pub task_log_type : String
task_log_type = "TASK_LOG"

abbrev pub task_log_add_type : String
task_log_add_type = "TASK_LOG_ADD"

abbrev pub system_monitor_type : String
system_monitor_type = "SYSTEM_MONITOR"

-- `EventType`
abbrev pub subscribe_event : String
subscribe_event = "SUBSCRIBE"

abbrev pub unsubscribe_event : String
unsubscribe_event = "UNSUBSCRIBE"

abbrev pub update_event : String
update_event = "UPDATE"

abbrev pub ping_event : String
ping_event = "PING"

abbrev pub pong_event : String
pong_event = "PONG"

-- The `data` of a message: an object with a time, or the text of an object with a type and an
-- identifier.
pub data Payload : Type 0 where
  time : ℕ → Payload
  topic : String → ℕ → Payload

pub record Message : Type 0 where
  pub event : String
  pub payload : Payload

abbrev pub subscribe_message : String → ℕ → Message
subscribe_message type id = record { event = subscribe_event; payload = topic type id }

abbrev pub unsubscribe_message : String → ℕ → Message
unsubscribe_message type id = record { event = unsubscribe_event; payload = topic type id }

-- `res` of `messageCb`: the event, and for an update its type, identifier and data
pub record Update (D : Type 0) : Type 0 where
  pub event : String
  pub type : String
  pub id : ℕ
  pub content : D

-- `subscribed`: by type, by target and by handler key
abbrev pub Handlers : Type 0 → Type 0
Handlers H = List (String × H)

abbrev pub Targets : Type 0 → Type 0
Targets H = List (ℕ × Handlers H)

abbrev pub Registry : Type 0 → Type 0
Registry H = List (String × Targets H)

pub record Client (H D : Type 0) : Type 0 where
  pub subscribed : Registry H
  pub calls : List (H × D)

abbrev pub WbSocket : Type 0 → Type 0 → Type 0
WbSocket H D = Socket Message (Update D) (Client H D)

-- An object that is made where it is missing.
abbrev pub or_empty {ℓ κ} : {K : Type ℓ} {V : Type κ} → Option (List (K × V)) → List (K × V)
or_empty none = []
or_empty (some o) = o

module _ {H : Type 0} where
  -- `Object.keys(handlers) === 0` compares an array with a number.
  abbrev pub is_skipped : Handlers H → Bool
  is_skipped handlers = false

  abbrev pub target_messages : String → Targets H → List Message
  target_messages type [] = []
  target_messages type ((id, handlers) ∷ targets) =
      let rest = target_messages type targets in
      if is_skipped handlers then rest else subscribe_message type id ∷ rest

  -- `openCb`: what it sends, in the order of the two loops
  unfoldable pub open_messages : Registry H → List Message
  open_messages [] = []
  open_messages ((type, targets) ∷ registry) =
      target_messages type targets ++ open_messages registry

  -- `subscribed[type][id]`, `none` where one of the two is missing
  unfoldable pub handlers_of : String → ℕ → Registry H → Option (Handlers H)
  handlers_of type id registry = elim (get type registry) [
    | none ↦ none
    | some targets ↦ get id targets
  ]

  -- The registration by the effect of `useSubscribe`: the two objects are made where they are
  -- missing, and the function is put under its key.
  unfoldable pub register : String → ℕ → String → H → Registry H → Registry H
  register type id key h registry =
      let targets = or_empty (get type registry) in
      put type (put_int id (put key h (or_empty (get id targets))) targets) registry

  -- The deletion by the effect's cleanup. Where the type or the target is missing the code
  -- throws a TypeError, which is `none`.
  unfoldable pub unregister : String → ℕ → String → Registry H → Option (Registry H)
  unregister type id key registry = elim (get type registry) [
    | none ↦ none
    | some targets ↦ elim (get id targets) [
      | none ↦ none
      | some handlers ↦ some (put type (put_int id (remove key handlers) targets) registry)
    ]
  ]

  module _ {D : Type 0} where
    abbrev pub call_all : Option (Handlers H) → D → List (H × D) → List (H × D)
    call_all none d calls = calls
    call_all (some handlers) d calls = calls ++ map (λ kh. (kh.1, d)) handlers

    -- `messageCb`
    unfoldable pub message_cb : Update D → Client H D → Client H D
    message_cb res c =
        if res.event == update_event
        then record c {
          calls = call_all (handlers_of res.type res.id c.subscribed) res.content c.calls;
        }
        else c

    -- The options that `wbSocket` is made with, over the defaults of `Socket`
    unfoldable pub wb_options : String → ℕ → Options Message (Update D) (Client H D)
    wb_options url now = record {
      url = some url;
      heart_time = 5000;
      heart_msg = record { event = ping_event; payload = time now };
      is_reconnect = true;
      is_restory = false;
      reconnect_time = 5000;
      reconnect_count = pos 5;
      open_cb = some (λ c. open_messages c.subscribed);
      close_cb = some (λ c. c);
      message_cb = some message_cb;
      error_cb = some (λ c. c);
    }

    -- `const wbSocket = new Socket({...})`
    unfoldable pub wb_socket : Bool → String → ℕ → Result (WbSocket H D)
    unfolding wb_options
    wb_socket has_websocket url now =
        new has_websocket (wb_options url now) (record { subscribed = []; calls = [] })

    -- The effect of `useSubscribe`, when the component mounts or its topic changes
    unfoldable pub mount : String → ℕ → String → H → (WbSocket H D) → (WbSocket H D)
    unfolding register
    mount type id key h s =
        let s' = send (subscribe_message type id) s in
        record s' {
          app = record (s'.app) { subscribed = register type id key h s'.app.subscribed };
        }

    abbrev pub unregistered : WbSocket H D → Option (Registry H) → Option (WbSocket H D)
    unregistered s none = none
    unregistered s (some registry) =
        some (record s { app = record (s.app) { subscribed = registry } })

    -- The cleanup of that effect, `none` for a TypeError
    unfoldable pub unmount : String → ℕ → String → (WbSocket H D) → Option (WbSocket H D)
    unfolding unregister
    unmount type id key s =
        let s' = send (unsubscribe_message type id) s in
        unregistered s' (unregister type id key s'.app.subscribed)
