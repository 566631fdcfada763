-- ===== src/Socket/Outbox.antt =====
-- What the class of web/client/src/common/socket/Socket.js promises of messages, as an abstract
-- outbox of texts, and that the class implements it.
use gonitor.Prelude.{
  ℕ, Bool, true, false, Option, none, some, List, [], ◌∷◌, ◌++◌, map, String, ◌≡◌, refl, sym, ap,
  ◌∙◌, append_assoc, append-nil, arith, subst,
}
use mathlib.Core.List.{append_cancel_left}
use gonitor.Socket.Timers.{Job, job_of}
use gonitor.Socket.{
  Socket, Options, ReadyState, Result, returned, is_connected, new, create, blank, send, drain,
  fire_send_on, on_error, destroy, stop_heart, restart_heart, reconnected,
}
use gonitor.Socket
use gonitor.Socket.Queue.{drain_lem, history-step, pushed}
use gonitor.Socket.Valid.Handlers.{unfired}
use gonitor.Socket.Delivery.{
  sent-step, sent-connect, sent-begin_close, sent-disconnect, sent-deliver, create-eq-returned,
}
use gonitor.Socket.Step.{
  Event, opens, server_closes, closes, fails, destroys, receives, fires, sends, run_job, fire, step,
  run,
}

-- The texts that were delivered and those that wait, both in order, and whether the connection is
-- open
pub record Outbox : Type 0 where
  pub delivered : List String
  pub waiting : List String
  pub is_up : Bool

abbrev pub box : List String → List String → Bool → Outbox
box ds ws b = record { delivered = ds; waiting = ws; is_up = b }

-- What is seen of a step: a text that enters, or the state of the connection from then on
pub data Label : Type 0 where
  enter : String → Label
  turn : Bool → Label

-- The runs of an outbox with what is seen of them. A text that enters waits behind the others;
-- only while the connection is open is a text delivered, the first of those that wait.
pub data Runs : Outbox → List Label → Outbox → Type 0 where
  rest : {o : Outbox} → Runs o [] o
  enters :
      {ds ws : List String} {b : Bool} (t : String) {ls : List Label} {o : Outbox}
      → Runs (box ds (ws ++ t ∷ []) b) ls o
      → Runs (box ds ws b) (enter t ∷ ls) o
  leaves :
      {ds ws : List String} (t : String) {ls : List Label} {o : Outbox}
      → Runs (box (ds ++ t ∷ []) ws true) ls o
      → Runs (box ds (t ∷ ws) true) ls o
  turns :
      {ds ws : List String} {b : Bool} (c : Bool) {ls : List Label} {o : Outbox}
      → Runs (box ds ws c) ls o
      → Runs (box ds ws b) (turn c ∷ ls) o

enter_all :
    (ds ws ts : List String) (b : Bool) (ls : List Label) (o : Outbox)
    → Runs (box ds (ws ++ ts) b) ls o
    → Runs (box ds ws b) (map enter ts ++ ls) o
enter_all ds ws [] b ls o h = subst (λ x. Runs (box ds x b) ls o) (append-nil ws) h
enter_all ds ws (t ∷ ts) b ls o h = enters t (
    enter_all ds (ws ++ t ∷ []) ts b ls o
      (subst (λ x. Runs (box ds x b) ls o) (sym (append_assoc ws (t ∷ []) ts)) h))

leave_all :
    (ds ts ws : List String) (ls : List Label) (o : Outbox)
    → Runs (box (ds ++ ts) ws true) ls o
    → Runs (box ds (ts ++ ws) true) ls o
leave_all ds [] ws ls o h = subst (λ x. Runs (box x ws true) ls o) (append-nil ds) h
leave_all ds (t ∷ ts) ws ls o h = leaves t (
    leave_all (ds ++ t ∷ []) ts ws ls o
      (subst (λ x. Runs (box x ws true) ls o) (sym (append_assoc ds (t ∷ []) ts)) h))

-- What leaves in a step: nothing while the connection is not open.
abbrev Leaves : Bool → List String → Type 0
Leaves true ds = Unit {0}
Leaves false ds = ds ≡ []

leave_some :
    (up : Bool) (sent ds ws : List String) (ls : List Label) (o : Outbox)
    → Leaves up ds
    → Runs (box (sent ++ ds) ws up) ls o
    → Runs (box sent (ds ++ ws) up) ls o
leave_some true sent ds ws ls o none_left h = leave_all sent ds ws ls o h
leave_some false sent ds ws ls o none_left h =
    subst (λ x. Runs (box sent (x ++ ws) false) ls o) (sym none_left)
      (subst (λ x. Runs (box x ws false) ls o) (ap (λ x. sent ++ x) none_left ∙ append-nil sent) h)

abbrev Grows : List String → List String → Type 0
Grows sent sent' = (ds : List String) × (sent' ≡ sent ++ ds)

Grows-same : {sent sent' : List String} → sent' ≡ sent → Grows sent sent'
Grows-same {sent} e = ([], e ∙ sym (append-nil sent))

module _ {M D App : Type 0} (has_websocket : Bool) (stringify : M → String) where
  -- The outbox that a socket implements
  abbrev pub outbox : Socket M D App → Outbox
  outbox s = box s.sent (map stringify s.message_queue) (is_connected s.ws)

  -- What is seen of the events of a socket: the texts of the messages that an event gives to
  -- `send`, and then the state of the connection after it
  abbrev pub trace : Socket M D App → List (Event M D) → List Label
  trace s [] = []
  trace s (e ∷ es) =
      let s' = step has_websocket stringify s e in
      map enter (map stringify (pushed s e)) ++ turn (is_connected s'.ws) ∷ trace s' es

  Grows-fire_send_on :
      (q : List M) (connected : Bool) (s : Socket M D App)
      → Grows s.sent (fire_send_on stringify q connected s).sent
  unfolding fire_send_on
  Grows-fire_send_on [] connected s = Grows-same refl
  Grows-fire_send_on (m ∷ ms) false s = Grows-same refl
  Grows-fire_send_on (m ∷ ms) true s =
      (map stringify (m ∷ ms), ap (λ r. r.sent) (drain_lem stringify (m ∷ ms) s))

  sent-reconnected :
      (s : Socket M D App) → (run_job has_websocket stringify Job.reconnect s).sent ≡ s.sent
  unfolding run_job reconnected create
  sent-reconnected s = ground arith

  Grows-fire :
      (i : ℕ) (o : Option Job) (s : Socket M D App)
      → Grows s.sent (fire has_websocket stringify i o s).sent
  unfolding fire run_job Socket.beat Socket.server_beat send restart_heart
  Grows-fire i none s = Grows-same refl
  Grows-fire i (some Job.beat) s = Grows-same refl
  Grows-fire i (some Job.server_beat) s = Grows-same refl
  Grows-fire i (some Job.poll) s =
      Grows-fire_send_on s.message_queue (is_connected s.ws) (unfired i s)
  Grows-fire i (some Job.reconnect) s = Grows-same (sent-reconnected (unfired i s))

  Grows-step :
      (s : Socket M D App) (e : Event M D) → Grows s.sent (step has_websocket stringify s e).sent
  unfolding step on_error destroy stop_heart send
  Grows-step s opens = Grows-same (sent-connect has_websocket stringify s.ws s)
  Grows-step s server_closes = Grows-same (sent-begin_close has_websocket stringify s.ws s)
  Grows-step s closes = Grows-same (sent-disconnect has_websocket stringify s.ws s)
  Grows-step s fails = Grows-same refl
  Grows-step s destroys = Grows-same refl
  Grows-step s (receives p) = Grows-same (sent-deliver has_websocket stringify s.ws p s)
  Grows-step s (fires i) = Grows-fire i (job_of i s.timers.pending) s
  Grows-step s (sends m) = Grows-same refl

  -- How a step lets the texts that were sent grow
  step-grows :
      (up : Bool) (s : Socket M D App) (e : Event M D)
      → is_connected s.ws ≡ up
      → (ds : List String) × (Leaves up ds)
        × ((step has_websocket stringify s e).sent ≡ s.sent ++ ds)
  step-grows true s e c = let (ds, grown) = Grows-step s e in (ds, tt, grown)
  step-grows false s e c =
      ([], refl, sent-step has_websocket stringify s e c ∙ sym (append-nil s.sent))

  -- What enters in a step, then what leaves in it, then how the connection turns
  step-Runs :
      (s : Socket M D App) (e : Event M D) (ls : List Label) (o : Outbox)
      → Runs (outbox (step has_websocket stringify s e)) ls o
      → Runs
          (outbox s)
          (map enter (map stringify (pushed s e))
            ++ turn (is_connected (step has_websocket stringify s e).ws) ∷ ls)
          o
  step-Runs s e ls o h =
      let s' = step has_websocket stringify s e in
      let up = is_connected s.ws in
      let new = map stringify (pushed s e) in
      let queue = map stringify s.message_queue in
      let left = map stringify s'.message_queue in
      let seen = turn (is_connected s'.ws) ∷ ls in
      let (ds, allowed, grown) = step-grows up s e refl in
      let split = append_cancel_left s.sent (ds ++ left) (queue ++ new) (
        sym (append_assoc s.sent ds left)
        ∙ ap (λ x. x ++ left) (sym grown)
        ∙ history-step stringify has_websocket s e
        ∙ append_assoc s.sent queue new) in
      let turned : Runs (box s'.sent left up) seen o = turns (is_connected s'.ws) h in
      enter_all s.sent queue new up seen o (
        subst (λ x. Runs (box s.sent x up) seen o) split
          (leave_some up s.sent ds left seen o allowed
            (subst (λ x. Runs (box x left up) seen o) grown turned)))

  run-Runs :
      (s : Socket M D App) (es : List (Event M D))
      → Runs (outbox s) (trace s es) (outbox (run has_websocket stringify s es))
  run-Runs s [] = rest
  run-Runs s (e ∷ es) =
      let s' = step has_websocket stringify s e in
      step-Runs s e (trace s' es) (outbox (run has_websocket stringify s' es)) (run-Runs s' es)

  -- The class implements the outbox. Whatever events follow the constructor, the empty outbox
  -- whose connection is down has a run to what the socket has sent, what waits in its queue and
  -- whether it is connected, of which exactly this is seen: for each event, the texts that it
  -- gives to `send`, which wait behind the others, and then whether the socket is connected. In
  -- such a run a text is delivered only while the connection is open, and the first that waits.
  pub new-Runs :
      (options : Options M D App) (app : App) (s : Socket M D App) (es : List (Event M D))
      → new has_websocket options app ≡ returned s
      → Runs (box [] [] false) (trace s es) (outbox (run has_websocket stringify s es))
  unfolding new
  new-Runs options app s es e =
      subst (λ x. Runs x (trace s es) (outbox (run has_websocket stringify s es)))
        (ap outbox (create-eq-returned has_websocket stringify (blank options app) s e))
        (run-Runs s es)
