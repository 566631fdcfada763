-- ===== src/Socket/Chains.antt =====
-- The chains of polls that `fireSend` of web/client/src/common/socket/Socket.js keeps going: each
-- `onopen` starts one more, and over an empty queue none ends.
use gonitor.Prelude.{
  ℕ, suc, ◌≤◌, Bool, Option, none, some, List, [], ◌∷◌, String, ◌≡◌, refl, arith, ◌∙◌, ap,
}
use gonitor.Socket.Timers.{Job, job_of, set_timeout}
use gonitor.Socket.Timers.Named.{is_poll}
use gonitor.Socket.{
  Socket, Packet, Options, ReadyState, run_open_cb, is_connected, send, send_all, fire_send_on,
  on_open, on_close, on_error, on_message, on_reconnect, reconnect_unless_destroyed, stop_heart,
  restart_heart, reset_retries, reconnected, destroy, create,
}
use gonitor.Socket
use gonitor.Socket.Valid.{
  IsValid, IsCore, polls, polls-stop_heart, stop_heart-IsCore, polls-restart_heart,
  polls-reset_retries, reset_retries-IsCore, send-IsCore, set_ws-IsCore,
}
use gonitor.Socket.Valid.Steps.{quiet}
use gonitor.Socket.Valid.Handlers.{unfired, count-unfired, unfired-IsCore}
use gonitor.Socket.Step.{
  Event, opens, server_closes, closes, fails, destroys, receives, fires, sends, run_job, fire, step,
  connect, begin_close, disconnect, deliver,
}

module _ {M D App : Type 0} where
  polls-send_all : (ms : List M) (s : Socket M D App) → polls (send_all ms s) ≡ polls s
  unfolding send
  polls-send_all [] s = refl
  polls-send_all (m ∷ ms) s = polls-send_all ms (send m s)

  polls-on_open : (s : Socket M D App) → IsCore s → polls (on_open s) ≡ suc (polls s)
  unfolding on_open set_timeout
  polls-on_open s v = ap suc (
      polls-send_all (run_open_cb r.options.open_cb r.app) r
      ∙ polls-restart_heart (reset_retries s) (reset_retries-IsCore s v)
      ∙ polls-reset_retries s v)
    where
      r : Socket M D App
      r = restart_heart (reset_retries s)

  polls-on_close : (s : Socket M D App) → IsCore s → polls (on_close s) ≡ polls s
  unfolding on_close reconnect_unless_destroyed on_reconnect set_timeout
  polls-on_close s v =
      ground
        (arith, polls-stop_heart s v, polls-reset_retries (stop_heart s) (stop_heart-IsCore s v))

module _ {M D App : Type 0} (has_websocket : Bool) (stringify : M → String) (s : Socket M D App)
    (v : IsValid s) where
  polls-connect :
      (r : Option ReadyState)
      → s.ws ≡ r
      → r ≡ some ReadyState.connecting
      → polls (connect r s) ≡ suc (polls s)
  polls-connect none e c = cc
  polls-connect (some ReadyState.connecting) e c =
      polls-on_open _ (set_ws-IsCore s v.core _ (quiet has_websocket stringify s v _ e (λ h. cc)))
  polls-connect (some ReadyState.opened) e c = cc
  polls-connect (some ReadyState.closing) e c = cc
  polls-connect (some ReadyState.closed) e c = cc

  polls-connect_le : (r : Option ReadyState) → s.ws ≡ r → polls s ≤ polls (connect r s)
  polls-connect_le none e = omega arith
  polls-connect_le (some ReadyState.connecting) e = omega (arith, polls-connect _ e refl)
  polls-connect_le (some _) e = omega arith

  polls-begin_close : (r : Option ReadyState) → polls (begin_close r s) ≡ polls s
  polls-begin_close none = refl
  polls-begin_close (some ReadyState.opened) = refl
  polls-begin_close (some _) = refl

  polls-disconnect : (r : Option ReadyState) → s.ws ≡ r → polls (disconnect r s) ≡ polls s
  polls-disconnect none e = refl
  polls-disconnect (some ReadyState.closed) e = refl
  polls-disconnect (some _) e =
      polls-on_close _ (set_ws-IsCore s v.core _ (quiet has_websocket stringify s v _ e (λ h. cc)))

  polls-deliver : (r : Option ReadyState) (p : Packet D) → polls (deliver r p s) ≡ polls s
  unfolding on_message
  polls-deliver none p = refl
  polls-deliver (some ReadyState.opened) p = ground (arith, polls-restart_heart s v.core)
  polls-deliver (some _) p = refl

  polls-fire :
      (i : ℕ) (o : Option Job)
      → job_of i s.timers.pending ≡ o
      → s.message_queue ≡ []
      → polls (fire has_websocket stringify i o s) ≡ polls s
  unfolding fire run_job Socket.beat Socket.server_beat
  polls-fire i none f q = refl
  polls-fire i (some Job.beat) f q =
      unfold send set_timeout in omega (arith, count-unfired s v.core i Job.beat f is_poll)
  polls-fire i (some Job.server_beat) f q =
      polls-restart_heart _ (send-IsCore s.options.heart_msg _ (unfired-IsCore s v.core i _ f))
      ∙ unfold send in omega (arith, count-unfired s v.core i Job.server_beat f is_poll)
  polls-fire i (some Job.poll) f q =
      ap (λ l. polls (fire_send_on stringify l (is_connected s.ws) (unfired i s))) q
      ∙ unfold fire_send_on set_timeout in
        omega (arith, count-unfired s v.core i Job.poll f is_poll)
  polls-fire i (some Job.reconnect) f q =
      unfold reconnected create in ground (arith, count-unfired s v.core i Job.reconnect f is_poll)

  -- Over a socket that satisfies the invariant and whose queue is empty, no event makes the
  -- pending polls of the queue fewer, neither the closing of the connection nor `destroy`.
  pub polls-le-step :
      (e : Event M D) → s.message_queue ≡ [] → polls s ≤ polls (step has_websocket stringify s e)
  unfolding step on_error
  polls-le-step opens q = polls-connect_le s.ws refl
  polls-le-step server_closes q = omega (arith, polls-begin_close s.ws)
  polls-le-step closes q = omega (arith, polls-disconnect s.ws refl)
  polls-le-step fails q = omega arith
  polls-le-step destroys q =
      unfold destroy reset_retries in
      omega (
        arith,
        polls-stop_heart s v.core,
        polls-reset_retries (stop_heart s) (stop_heart-IsCore s v.core),
      )
  polls-le-step (receives p) q = omega (arith, polls-deliver s.ws p)
  polls-le-step (fires i) q = omega (arith, polls-fire i (job_of i s.timers.pending) refl q)
  polls-le-step (sends m) q = unfold send in omega arith

  -- Each opening of the connection of a socket that satisfies the invariant makes one more poll
  -- of the queue pending.
  pub polls-opens :
      s.ws ≡ some ReadyState.connecting
      → polls (step has_websocket stringify s opens) ≡ suc (polls s)
  unfolding step
  polls-opens c = polls-connect s.ws refl c
