-- ===== src/Socket/Valid/Handlers.antt =====
-- The handlers of web/client/src/common/socket/Socket.js keep the invariant of a socket.
use gonitor.Prelude.{
  ℕ, suc, subst, sym, map, ◌++◌, ◌+◌, Bool, true, false, some, List, [], ◌∷◌, String, ◌≡◌, arith,
  nat_beq, ◌∙◌, Bool-cases, inl, inr,
}
use gonitor.Prelude.Int.{pred}
use gonitor.Socket.Timers.{Job, set_timeout, clear_timeout, job_of}
use gonitor.Socket.Timers.Laws.{of_bool, count, count-drop_timer}
use gonitor.Socket.Timers.Named.{
  is_heart, is_reconnect, count-heart, Named-clear_timeout, Named-set_server,
}
use gonitor.Socket.Timers.Clear.{count-reset_reconnect}
use gonitor.Socket.{
  Socket, Packet, ReadyState, Options, Result, returned, thrown, is_connected, send, send_all,
  fire_send_on, stop_heart, restart_heart, on_open, on_close, on_error, on_message, on_reconnect,
  reconnected, create, destroy, run_open_cb, close_ws, reset_retries, reconnect_unless_destroyed,
}
use gonitor.Socket
use gonitor.Socket.Queue.{drain_lem}
use gonitor.Socket.Step.{run_job}
use gonitor.Socket.Valid.{
  hearts, reconnects, IsCore, IsValid, send-IsCore, send_all-IsCore, stop_heart-IsCore,
  restart_heart-IsCore, polls-restart_heart, set_poll-IsCore, reset_retries-IsCore,
  on_reconnect-IsCore,
}

module _ {M D App : Type 0} where
  pub reconnect_unless_destroyed-IsCore :
      (s : Socket M D App)
      → IsCore s
      → reconnects s ≡ 0
      → s.ws ≡ some ReadyState.closed
      → IsCore (reconnect_unless_destroyed s)
  unfolding reconnect_unless_destroyed
  reconnect_unless_destroyed-IsCore s v q e = elim (Bool-cases s.options.is_restory) [
    | inl r ↦ simp r v
    | inr r ↦ simp r (on_reconnect-IsCore s v q e r)
  ]

  pub set_app-IsCore : (s : Socket M D App) (a : App) → IsCore s → IsCore (record s { app = a })
  set_app-IsCore s a v = record {
    named = v.named;
    one_heart = v.one_heart;
    one_reconnect = v.one_reconnect;
    waits = v.waits;
  }

  pub reconnects-stop_heart :
      (s : Socket M D App) → IsCore s → reconnects (stop_heart s) ≡ reconnects s
  unfolding stop_heart
  reconnects-stop_heart s v = count-reset_reconnect s.reconnect_timer s.heart s.timers v.named

  pub on_close-IsCore :
      (s : Socket M D App)
      → IsCore s
      → reconnects s ≡ 0
      → s.ws ≡ some ReadyState.closed
      → IsCore (on_close s)
  unfolding on_close
  on_close-IsCore s v q e = set_app-IsCore (reconnect_unless_destroyed (stop_heart s)) _ (
      reconnect_unless_destroyed-IsCore (stop_heart s) (stop_heart-IsCore s v)
        (reconnects-stop_heart s v ∙ q) (unfold stop_heart in e))

  pub on_open-IsValid : (s : Socket M D App) → IsCore s → IsValid (on_open s)
  unfolding on_open
  on_open-IsValid s v = record {
    core = set_poll-IsCore (send_all (run_open_cb r.options.open_cb r.app) r) (
        send_all-IsCore (run_open_cb r.options.open_cb r.app) r
          (restart_heart-IsCore (reset_retries s) (reset_retries-IsCore s v)));
    polled = λ e. unfold set_timeout in omega arith;
  }
    where
      r : Socket M D App
      r = restart_heart (reset_retries s)

  pub on_message-IsValid :
      (p : Packet D) (s : Socket M D App) → IsValid s → IsValid (on_message p s)
  unfolding on_message
  on_message-IsValid p s v = elim (Bool-cases (nat_beq p.code 200)) [
    | inl e ↦ rw e (record {
      core = set_app-IsCore (restart_heart s) _ (restart_heart-IsCore s v.core);
      polled = rw (polls-restart_heart s v.core) (unfold restart_heart in v.polled);
    })
    | inr e ↦ rw e v
  ]

  -- A timer that fires is no longer pending.
  abbrev pub unfired : ℕ → Socket M D App → Socket M D App
  unfired i s = record s { timers = clear_timeout (some i) s.timers }

  module _ (s : Socket M D App) (v : IsCore s) (i : ℕ) (j : Job)
      (found : job_of i s.timers.pending ≡ some j) where
    pub count-unfired :
        (p : Job → Bool)
        → of_bool (p j) + count p (unfired i s).timers.pending ≡ count p s.timers.pending
    unfolding clear_timeout
    count-unfired p = count-drop_timer p i s.timers.next_id j s.timers.pending v.named.order found

    pub unfired-IsCore : IsCore (unfired i s)
    unfolding clear_timeout
    unfired-IsCore = record {
      named = Named-clear_timeout _ _ _ s.timers v.named (some i);
      one_heart = omega (arith, v.one_heart, count-unfired is_heart);
      one_reconnect = omega (arith, v.one_reconnect, count-unfired is_reconnect);
      waits = λ h. v.waits (omega (arith, h, count-unfired is_reconnect));
    }

  -- Each kind of timer, after it is taken away.
  pub beat-IsCore : (s : Socket M D App) → IsCore s → hearts s ≡ 0 → IsCore (Socket.beat s)
  unfolding Socket.beat
  beat-IsCore s v z =
      let w = send-IsCore s.options.heart_msg s v in
      let r = send s.options.heart_msg s in
      record {
        named =
            Named-set_server _ _ _ r.timers w.named r.heart.timeout
              (unfold send in omega (arith, z, count-heart s.timers.pending));
        one_heart = unfold send set_timeout in omega (arith, z);
        one_reconnect = unfold set_timeout in w.one_reconnect;
        waits = unfold set_timeout in w.waits;
      }

  pub server_beat-IsCore : (s : Socket M D App) → IsCore s → IsCore (Socket.server_beat s)
  unfolding Socket.server_beat
  server_beat-IsCore s v =
      restart_heart-IsCore (send s.options.heart_msg s) (send-IsCore s.options.heart_msg s v)

  pub reconnected-IsCore :
      (has_websocket : Bool) (stringify : M → String) (s : Socket M D App)
      → IsCore s
      → reconnects s ≡ 0
      → IsCore (run_job has_websocket stringify Job.reconnect s)
  unfolding run_job reconnected create
  reconnected-IsCore has_websocket stringify s v z = ground (arith, v, fresh, counted)
    where
      fresh : IsCore (record s { ws = some ReadyState.connecting; connections = suc s.connections })
      fresh = record {
        named = v.named;
        one_heart = v.one_heart;
        one_reconnect = v.one_reconnect;
        waits = λ h. absurd (omega arith);
      }

      counted : IsCore (record s {
        ws = some ReadyState.connecting;
        connections = suc s.connections;
        options = record (s.options) { reconnect_count = pred s.options.reconnect_count };
      })
      counted = record {
        named = v.named;
        one_heart = v.one_heart;
        one_reconnect = v.one_reconnect;
        waits = λ h. absurd (omega arith);
      }

  pub fire_send-IsCore :
      (stringify : M → String) (q : List M) (connected : Bool) (s : Socket M D App)
      → IsCore s
      → IsCore (fire_send_on stringify q connected s)
  unfolding fire_send_on
  fire_send-IsCore stringify [] connected s v = set_poll-IsCore s v
  fire_send-IsCore stringify (m ∷ ms) false s v = v
  fire_send-IsCore stringify (m ∷ ms) true s v =
      subst IsCore (sym (drain_lem stringify (m ∷ ms) s)) (
        set_poll-IsCore (record s { message_queue = []; sent = s.sent ++ map stringify (m ∷ ms) })
          (record {
            named = v.named;
            one_heart = v.one_heart;
            one_reconnect = v.one_reconnect;
            waits = v.waits;
          }))
