-- ===== src/Socket/Valid/Steps.antt =====
-- Every event keeps the invariant of a socket (web/client/src/common/socket/Socket.js).
use gonitor.Prelude.{
  ap, ◌≢◌, ℕ, subst, sym, ◌<◌, Bool, true, false, Option, none, some, List, [], ◌∷◌, String, ◌≡◌,
  refl, arith, ◌∙◌,
}
use gonitor.Socket.Timers.{Job, set_timeout, job_of, reset}
use gonitor.Socket.Timers.Named.{is_heart, is_poll, is_reconnect}
use gonitor.Socket.{
  Socket, Packet, ReadyState, Options, Result, returned, thrown, is_connected, send, send_all,
  fire_send_on, stop_heart, restart_heart, on_open, on_close, on_error, on_message, on_reconnect,
  reconnected, create, destroy, run_open_cb, close_ws, reset_retries, reconnect_unless_destroyed,
}
use gonitor.Socket
use gonitor.Socket.Queue.{drain_lem}
use gonitor.Socket.Step.{
  Event, opens, server_closes, closes, fails, destroys, receives, fires, sends, run_job, fire, step,
  run, connect, begin_close, disconnect, deliver,
}
use native.Mathlib.Decide.{dec_lt}
use gonitor.Socket.Valid.{
  clear_reconnect-IsCore, polls, reconnects, IsPolled, IsValid, send-IsCore, stop_heart-IsCore,
  polls-restart_heart, set_ws-IsCore,
}
use gonitor.Socket.Valid.Handlers.{
  set_app-IsCore, on_close-IsCore, on_open-IsValid, on_message-IsValid, unfired, count-unfired,
  unfired-IsCore, beat-IsCore, server_beat-IsCore, reconnected-IsCore, fire_send-IsCore,
}

module _ {M D App : Type 0} (has_websocket : Bool) (stringify : M → String) where
  polls-fire_send : (q : List M) (s : Socket M D App) → 0 < polls (fire_send_on stringify q true s)
  unfolding fire_send_on set_timeout
  polls-fire_send [] s = omega arith
  polls-fire_send (m ∷ ms) s =
      subst (λ r. 0 < polls r) (sym (drain_lem stringify (m ∷ ms) s)) (omega arith)

  ws-fire_send :
      (q : List M) (connected : Bool) (s : Socket M D App)
      → (fire_send_on stringify q connected s).ws ≡ s.ws
  unfolding fire_send_on
  ws-fire_send [] connected s = refl
  ws-fire_send (m ∷ ms) false s = refl
  ws-fire_send (m ∷ ms) true s = ap (λ r. r.ws) (drain_lem stringify (m ∷ ms) s)

  fire_send-IsPolled :
      (s : Socket M D App) → IsPolled (fire_send_on stringify s.message_queue (is_connected s.ws) s)
  fire_send-IsPolled s e =
      let o = sym (ws-fire_send s.message_queue (is_connected s.ws) s) ∙ e in
      subst (λ b. 0 < polls (fire_send_on stringify s.message_queue b s)) (sym (ap is_connected o))
        (polls-fire_send s.message_queue s)

  -- A timer of the reconnection does not leave the connection open.
  ws-reconnected :
      (s : Socket M D App)
      → s.ws ≡ some ReadyState.closed
      → (run_job has_websocket stringify Job.reconnect s).ws ≢ some ReadyState.opened
  unfolding run_job reconnected create
  ws-reconnected s c e = absurd (ground arith)

  module _ (s : Socket M D App) (v : IsValid s) (i : ℕ) where
    run_job-IsValid :
        (j : Job)
        → job_of i s.timers.pending ≡ some j
        → IsValid (run_job has_websocket stringify j (unfired i s))
    unfolding run_job Socket.server_beat restart_heart set_timeout reset send
    run_job-IsValid Job.beat f = record {
      core =
          beat-IsCore (unfired i s) (unfired-IsCore s v.core i _ f)
            (omega (arith, v.core.one_heart, count-unfired s v.core i Job.beat f is_heart));
      polled =
          unfold Socket.beat send set_timeout in
          λ e. omega (arith, v.polled e, count-unfired s v.core i Job.beat f is_poll);
    }
    run_job-IsValid Job.server_beat f = record {
      core = server_beat-IsCore (unfired i s) (unfired-IsCore s v.core i _ f);
      polled = λ e. omega (
        arith,
        polls-restart_heart _ (send-IsCore s.options.heart_msg _ (unfired-IsCore s v.core i _ f)),
        v.polled (unfold Socket.server_beat restart_heart send in e),
        count-unfired s v.core i Job.server_beat f is_poll,
      );
    }
    run_job-IsValid Job.poll f = record {
      core = fire_send-IsCore stringify _ _ (unfired i s) (unfired-IsCore s v.core i _ f);
      polled = fire_send-IsPolled (unfired i s);
    }
    run_job-IsValid Job.reconnect f = record {
      core =
          reconnected-IsCore has_websocket stringify (unfired i s) (unfired-IsCore s v.core i _ f) (
            omega
              (arith, v.core.one_reconnect, count-unfired s v.core i Job.reconnect f is_reconnect));
      polled = λ e. absurd (
          ws-reconnected (unfired i s)
            (v.core.waits (omega (arith, count-unfired s v.core i Job.reconnect f is_reconnect))).0
            e);
    }

    fire-IsValid :
        (o : Option Job)
        → job_of i s.timers.pending ≡ o
        → IsValid (fire has_websocket stringify i o s)
    unfolding fire
    fire-IsValid none f = v
    fire-IsValid (some j) f = run_job-IsValid j f

  closed_stays :
      (s : Socket M D App)
      → s.ws ≡ some ReadyState.closed
      → (on_close s).ws ≢ some ReadyState.opened
  unfolding on_close reconnect_unless_destroyed on_reconnect stop_heart reset_retries
  closed_stays s c h = absurd (ground arith)

  module _ (s : Socket M D App) (v : IsValid s) where
    -- Only a closed connection has a reconnection pending.
    pub quiet : (r : Option ReadyState) → s.ws ≡ r → r ≢ some ReadyState.closed → reconnects s ≡ 0
    quiet r e n = elim (dec_lt 0 (reconnects s)) [
      | yes h ↦ absurd (n (sym e ∙ (v.core.waits h).0))
      | no h ↦ omega arith
    ]

    connect-IsValid : (r : Option ReadyState) → s.ws ≡ r → IsValid (connect r s)
    connect-IsValid none e = v
    connect-IsValid (some ReadyState.connecting) e =
        on_open-IsValid _ (set_ws-IsCore s v.core _ (quiet _ e (λ h. cc)))
    connect-IsValid (some _) e = v

    begin_close-IsValid : (r : Option ReadyState) → s.ws ≡ r → IsValid (begin_close r s)
    begin_close-IsValid none e = v
    begin_close-IsValid (some ReadyState.opened) e = record {
      core = set_ws-IsCore s v.core _ (quiet _ e (λ h. cc));
      polled = λ h. cc;
    }
    begin_close-IsValid (some _) e = v

    disconnect-IsValid : (r : Option ReadyState) → s.ws ≡ r → IsValid (disconnect r s)
    disconnect-IsValid none e = v
    disconnect-IsValid (some ReadyState.closed) e = v
    disconnect-IsValid (some _) e = record {
      core =
          on_close-IsCore _ (set_ws-IsCore s v.core _ (quiet _ e (λ h. cc))) (quiet _ e (λ h. cc))
            refl;
      polled = λ h. absurd (closed_stays _ refl h);
    }

    deliver-IsValid : (r : Option ReadyState) (p : Packet D) → IsValid (deliver r p s)
    deliver-IsValid none p = v
    deliver-IsValid (some ReadyState.opened) p = on_message-IsValid p s v
    deliver-IsValid (some _) p = v

    destroy-IsValid : IsValid (destroy s)
    unfolding destroy
    destroy-IsValid = record {
      core = clear_reconnect-IsCore (stop_heart s) (stop_heart-IsCore s v.core) _ _;
      polled = λ h. absurd (ground arith);
    }

  -- Every event keeps the invariant: the handles of the socket name its timers, at most one timer
  -- of the heart and one of the reconnection are pending, an open connection has a poll of the
  -- queue pending, and a reconnection is pending only while the connection is closed and the
  -- socket is not destroyed.
  pub step-IsValid :
      (s : Socket M D App) (e : Event M D) → IsValid s → IsValid (step has_websocket stringify s e)
  unfolding step
  step-IsValid s opens v = connect-IsValid s v s.ws refl
  step-IsValid s server_closes v = begin_close-IsValid s v s.ws refl
  step-IsValid s closes v = disconnect-IsValid s v s.ws refl
  step-IsValid s fails v = record {
    core = unfold on_error in set_app-IsCore s _ v.core;
    polled = unfold on_error in v.polled;
  }
  step-IsValid s destroys v = destroy-IsValid s v
  step-IsValid s (receives p) v = deliver-IsValid s v s.ws p
  step-IsValid s (fires i) v = fire-IsValid s v i (job_of i s.timers.pending) refl
  step-IsValid s (sends m) v = record {
    core = send-IsCore m s v.core;
    polled = unfold send in v.polled;
  }

  pub run-IsValid :
      (s : Socket M D App) (es : List (Event M D))
      → IsValid s
      → IsValid (run has_websocket stringify s es)
  run-IsValid s [] v = v
  run-IsValid s (e ∷ es) v = run-IsValid (step has_websocket stringify s e) es (step-IsValid s e v)
