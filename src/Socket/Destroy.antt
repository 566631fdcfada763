-- ===== src/Socket/Destroy.antt =====
-- `destroy` of web/client/src/common/socket/Socket.js is final.
use gonitor.Prelude.{
  ℕ, Bool, true, false, Option, none, some, List, [], ◌∷◌, String, ◌≡◌, refl, arith, ◌∙◌, ap,
}
use gonitor.Socket.Timers.{Job, job_of}
use gonitor.Socket.Timers.Named.{is_reconnect}
use gonitor.Socket.{
  Socket, Packet, ReadyState, run_open_cb, send, send_all, drain, fire_send_on, is_connected,
  on_open, on_close, on_error, on_message, on_reconnect, reconnect_unless_destroyed, stop_heart,
  restart_heart, reset_retries, reconnected, destroy,
}
use gonitor.Socket
use gonitor.Socket.Queue.{drain_lem}
use gonitor.Socket.Valid.{IsValid}
use gonitor.Socket.Valid.Handlers.{unfired, count-unfired}
use gonitor.Socket.Valid.Steps.{step-IsValid}
use gonitor.Socket.Step.{
  Event, opens, server_closes, closes, fails, destroys, receives, fires, sends, run_job, fire, step,
  run, connect, begin_close, disconnect, deliver,
}

module _ {M D App : Type 0} where
  -- Destroyed, with `n` connections made so far.
  abbrev IsDestroyed : ℕ → Socket M D App → Type 0
  IsDestroyed n s = (s.options.is_restory ≡ true) × (s.connections ≡ n)

  send_all-IsDestroyed :
      (n : ℕ) (ms : List M) (s : Socket M D App) → IsDestroyed n s → IsDestroyed n (send_all ms s)
  unfolding send
  send_all-IsDestroyed n [] s d = d
  send_all-IsDestroyed n (m ∷ ms) s d = send_all-IsDestroyed n ms (send m s) d

  on_open-IsDestroyed : (n : ℕ) (s : Socket M D App) → IsDestroyed n s → IsDestroyed n (on_open s)
  unfolding on_open restart_heart reset_retries
  on_open-IsDestroyed n s d = send_all-IsDestroyed n (run_open_cb r.options.open_cb r.app) r d
    where
      r : Socket M D App
      r = restart_heart (reset_retries s)

  on_close-IsDestroyed : (n : ℕ) (s : Socket M D App) → IsDestroyed n s → IsDestroyed n (on_close s)
  unfolding on_close reconnect_unless_destroyed on_reconnect stop_heart
  on_close-IsDestroyed n s d = (ground arith, ground arith)

  on_message-IsDestroyed :
      (n : ℕ) (p : Packet D) (s : Socket M D App) → IsDestroyed n s → IsDestroyed n (on_message p s)
  unfolding on_message restart_heart
  on_message-IsDestroyed n p s d = (ground arith, ground arith)

  fire_send-IsDestroyed :
      (stringify : M → String) (n : ℕ) (q : List M) (connected : Bool) (s : Socket M D App)
      → IsDestroyed n s
      → IsDestroyed n (fire_send_on stringify q connected s)
  unfolding fire_send_on
  fire_send-IsDestroyed stringify n [] connected s d = d
  fire_send-IsDestroyed stringify n (m ∷ ms) false s d = d
  fire_send-IsDestroyed stringify n (m ∷ ms) true s d = (
    ap (λ r. r.options.is_restory) (drain_lem stringify (m ∷ ms) s) ∙ d.0,
    ap (λ r. r.connections) (drain_lem stringify (m ∷ ms) s) ∙ d.1,
  )

  connect-IsDestroyed :
      (n : ℕ) (r : Option ReadyState) (s : Socket M D App)
      → IsDestroyed n s
      → IsDestroyed n (connect r s)
  connect-IsDestroyed n none s d = d
  connect-IsDestroyed n (some ReadyState.connecting) s d = on_open-IsDestroyed n _ d
  connect-IsDestroyed n (some _) s d = d

  begin_close-IsDestroyed :
      (n : ℕ) (r : Option ReadyState) (s : Socket M D App)
      → IsDestroyed n s
      → IsDestroyed n (begin_close r s)
  begin_close-IsDestroyed n none s d = d
  begin_close-IsDestroyed n (some ReadyState.opened) s d = d
  begin_close-IsDestroyed n (some _) s d = d

  disconnect-IsDestroyed :
      (n : ℕ) (r : Option ReadyState) (s : Socket M D App)
      → IsDestroyed n s
      → IsDestroyed n (disconnect r s)
  disconnect-IsDestroyed n none s d = d
  disconnect-IsDestroyed n (some ReadyState.closed) s d = d
  disconnect-IsDestroyed n (some _) s d = on_close-IsDestroyed n _ d

  deliver-IsDestroyed :
      (n : ℕ) (r : Option ReadyState) (p : Packet D) (s : Socket M D App)
      → IsDestroyed n s
      → IsDestroyed n (deliver r p s)
  deliver-IsDestroyed n none p s d = d
  deliver-IsDestroyed n (some ReadyState.opened) p s d = on_message-IsDestroyed n p s d
  deliver-IsDestroyed n (some _) p s d = d

module _ {M D App : Type 0} (has_websocket : Bool) (stringify : M → String) (n : ℕ) where
  run_job-IsDestroyed :
      (s : Socket M D App) (i : ℕ) (j : Job)
      → IsValid s
      → job_of i s.timers.pending ≡ some j
      → IsDestroyed n s
      → IsDestroyed n (run_job has_websocket stringify j (unfired i s))
  unfolding run_job Socket.beat Socket.server_beat send restart_heart
  run_job-IsDestroyed s i Job.beat v f d = d
  run_job-IsDestroyed s i Job.server_beat v f d = d
  run_job-IsDestroyed s i Job.poll v f d = fire_send-IsDestroyed stringify n _ _ (unfired i s) d
  run_job-IsDestroyed s i Job.reconnect v f d =
      let alive =
        (v.core.waits (omega (arith, count-unfired s v.core i Job.reconnect f is_reconnect))).1 in
      absurd (ground arith)

  fire-IsDestroyed :
      (s : Socket M D App) (i : ℕ) (o : Option Job)
      → IsValid s
      → job_of i s.timers.pending ≡ o
      → IsDestroyed n s
      → IsDestroyed n (fire has_websocket stringify i o s)
  unfolding fire
  fire-IsDestroyed s i none v f d = d
  fire-IsDestroyed s i (some j) v f d = run_job-IsDestroyed s i j v f d

  step-IsDestroyed :
      (s : Socket M D App) (e : Event M D)
      → IsValid s
      → IsDestroyed n s
      → IsDestroyed n (step has_websocket stringify s e)
  unfolding step on_error destroy stop_heart send
  step-IsDestroyed s opens v d = connect-IsDestroyed n s.ws s d
  step-IsDestroyed s server_closes v d = begin_close-IsDestroyed n s.ws s d
  step-IsDestroyed s closes v d = disconnect-IsDestroyed n s.ws s d
  step-IsDestroyed s fails v d = d
  step-IsDestroyed s destroys v d = (refl, d.1)
  step-IsDestroyed s (receives p) v d = deliver-IsDestroyed n s.ws p s d
  step-IsDestroyed s (fires i) v d = fire-IsDestroyed s i (job_of i s.timers.pending) v refl d
  step-IsDestroyed s (sends m) v d = d

  run-IsDestroyed :
      (s : Socket M D App) (es : List (Event M D))
      → IsValid s
      → IsDestroyed n s
      → IsDestroyed n (run has_websocket stringify s es)
  run-IsDestroyed s [] v d = d
  run-IsDestroyed s (e ∷ es) v d =
      run-IsDestroyed (step has_websocket stringify s e) es
        (step-IsValid has_websocket stringify s e v) (step-IsDestroyed s e v d)

-- After `destroy` of a socket that satisfies the invariant, no further event makes a connection:
-- neither a timer that was pending nor the closing of the connection starts one.
pub connections-destroy :
    {M D App : Type 0} (has_websocket : Bool) (stringify : M → String) (s : Socket M D App)
    (es : List (Event M D))
    → IsValid s
    → (run has_websocket stringify s (destroys ∷ es)).connections ≡ s.connections
unfolding step destroy stop_heart
connections-destroy has_websocket stringify s es v =
    (run-IsDestroyed has_websocket stringify s.connections (step has_websocket stringify s destroys)
      es (step-IsValid has_websocket stringify s destroys v) (refl, refl)).1
