-- ===== src/Socket/Tests.antt =====
-- Runs of the socket on concrete events, at which the theorems hold.
use gonitor.Prelude.{ℕ, ◌≤◌, true, false, none, some, List, [], ◌∷◌, ◌++◌, map, String, ◌≡◌, refl}
use gonitor.Prelude.Int.{ℤ, pos}
use gonitor.Socket.Timers.{Job, job_of, set_timeout, reset}
use gonitor.Socket.{
  Socket, Options, ReadyState, returned, new, create, blank, send, on_open, restart_heart,
  reset_retries, fire_send_on,
}
use gonitor.Socket.Step.{Event, opens, closes, destroys, fires, sends, step, run}
use gonitor.Socket.Queue.{history, pushed_by_run, history-run}
use gonitor.Socket.Valid.{IsValid, polls}
use gonitor.Socket.Valid.Steps.{step-IsValid}
use gonitor.Socket.Delivery.{poll_pending, run-new}
use gonitor.Socket.Outbox.{box, Label, Runs, trace, outbox, new-Runs}
use gonitor.Socket.Chains.{polls-le-step}
use gonitor.Socket.Reconnect.{IsTrying, retries, retries-IsTrying}
use gonitor.Socket.Destroy.{connections-destroy}

abbrev options : ℤ → Options String ℕ ℕ
options count = record {
  url = some "ws://localhost";
  heart_time = 5000;
  heart_msg = "ping";
  is_reconnect = true;
  is_restory = false;
  reconnect_time = 5000;
  reconnect_count = count;
  open_cb = some (λ app. "hello" ∷ []);
  close_cb = none;
  message_cb = none;
  error_cb = none;
}

-- What the constructor returns
abbrev fresh : ℤ → Socket String ℕ ℕ
fresh count = record (blank (options count) 0) { ws = some ReadyState.connecting; connections = 1 }

abbrev id : String → String
id m = m

-- The connection opens, two messages are given to `send`, and the poll of the queue runs.
abbrev events : List (Event String ℕ)
events = opens ∷ sends "a" ∷ sends "b" ∷ fires 2 ∷ []

new-fresh : new true (options (pos 2)) 0 ≡ returned (fresh (pos 2))
unfolding new create
new-fresh = refl

abbrev opened_socket : Socket String ℕ ℕ
opened_socket = step true id (fresh (pos 2)) opens

fresh-IsValid : IsValid (fresh (pos 2))
fresh-IsValid = run-new true id (options (pos 2)) 0 (fresh (pos 2)) [] new-fresh

trying : (count : ℤ) → IsTrying id count (fresh count)
trying count = record { waiting = refl; left = refl; kept = refl; target = refl }

events_sent : (run true id (fresh (pos 2)) events).sent ≡ "hello" ∷ "a" ∷ "b" ∷ []
unfolding step job_of send on_open set_timeout restart_heart reset_retries reset fire_send_on
events_sent = refl

history-run_example :
    history id (run true id (fresh (pos 2)) events)
    ≡ history id (fresh (pos 2)) ++ map id (pushed_by_run id true (fresh (pos 2)) events)
history-run_example = history-run id true (fresh (pos 2)) events

step-IsValid_example : IsValid opened_socket
step-IsValid_example = step-IsValid true id (fresh (pos 2)) opens fresh-IsValid

run-new_example : IsValid (run true id (fresh (pos 2)) events)
run-new_example = run-new true id (options (pos 2)) 0 (fresh (pos 2)) events new-fresh

opened_socket-opened : opened_socket.ws ≡ some ReadyState.opened
unfolding step on_open restart_heart reset_retries send
opened_socket-opened = refl

opened_socket-IsValid : IsValid opened_socket
opened_socket-IsValid = run-new true id (options (pos 2)) 0 (fresh (pos 2)) (opens ∷ []) new-fresh

poll_pending_example :
    (i : ℕ) × (job_of i opened_socket.timers.pending ≡ some Job.poll)
    × ((step true id opened_socket (fires i)).message_queue ≡ [])
    × ((step true id opened_socket (fires i)).sent ≡ history id opened_socket)
poll_pending_example = poll_pending true id opened_socket opened_socket-IsValid opened_socket-opened

polls-le-step_example : polls (fresh (pos 2)) ≤ polls (step true id (fresh (pos 2)) closes)
polls-le-step_example = polls-le-step true id (fresh (pos 2)) fresh-IsValid closes refl

retries-IsTrying_example :
    IsTrying id (pos 0) (retries id 2 (fresh (pos 2)))
    × ((retries id 2 (fresh (pos 2))).connections ≡ 3)
retries-IsTrying_example = retries-IsTrying id 2 0 (fresh (pos 2)) (trying (pos 2))

connections-destroy_example :
    (run true id opened_socket (destroys ∷ closes ∷ fires 3 ∷ [])).connections
    ≡ opened_socket.connections
connections-destroy_example =
    connections-destroy true id opened_socket (closes ∷ fires 3 ∷ []) opened_socket-IsValid

new-Runs_example :
    Runs
      (box [] [] false)
      (trace true id (fresh (pos 2)) events)
      (outbox true id (run true id (fresh (pos 2)) events))
new-Runs_example = new-Runs true id (options (pos 2)) 0 (fresh (pos 2)) events new-fresh

events_seen :
    trace true id (fresh (pos 2)) events
    ≡ Label.enter "hello"
      ∷ Label.turn true
      ∷ Label.enter "a"
      ∷ Label.turn true
      ∷ Label.enter "b"
      ∷ Label.turn true
      ∷ Label.turn true
      ∷ []
unfolding step job_of send on_open set_timeout restart_heart reset_retries reset fire_send_on
events_seen = refl
