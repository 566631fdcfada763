-- ===== src/Socket/Timers.antt =====
-- The browser's timers as common/socket/Socket.js uses them, and class `Heart`
-- (web/client/src/common/socket/Socket.js). The host may run any pending timer next; a delay is
-- kept with its timer, and no order between timers is assumed.
pub mod Laws
pub mod Named
pub mod Clear
use gonitor.Prelude.{
  ℕ, suc, Bool, true, false, Option, none, some, List, [], ◌∷◌, if◌then◌else◌, ◌==◌, nat_eq,
}

-- The functions that the program hands to `setTimeout`: the two stages of `Heart.start`, the poll
-- of `fireSend` and the reconnection.
pub data Job : Type 0 where
  beat server_beat poll reconnect : Job

pub record Timer : Type 0 where
  pub id : ℕ
  pub delay : ℕ
  pub job : Job

pub record TimerTable : Type 0 where
  pub next_id : ℕ
  pub pending : List Timer

-- `setTimeout(job, delay)`: the new timers, with the identifier `ts.next_id`.
unfoldable pub set_timeout : Job → ℕ → TimerTable → TimerTable
set_timeout job delay ts = record {
  next_id = suc ts.next_id;
  pending = record { id = ts.next_id; delay = delay; job = job } ∷ ts.pending;
}

-- The timers other than `i`.
unfoldable pub drop_timer : ℕ → List Timer → List Timer
drop_timer i [] = []
drop_timer i (t ∷ ts) = if t.id == i then drop_timer i ts else t ∷ drop_timer i ts

-- `clearTimeout(handle)`, which ignores null and a timer that has run.
unfoldable pub clear_timeout : Option ℕ → TimerTable → TimerTable
unfolding drop_timer
clear_timeout none ts = ts
clear_timeout (some i) ts = record ts { pending = drop_timer i ts.pending }

-- The job of the pending timer `i`.
unfoldable pub job_of : ℕ → List Timer → Option Job
job_of i [] = none
job_of i (t ∷ ts) = if t.id == i then some t.job else job_of i ts

-- The fields of class `Heart`.
pub record Heart : Type 0 where
  pub heart_time_out : Option ℕ
  pub server_heart_time_out : Option ℕ
  pub timeout : ℕ

abbrev pub new_heart : Heart
new_heart = record { heart_time_out = none; server_heart_time_out = none; timeout = 5000 }

-- `reset()`
unfoldable pub reset : Heart → TimerTable → TimerTable
unfolding clear_timeout
reset h ts = clear_timeout h.server_heart_time_out (clear_timeout h.heart_time_out ts)

-- `start(cb)` sets the timer of the first stage and keeps its identifier.
abbrev pub started : Heart → TimerTable → Heart
started h ts = record h { heart_time_out = some ts.next_id }

abbrev pub start : Heart → TimerTable → TimerTable
start h ts = set_timeout Job.beat h.timeout ts

-- Inside the first stage, behind `cb(e)`: the timer of the second stage.
abbrev pub awaiting : Heart → TimerTable → Heart
awaiting h ts = record h { server_heart_time_out = some ts.next_id }

abbrev pub await_server : Heart → TimerTable → TimerTable
await_server h ts = set_timeout Job.server_beat h.timeout ts
