-- ===== src/Logs.antt =====
-- The logs of a task (web/client/src/screen/taskInfo/): here the running ones, `TaskLogTable` and
-- `TaskLogRow` of TaskRunningLog.js. React keeps the hooks of a row under its key, the log's id,
-- from its first rendering until the list has no such log: `rows` is this map, and an `instance`
-- tells one life of a row from the next. A function that a timer calls later is a closure of the
-- last rendering of its row.
pub mod Watched
pub mod Fired
pub mod Late
pub mod Ended
pub mod Info
pub mod Page
pub mod Old
pub mod View
pub mod Tests
use gonitor.Prelude.{
  ℕ, zero, suc, ◌+◌, Bool, true, false, not, ◌&&◌, Option, none, some, List, [], ◌∷◌, ◌++◌, String,
  if◌then◌else◌, ◌==◌, nat_eq, filter, find, any, map,
}
use gonitor.Prelude.Int.{ℤ, is_pos}
use gonitor.Request.{Reply, got, failed}

pub record LogInfo : Type 0 where
  pub id : ℕ
  pub execution_time : String
  pub command : String
  pub process_id : ℤ
  pub status : Bool
  pub exec_output : String

-- What the server sends of a log that changes: `none` for a field that is not there. The id of a
-- log does not change.
pub record LogUpdate : Type 0 where
  pub command : Option String
  pub execution_time : Option String
  pub process_id : Option ℤ
  pub status : Option Bool
  pub exec_output : Option String

-- The property `logInfo` of a row and its hooks
pub record LogRow : Type 0 where
  pub instance_id : ℕ
  pub log_info : LogInfo
  pub self_log_info : LogInfo
  pub is_open : Bool

-- What `latestDeleteCallback` of a row that is gone holds on to
pub record Closure : Type 0 where
  pub deletes : Bool
  pub logs : List LogInfo

-- A timer of 3000 ms, by the row that has started it
pub record Ref : Type 0 where
  pub id : ℕ
  pub instance_id : ℕ

-- `log_list` is `none` for null.
pub record Running : Type 0 where
  pub log_list : Option (List LogInfo)
  pub rows : ℕ → Option LogRow
  pub gone : ℕ → ℕ → Option Closure
  pub timers : List Ref
  pub next_instance : ℕ

unfoldable pub first_running : Running
first_running = record {
  log_list = some [];
  rows = λ id. none;
  gone = λ id instance_id. none;
  timers = [];
  next_instance = 0;
}

-- `!selfLogInfo.status && !open`
abbrev pub is_over : LogRow → Bool
is_over r = not r.self_log_info.status && not r.is_open

abbrev pub list_of : Option (List LogInfo) → List LogInfo
list_of none = []
list_of (some logs) = logs

abbrev pub has_id : ℕ → LogInfo → Bool
has_id id log = log.id == id

-- The first rendering of a row
abbrev pub new_row : ℕ → LogInfo → LogRow
new_row n log = record { instance_id = n; log_info = log; self_log_info = log; is_open = false }

abbrev pub row_for : ℕ → Option LogInfo → Option LogRow → Option LogRow
row_for n none old = none
row_for n (some log) none = some (new_row n log)
row_for n (some log) (some r) = some (record r { log_info = log })

-- The timers that the effects of the new rows start
abbrev pub started : ℕ → LogInfo → Option LogRow → List Ref → List Ref
started n log none others =
    if is_over (new_row n log) then record { id = log.id; instance_id = n } ∷ others else others
started n log (some r) others = others

abbrev pub new_timers : ℕ → (ℕ → Option LogRow) → List LogInfo → List Ref
new_timers n rows [] = []
new_timers n rows (log ∷ logs) = started n log (rows log.id) (new_timers n rows logs)

-- The closure of a row that the list drops
abbrev pub closure_of :
    List LogInfo → ℕ → Option LogInfo → Option LogRow → Option Closure → Option Closure
closure_of logs instance_id none (some r) old =
    if r.instance_id == instance_id then some (record { deletes = is_over r; logs = logs }) else old
closure_of logs instance_id _ _ old = old

-- `setLogList` with the rendering and the effects that follow
unfoldable pub set_log_list : Option (List LogInfo) → Running → Running
set_log_list logs s = record {
  log_list = logs;
  rows = λ id. row_for s.next_instance (find (has_id id) (list_of logs)) (s.rows id);
  gone = λ id instance_id.
      closure_of (list_of s.log_list) instance_id (find (has_id id) (list_of logs)) (s.rows id)
        (s.gone id instance_id);
  timers = s.timers ++ new_timers s.next_instance s.rows (list_of logs);
  next_instance = suc s.next_instance;
}

-- The answer to `/task/log/list/running/`, whose code is not read
unfoldable pub running_listed : Reply (List LogInfo) → Running → Running
unfolding set_log_list
running_listed (failed err) s = s
running_listed (got body) s = set_log_list body.content s

-- The subscription to new logs; `...logList` throws where the list is null.
unfoldable pub log_added : LogInfo → Running → Running
unfolding set_log_list
log_added log s = elim s.log_list [ none ↦ s | some logs ↦ set_log_list (some (log ∷ logs)) s ]

-- `deleteLog` of the rendering whose list is `logs`
unfoldable pub delete_log : List LogInfo → ℕ → Running → Running
unfolding set_log_list
delete_log logs id s = set_log_list (some (filter (λ log. not (log.id == id)) logs)) s

-- A change of the hooks of a row, and its effect
abbrev pub set_row : ℕ → LogRow → (ℕ → Option LogRow) → ℕ → Option LogRow
set_row id r rows j = if id == j then some r else rows j

unfoldable pub row_changed : ℕ → LogRow → Running → Running
row_changed id r s = record s {
  rows = set_row id r s.rows;
  timers =
      (if is_over r
        then s.timers ++ record { id = id; instance_id = r.instance_id } ∷ []
        else s.timers);
}

abbrev pub or_old : {A : Type 0} → Option A → A → A
or_old none old = old
or_old (some new) old = new

-- `{...selfLogInfo, ...data}`
unfoldable pub merge : LogUpdate → LogInfo → LogInfo
merge u log = record log {
  command = or_old u.command log.command;
  execution_time = or_old u.execution_time log.execution_time;
  process_id = or_old u.process_id log.process_id;
  status = or_old u.status log.status;
  exec_output = or_old u.exec_output log.exec_output;
}

-- The subscription of a row to its log
unfoldable pub log_updated : ℕ → LogUpdate → Running → Running
unfolding row_changed merge
log_updated id u s = elim (s.rows id) [
  | none ↦ s
  | some r ↦ row_changed id (record r { self_log_info = merge u r.self_log_info }) s
]

-- The button for the output
unfoldable pub output_toggled : ℕ → Running → Running
unfolding row_changed
output_toggled id s = elim (s.rows id) [
  | none ↦ s
  | some r ↦ row_changed id (record r { is_open = not r.is_open }) s
]

-- `closeDialog`; a state that stays the same causes no rendering
unfoldable pub output_closed : ℕ → Running → Running
unfolding row_changed
output_closed id s = elim (s.rows id) [
  | none ↦ s
  | some r ↦ if r.is_open then row_changed id (record r { is_open = false }) s else s
]

abbrev pub is_ref : ℕ → ℕ → Ref → Bool
is_ref id instance_id t = t.id == id && t.instance_id == instance_id

abbrev pub remove_ref : ℕ → ℕ → List Ref → List Ref
remove_ref id instance_id [] = []
remove_ref id instance_id (t ∷ ts) =
    let others = remove_ref id instance_id ts in if is_ref id instance_id t then ts else t ∷ others

-- The row that has started a timer, if it is still there
abbrev pub alive : ℕ → Option LogRow → Option LogRow
alive instance_id none = none
alive instance_id (some r) = if r.instance_id == instance_id then some r else none

-- The call of `latestDeleteCallback.current`
unfoldable pub call_latest : ℕ → Option LogRow → Option Closure → Running → Running
unfolding delete_log
call_latest id (some r) c s = if is_over r then delete_log (list_of s.log_list) id s else s
call_latest id none none s = s
call_latest id none (some c) s = if c.deletes then delete_log c.logs id s else s

-- A timer is over.
unfoldable pub timer_fired : ℕ → ℕ → Running → Running
unfolding call_latest
timer_fired id instance_id s =
    if any (is_ref id instance_id) s.timers
    then call_latest id (alive instance_id (s.rows id)) (s.gone id instance_id)
        (record s { timers = remove_ref id instance_id s.timers })
    else s

-- What can happen to the table
pub data LogEvent : Type 0 where
  lists : Reply (List LogInfo) → LogEvent
  adds : LogInfo → LogEvent
  updates : ℕ → LogUpdate → LogEvent
  toggles closes : ℕ → LogEvent
  fires : ℕ → ℕ → LogEvent

unfoldable pub on_log_event : LogEvent → Running → Running
unfolding running_listed log_added log_updated output_toggled output_closed timer_fired
on_log_event (LogEvent.lists r) s = running_listed r s
on_log_event (LogEvent.adds log) s = log_added log s
on_log_event (LogEvent.updates id u) s = log_updated id u s
on_log_event (LogEvent.toggles id) s = output_toggled id s
on_log_event (LogEvent.closes id) s = output_closed id s
on_log_event (LogEvent.fires id instance_id) s = timer_fired id instance_id s

abbrev pub run_logs : List LogEvent → Running → Running
unfolding on_log_event
run_logs [] s = s
run_logs (e ∷ es) s = run_logs es (on_log_event e s)
