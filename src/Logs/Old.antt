-- ===== src/Logs/Old.antt =====
-- The logs of a task as the list of tasks once showed them, `TaskLogContainer`
-- (web/client/src/screen/taskList/TaskLog.js), which no other file imports.
--
-- React keeps the state of a row while its key is in the list. The timer of a row calls the
-- `handleDelete` of the rendering that has started it, whose `logList` it keeps. An answer without
-- a list is left out.
use gonitor.Prelude.{
  ℕ, suc, Bool, not, Option, none, some, List, [], ◌∷◌, ◌++◌, String, if◌then◌else◌, ◌==◌, nat_eq,
  filter, any,
}
use gonitor.Prelude.Int.{ℤ, is_pos}
use gonitor.Logs.View.{StatusIcon}

pub record OldLog : Type 0 where
  pub id : ℕ
  pub execution_time : String
  pub command : String
  pub process_id : ℤ
  pub status : Bool

-- The data of an update; the id of a log does not change
pub record OldUpdate : Type 0 where
  pub execution_time : Option String
  pub command : Option String
  pub process_id : Option ℤ
  pub status : Option Bool

-- A pending timer: the log that it deletes, and the list of its closure
pub record OldTimer : Type 0 where
  pub log_id : ℕ
  pub captured : List OldLog

-- `logList`, the `selfTaskLogInfo` of the rows, and the timers with their handles
pub record OldLogs : Type 0 where
  pub log_list : List OldLog
  pub rows : List OldLog
  pub timers : List (ℕ × OldTimer)
  pub next : ℕ

unfoldable pub first_old : OldLogs
first_old = record { log_list = []; rows = []; timers = []; next = 0 }

abbrev pub row_of : ℕ → List OldLog → Option OldLog
row_of id [] = none
row_of id (r ∷ rs) = if r.id == id then some r else row_of id rs

-- The effect of a row: an ended log starts a timer
unfoldable pub row_effect : OldLog → OldLogs → OldLogs
row_effect r s = if r.status then s else record s {
  timers = s.timers ++ (s.next, record { log_id = r.id; captured = s.log_list }) ∷ [];
  next = suc s.next;
}

abbrev pub row_for : OldLog → Option OldLog → OldLog
row_for log none = log
row_for log (some row) = row

abbrev pub rows_for : List OldLog → List OldLog → List OldLog
rows_for old [] = []
rows_for old (log ∷ logs) = row_for log (row_of log.id old) ∷ rows_for old logs

-- The effects of the rows that are new
unfoldable pub mount_rows : List OldLog → List OldLog → OldLogs → OldLogs
unfolding row_effect
mount_rows old [] s = s
mount_rows old (log ∷ logs) s =
    let mounted = mount_rows old logs in
    if any (λ r. r.id == log.id) old then mounted s else mounted (row_effect log s)

-- `setLogList` and the rendering after it
unfoldable pub set_logs : List OldLog → OldLogs → OldLogs
unfolding mount_rows
set_logs logs s = mount_rows s.rows logs (record s { log_list = logs; rows = rows_for s.rows logs })

-- `deleteEndLog` of the rendering with a list
unfoldable pub delete_end_log : List OldLog → ℕ → OldLogs → OldLogs
unfolding set_logs
delete_end_log captured log_id = set_logs (filter (λ log. not (log.id == log_id)) captured)

abbrev pub or_same : {A : Type 0} → Option A → A → A
or_same none old = old
or_same (some new) old = new

unfoldable pub merge_old : OldUpdate → OldLog → OldLog
merge_old u r = record r {
  execution_time = or_same u.execution_time r.execution_time;
  command = or_same u.command r.command;
  process_id = or_same u.process_id r.process_id;
  status = or_same u.status r.status;
}

abbrev pub replaced : OldLog → List OldLog → List OldLog
replaced new [] = []
replaced new (r ∷ rs) = (if r.id == new.id then new else r) ∷ replaced new rs

-- A row renders with its new state, and its effect runs
unfoldable pub row_updated : OldUpdate → Option OldLog → OldLogs → OldLogs
unfolding merge_old row_effect
row_updated u none s = s
row_updated u (some r) s =
    row_effect (merge_old u r) (record s { rows = replaced (merge_old u r) s.rows })

abbrev pub timer_of : ℕ → List (ℕ × OldTimer) → Option OldTimer
timer_of handle [] = none
timer_of handle ((h, t) ∷ ts) = if h == handle then some t else timer_of handle ts

unfoldable pub on_old_timer : Option OldTimer → OldLogs → OldLogs
unfolding delete_end_log
on_old_timer none s = s
on_old_timer (some t) s = delete_end_log t.captured t.log_id s

pub data OldEvent : Type 0 where
  -- The answer to `getTaskLogList`, and a log that is added
  listed : List OldLog → OldEvent
  added : OldLog → OldEvent
  -- An update of a log
  updated : ℕ → OldUpdate → OldEvent
  -- A timer fires
  elapsed : ℕ → OldEvent

unfoldable pub on_old_event : OldEvent → OldLogs → OldLogs
unfolding set_logs row_updated on_old_timer
on_old_event (OldEvent.listed logs) s = set_logs logs s
on_old_event (OldEvent.added log) s = set_logs (log ∷ s.log_list) s
on_old_event (OldEvent.updated id u) s = row_updated u (row_of id s.rows) s
on_old_event (OldEvent.elapsed handle) s =
    on_old_timer (timer_of handle s.timers)
      (record s { timers = filter (λ t. not (t.0 == handle)) s.timers })

unfoldable pub run_old : List OldEvent → OldLogs → OldLogs
unfolding on_old_event
run_old [] s = s
run_old (e ∷ es) s = run_old es (on_old_event e s)

-- What a row shows
pub record OldRowView : Type 0 where
  pub execution_time : String
  pub command : String
  pub process_id : ℤ
  pub icon : StatusIcon
  pub stop_disabled : Bool

unfoldable pub old_row_view : OldLog → OldRowView
old_row_view r = record {
  execution_time = r.execution_time;
  command = r.command;
  process_id = r.process_id;
  icon =
      (if r.status
        then (if is_pos r.process_id then StatusIcon.run_circle else StatusIcon.hourglass)
        else StatusIcon.stop_circle);
  stop_disabled = not r.status;
}

abbrev pub old_columns : List String
old_columns = "Time" ∷ "Command" ∷ "Process Id" ∷ "Status" ∷ "Function" ∷ []
