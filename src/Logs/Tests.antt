-- ===== src/Logs/Tests.antt =====
-- The logs of a task on concrete events, at which the theorems hold.
use gonitor.Prelude.{
  ℕ, true, false, none, some, List, [], ◌∷◌, ◌≡◌, refl, arith, if◌then◌else◌, ◌==◌, nat_eq, filter,
  not,
}
use gonitor.Prelude.Int.{pos}
use gonitor.Pagination.{Button}
use gonitor.Logs.{
  LogInfo, LogUpdate, LogRow, Running, LogEvent, first_running, run_logs, timer_fired, log_added,
  list_of, on_log_event, log_updated, set_log_list, row_changed, merge,
}
use gonitor.Logs.Watched.{is_watched}
use gonitor.Logs.Fired.{first-watched, timer_fired-deletes}
use gonitor.Logs.Late.{late_timer-drops}
use gonitor.Logs.Ended.{Ended, ShowsRows, turns, turns-ShowsRows}

abbrev log : ℕ → LogInfo
log id = record {
  id = id;
  execution_time = "now";
  command = "run";
  process_id = pos 1;
  status = true;
  exec_output = "";
}

abbrev ends : LogUpdate
ends = record {
  command = none;
  execution_time = none;
  process_id = none;
  status = some false;
  exec_output = none;
}

abbrev events : List LogEvent
events = LogEvent.adds (log 1) ∷ LogEvent.adds (log 2) ∷ LogEvent.updates 1 ends ∷ []

first-watched_example :
    is_watched 1 ((run_logs events first_running).rows 1) (run_logs events first_running).timers
    ≡ true
first-watched_example = first-watched events 1

abbrev ended_row : LogRow
ended_row = record {
  instance_id = 0;
  log_info = log 1;
  self_log_info = record (log 1) { status = false };
  is_open = false;
}

-- The log 1 is over, and its row has started two timers.
abbrev twice : Running
twice = record {
  log_list = some (log 2 ∷ log 1 ∷ []);
  rows = λ id. if◌then◌else◌ (id == 1) (some ended_row) none;
  gone = λ id n. none;
  timers = record { id = 1; instance_id = 0 } ∷ record { id = 1; instance_id = 0 } ∷ [];
  next_instance = 2;
}

ended_row-listed : (run_logs events first_running).rows 1 ≡ some ended_row
unfolding first_running on_log_event log_added log_updated set_log_list row_changed merge
ended_row-listed = refl

timer_fired-deletes_example :
    list_of (timer_fired 1 0 (run_logs events first_running)).log_list
    ≡ filter (λ log. not (log.id == 1)) (list_of (run_logs events first_running).log_list)
timer_fired-deletes_example = timer_fired-deletes events 1 ended_row ended_row-listed

late_timer-drops_example :
    (timer_fired 1 0 (log_added (log 3) (timer_fired 1 0 twice))).log_list ≡ some (log 2 ∷ [])
late_timer-drops_example =
    late_timer-drops 1 ended_row twice (log 2 ∷ log 1 ∷ []) [] (log 3) refl refl refl refl refl

abbrev one_page : Ended
one_page = record {
  log_list = [];
  page_info = record { page = pos 0; limit = 10; total_rows = 25 };
}

turns-ShowsRows_example :
    ShowsRows
      (λ page limit. [])
      25
      9
      (turns (λ page limit. []) 25 (Button.next ∷ Button.next ∷ Button.next ∷ []) one_page)
turns-ShowsRows_example =
    turns-ShowsRows (λ page limit. []) 25 9 (Button.next ∷ Button.next ∷ Button.next ∷ []) one_page
      (0, refl, omega arith)
