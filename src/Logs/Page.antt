-- ===== src/Logs/Page.antt =====
-- The page of one task around its logs (web/client/src/screen/taskInfo/TaskInfo.js): its box with
-- the chart, its tabs, and the table of the ended logs (TaskEndedLog.js beside it).
use gonitor.Prelude.{ℕ, Option, none, some, List, [], ◌∷◌, String, if◌then◌else◌, ◌==◌, string_eq}
use gonitor.Hook.{Interval}
use gonitor.Chart.{Chart, mount_chart}
use gonitor.Chart.Sample.{get_option}
use gonitor.Chart.Box.{Boxed, BoxEvent, on_box_event}
use gonitor.Logs.Info.{ShownTask, first_task, TaskUpdate, task_updated, task_loaded}

-- The chart shows the running count
unfoldable pub task_box : Boxed TaskUpdate ShownTask ℕ
unfolding task_updated task_loaded
task_box = record { merge = task_updated; load = task_loaded; text = λ t. t.running_count }

-- `TaskInfoContent` on its first rendering, and its events
unfoldable pub mount_task : ℕ → List Interval → Chart ShownTask ℕ
unfolding mount_chart get_option first_task
mount_task = mount_chart (get_option (λ n. n)) first_task

unfoldable pub on_task_event :
    BoxEvent TaskUpdate ShownTask → Chart ShownTask ℕ → Option (Chart ShownTask ℕ)
unfolding on_box_event task_box
on_task_event = on_box_event task_box

-- `currentTab`
abbrev pub first_tab : String
first_tab = "running"

abbrev pub handle_tab_change : String → String → String
handle_tab_change new_value current = new_value

-- The labels of the tabs with their values
abbrev pub tabs : List (String × String)
tabs = ("Running", "running") ∷ ("Ended", "ended") ∷ []

pub data LogTable : Type 0 where
  task_log_table task_ended_log : LogTable

-- The panel that is mounted below the tabs
unfoldable pub tab_panel : String → Option LogTable
tab_panel current =
    if current == "running"
    then some LogTable.task_log_table
    else if current == "ended"
    then some LogTable.task_ended_log
    else none

abbrev pub ended_columns : List String
ended_columns = "Time" ∷ "Command" ∷ "Retry Times" ∷ "Result" ∷ "Function" ∷ []
