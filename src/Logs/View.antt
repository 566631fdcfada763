-- ===== src/Logs/View.antt =====
-- What the pages of the logs and of one task show (web/client/src/screen/taskInfo/
-- TaskRunningLog.js, TaskEndedLog.js, TaskInfo.js and TaskExecOutputDialog.js). The formatting of
-- a time by moment is an argument.
use gonitor.Prelude.{
  ℕ, Bool, not, Option, some, List, [], ◌∷◌, ◌++◌, String, if◌then◌else◌, truthy, map, nat_eq,
}
use gonitor.Prelude.Int.{ℤ, is_pos}
use gonitor.Enum.{priority_label, priority_color}
use gonitor.Logs.{LogRow}
use gonitor.Logs.Ended.{EndedLog, EndedRow}
use gonitor.Logs.Info.{ShownTask, tag_list, tag_labels}

pub data StatusIcon : Type 0 where
  run_circle hourglass stop_circle : StatusIcon

-- `TaskExecOutputDialog`
pub record OutputDialog : Type 0 where
  pub is_open : Bool
  pub exec_output : Option String

-- A row of the running logs
pub record RunningView : Type 0 where
  pub execution_time : String
  pub command : String
  pub process_id : ℤ
  pub icon : StatusIcon
  pub stop_disabled : Bool
  pub dialog : OutputDialog

unfoldable pub running_view : LogRow → RunningView
running_view r = record {
  execution_time = r.self_log_info.execution_time;
  command = r.log_info.command;
  process_id = r.self_log_info.process_id;
  icon =
      (if r.self_log_info.status
        then (if is_pos r.self_log_info.process_id
            then StatusIcon.run_circle
            else StatusIcon.hourglass)
        else StatusIcon.stop_circle);
  stop_disabled = not r.self_log_info.status;
  dialog = record { is_open = r.is_open; exec_output = some r.self_log_info.exec_output };
}

-- A row of the ended logs
pub record EndedView : Type 0 where
  pub exec_time : String
  pub command : String
  pub retry_times : ℕ
  pub succeeded : Bool
  pub dialog : OutputDialog

unfoldable pub ended_view : (String → String) → EndedLog → EndedRow → EndedView
ended_view format log r = record {
  exec_time = format log.exec_time;
  command = log.command;
  retry_times = log.retry_times;
  succeeded = log.exec_result;
  dialog = record { is_open = r.is_open; exec_output = r.exec_output };
}

-- A value of `InfoItem`: a text, a number, or chips with their colours
pub data InfoValue : Type 0 where
  text : String → InfoValue
  number : ℕ → InfoValue
  chips : List (String × String) → InfoValue

-- `node_name` of the task is an argument, since only the answer has it.
unfoldable pub info_items : String → ShownTask → List (String × InfoValue)
unfolding tag_labels priority_label priority_color
info_items node_name t =
    ("Name", InfoValue.text t.name)
      ∷ (if truthy t.description then ("Description", InfoValue.text t.description) ∷ [] else [])
    ++ ("Priority", InfoValue.chips ((priority_label t.priority, priority_color t.priority) ∷ []))
      ∷ ("Schedule", InfoValue.text t.schedule)
      ∷ ("Execute Type", InfoValue.text t.exec_type)
      ∷ ("Node", InfoValue.text (if truthy node_name then node_name else "主节点"))
      ∷ (
        "Status",
        InfoValue.chips
            ((if t.is_disable then ("Disabled", "default") else ("Enabled", "success")) ∷ []),
      )
      ∷ ("Last run time", InfoValue.text t.last_run_time)
      ∷ ("Next run time", InfoValue.text t.next_run_time)
      ∷ ("Running Count", InfoValue.number t.running_count)
      ∷ (elim (tag_list t) as (λ x. List (String × InfoValue)) [
        | [] ↦ []
        | tag ∷ tags ↦
            ("Tags", InfoValue.chips (map (λ label. (label, "outlined")) (tag_labels t))) ∷ []
      ])
