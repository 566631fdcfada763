-- ===== src/Tasks/Cards.antt =====
-- The two styles of the list of tasks: the table with its rows, whose state React keeps under
-- `uniKey`, and the cards (web/client/src/screen/taskList/TaskListTableStyle.js,
-- TaskListCardStyle.js and TaskRow.js). A key is of any type with a test of equality.
use gonitor.Prelude.{
  ℕ, suc, Bool, Option, none, some, List, [], ◌∷◌, ◌++◌, String, if◌then◌else◌, ◌==◌, nat_eq, Eq,
  truthy, filter, map,
}
use gonitor.Js.{trim, split_commas}
use gonitor.Enum.{priority_label, priority_color}
use gonitor.Tasks.Row.{RowTask, RowUpdate, TaskRowView, row_updated, task_row_view}

-- The fields of a task that a card shows beside those of a row
pub record CardTask : Type 0 where
  pub row : RowTask
  pub description : String
  pub command : String
  pub tags : String

pub data CardValue : Type 0 where
  text : String → CardValue
  number : ℕ → CardValue
  chips : List String → CardValue

pub record TaskCardView : Type 0 where
  pub name : String
  pub priority_chip : String × String
  pub status_chip : String × String
  pub description : Option String
  pub items : List (String × CardValue)

abbrev pub shown_if : String → String → Option String
shown_if shown s = if truthy shown then some s else none

-- `taskInfo.tags && ...`
unfoldable pub card_tags : String → List (String × CardValue)
card_tags tags =
    if truthy tags
    then ("tags", CardValue.chips (map trim (filter (λ t. truthy (trim t)) (split_commas tags))))
      ∷ []
    else []

-- `TaskCard`
unfoldable pub task_card_view : CardTask → TaskCardView
unfolding card_tags priority_label priority_color
task_card_view t = record {
  name = t.row.name;
  priority_chip = (priority_label t.row.priority, priority_color t.row.priority);
  status_chip = (if t.row.is_disable then ("Disabled", "default") else ("Enabled", "success"));
  description = shown_if t.description t.description;
  items =
      ("schedule", CardValue.text t.row.schedule)
        ∷ ("command", CardValue.text t.command)
        ∷ ("exec_type", CardValue.text t.row.exec_type)
        ∷ ("node", CardValue.text (if truthy t.row.node_name then t.row.node_name else "主节点"))
        ∷ ("running_count", CardValue.number t.row.running_count)
        ∷ ("last_run_time", CardValue.text t.row.last_run_time)
        ∷ ("next_run_time", CardValue.text t.row.next_run_time)
        ∷ []
      ++ card_tags t.tags;
}

-- `TaskListCardStyle`: nothing while the page is loading
unfoldable pub task_cards : Bool → List CardTask → List TaskCardView
unfolding task_card_view
task_cards loading tasks = if loading then [] else map task_card_view tasks

abbrev pub task_columns : List String
task_columns =
    "No." ∷ "Name" ∷ "Priority" ∷ "Type" ∷ "Schedule" ∷ "Node" ∷ "Strategy" ∷ "Status" ∷ "Running"
    ∷ "Last Run Time" ∷ "Next Run Time" ∷ "Actions" ∷ []

-- `useState(taskInfo)`: the state of a row that is there already
abbrev pub kept_row : RowTask → Option RowTask → RowTask
kept_row task none = task
kept_row task (some row) = row

module _ {K : Type 0} ⦃key_eq : Eq K⦄ where
  -- The `selfTaskInfo` of a row, under its key
  abbrev pub row_at : K → List (K × RowTask) → Option RowTask
  row_at k [] = none
  row_at k ((l, r) ∷ rows) = if l == k then some r else row_at k rows

  -- A rendering with a list of tasks
  unfoldable pub table_rendered : List (K × RowTask) → List (K × RowTask) → List (K × RowTask)
  table_rendered [] old = []
  table_rendered ((k, task) ∷ tasks) old =
      (k, kept_row task (row_at k old)) ∷ table_rendered tasks old

  -- An update of a task, which the rows of the task receive
  unfoldable pub update_rows : ℕ → RowUpdate → List (K × RowTask) → List (K × RowTask)
  unfolding row_updated
  update_rows id u [] = []
  update_rows id u ((k, r) ∷ rows) =
      (k, if r.id == id then row_updated u r else r) ∷ update_rows id u rows

-- The rows with their indices
unfoldable pub row_views : {K : Type 0} → ℕ → List (K × RowTask) → List TaskRowView
unfolding task_row_view
row_views index [] = []
row_views index ((k, r) ∷ rows) = task_row_view index r ∷ row_views (suc index) rows

pub data TableEvent (K : Type 0) : Type 0 where
  -- A rendering, with the tasks under their keys; while the page is loading, with none
  rendered : List (K × RowTask) → TableEvent K
  updated : ℕ → RowUpdate → TableEvent K

module _ {K : Type 0} ⦃key_eq : Eq K⦄ where
  unfoldable pub run_table : List (TableEvent K) → List (K × RowTask) → List (K × RowTask)
  unfolding table_rendered update_rows
  run_table [] rows = rows
  run_table (TableEvent.rendered tasks ∷ es) rows = run_table es (table_rendered tasks rows)
  run_table (TableEvent.updated id u ∷ es) rows = run_table es (update_rows id u rows)

-- The body of the table: placeholders with 12 cells, or the rows
pub data TableBody : Type 0 where
  skeletons : ℕ → ℕ → TableBody
  task_rows : List TaskRowView → TableBody

unfoldable pub table_body : {K : Type 0} → Bool → List (K × RowTask) → TableBody
unfolding row_views
table_body loading rows =
    if loading then TableBody.skeletons 5 12 else TableBody.task_rows (row_views 0 rows)
