-- ===== src/Tasks/Row.antt =====
-- A row of the table of tasks with the updates of its task
-- (web/client/src/screen/taskList/TaskRow.js).
use gonitor.Prelude.{ℕ, ◌+◌, Bool, Option, none, some, String, if◌then◌else◌, truthy, ◌≡◌, refl}
use gonitor.Enum.{priority_label, priority_color, strategy_language}

-- The fields of a task that a row shows. A node without a name is blank.
pub record RowTask : Type 0 where
  pub id : ℕ
  pub name : String
  pub priority : ℕ
  pub exec_type : String
  pub schedule : String
  pub node_name : String
  pub exec_strategy : ℕ
  pub is_disable : Bool
  pub running_count : ℕ
  pub last_run_time : String
  pub next_run_time : String

-- What the server sends of a task that changes: `none` for a field that is not there. The id of a
-- task does not change.
pub record RowUpdate : Type 0 where
  pub name : Option String
  pub priority : Option ℕ
  pub exec_type : Option String
  pub schedule : Option String
  pub node_name : Option String
  pub exec_strategy : Option ℕ
  pub is_disable : Option Bool
  pub running_count : Option ℕ
  pub last_run_time : Option String
  pub next_run_time : Option String

abbrev pub or_current : {A : Type 0} → Option A → A → A
or_current none old = old
or_current (some new) old = new

-- The subscription of a row to its task
unfoldable pub row_updated : RowUpdate → RowTask → RowTask
row_updated u t = record t {
  name = or_current u.name t.name;
  priority = or_current u.priority t.priority;
  exec_type = or_current u.exec_type t.exec_type;
  schedule = or_current u.schedule t.schedule;
  node_name = or_current u.node_name t.node_name;
  exec_strategy = or_current u.exec_strategy t.exec_strategy;
  is_disable = or_current u.is_disable t.is_disable;
  running_count = or_current u.running_count t.running_count;
  last_run_time = or_current u.last_run_time t.last_run_time;
  next_run_time = or_current u.next_run_time t.next_run_time;
}

pub record TaskRowView : Type 0 where
  pub number : ℕ
  pub name : String
  pub priority_chip : String × String
  pub exec_type : String
  pub schedule : String
  pub node_name : String
  pub strategy : String
  pub status_chip : String × String
  pub running_count : ℕ
  pub last_run_time : String
  pub next_run_time : String

unfoldable pub task_row_view : ℕ → RowTask → TaskRowView
unfolding priority_label priority_color strategy_language
task_row_view index t = record {
  number = index + 1;
  name = t.name;
  priority_chip = (priority_label t.priority, priority_color t.priority);
  exec_type = t.exec_type;
  schedule = t.schedule;
  node_name = (if truthy t.node_name then t.node_name else "主节点");
  strategy = strategy_language t.exec_strategy;
  status_chip = (if t.is_disable then ("Disabled", "default") else ("Enabled", "success"));
  running_count = t.running_count;
  last_run_time = t.last_run_time;
  next_run_time = t.next_run_time;
}

-- Two updates as one, in which the later wins
abbrev pub later : {A : Type 0} → Option A → Option A → Option A
later none old = old
later (some new) old = some new

abbrev pub merged : RowUpdate → RowUpdate → RowUpdate
merged v u = record {
  name = later v.name u.name;
  priority = later v.priority u.priority;
  exec_type = later v.exec_type u.exec_type;
  schedule = later v.schedule u.schedule;
  node_name = later v.node_name u.node_name;
  exec_strategy = later v.exec_strategy u.exec_strategy;
  is_disable = later v.is_disable u.is_disable;
  running_count = later v.running_count u.running_count;
  last_run_time = later v.last_run_time u.last_run_time;
  next_run_time = later v.next_run_time u.next_run_time;
}

or_current-later :
    {A : Type 0} (v u : Option A) (x : A) → or_current v (or_current u x) ≡ or_current (later v u) x
or_current-later none u x = refl
or_current-later (some new) u x = refl

-- A row shows after two updates what it shows after the one in which the later of them wins.
pub row_updated-row_updated :
    (v u : RowUpdate) (t : RowTask) → row_updated v (row_updated u t) ≡ row_updated (merged v u) t
unfolding row_updated
row_updated-row_updated v u t = λ i. record t {
  name = or_current-later v.name u.name t.name i;
  priority = or_current-later v.priority u.priority t.priority i;
  exec_type = or_current-later v.exec_type u.exec_type t.exec_type i;
  schedule = or_current-later v.schedule u.schedule t.schedule i;
  node_name = or_current-later v.node_name u.node_name t.node_name i;
  exec_strategy = or_current-later v.exec_strategy u.exec_strategy t.exec_strategy i;
  is_disable = or_current-later v.is_disable u.is_disable t.is_disable i;
  running_count = or_current-later v.running_count u.running_count t.running_count i;
  last_run_time = or_current-later v.last_run_time u.last_run_time t.last_run_time i;
  next_run_time = or_current-later v.next_run_time u.next_run_time t.next_run_time i;
}
