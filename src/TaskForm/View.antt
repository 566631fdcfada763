-- ===== src/TaskForm/View.antt =====
-- What the form of a task shows (web/client/src/screen/taskList/TaskInfoEditForm.js): its inputs in
-- order, with their values and what a change of each does. The layout is left out.
use gonitor.Prelude.{
  ℕ, Bool, true, false, List, [], ◌∷◌, ◌++◌, String, if◌then◌else◌, map, truthy, concat, string_eq,
}
use gonitor.Prelude.Int.{pos}
use gonitor.Js.{Value}
use gonitor.Request.{Piece}
use gonitor.Enum.{http, cmd, file, execute_language, low, medium, high, critical, priority_label}
use gonitor.TaskForm.{NodeItem, TaskItem, FormState, FormEvent}

-- A choice of a `Select` or a `RadioGroup`, with its label in parts
pub record Choice : Type 0 where
  pub value : Value
  pub label : List Piece

pub data Field : Type 0 where
  text_field :
      (id : String) (label : String) (required : Bool) (value : String)
      (on_change : String → FormEvent)
      → Field
  number_field :
      (id : String) (label : String) (required : Bool) (value : Value)
      (on_change : Value → FormEvent)
      → Field
  type_select : (value : String) (choices : List Choice) (on_change : String → FormEvent) → Field
  select :
      (id : String) (label : String) (value : Value) (choices : List Choice)
      (on_change : Value → FormEvent)
      → Field
  schedule_field : (value : String) (on_change : String → FormEvent) → Field
  tag_field :
      (value : String) (on_change : String → FormEvent) (on_key_down : String → FormEvent) → Field
  chips : (tags : List String) (on_delete : String → FormEvent) → Field
  radio_group :
      (label : String) (default_value : Value) (choices : List Choice)
      (on_change : Value → FormEvent)
      → Field
  switch : (label : String) (checked : Bool) (on_change : Bool → FormEvent) → Field
  assert_field : (value : String) (on_change : String → FormEvent) → Field
  result_handler_field : (value : String) (on_change : String → FormEvent) → Field

abbrev type_choice : String → Choice
type_choice type = record {
  value = Value.text type;
  label = Piece.text (execute_language type) ∷ [];
}

abbrev priority_choice : ℕ → Choice
priority_choice p = record {
  value = Value.number (pos p);
  label = Piece.text (priority_label p) ∷ [];
}

unfoldable pub node_choice : NodeItem → Choice
node_choice node = record {
  value = Value.number (pos node.id);
  label =
      Piece.text node.name
      ∷ Piece.text (if truthy node.region then concat " (" (concat node.region ")") else "")
      ∷ Piece.text (if node.is_master then " ★" else "")
      ∷ [];
}

unfoldable pub task_choice : TaskItem → Choice
task_choice task = record {
  value = Value.number (pos task.id);
  label = Piece.text task.name ∷ Piece.text " #" ∷ Piece.num (pos task.id) ∷ [];
}

abbrev no_dependency : Choice
no_dependency = record { value = Value.number (pos 0); label = Piece.text "无依赖" ∷ [] }

-- The inputs above the schedule
unfoldable pub upper_fields : FormState → List Field
unfolding node_choice task_choice
upper_fields f =
    Field.text_field "taskName" "Name" true f.task_name FormEvent.names
    ∷ Field.text_field "description" "Description" false f.description FormEvent.describes
    ∷ Field.type_select f.execute_type (map type_choice (http ∷ cmd ∷ file ∷ []))
        FormEvent.picks_type
    ∷ Field.select "priority" "Priority" f.priority
        (map priority_choice (low ∷ medium ∷ high ∷ critical ∷ [])) FormEvent.ranks
    ∷ Field.select "node-select" "执行节点" f.node_id (map node_choice f.node_select_list)
        FormEvent.picks_node
    ∷ Field.select "depends-task" "依赖任务" f.depends_on_task_id
        (no_dependency ∷ map task_choice f.task_select_list) FormEvent.depends
    ∷ Field.text_field "command" f.command_text true f.command FormEvent.commands
    ∷ []

abbrev strategy_choice : ℕ → String → Choice
strategy_choice n label = record { value = Value.number (pos n); label = Piece.text label ∷ [] }

-- The schedule and the inputs below it
unfoldable pub lower_fields : FormState → List Field
lower_fields f =
    Field.schedule_field f.schedule FormEvent.schedules
    ∷ Field.tag_field f.tag_input FormEvent.types_tag FormEvent.keys_tag
    ∷ Field.chips f.tags FormEvent.deletes_tag
    ∷ Field.number_field "retryTimes" "Retry Times" true f.retry_times FormEvent.retries
    ∷ Field.number_field "retryInterval" "Retry Interval (seconds)" true f.retry_interval
        FormEvent.waits
    ∷ Field.number_field "timeout" "Timeout (seconds, 0 = unlimited)" true f.timeout
        FormEvent.limits
    ∷ Field.radio_group "Execute Strategy (when last task is running)" f.exec_strategy
        (strategy_choice 0 "Parallel" ∷ strategy_choice 1 "Skip" ∷ strategy_choice 2 "Delay" ∷ [])
        FormEvent.picks_strategy
    ∷ Field.switch "Disabled" f.is_disable FormEvent.disables
    ∷ Field.assert_field f.assert FormEvent.asserts
    ∷ Field.result_handler_field f.result_handler FormEvent.handles
    ∷ []

unfoldable pub fields : FormState → List Field
unfolding upper_fields lower_fields
fields f = upper_fields f ++ lower_fields f
