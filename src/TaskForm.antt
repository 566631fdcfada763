-- ===== src/TaskForm.antt =====
-- The form of a task (web/client/src/screen/taskList/TaskInfoEditForm.js), which the dialogs for
-- adding and for editing a task show.
--
-- A number of the form is what its input holds: the number or text that the form began with, or
-- the text or number of the event. The requests of the two effects are answered by an event.
pub mod View
pub mod Help
pub mod Editors
pub mod Typed
pub mod Numbers
pub mod Tests
pub mod Shown
pub mod Tags
pub mod Values
use gonitor.Prelude.{
  ℕ, zero, suc, Bool, true, false, not, ◌&&◌, Option, none, some, List, [], ◌∷◌, ◌++◌, String,
  if◌then◌else◌, ◌==◌, nat_eq, string_eq, filter, find, any, truthy, or_else,
}
use gonitor.Prelude.Int.{ℤ, pos}
use gonitor.Js.{Value, parse_int, or_zero, split_commas, join_commas, trim, truthy_value}
use gonitor.Request.{Reply, got, failed}
use gonitor.Enum.{command_label, medium}

-- A task, as a dialog passes it to the form
pub record TaskInfo : Type 0 where
  pub id : Option ℕ
  pub name : String
  pub description : String
  pub exec_type : String
  pub command : String
  pub schedule : String
  pub retry_times : Value
  pub retry_interval : Value
  pub timeout : Value
  pub exec_strategy : Value
  pub is_disable : Bool
  pub priority : Value
  pub tags : String
  pub assert : String
  pub result_handler : String
  pub node_id : Value
  pub depends_on_task_id : Value

-- An item of `/node/select`
pub record NodeItem : Type 0 where
  pub id : ℕ
  pub name : String
  pub region : String
  pub is_master : Bool

-- An item of `/task/list`
pub record TaskItem : Type 0 where
  pub id : ℕ
  pub name : String

-- The hooks `useState` of `TaskInfoEditForm`
pub record FormState : Type 0 where
  pub task_name : String
  pub description : String
  pub execute_type : String
  pub command_text : String
  pub command : String
  pub schedule : String
  pub retry_times : Value
  pub retry_interval : Value
  pub timeout : Value
  pub exec_strategy : Value
  pub is_disable : Bool
  pub priority : Value
  pub tags : List String
  pub tag_input : String
  pub assert : String
  pub result_handler : String
  pub node_id : Value
  pub depends_on_task_id : Value
  pub node_select_list : List NodeItem
  pub task_select_list : List TaskItem

-- What `getFormValues` returns; `none` is NaN, which JSON writes as null
pub record FormValues : Type 0 where
  pub name : String
  pub description : String
  pub exec_type : String
  pub command : String
  pub schedule : String
  pub retry_times : Option ℤ
  pub retry_interval : Option ℤ
  pub timeout : Option ℤ
  pub exec_strategy : Option ℤ
  pub is_disable : Bool
  pub priority : Option ℤ
  pub tags : String
  pub assert : String
  pub result_handler : String
  pub node_id : Option ℤ
  pub depends_on_task_id : Option ℤ

unfoldable pub get_form_values : FormState → FormValues
get_form_values f = record {
  name = f.task_name;
  description = f.description;
  exec_type = f.execute_type;
  command = f.command;
  schedule = f.schedule;
  retry_times = parse_int f.retry_times;
  retry_interval = parse_int f.retry_interval;
  timeout = parse_int f.timeout;
  exec_strategy = parse_int f.exec_strategy;
  is_disable = f.is_disable;
  priority = parse_int f.priority;
  tags = join_commas f.tags;
  assert = f.assert;
  result_handler = f.result_handler;
  node_id = parse_int f.node_id;
  depends_on_task_id = parse_int f.depends_on_task_id;
}

-- `taskInfo.priority !== undefined ? taskInfo.priority : PriorityEnum.MEDIUM`
unfoldable pub initial_priority : Value → Value
initial_priority Value.undefined = Value.number (pos medium)
initial_priority (Value.number z) = Value.number z
initial_priority (Value.text s) = Value.text s

-- `taskInfo.tags ? taskInfo.tags.split(",").filter(t => t.trim() !== "") : []`
unfoldable pub initial_tags : String → List String
initial_tags tags = if truthy tags then filter (λ t. not (trim t == "")) (split_commas tags) else []

-- The state after the first rendering, before the effects
unfoldable pub initial : TaskInfo → FormState
unfolding initial_priority initial_tags
initial task = record {
  task_name = task.name;
  description = or_else task.description "";
  execute_type = task.exec_type;
  command_text = "Http Url (only support GET method)";
  command = task.command;
  schedule = task.schedule;
  retry_times = task.retry_times;
  retry_interval = task.retry_interval;
  timeout = or_zero task.timeout;
  exec_strategy = task.exec_strategy;
  is_disable = task.is_disable;
  priority = initial_priority task.priority;
  tags = initial_tags task.tags;
  tag_input = "";
  assert = task.assert;
  result_handler = task.result_handler;
  node_id = or_zero task.node_id;
  depends_on_task_id = or_zero task.depends_on_task_id;
  node_select_list = [];
  task_select_list = [];
}

unfoldable pub handle_execute_type_change : String → FormState → FormState
unfolding command_label
handle_execute_type_change type f = record f {
  execute_type = type;
  command_text = command_label type;
}

-- `tags.includes(tag)`
unfoldable pub includes : String → List String → Bool
includes tag tags = any (◌== tag) tags

unfoldable pub handle_tag_input_key_down : String → FormState → FormState
unfolding includes
handle_tag_input_key_down key f =
    let tag = trim f.tag_input in
    if key == "Enter" && not (tag == "")
    then record f {
      tags = (if not (includes tag f.tags) then f.tags ++ tag ∷ [] else f.tags);
      tag_input = "";
    }
    else f

unfoldable pub handle_delete_tag : String → FormState → FormState
handle_delete_tag tag f = record f { tags = filter (λ t. not (t == tag)) f.tags }

-- The id of the first node that is the master
unfoldable pub master_node : List NodeItem → Option ℕ
master_node nodes = elim (find NodeItem.is_master nodes) [ none ↦ none | some node ↦ some node.id ]

-- The answer to `/node/select`; a failed request has no handler
unfoldable pub on_nodes : TaskInfo → Reply (List NodeItem) → FormState → FormState
unfolding master_node
on_nodes task (failed err) f = f
on_nodes task (got body) f = elim body.content [
  | none ↦ f
  | some nodes ↦
      if body.code == 0
      then if not (truthy_value task.node_id)
        then elim (master_node nodes) [
          | none ↦ record f { node_select_list = nodes }
          | some id ↦ record f { node_select_list = nodes; node_id = Value.number (pos id) }
        ]
        else record f { node_select_list = nodes }
      else f
]

-- `item.id !== taskInfo.id`
unfoldable pub is_other : TaskInfo → TaskItem → Bool
is_other task item = elim task.id [ none ↦ true | some id ↦ not (item.id == id) ]

-- The answer to `/task/list`
unfoldable pub on_tasks : TaskInfo → Reply (List TaskItem) → FormState → FormState
unfolding is_other
on_tasks task (failed err) f = f
on_tasks task (got body) f = elim body.content [
  | none ↦ f
  | some tasks ↦
      if body.code == 0 then record f { task_select_list = filter (is_other task) tasks } else f
]

-- What happens to the form: `onChange` of each input, a key in the input of tags, the deletion of
-- a chip, and the two answers
pub data FormEvent : Type 0 where
  names : String → FormEvent
  describes : String → FormEvent
  picks_type : String → FormEvent
  commands : String → FormEvent
  schedules : String → FormEvent
  retries : Value → FormEvent
  waits : Value → FormEvent
  limits : Value → FormEvent
  picks_strategy : Value → FormEvent
  disables : Bool → FormEvent
  ranks : Value → FormEvent
  types_tag : String → FormEvent
  keys_tag : String → FormEvent
  deletes_tag : String → FormEvent
  asserts : String → FormEvent
  handles : String → FormEvent
  picks_node : Value → FormEvent
  depends : Value → FormEvent
  lists_nodes : Reply (List NodeItem) → FormEvent
  lists_tasks : Reply (List TaskItem) → FormEvent

unfoldable pub on_form_event : TaskInfo → FormEvent → FormState → FormState
unfolding handle_execute_type_change handle_tag_input_key_down handle_delete_tag on_nodes on_tasks
on_form_event task (FormEvent.names s) f = record f { task_name = s }
on_form_event task (FormEvent.describes s) f = record f { description = s }
on_form_event task (FormEvent.picks_type s) f = handle_execute_type_change s f
on_form_event task (FormEvent.commands s) f = record f { command = s }
on_form_event task (FormEvent.schedules s) f = record f { schedule = s }
on_form_event task (FormEvent.retries v) f = record f { retry_times = v }
on_form_event task (FormEvent.waits v) f = record f { retry_interval = v }
on_form_event task (FormEvent.limits v) f = record f { timeout = v }
on_form_event task (FormEvent.picks_strategy v) f = record f { exec_strategy = v }
on_form_event task (FormEvent.disables b) f = record f { is_disable = b }
on_form_event task (FormEvent.ranks v) f = record f { priority = v }
on_form_event task (FormEvent.types_tag s) f = record f { tag_input = s }
on_form_event task (FormEvent.keys_tag key) f = handle_tag_input_key_down key f
on_form_event task (FormEvent.deletes_tag tag) f = handle_delete_tag tag f
on_form_event task (FormEvent.asserts code) f = record f { assert = code }
on_form_event task (FormEvent.handles code) f = record f { result_handler = code }
on_form_event task (FormEvent.picks_node v) f = record f { node_id = v }
on_form_event task (FormEvent.depends v) f = record f { depends_on_task_id = v }
on_form_event task (FormEvent.lists_nodes r) f = on_nodes task r f
on_form_event task (FormEvent.lists_tasks r) f = on_tasks task r f

unfoldable pub run_form : TaskInfo → List FormEvent → FormState → FormState
unfolding on_form_event
run_form task [] f = f
run_form task (e ∷ es) f = run_form task es (on_form_event task e f)
