-- ===== src/Tasks/Strategy.antt =====
-- What the dialog for adding a task sends as its strategy
-- (web/client/src/screen/taskList/TaskAdd.js, `execute_strategy`).
use gonitor.Prelude.{
  Bool, true, false, not, ◌&&◌, none, List, [], ◌∷◌, if◌then◌else◌, ◌==◌, nat_eq, string_eq, ◌≡◌,
  refl, ap, ◌∙◌, All, arith,
}
use gonitor.Js.{parse_int, trim}
use gonitor.Request.{Reply, got, failed}
use gonitor.TaskForm.{
  TaskInfo, NodeItem, TaskItem, FormState, FormEvent, get_form_values, initial, on_form_event,
  run_form, on_nodes, on_tasks, handle_tag_input_key_down, handle_delete_tag,
  handle_execute_type_change,
}
use gonitor.Tasks.Dialog.{task_add_info}

-- The events that are no choice of a strategy
abbrev pub NoPick : FormEvent → Type 0
NoPick (FormEvent.picks_strategy v) = ⊥
NoPick _ = Unit {0}

on_nodes-strategy :
    (task : TaskInfo) (r : Reply (List NodeItem)) (f : FormState)
    → (on_nodes task r f).exec_strategy ≡ f.exec_strategy
unfolding on_nodes
on_nodes-strategy task (failed err) f = refl
on_nodes-strategy task (got body) f = ground arith

on_tasks-strategy :
    (task : TaskInfo) (r : Reply (List TaskItem)) (f : FormState)
    → (on_tasks task r f).exec_strategy ≡ f.exec_strategy
unfolding on_tasks
on_tasks-strategy task (failed err) f = refl
on_tasks-strategy task (got body) f = ground arith

if-strategy :
    (b : Bool) (f g : FormState)
    → f.exec_strategy ≡ g.exec_strategy
    → (if b then f else g).exec_strategy ≡ g.exec_strategy
if-strategy true f g e = e
if-strategy false f g e = refl

event-strategy :
    (task : TaskInfo) (e : FormEvent) (f : FormState)
    → NoPick e
    → (on_form_event task e f).exec_strategy ≡ f.exec_strategy
unfolding on_form_event handle_tag_input_key_down handle_delete_tag handle_execute_type_change
event-strategy task (FormEvent.picks_strategy v) f h = absurd h
event-strategy task (FormEvent.keys_tag key) f h =
    if-strategy (key == "Enter" && not (trim f.tag_input == "")) _ f refl
event-strategy task (FormEvent.lists_nodes r) f h = on_nodes-strategy task r f
event-strategy task (FormEvent.lists_tasks r) f h = on_tasks-strategy task r f
event-strategy task _ f h = refl

run_form-strategy :
    (task : TaskInfo) (es : List FormEvent) (f : FormState)
    → All NoPick es
    → (run_form task es f).exec_strategy ≡ f.exec_strategy
unfolding run_form
run_form-strategy task [] f h = refl
run_form-strategy task (e ∷ es) f h =
    run_form-strategy task es (on_form_event task e f) h.1 ∙ event-strategy task e f h.0

-- After any events in which no strategy is picked, what the dialog for adding a task sends has no
-- strategy: `parseInt` gives NaN for it.
pub add-strategy :
    (es : List FormEvent)
    → All NoPick es
    → (get_form_values (run_form task_add_info es (initial task_add_info))).exec_strategy ≡ none
unfolding get_form_values initial task_add_info parse_int
add-strategy es h = ap parse_int (run_form-strategy task_add_info es (initial task_add_info) h)
