-- ===== src/Tasks/Dialog.antt =====
-- The dialogs for adding and editing a task (web/client/src/screen/taskList/TaskAdd.js and
-- TaskEdit.js). `form` is what the `ref` of the form holds, `none` for null.
use gonitor.Prelude.{
  Bool, true, false, Option, none, some, List, [], ◌∷◌, if◌then◌else◌, ◌==◌, nat_eq,
}
use gonitor.Prelude.Int.{pos}
use gonitor.Js.{Value}
use gonitor.Enum.{http}
use gonitor.Request.{Reply, got, failed, Method, Piece}
use gonitor.TaskForm.{TaskInfo, FormState, FormValues, get_form_values}
use gonitor.Tasks.{Effect, Variant, id_piece}

-- The task that the form for adding opens on. The code writes `execute_strategy`, which the form
-- does not read, so `exec_strategy` is undefined.
unfoldable pub task_add_info : TaskInfo
task_add_info = record {
  id = none;
  name = "";
  description = "";
  exec_type = http;
  command = "";
  schedule = "";
  retry_times = Value.number (pos 0);
  retry_interval = Value.number (pos 3000);
  timeout = Value.number (pos 0);
  exec_strategy = Value.undefined;
  is_disable = false;
  priority = Value.number (pos 1);
  tags = "";
  assert = "";
  result_handler = "";
  node_id = Value.number (pos 0);
  depends_on_task_id = Value.number (pos 0);
}

-- `open` of a dialog
abbrev pub handle_click_open : Bool → Bool
handle_click_open is_open = true

abbrev pub handle_close : Bool → Bool
handle_close is_open = false

-- `formRef.current?.getFormValues()`
unfoldable pub form_value : Option FormState → Option FormValues
unfolding get_form_values
form_value none = none
form_value (some form) = some (get_form_values form)

-- `handleSubmit` of `TaskAdd`
unfoldable pub add_submit : Option FormState → List Effect
unfolding form_value
add_submit form = Effect.request Method.post (Piece.text "/task" ∷ []) (form_value form) ∷ []

-- The continuations of its promise
unfoldable pub add_reply : {A : Type 0} → Reply A → Bool → Bool × List Effect
add_reply (failed err) is_open = (is_open, Effect.notify Variant.error "Add Fail" ∷ [])
add_reply (got body) is_open =
    if body.code == 0
    then (false, Effect.notify Variant.success "Add Success" ∷ Effect.refresh_task_list ∷ [])
    else (is_open, Effect.notify Variant.error body.message ∷ [])

-- `handleSubmit` of `TaskEdit`
unfoldable pub edit_submit : TaskInfo → Option FormState → List Effect
unfolding form_value
edit_submit task form =
    Effect.request Method.put (Piece.text "/task/" ∷ id_piece task.id ∷ []) (form_value form) ∷ []

unfoldable pub edit_reply : {A : Type 0} → Reply A → Bool → Bool × List Effect
edit_reply (failed err) is_open = (is_open, Effect.notify Variant.error "操作失败" ∷ [])
edit_reply (got body) is_open =
    if body.code == 0
    then (false, Effect.refresh_task_list ∷ Effect.notify Variant.success "修改成功" ∷ [])
    else (is_open, Effect.notify Variant.error body.message ∷ [])
