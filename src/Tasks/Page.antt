-- ===== src/Tasks/Page.antt =====
-- The list of tasks and its filters (web/client/src/screen/taskList/TaskList.js). `encode` is
-- `URLSearchParams.toString()` of the pairs that were appended.
use gonitor.Prelude.{
  ℕ, Bool, true, false, not, Option, none, some, List, [], ◌∷◌, ◌++◌, String, if◌then◌else◌, ◌==◌,
  nat_eq, string_eq, map, filter, truthy, concat,
}
use gonitor.Prelude.Int.{pos}
use gonitor.Js.{Value}
use gonitor.Enum.{parallel, medium}
use gonitor.Request.{Reply, got, failed, Method, Piece, Url}
use gonitor.TaskForm.{TaskInfo}
use gonitor.Tasks.{Effect, Variant}

-- An item of `taskList`: the fields of the answer, with the key
pub record Row : Type 0 where
  pub id : ℕ
  pub info : TaskInfo
  pub update_time : String
  pub uni_key : List Piece

-- The hooks `useState` of `TaskList`; `filter_priority` is `none` for ""
pub record PageState : Type 0 where
  pub task_list : List Row
  pub task_edit_info : TaskInfo
  pub loading : Bool
  pub refresh_loading : Bool
  pub search_keyword : String
  pub filter_priority : Option ℕ
  pub filter_status : String

unfoldable pub task_edit_blank : TaskInfo
task_edit_blank = record {
  id = some 0;
  name = "";
  description = "";
  exec_type = "";
  command = "";
  schedule = "";
  retry_times = Value.number (pos 0);
  retry_interval = Value.number (pos 3000);
  timeout = Value.number (pos 0);
  exec_strategy = Value.number (pos parallel);
  is_disable = false;
  priority = Value.number (pos medium);
  tags = "";
  assert = "";
  result_handler = "";
  node_id = Value.undefined;
  depends_on_task_id = Value.number (pos 0);
}

unfoldable pub first_page : PageState
unfolding task_edit_blank
first_page = record {
  task_list = [];
  task_edit_info = task_edit_blank;
  loading = true;
  refresh_loading = false;
  search_keyword = "";
  filter_priority = none;
  filter_status = "";
}

-- The pairs that `getTaskList` appends to `params`
unfoldable pub params : PageState → List (String × Piece)
params s =
    (if truthy s.search_keyword then ("keyword", Piece.text s.search_keyword) ∷ [] else [])
    ++ elim s.filter_priority [ none ↦ [] | some p ↦ ("priority", Piece.num (pos p)) ∷ [] ]
    ++ (if truthy s.filter_status then ("status", Piece.text s.filter_status) ∷ [] else [])

-- The address that `getTaskList` asks
unfoldable pub list_url : (List (String × Piece) → String) → PageState → Url
unfolding params
list_url encode s =
    let query = encode (params s) in
    if truthy query
    then Piece.text (concat "/task/list?" query) ∷ []
    else Piece.text "/task/list" ∷ []

unfoldable pub with_key : Row → Row
with_key row = record row {
  uni_key = Piece.text row.update_time ∷ Piece.text "_" ∷ Piece.num (pos row.id) ∷ [];
}

-- What `getTaskList` does with a body; `none` is null
unfoldable pub on_list : ℕ → Option (List Row) → PageState → PageState
unfolding with_key
on_list code content s =
    if code == 0
    then record s { task_list = elim content [ none ↦ [] | some rows ↦ map with_key rows ] }
    else s

-- `refreshTaskList` and its continuation, which a failed request does not reach
unfoldable pub refresh_task_list :
    (List (String × Piece) → String) → PageState → PageState × List Effect
unfolding list_url
refresh_task_list encode s =
    (record s { refresh_loading = true }, Effect.request Method.get (list_url encode s) none ∷ [])

unfoldable pub refresh_reply : Reply (List Row) → PageState → PageState
unfolding on_list
refresh_reply (failed err) s = s
refresh_reply (got body) s = record (on_list body.code body.content s) { refresh_loading = false }

-- `handleSearch` and its continuation; the first effect of the page has the same continuation
unfoldable pub handle_search :
    (List (String × Piece) → String) → PageState → PageState × List Effect
unfolding list_url
handle_search encode s =
    (record s { loading = true }, Effect.request Method.get (list_url encode s) none ∷ [])

unfoldable pub search_reply : Reply (List Row) → PageState → PageState
unfolding on_list
search_reply (failed err) s = s
search_reply (got body) s = record (on_list body.code body.content s) { loading = false }

unfoldable pub handle_search_key_down :
    (List (String × Piece) → String) → String → PageState → PageState × List Effect
unfolding handle_search
handle_search_key_down encode key s = if key == "Enter" then handle_search encode s else (s, [])

-- The effect of the first rendering
unfoldable pub first_effect :
    (List (String × Piece) → String) → Bool → PageState → Bool × List Effect
unfolding list_url
first_effect encode first_render s =
    if not first_render
    then (first_render, [])
    else (false, Effect.request Method.get (list_url encode s) none ∷ [])

-- `deleteTaskList`, a closure over the list of the rendering that made it
unfoldable pub delete_task_list : List Row → ℕ → PageState → PageState
delete_task_list captured task_id s = record s {
  task_list = filter (λ row. not (row.id == task_id)) captured;
}

-- `exportTaskList`; a failed request rejects its promise
unfoldable pub export_reply : {A : Type 0} → Reply A → List Effect
export_reply (failed err) = []
export_reply (got body) =
    if not (body.code == 0)
    then Effect.notify Variant.error body.message ∷ []
    else Effect.download ∷ Effect.notify Variant.success "Export Success" ∷ []

-- `showEditDialog` and `showConfirmDeleteDialog` and `showCreateDialog`
unfoldable pub show_edit_dialog : TaskInfo → PageState → PageState × List Effect
show_edit_dialog task s = (record s { task_edit_info = task }, Effect.open_edit task ∷ [])

abbrev pub show_confirm_delete_dialog : TaskInfo → List Effect
show_confirm_delete_dialog task = Effect.open_delete task ∷ []

abbrev pub show_create_dialog : List Effect
show_create_dialog = Effect.open_add ∷ []
