-- ===== src/Tasks/Delete.antt =====
-- The dialog that confirms the deletion of a task: `DeleteConfirmDialog` in
-- web/client/src/screen/taskList/TaskList.js.
use gonitor.Prelude.{ℕ, Bool, true, false, none, List, [], ◌∷◌, if◌then◌else◌, ◌==◌, nat_eq}
use gonitor.Prelude.Int.{pos}
use gonitor.Request.{Reply, got, failed, Method, Piece}
use gonitor.Tasks.{Effect, Variant}
use gonitor.Tasks.Page.{Row, PageState, delete_task_list}

-- `open` and the id of `taskInfo`
pub record Confirm : Type 0 where
  pub is_open : Bool
  pub task_id : ℕ

unfoldable pub confirm_open : ℕ → Confirm → Confirm
confirm_open id d = record d { is_open = true; task_id = id }

unfoldable pub confirm_close : Confirm → Confirm
confirm_close d = record d { is_open = false }

-- `deleteTask`
unfoldable pub delete_task : Confirm → List Effect
delete_task d =
    Effect.request Method.delete (Piece.text "/task/" ∷ Piece.num (pos d.task_id) ∷ []) none ∷ []

-- The continuations: `captured` and `task_id` are of the rendering whose button was clicked
unfoldable pub delete_reply :
    {A : Type 0} → List Row → ℕ → Reply A → Confirm → PageState → Confirm × PageState × List Effect
unfolding confirm_close delete_task_list
delete_reply captured task_id (failed err) d s =
    (confirm_close d, s, Effect.notify Variant.error err.message ∷ [])
delete_reply captured task_id (got body) d s =
    if body.code == 0
    then (
      confirm_close d,
      delete_task_list captured task_id s,
      Effect.notify Variant.success "Delete Success" ∷ [],
    )
    else (confirm_close d, s, Effect.notify Variant.error body.message ∷ [])
