-- ===== src/Tasks.antt =====
-- The page of tasks (web/client/src/screen/taskList/): what its parts share. A handler returns the
-- new state with the effects in the order in which the code causes them.
pub mod Dialog
pub mod Tests
pub mod Page
pub mod Delete
pub mod Run
pub mod Stuck
pub mod Query
pub mod View
pub mod Row
pub mod Cards
pub mod Follow
pub mod Live
pub mod Called
pub mod Delivered
pub mod Ordered
pub mod Invariant
pub mod Action
pub mod Strategy
pub mod Laws
use gonitor.Prelude.{ℕ, Option, none, some, List, [], ◌∷◌, String}
use gonitor.Prelude.Int.{pos}
use gonitor.Request.{Method, Url, Piece}
use gonitor.TaskForm.{FormValues, TaskInfo}

-- The `variant` of `enqueueSnackbar`
pub data Variant : Type 0 where
  plain success error : Variant

pub data Effect : Type 0 where
  notify : Variant → String → Effect
  request : Method → Url → Option FormValues → Effect
  refresh_task_list : Effect
  open_add : Effect
  open_edit : TaskInfo → Effect
  open_delete : TaskInfo → Effect
  download : Effect
  navigate : Url → Effect

-- An id in a template literal
abbrev pub id_piece : Option ℕ → Piece
id_piece none = Piece.text "undefined"
id_piece (some id) = Piece.num (pos id)
