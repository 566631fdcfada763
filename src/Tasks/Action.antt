-- ===== src/Tasks/Action.antt =====
-- The actions of a task (web/client/src/screen/taskList/TaskActionContainer.js).
use gonitor.Prelude.{
  Bool, true, false, not, none, List, [], ◌∷◌, ◌++◌, String, if◌then◌else◌, ◌==◌, nat_eq,
}
use gonitor.Request.{Reply, got, failed, Method, Piece}
use gonitor.TaskForm.{TaskInfo}
use gonitor.Tasks.{Effect, Variant, id_piece}

pub data Action : Type 0 where
  start stop test : Action

abbrev pub action_path : Action → String
action_path Action.start = "/task/start/"
action_path Action.stop = "/task/stop/"
action_path Action.test = "/task/test/"

-- `startTask`, `stopTask` and `testTask`: `loading` and the request
unfoldable pub act : Action → TaskInfo → Bool → Bool × List Effect
act a task loading =
    (true, Effect.request Method.get (Piece.text (action_path a) ∷ id_piece task.id ∷ []) none ∷ [])

-- The continuations: there is no `catch`, and `finally` runs on every branch.
unfoldable pub act_reply : {A : Type 0} → Reply A → Bool → Bool × List Effect
act_reply (failed err) loading = (false, [])
act_reply (got body) loading =
    (false, if not (body.code == 0) then Effect.notify Variant.plain body.message ∷ [] else [])

-- A click on a `LoadingButton`, which is disabled while it is loading
unfoldable pub click_act : Action → TaskInfo → Bool → Bool × List Effect
unfolding act
click_act a task loading = if loading then (loading, []) else act a task loading

-- What can be clicked on: the button, `menuOpen`'s arrow, and the items of the menu
pub data Item : Type 0 where
  button : Action → Item
  arrow : Item
  detail : Item
  edit : Item
  remove : Item
  kill_stop : Item

-- The items that are shown
unfoldable pub items : TaskInfo → Bool → List Item
items task menu_open =
    let menu =
      (Item.detail ∷ Item.edit ∷ Item.remove ∷ [])
      ++ (if task.is_disable then [] else Item.kill_stop ∷ [])
      ++ Item.button Action.test ∷ [] in
    Item.button (if task.is_disable then Action.start else Action.stop)
    ∷ Item.arrow
    ∷ (if menu_open then menu else [])

-- A click: `menuOpen`, `loading` of the item's own button, and the effects. The parent's
-- `showEditDialog` sets the task to edit and opens the dialog.
unfoldable pub click_item : TaskInfo → Item → Bool → Bool → Bool × Bool × List Effect
unfolding click_act
click_item task (Item.button a) menu_open loading =
    let (now, effects) = click_act a task loading in (menu_open, now, effects)
click_item task Item.arrow menu_open loading = (true, loading, [])
click_item task Item.detail menu_open loading = (
  menu_open,
  loading,
  Effect.navigate (Piece.text "/admin/taskInfo/" ∷ id_piece task.id ∷ []) ∷ [],
)
click_item task Item.edit menu_open loading = (menu_open, loading, Effect.open_edit task ∷ [])
click_item task Item.remove menu_open loading = (menu_open, loading, Effect.open_delete task ∷ [])
click_item task Item.kill_stop menu_open loading = (menu_open, loading, [])
