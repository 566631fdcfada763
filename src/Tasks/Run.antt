-- ===== src/Tasks/Run.antt =====
-- Sequences of what happens to the list of tasks (web/client/src/screen/taskList/TaskList.js): the
-- inputs, the clicks and the answers, in any order.
use gonitor.Prelude.{
  ℕ, zero, suc, none, some, at, Option, List, [], ◌∷◌, ◌++◌, String, if◌then◌else◌,
}
use gonitor.Request.{Reply, Piece}
use gonitor.TaskForm.{TaskInfo}
use gonitor.Tasks.Page.{
  Row, PageState, refresh_task_list, refresh_reply, handle_search, search_reply,
  handle_search_key_down, show_edit_dialog,
}
use gonitor.Tasks.Delete.{Confirm, delete_reply, confirm_close, confirm_open}

-- The page with its dialog for deletions, and the deletions that are not answered yet, each with
-- the list and the id that its closure has captured
pub record Screen : Type 0 where
  pub page : PageState
  pub confirm : Confirm
  pub pending : List (List Row × ℕ)

pub data ScreenEvent : Type 0 where
  types_keyword : String → ScreenEvent
  picks_priority : Option ℕ → ScreenEvent
  picks_status : String → ScreenEvent
  searches : ScreenEvent
  keys : String → ScreenEvent
  clicks_refresh : ScreenEvent
  dialog_refreshes : ScreenEvent
  edits : TaskInfo → ScreenEvent
  asks_delete : ℕ → ScreenEvent
  cancels_delete : ScreenEvent
  confirms_delete : ScreenEvent
  search_answered : Reply (List Row) → ScreenEvent
  refresh_answered : Reply (List Row) → ScreenEvent
  delete_answered : ℕ → Reply Piece → ScreenEvent

-- The list without the element at an index
abbrev pub remove_at : {A : Type 0} → ℕ → List A → List A
remove_at i [] = []
remove_at zero (x ∷ xs) = xs
remove_at (suc i) (x ∷ xs) = x ∷ remove_at i xs

-- The answer to one of the pending deletions, with the others
unfoldable pub answer_delete :
    Reply Piece → Option (List Row × ℕ) → List (List Row × ℕ) → Screen → Screen
unfolding delete_reply
answer_delete r none others w = w
answer_delete r (some (captured, id)) others w =
    let (confirm, page, effects) = delete_reply captured id r w.confirm w.page in
    record { page = page; confirm = confirm; pending = others }

module _ (encode : List (String × Piece) → String) where
  -- One event; a `LoadingButton` that loads is disabled. Deletions are answered in any order:
  -- `delete_answered i` answers the one at the index i of those that are pending.
  unfoldable pub on_screen_event : ScreenEvent → Screen → Screen
  unfolding refresh_task_list refresh_reply handle_search search_reply handle_search_key_down
      show_edit_dialog confirm_open confirm_close answer_delete
  on_screen_event (ScreenEvent.types_keyword k) w = record w {
    page = record w.page { search_keyword = k };
  }
  on_screen_event (ScreenEvent.picks_priority p) w = record w {
    page = record w.page { filter_priority = p };
  }
  on_screen_event (ScreenEvent.picks_status k) w = record w {
    page = record w.page { filter_status = k };
  }
  on_screen_event ScreenEvent.searches w = record w { page = (handle_search encode w.page).0 }
  on_screen_event (ScreenEvent.keys key) w = record w {
    page = (handle_search_key_down encode key w.page).0;
  }
  on_screen_event ScreenEvent.clicks_refresh w =
      if w.page.refresh_loading then w else record w { page = (refresh_task_list encode w.page).0 }
  on_screen_event ScreenEvent.dialog_refreshes w = record w {
    page = (refresh_task_list encode w.page).0;
  }
  on_screen_event (ScreenEvent.edits task) w = record w { page = (show_edit_dialog task w.page).0 }
  on_screen_event (ScreenEvent.asks_delete id) w = record w { confirm = confirm_open id w.confirm }
  on_screen_event ScreenEvent.cancels_delete w = record w { confirm = confirm_close w.confirm }
  on_screen_event ScreenEvent.confirms_delete w = record w {
    pending = w.pending ++ (w.page.task_list, w.confirm.task_id) ∷ [];
  }
  on_screen_event (ScreenEvent.search_answered r) w = record w { page = search_reply r w.page }
  on_screen_event (ScreenEvent.refresh_answered r) w = record w { page = refresh_reply r w.page }
  on_screen_event (ScreenEvent.delete_answered i r) w =
      answer_delete r (at i w.pending) (remove_at i w.pending) w

  unfoldable pub run_screen : List ScreenEvent → Screen → Screen
  unfolding on_screen_event
  run_screen [] w = w
  run_screen (e ∷ es) w = run_screen es (on_screen_event e w)
