-- ===== src/Tasks/View.antt =====
-- What the page of tasks and its dialogs show above and around the list and the form
-- (web/client/src/screen/taskList/TaskList.js, TaskAdd.js and TaskEdit.js). The layout is left out.
use gonitor.Prelude.{ℕ, Bool, false, Option, none, some, List, [], ◌∷◌, String, if◌then◌else◌, map}
use gonitor.Request.{Piece}
use gonitor.Enum.{low, medium, high, critical, priority_label}
use gonitor.TaskForm.{TaskInfo, FormState}
use gonitor.Tasks.{Effect}
use gonitor.Tasks.Dialog.{handle_close, add_submit, edit_submit}
use gonitor.Tasks.Page.{PageState, Row}
use gonitor.Tasks.Delete.{Confirm}
use gonitor.Tasks.Run.{ScreenEvent}

-- The values and labels of the filter by priority; `none` is ""
unfoldable pub priority_filters : List (Option ℕ × String)
unfolding priority_label
priority_filters =
    (none, "All") ∷ map (λ p. (some p, priority_label p)) (low ∷ medium ∷ high ∷ critical ∷ [])

abbrev pub status_filters : List (String × String)
status_filters = ("", "All") ∷ ("enabled", "Enabled") ∷ ("disabled", "Disabled") ∷ []

-- The bar above the list; a button that loads is disabled
pub data Control : Type 0 where
  search_field :
      (value : String) (on_change : String → ScreenEvent) (on_key_down : String → ScreenEvent)
      → Control
  priority_filter :
      (value : Option ℕ) (choices : List (Option ℕ × String)) (on_change : Option ℕ → ScreenEvent)
      → Control
  status_filter :
      (value : String) (choices : List (String × String)) (on_change : String → ScreenEvent)
      → Control
  event_button : (label : String) (is_loading : Bool) (on_click : ScreenEvent) → Control
  other_button : (label : String) → Control

unfoldable pub controls : PageState → List Control
unfolding priority_filters
controls s =
    Control.search_field s.search_keyword ScreenEvent.types_keyword ScreenEvent.keys
    ∷ Control.priority_filter s.filter_priority priority_filters ScreenEvent.picks_priority
    ∷ Control.status_filter s.filter_status status_filters ScreenEvent.picks_status
    ∷ Control.event_button "Search" false ScreenEvent.searches
    ∷ Control.event_button "Refresh" s.refresh_loading ScreenEvent.clicks_refresh
    ∷ Control.other_button "Export"
    ∷ Control.other_button "Add"
    ∷ []

-- The list below it: a table or cards, with placeholders while the page is loading
pub data Listing : Type 0 where
  table : (is_loading : Bool) (rows : List Row) → Listing
  cards : (is_loading : Bool) (rows : List Row) → Listing

unfoldable pub listing : Bool → PageState → Listing
listing is_desktop s =
    if is_desktop then Listing.table s.loading s.task_list else Listing.cards s.loading s.task_list

-- A full-screen dialog with its close and save buttons
pub record DialogView : Type 0 where
  pub is_open : Bool
  pub title : String
  pub on_close : Bool → Bool
  pub on_save : Option FormState → List Effect

unfoldable pub add_view : Bool → DialogView
unfolding add_submit
add_view is_open = record {
  is_open = is_open;
  title = "Add Task";
  on_close = handle_close;
  on_save = add_submit;
}

unfoldable pub edit_view : TaskInfo → Bool → DialogView
unfolding edit_submit
edit_view task is_open = record {
  is_open = is_open;
  title = "Edit Task";
  on_close = handle_close;
  on_save = edit_submit task;
}

-- `DeleteConfirmDialog`, with its two buttons
pub record ConfirmView : Type 0 where
  pub is_open : Bool
  pub title : String
  pub content : List Piece
  pub on_cancel : ScreenEvent
  pub on_delete : ScreenEvent

unfoldable pub confirm_view : String → Piece → Confirm → ConfirmView
confirm_view name id d = record {
  is_open = d.is_open;
  title = "Delete Task";
  content =
      Piece.text "Are you sure to delete this task witch name "
      ∷ Piece.text name
      ∷ Piece.text " - "
      ∷ id
      ∷ Piece.text "?"
      ∷ [];
  on_cancel = ScreenEvent.cancels_delete;
  on_delete = ScreenEvent.confirms_delete;
}
