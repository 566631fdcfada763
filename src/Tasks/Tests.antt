-- ===== src/Tasks/Tests.antt =====
-- The page of tasks on concrete answers and events, at which the theorems hold.
use gonitor.Prelude.{
  All, map, ◌++◌, string_eq, ℕ, true, none, some, List, [], ◌∷◌, String, ◌≡◌, nat_eq, false, refl,
  get,
}
use gonitor.Request.{Reply, got, failed, Failure, Body, Piece}
use gonitor.TaskForm.{FormEvent, get_form_values, initial, run_form}
use gonitor.Socket.{blank}
use gonitor.Subscription.{
  Client, WbSocket, wb_options, or_empty, handlers_of, task_type, message_cb,
}
use gonitor.Tasks.Live.{subscribe_rows}
use gonitor.Tasks.Ordered.{received_all, table_events, received_all-run_table}
use gonitor.Tasks.Row.{RowTask, RowUpdate}
use gonitor.Tasks.Cards.{TableEvent, row_at, run_table, update_rows}
use gonitor.Tasks.Follow.{row_at-run_table}
use gonitor.Tasks.Dialog.{task_add_info}
use gonitor.Tasks.Page.{
  search_reply, on_list, with_key, delete_task_list, refresh_task_list, PageState, Row, first_page,
  task_edit_blank,
}
use gonitor.Tasks.Delete.{Confirm, delete_reply, confirm_open, confirm_close}
use gonitor.Tasks.Run.{Screen, ScreenEvent, on_screen_event, run_screen, answer_delete}
use gonitor.Tasks.Strategy.{add-strategy}
use gonitor.Tasks.Invariant.{Keyed, IsProper, DistinctKeys, run_screen-DistinctKeys}
use gonitor.Tasks.Stuck.{refresh-stuck}

add-strategy_example :
    (get_form_values (
      run_form task_add_info
        (FormEvent.names "backup" ∷ FormEvent.keys_tag "Enter" ∷ [])
        (initial task_add_info))).exec_strategy
    ≡ none
add-strategy_example =
    add-strategy (FormEvent.names "backup" ∷ FormEvent.keys_tag "Enter" ∷ []) (tt, (tt, tt))

abbrev refused : Body ℕ
refused = record { code = 500; message = "name is taken"; content = none }

abbrev accepted : Body ℕ
accepted = record { code = 0; message = ""; content = none }

abbrev row : ℕ → Row
row id = record { id = id; info = task_edit_blank; update_time = "now"; uni_key = [] }

abbrev confirm : Confirm
confirm = record { is_open = true; task_id = 1 }

-- Task 3 is listed while the deletion of task 1 waits for its answer, and is not shown afterwards.

abbrev encode : List (String × Piece) → String
encode [] = ""
encode (p ∷ ps) = "keyword=x"

abbrev start : Screen
start = record { page = first_page; confirm = confirm; pending = [] }

abbrev two_tasks : Reply (List Row)
two_tasks = got (record { code = 0; message = ""; content = some (row 1 ∷ row 2 ∷ []) })

-- Two deletions are pending, and the second is answered first.
abbrev events : List ScreenEvent
events =
    ScreenEvent.search_answered two_tasks
    ∷ ScreenEvent.asks_delete 1
    ∷ ScreenEvent.confirms_delete
    ∷ ScreenEvent.asks_delete 2
    ∷ ScreenEvent.confirms_delete
    ∷ ScreenEvent.delete_answered 1 (got (record { code = 0; message = ""; content = none }))
    ∷ ScreenEvent.delete_answered 0 (got (record { code = 0; message = ""; content = none }))
    ∷ ScreenEvent.clicks_refresh
    ∷ []

start-Keyed : Keyed start
unfolding first_page
start-Keyed = ((tt, tt), tt)

events-IsProper : All IsProper events
events-IsProper = (((refl, tt), (tt, tt)), (tt, (tt, (tt, (tt, (tt, (tt, (tt, tt))))))))

run_screen-DistinctKeys_example : DistinctKeys (run_screen encode events start).page.task_list
run_screen-DistinctKeys_example =
    run_screen-DistinctKeys encode events start events-IsProper start-Keyed

-- What is shown is the list that the deletion of task 1 has captured, without task 1.
captured_shown : map (λ r. r.id) (run_screen encode events start).page.task_list ≡ 2 ∷ []
unfolding run_screen on_screen_event search_reply on_list with_key answer_delete delete_reply
    delete_task_list first_page confirm_open confirm_close refresh_task_list
captured_shown = refl

abbrev offline : Failure
offline = record { message = "TypeError" }

refresh-stuck_example :
    ((run_screen encode
        (ScreenEvent.clicks_refresh ∷ ScreenEvent.refresh_answered (failed offline) ∷ events)
        start).page.refresh_loading
      ≡ true)
    × (on_screen_event encode ScreenEvent.clicks_refresh (
          run_screen encode
            (ScreenEvent.clicks_refresh ∷ ScreenEvent.refresh_answered (failed offline) ∷ events)
            start)
        ≡ run_screen encode
            (ScreenEvent.clicks_refresh ∷ ScreenEvent.refresh_answered (failed offline) ∷ events)
            start)
refresh-stuck_example =
    refresh-stuck encode offline events start (tt, (tt, (tt, (tt, (tt, (tt, (tt, (tt, tt))))))))

abbrev urgent : PageState
urgent = record first_page { filter_priority = some 0; search_keyword = "x" }

abbrev counted : ℕ → RowTask
counted n = record {
  id = 7;
  name = "backup";
  priority = 0;
  exec_type = "cmd";
  schedule = "@daily";
  node_name = "";
  exec_strategy = 1;
  is_disable = false;
  running_count = n;
  last_run_time = "";
  next_run_time = "";
}

abbrev count_update : ℕ → RowUpdate
count_update n = record {
  name = none;
  priority = none;
  exec_type = none;
  schedule = none;
  node_name = none;
  exec_strategy = none;
  is_disable = none;
  running_count = some n;
  last_run_time = none;
  next_run_time = none;
}

abbrev early : List (TableEvent ℕ)
early = TableEvent.updated 7 (count_update 9) ∷ []

absent : row_at 70 (run_table early []) ≡ none
unfolding run_table update_rows
absent = refl

abbrev later : List (TableEvent ℕ)
later =
    TableEvent.updated 7 (count_update 2)
    ∷ TableEvent.rendered ((70, counted 1) ∷ (71, counted 1) ∷ [])
    ∷ TableEvent.updated 8 (count_update 5)
    ∷ []

row_at-run_table_example :
    row_at 70 (run_table (early ++ TableEvent.rendered ((70, counted 0) ∷ []) ∷ later) [])
    ≡ some (counted 2)
row_at-run_table_example =
    row_at-run_table 70 early later ((70, counted 0) ∷ []) (counted 0) absent refl
      (tt, (refl, (tt, tt)))

abbrev no_client : Client String RowUpdate
no_client = record { subscribed = []; calls = [] }

abbrev page_socket : WbSocket String RowUpdate
unfolding wb_options
page_socket = blank (wb_options "ws://localhost" 0) no_client

abbrev two_rows : List (String × RowTask)
two_rows = ("task_7_a", counted 0) ∷ ("task_7_b", counted 1) ∷ []

none_subscribed : (i : ℕ) → or_empty (handlers_of task_type i page_socket.app.subscribed) ≡ []
unfolding handlers_of get page_socket
none_subscribed i = refl

answers_messages : page_socket.options.message_cb ≡ some message_cb
unfolding page_socket wb_options
answers_messages = refl

abbrev messages : List (ℕ × RowUpdate)
messages = (7, count_update 2) ∷ (8, count_update 5) ∷ (7, count_update 3) ∷ []

received_all-run_table_example :
    row_at "task_7_b"
      (received_all messages (subscribe_rows (λ k. k) two_rows page_socket) two_rows)
    ≡ row_at "task_7_b" (run_table (table_events messages) two_rows)
received_all-run_table_example =
    received_all-run_table (λ k. k) (λ k l e. e) two_rows page_socket ((refl, tt), (tt, tt))
      none_subscribed answers_messages messages "task_7_b"
