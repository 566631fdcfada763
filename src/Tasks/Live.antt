-- ===== src/Tasks/Live.antt =====
-- The rows of the table of tasks with their subscriptions: what a message of the server does to
-- them (web/client/src/screen/taskList/TaskRow.js, web/client/src/common/socket/Websocket.js and
-- Socket.js beside it).
--
-- The function that a row registers calls the `receiveCb` of the row's last rendering; it is named
-- by the row's key. `handler` is the `handlerKey` that `getRandomString` has drawn for a row.
use gonitor.Prelude.{List, [], ◌∷◌, String, if◌then◌else◌, ◌==◌, Eq, string_eq}
use gonitor.Socket.{Packet, on_message}
use gonitor.Subscription.{Update, WbSocket, mount, task_type}
use gonitor.Tasks.Row.{RowTask, RowUpdate, row_updated}

module _ {K : Type 0} ⦃key_eq : Eq K⦄ where
  -- The effects of the rows of a first rendering, in order
  unfoldable pub subscribe_rows :
      (K → String) → List (K × RowTask) → WbSocket K RowUpdate → WbSocket K RowUpdate
  unfolding mount
  subscribe_rows handler [] s = s
  subscribe_rows handler ((k, r) ∷ rows) s =
      subscribe_rows handler rows (mount task_type r.id (handler k) k s)

  -- The callback of one row, `setSelfTaskInfo`
  unfoldable pub call_row : K → RowUpdate → List (K × RowTask) → List (K × RowTask)
  unfolding row_updated
  call_row k u [] = []
  call_row k u ((l, r) ∷ rows) = (l, if l == k then row_updated u r else r) ∷ call_row k u rows

  unfoldable pub call_rows : List (K × RowUpdate) → List (K × RowTask) → List (K × RowTask)
  unfolding call_row
  call_rows [] rows = rows
  call_rows ((k, u) ∷ calls) rows = call_rows calls (call_row k u rows)

  -- A message of the server through the socket to the rows that it calls
  unfoldable pub received :
      Packet (Update RowUpdate)
      → WbSocket K RowUpdate
      → List (K × RowTask)
      → WbSocket K RowUpdate × List (K × RowTask)
  unfolding on_message call_rows
  received packet s rows =
      let s' = on_message packet (record s { app = record (s.app) { calls = [] } }) in
      (s', call_rows s'.app.calls rows)
