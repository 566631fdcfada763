-- ===== src/Tasks/Ordered.antt =====
-- Messages of the server reach the rows of the table of tasks in order
-- (web/client/src/screen/taskList/TaskRow.js and web/client/src/common/socket/Websocket.js).
use gonitor.Prelude.{
  ℕ, Bool, true, false, ◌&&◌, ◌||◌, some, List, [], ◌∷◌, String, Eq, string_eq, if◌then◌else◌, ◌==◌,
  nat_eq, ◌≡◌, refl, sym, ap, ap₂, ◌∙◌,
}
use gonitor.Socket.{on_message, restart_heart, run_message_cb}
use gonitor.Subscription.{WbSocket, or_empty, handlers_of, task_type, message_cb}
use gonitor.Tasks.Row.{RowTask, RowUpdate, row_updated}
use gonitor.Tasks.Cards.{TableEvent, row_at, run_table}
use gonitor.Tasks.Follow.{followed, row_at-update_rows, run_table-from}
use gonitor.Tasks.Live.{subscribe_rows, call_row, call_rows, received}
use gonitor.Tasks.Called.{handlers, is_called, is_row_of, IsNew, HasKeys}
use gonitor.Tasks.Delivered.{IsReady, update_packet, row_at-received, subscribe_rows-IsReady}

module _ {K : Type 0} ⦃key_eq : Eq K⦄ where
  IsNew-call_row :
      (k l : K) (u : RowUpdate) (rows : List (K × RowTask))
      → IsNew k rows
      → IsNew k (call_row l u rows)
  unfolding call_row
  IsNew-call_row k l u [] h = tt
  IsNew-call_row k l u ((m, r) ∷ rows) (e, h) = (e, IsNew-call_row k l u rows h)

  HasKeys-call_row :
      (l : K) (u : RowUpdate) (rows : List (K × RowTask))
      → HasKeys rows
      → HasKeys (call_row l u rows)
  unfolding call_row
  HasKeys-call_row l u [] h = tt
  HasKeys-call_row l u ((m, r) ∷ rows) (new, h) =
      (IsNew-call_row m l u rows new, HasKeys-call_row l u rows h)

  -- An update does not change whose row a row is
  is_row_of-call_row :
      (id : ℕ) (k l : K) (u : RowUpdate) (rows : List (K × RowTask))
      → is_row_of id k (call_row l u rows) ≡ is_row_of id k rows
  unfolding call_row row_updated
  is_row_of-call_row id k l u [] = refl
  is_row_of-call_row id k l u ((m, r) ∷ rows) =
      ap₂ (λ i rest. (i == id && m == k) || rest) (same_id (m == l))
        (is_row_of-call_row id k l u rows)
    where
      same_id : (b : Bool) → (if b then row_updated u r else r).id ≡ r.id
      same_id true = refl
      same_id false = refl

  HasKeys-call_rows :
      (calls : List (K × RowUpdate)) (rows : List (K × RowTask))
      → HasKeys rows
      → HasKeys (call_rows calls rows)
  unfolding call_rows
  HasKeys-call_rows [] rows h = h
  HasKeys-call_rows ((l, u) ∷ calls) rows h =
      HasKeys-call_rows calls (call_row l u rows) (HasKeys-call_row l u rows h)

  is_row_of-call_rows :
      (id : ℕ) (k : K) (calls : List (K × RowUpdate)) (rows : List (K × RowTask))
      → is_row_of id k (call_rows calls rows) ≡ is_row_of id k rows
  unfolding call_rows
  is_row_of-call_rows id k [] rows = refl
  is_row_of-call_rows id k ((l, u) ∷ calls) rows =
      is_row_of-call_rows id k calls (call_row l u rows) ∙ is_row_of-call_row id k l u rows

  received-IsReady :
      (id : ℕ) (u : RowUpdate) (rows : List (K × RowTask)) (t : WbSocket K RowUpdate)
      → IsReady rows t
      → let (t', rows') = received (update_packet id u) t rows in IsReady rows' t'
  unfolding received on_message restart_heart message_cb
  received-IsReady id u rows t ready =
      let app = record (t.app) { calls = [] } in
      let content = (update_packet id u).content in
      let calls = (run_message_cb t.options.message_cb content app).calls in
      record {
        keys = HasKeys-call_rows calls rows ready.keys;
        callback = ready.callback;
        called = λ i k.
            ap (λ c. is_called k (handlers i (run_message_cb c content app).subscribed))
              ready.callback
            ∙ ready.called i k
            ∙ sym (is_row_of-call_rows i k calls rows);
      }

  -- The messages of the server that update tasks, in order
  unfoldable pub received_all :
      List (ℕ × RowUpdate) → WbSocket K RowUpdate → List (K × RowTask) → List (K × RowTask)
  unfolding received
  received_all [] t rows = rows
  received_all ((id, u) ∷ ms) t rows =
      let (t', rows') = received (update_packet id u) t rows in received_all ms t' rows'

  abbrev pub table_events : List (ℕ × RowUpdate) → List (TableEvent K)
  table_events [] = []
  table_events ((id, u) ∷ ms) = TableEvent.updated id u ∷ table_events ms

  received_all-from :
      (ms : List (ℕ × RowUpdate)) (rows : List (K × RowTask)) (t : WbSocket K RowUpdate) (k : K)
      → IsReady rows t
      → row_at k (received_all ms t rows) ≡ followed k (row_at k rows) (table_events ms)
  unfolding received_all
  received_all-from [] rows t k ready = refl
  received_all-from ((id, u) ∷ ms) rows t k ready =
      let next = received (update_packet id u) t rows in
      received_all-from ms next.1 next.0 k (received-IsReady id u rows t ready)
      ∙ ap (λ o. followed k o (table_events ms))
          (row_at-received id u rows t k ready ∙ row_at-update_rows k id u rows)

  -- Rows with keys of their own, whose names are the same only where their keys are, subscribe
  -- while nothing is subscribed to a task, on a socket with the callback for messages of this
  -- client. After any messages that update tasks, the row under each key is what the updates of
  -- its own task make of it, in the order of the messages, and those of other tasks leave alone.
  pub received_all-run_table :
      (handler : K → String)
      → ((k l : K) → handler k ≡ handler l → k ≡ l)
      → (rows : List (K × RowTask)) (s : WbSocket K RowUpdate) → HasKeys rows
      → ((i : ℕ) → or_empty (handlers_of task_type i s.app.subscribed) ≡ [])
      → s.options.message_cb ≡ some message_cb
      → (ms : List (ℕ × RowUpdate)) (k : K)
      → row_at k (received_all ms (subscribe_rows handler rows s) rows)
        ≡ row_at k (run_table (table_events ms) rows)
  received_all-run_table handler apart rows s h none_yet cb ms k =
      received_all-from ms rows (subscribe_rows handler rows s) k
        (subscribe_rows-IsReady handler apart rows s h none_yet cb)
      ∙ sym (run_table-from k (table_events ms) rows)
