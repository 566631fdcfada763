-- ===== src/Tasks/Delivered.antt =====
-- An update of a task reaches the rows of the task and no others
-- (web/client/src/screen/taskList/TaskRow.js and web/client/src/common/socket/Websocket.js).
use gonitor.Prelude.{
  ℕ, true, false, ◌&&◌, ◌||◌, Option, none, some, List, [], ◌∷◌, String, All, ◌==◌, nat_eq, Eq,
  string_eq, Bool-cases, get, ◌≡◌, refl, sym, ap, ◌∙◌, inl, inr, arith,
}
use text.Mathlib.TextEquality.{eq_iff}
use gonitor.Socket.{Packet, on_message, restart_heart, run_message_cb, send}
use gonitor.Subscription.{
  Registry, Handlers, Update, WbSocket, or_empty, handlers_of, register, mount, message_cb,
  call_all, task_type, update_event,
}
use gonitor.Tasks.Row.{RowTask, RowUpdate}
use gonitor.Tasks.Cards.{row_at, update_rows}
use gonitor.Tasks.Follow.{row_at-update_rows}
use gonitor.Tasks.Live.{subscribe_rows, call_rows, received}
use gonitor.Tasks.Called.{
  or_false, or_swap, update_if, update_if-false, handlers, is_called, is_row_of, is_called-register,
  get-register, IsNew, HasKeys, row_at-call_rows, update_if-is_row_of,
}

-- A message that updates a task
abbrev pub update_packet : ℕ → RowUpdate → Packet (Update RowUpdate)
update_packet id u = record {
  code = 200;
  content = record { event = update_event; type = task_type; id = id; content = u };
  msg = "";
}

module _ {K : Type 0} ⦃key_eq : Eq K⦄ where
  -- Rows that are subscribed, each to its task, on a socket with the callback for messages
  pub record IsReady (rows : List (K × RowTask)) (t : WbSocket K RowUpdate) : Type 0 where
    pub keys : HasKeys rows
    pub callback : t.options.message_cb ≡ some message_cb
    pub called : (id : ℕ) (k : K) → is_called k (handlers id t.app.subscribed) ≡ is_row_of id k rows

  -- The rows that the handlers of a task call
  call_rows-call_all :
      (k : K) (u : RowUpdate) (found : Option (Handlers K)) (rows : List (K × RowTask))
      → row_at k (call_rows (call_all found u []) rows)
        ≡ update_if (is_called k (or_empty found)) u (row_at k rows)
  unfolding call_rows
  call_rows-call_all k u none rows = update_if-false u (row_at k rows)
  call_rows-call_all k u (some hs) rows = row_at-call_rows k u hs rows

  -- One message is merged into the rows of its task
  pub row_at-received :
      (id : ℕ) (u : RowUpdate) (rows : List (K × RowTask)) (t : WbSocket K RowUpdate) (k : K)
      → IsReady rows t
      → row_at k (received (update_packet id u) t rows).1 ≡ row_at k (update_rows id u rows)
  unfolding received on_message restart_heart message_cb handlers
  row_at-received id u rows t k ready =
      ap
        (λ c. row_at k (
          call_rows
            (run_message_cb c (update_packet id u).content (record (t.app) { calls = [] })).calls
            rows))
        ready.callback
      ∙ call_rows-call_all k u (handlers_of task_type id t.app.subscribed) rows
      ∙ ap (λ b. update_if b u (row_at k rows)) (ready.called id k)
      ∙ update_if-is_row_of id k u rows ready.keys
      ∙ sym (row_at-update_rows k id u rows)

  module _ (handler : K → String) (apart : (k l : K) → handler k ≡ handler l → k ≡ l) where
    AreFree : List (K × RowTask) → Registry K → Type 0
    AreFree rows reg = All (λ row. get (handler row.0) (handlers row.1.id reg) ≡ none) rows

    other_name : (k l : K) → (l == k) ≡ false → (handler k == handler l) ≡ false
    other_name k l e = elim (Bool-cases (handler k == handler l)) [
      | inl same ↦ absurd (
          differ
            ((key_eq.same_iff l k).1 (sym (apart k l ((eq_iff (handler k) (handler l)).0 same)))))
      | inr other ↦ other
    ]
      where
        differ : (l == k) ≡ true → ⊥
        differ h = ground (arith, e, h)

    AreFree-register :
        (k : K) (r : RowTask) (rows : List (K × RowTask)) (reg : Registry K)
        → IsNew k rows
        → AreFree rows reg
        → AreFree rows (register task_type r.id (handler k) k reg)
    unfolding AreFree
    AreFree-register k r [] reg new free = tt
    AreFree-register k r ((l, q) ∷ rows) reg (other, new) (f, free) = (
      get-register r.id q.id (handler k) (handler l) k reg (other_name k l other) f,
      AreFree-register k r rows reg new free,
    )

    is_called-subscribe_rows :
        (id : ℕ) (k : K) (rows : List (K × RowTask)) (s : WbSocket K RowUpdate)
        → HasKeys rows
        → AreFree rows s.app.subscribed
        → is_called k (handlers id (subscribe_rows handler rows s).app.subscribed)
          ≡ (is_row_of id k rows || is_called k (handlers id s.app.subscribed))
    unfolding subscribe_rows mount send AreFree
    is_called-subscribe_rows id k [] s h free = refl
    is_called-subscribe_rows id k ((l, r) ∷ rows) s (new, h) (f, free) =
        is_called-subscribe_rows id k rows (mount task_type r.id (handler l) l s) h
          (AreFree-register l r rows s.app.subscribed new free)
        ∙ ap (λ b. is_row_of id k rows || b)
            (is_called-register r.id id k l (handler l) s.app.subscribed f)
        ∙ or_swap (is_row_of id k rows) (r.id == id && l == k)
            (is_called k (handlers id s.app.subscribed))

    options-subscribe_rows :
        (rows : List (K × RowTask)) (s : WbSocket K RowUpdate)
        → (subscribe_rows handler rows s).options ≡ s.options
    unfolding subscribe_rows mount send
    options-subscribe_rows [] s = refl
    options-subscribe_rows ((k, r) ∷ rows) s =
        options-subscribe_rows rows (mount task_type r.id (handler k) k s)

    -- While nothing is subscribed to a task, every name is free
    free_at_first :
        (rows : List (K × RowTask)) (reg : Registry K)
        → ((i : ℕ) → handlers i reg ≡ [])
        → AreFree rows reg
    unfolding AreFree get
    free_at_first [] reg e = tt
    free_at_first ((k, r) ∷ rows) reg e = (ap (get (handler k)) (e r.id), free_at_first rows reg e)

    -- The rows of a first rendering are ready for messages
    pub subscribe_rows-IsReady :
        (rows : List (K × RowTask)) (s : WbSocket K RowUpdate)
        → HasKeys rows
        → ((i : ℕ) → or_empty (handlers_of task_type i s.app.subscribed) ≡ [])
        → s.options.message_cb ≡ some message_cb
        → IsReady rows (subscribe_rows handler rows s)
    unfolding handlers
    subscribe_rows-IsReady rows s h none_yet cb = record {
      keys = h;
      callback = ap (λ o. o.message_cb) (options-subscribe_rows rows s) ∙ cb;
      called = λ id k.
          is_called-subscribe_rows id k rows s h (free_at_first rows s.app.subscribed none_yet)
          ∙ ap (λ hs. is_row_of id k rows || is_called k hs) (none_yet id)
          ∙ or_false (is_row_of id k rows);
    }
