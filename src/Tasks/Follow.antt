-- ===== src/Tasks/Follow.antt =====
-- What the rows of the table of tasks follow (web/client/src/screen/taskList/TaskRow.js and
-- TaskListTableStyle.js).
use gonitor.Prelude.{
  ℕ, Bool, true, false, Option, none, some, List, [], ◌∷◌, if◌then◌else◌, ◌==◌, nat_eq, Eq,
  Bool-cases, ◌≡◌, refl, sym, ap, ◌∙◌, inl, inr, ◌++◌, All, arith,
}
use gonitor.Tasks.Row.{RowTask, RowUpdate, row_updated, or_current}
use gonitor.Tasks.Cards.{row_at, kept_row, table_rendered, update_rows, TableEvent, run_table}

-- A row after a rendering: gone where the list has no such task, else kept, or new
abbrev pub after_list : Option RowTask → Option RowTask → Option RowTask
after_list none old = none
after_list (some task) old = some (kept_row task old)

abbrev pub after_update : ℕ → RowUpdate → Option RowTask → Option RowTask
after_update id u none = none
after_update id u (some r) = some (if r.id == id then row_updated u r else r)

-- The last value that some updates give a field, from the one that it has
abbrev pub last_given : {A : Type 0} → (RowUpdate → Option A) → List RowUpdate → A → A
last_given field [] x = x
last_given field (u ∷ us) x = last_given field us (elim (field u) [ none ↦ x | some new ↦ new ])

-- A task whose fields are the last that some updates give
abbrev pub with_updates : List RowUpdate → RowTask → RowTask
with_updates us t = record t {
  name = last_given (λ u. u.name) us t.name;
  priority = last_given (λ u. u.priority) us t.priority;
  exec_type = last_given (λ u. u.exec_type) us t.exec_type;
  schedule = last_given (λ u. u.schedule) us t.schedule;
  node_name = last_given (λ u. u.node_name) us t.node_name;
  exec_strategy = last_given (λ u. u.exec_strategy) us t.exec_strategy;
  is_disable = last_given (λ u. u.is_disable) us t.is_disable;
  running_count = last_given (λ u. u.running_count) us t.running_count;
  last_run_time = last_given (λ u. u.last_run_time) us t.last_run_time;
  next_run_time = last_given (λ u. u.next_run_time) us t.next_run_time;
}

last_given-cons :
    {A : Type 0} (field : RowUpdate → Option A) (u : RowUpdate) (us : List RowUpdate) (x : A)
    → last_given field (u ∷ us) x ≡ last_given field us (or_current (field u) x)
last_given-cons {A = A} field u us x = ap (last_given field us) (given (field u))
  where
    given : (o : Option A) → (elim o as (λ y. A) [ none ↦ x | some new ↦ new ]) ≡ or_current o x
    given none = refl
    given (some new) = refl

with_updates-cons :
    (u : RowUpdate) (us : List RowUpdate) (t : RowTask)
    → with_updates (u ∷ us) t ≡ with_updates us (row_updated u t)
unfolding row_updated
with_updates-cons u us t = λ i. record t {
  name = last_given-cons (λ v. v.name) u us t.name i;
  priority = last_given-cons (λ v. v.priority) u us t.priority i;
  exec_type = last_given-cons (λ v. v.exec_type) u us t.exec_type i;
  schedule = last_given-cons (λ v. v.schedule) u us t.schedule i;
  node_name = last_given-cons (λ v. v.node_name) u us t.node_name i;
  exec_strategy = last_given-cons (λ v. v.exec_strategy) u us t.exec_strategy i;
  is_disable = last_given-cons (λ v. v.is_disable) u us t.is_disable i;
  running_count = last_given-cons (λ v. v.running_count) u us t.running_count i;
  last_run_time = last_given-cons (λ v. v.last_run_time) u us t.last_run_time i;
  next_run_time = last_given-cons (λ v. v.next_run_time) u us t.next_run_time i;
}

abbrev pub is_some : {A : Type 0} → Option A → Bool
is_some none = false
is_some (some x) = true

-- A row that is there stays as it is where the list has its key.
after_list-some :
    (o : Option RowTask) (t : RowTask) → is_some o ≡ true → after_list o (some t) ≡ some t
after_list-some none t h = absurd (ground arith)
after_list-some (some new) t h = refl

module _ {K : Type 0} ⦃key_eq : Eq K⦄ where
  -- The row under a key after some events
  abbrev pub followed : K → Option RowTask → List (TableEvent K) → Option RowTask
  followed k old [] = old
  followed k old (TableEvent.rendered tasks ∷ es) = followed k (after_list (row_at k tasks) old) es
  followed k old (TableEvent.updated id u ∷ es) = followed k (after_update id u old) es

  row_at-table_rendered :
      (k : K) (tasks old : List (K × RowTask))
      → row_at k (table_rendered tasks old) ≡ after_list (row_at k tasks) (row_at k old)
  unfolding table_rendered
  row_at-table_rendered k [] old = refl
  row_at-table_rendered k ((l, task) ∷ tasks) old = elim (Bool-cases (l == k)) [
    | inl e ↦
        let same : row_at l old ≡ row_at k old =
          ap (λ x. row_at x old) ((key_eq.same_iff l k).0 e) in
        ap
          (λ b.
            if b then some (kept_row task (row_at l old)) else row_at k (table_rendered tasks old))
          e
        ∙ ap (λ r. some (kept_row task r)) same
        ∙ ap (λ b. after_list (if b then some task else row_at k tasks) (row_at k old)) (sym e)
    | inr e ↦
        ap
          (λ b.
            if b then some (kept_row task (row_at l old)) else row_at k (table_rendered tasks old))
          e
        ∙ row_at-table_rendered k tasks old
        ∙ ap (λ b. after_list (if b then some task else row_at k tasks) (row_at k old)) (sym e)
  ]

  pub row_at-update_rows :
      (k : K) (id : ℕ) (u : RowUpdate) (rows : List (K × RowTask))
      → row_at k (update_rows id u rows) ≡ after_update id u (row_at k rows)
  unfolding update_rows
  row_at-update_rows k id u [] = refl
  row_at-update_rows k id u ((l, r) ∷ rows) = by_key (l == k) (row_at-update_rows k id u rows)
    where
      by_key :
          (b : Bool)
          → row_at k (update_rows id u rows) ≡ after_update id u (row_at k rows)
          → (if b
              then some (if r.id == id then row_updated u r else r)
              else row_at k (update_rows id u rows))
            ≡ after_update id u (if b then some r else row_at k rows)
      by_key true h = refl
      by_key false h = h

  pub run_table-from :
      (k : K) (es : List (TableEvent K)) (rows : List (K × RowTask))
      → row_at k (run_table es rows) ≡ followed k (row_at k rows) es
  unfolding run_table
  run_table-from k [] rows = refl
  run_table-from k (TableEvent.rendered tasks ∷ es) rows =
      run_table-from k es (table_rendered tasks rows)
      ∙ ap (λ o. followed k o es) (row_at-table_rendered k tasks rows)
  run_table-from k (TableEvent.updated id u ∷ es) rows =
      run_table-from k es (update_rows id u rows)
      ∙ ap (λ o. followed k o es) (row_at-update_rows k id u rows)

  -- The updates of a task, in order
  abbrev pub updates_of : ℕ → List (TableEvent K) → List RowUpdate
  updates_of id [] = []
  updates_of id (TableEvent.rendered tasks ∷ es) = updates_of id es
  updates_of id (TableEvent.updated i u ∷ es) =
      let rest = updates_of id es in if id == i then u ∷ rest else rest

  -- A list that is rendered has a task under the key.
  abbrev pub Lists : K → TableEvent K → Type 0
  Lists k (TableEvent.rendered tasks) = is_some (row_at k tasks) ≡ true
  Lists k (TableEvent.updated id u) = Unit {0}

  followed-updates_of :
      (k : K) (es : List (TableEvent K)) (t : RowTask)
      → All (Lists k) es
      → followed k (some t) es ≡ some (with_updates (updates_of t.id es) t)
  unfolding row_updated
  followed-updates_of k [] t h = refl
  followed-updates_of k (TableEvent.rendered tasks ∷ es) t (h, hs) =
      ap (λ o. followed k o es) (after_list-some (row_at k tasks) t h)
      ∙ followed-updates_of k es t hs
  followed-updates_of k (TableEvent.updated i u ∷ es) t (h, hs) =
      by_id (t.id == i) (followed-updates_of k es t hs)
        (followed-updates_of k es (row_updated u t) hs)
    where
      by_id :
          (b : Bool)
          → followed k (some t) es ≡ some (with_updates (updates_of t.id es) t)
          → followed k (some (row_updated u t)) es
            ≡ some (with_updates (updates_of t.id es) (row_updated u t))
          → followed k (some (if b then row_updated u t else t)) es
            ≡ some (with_updates (if b then u ∷ updates_of t.id es else updates_of t.id es) t)
      by_id true old new = new ∙ ap some (sym (with_updates-cons u (updates_of t.id es) t))
      by_id false old new = old

  run_table-append :
      (es fs : List (TableEvent K)) (rows : List (K × RowTask))
      → run_table (es ++ fs) rows ≡ run_table fs (run_table es rows)
  unfolding run_table
  run_table-append [] fs rows = refl
  run_table-append (TableEvent.rendered tasks ∷ es) fs rows =
      run_table-append es fs (table_rendered tasks rows)
  run_table-append (TableEvent.updated id u ∷ es) fs rows =
      run_table-append es fs (update_rows id u rows)

  -- A key that has no row after some events comes into the list with a task, and every later list
  -- has a task under this key. Then each field that the row under the key shows is the last one
  -- that an update of that task has given since, or else that of the task as the key came in,
  -- whatever the later lists say of the task.
  pub row_at-run_table :
      (k : K) (before after : List (TableEvent K)) (tasks : List (K × RowTask)) (t : RowTask)
      → row_at k (run_table before []) ≡ none
      → row_at k tasks ≡ some t
      → All (Lists k) after
      → row_at k (run_table (before ++ TableEvent.rendered tasks ∷ after) [])
        ≡ some (with_updates (updates_of t.id after) t)
  row_at-run_table k before after tasks t absent found listed =
      ap (row_at k) (run_table-append before (TableEvent.rendered tasks ∷ after) [])
      ∙ run_table-from k (TableEvent.rendered tasks ∷ after) (run_table before [])
      ∙ ap (λ o. followed k (after_list (row_at k tasks) o) after) absent
      ∙ ap (λ o. followed k (after_list o none) after) found
      ∙ followed-updates_of k after t listed
