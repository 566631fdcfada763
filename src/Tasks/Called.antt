-- ===== src/Tasks/Called.antt =====
-- Which rows the functions call that are registered for a task, and what the calls do
-- (web/client/src/common/socket/Websocket.js and web/client/src/screen/taskList/TaskRow.js).
use gonitor.Prelude.{
  ℕ, Bool, true, false, ◌&&◌, ◌||◌, Option, none, some, List, [], ◌∷◌, String, All, map,
  if◌then◌else◌, ◌==◌, nat_eq, nat_beq, nat_beq_iff, Eq, string_eq, Bool-cases, get, put, get-put,
  ◌≡◌, refl, sym, ap, ◌∙◌, subst, inl, inr, arith,
}
use text.Mathlib.TextPositions.{eq_refl}
use gonitor.Subscription.{Registry, Handlers, or_empty, handlers_of, register, task_type}
use gonitor.Subscription.Registry.{handlers_of-register}
use gonitor.Tasks.Row.{RowTask, RowUpdate, or_current, row_updated}
use gonitor.Tasks.Cards.{row_at}
use gonitor.Tasks.Follow.{after_update}
use gonitor.Tasks.Live.{call_row, call_rows}

pub or_false : (a : Bool) → (a || false) ≡ a
or_false a = ground arith

pub or_swap : (a b c : Bool) → (a || (b || c)) ≡ ((b || a) || c)
or_swap a b c = ground arith

pub or_current-twice :
    {A : Type 0} (u : Option A) (x : A) → or_current u (or_current u x) ≡ or_current u x
or_current-twice none x = refl
or_current-twice (some new) x = refl

-- The same update again changes nothing
pub row_updated-twice :
    (u : RowUpdate) (r : RowTask) → row_updated u (row_updated u r) ≡ row_updated u r
unfolding row_updated
row_updated-twice u r = λ i. record r {
  name = or_current-twice u.name r.name i;
  priority = or_current-twice u.priority r.priority i;
  exec_type = or_current-twice u.exec_type r.exec_type i;
  schedule = or_current-twice u.schedule r.schedule i;
  node_name = or_current-twice u.node_name r.node_name i;
  exec_strategy = or_current-twice u.exec_strategy r.exec_strategy i;
  is_disable = or_current-twice u.is_disable r.is_disable i;
  running_count = or_current-twice u.running_count r.running_count i;
  last_run_time = or_current-twice u.last_run_time r.last_run_time i;
  next_run_time = or_current-twice u.next_run_time r.next_run_time i;
}

pub update_if : Bool → RowUpdate → Option RowTask → Option RowTask
update_if b u none = none
update_if b u (some r) = some (if b then row_updated u r else r)

pub update_if-false : (u : RowUpdate) (o : Option RowTask) → o ≡ update_if false u o
unfolding update_if
update_if-false u none = refl
update_if-false u (some r) = refl

pub update_if-update_if :
    (b c : Bool) (u : RowUpdate) (o : Option RowTask)
    → update_if b u (update_if c u o) ≡ update_if (c || b) u o
unfolding update_if
update_if-update_if b c u none = refl
update_if-update_if true true u (some r) = ap some (row_updated-twice u r)
update_if-update_if true false u (some r) = refl
update_if-update_if false true u (some r) = refl
update_if-update_if false false u (some r) = refl

module _ {K : Type 0} ⦃key_eq : Eq K⦄ where
  -- The functions that are registered for a task
  unfoldable pub handlers : ℕ → Registry K → Handlers K
  unfolding handlers_of
  handlers id r = or_empty (handlers_of task_type id r)

  -- Whether a row is among those that are called
  abbrev pub is_called : K → Handlers K → Bool
  is_called k [] = false
  is_called k ((name, l) ∷ hs) = l == k || is_called k hs

  abbrev pub is_row_of : ℕ → K → List (K × RowTask) → Bool
  is_row_of id k [] = false
  is_row_of id k ((l, r) ∷ rows) = (r.id == id && l == k) || is_row_of id k rows

  pub is_called-put :
      (k l : K) (name : String) (hs : Handlers K)
      → get name hs ≡ none
      → is_called k (put name l hs) ≡ (l == k || is_called k hs)
  unfolding get put
  is_called-put k l name [] e = refl
  is_called-put k l name ((n, m) ∷ hs) e = elim (Bool-cases (n == name)) [
    | inl a ↦ absurd (ground (arith, e, a))
    | inr a ↦ ground (arith, a, is_called-put k l name hs (ground (arith, e, a)))
  ]

  pub handlers-register :
      (id id' : ℕ) (name : String) (l : K) (r : Registry K)
      → handlers id' (register task_type id name l r)
        ≡ (if nat_beq id id' then put name l (handlers id r) else handlers id' r)
  unfolding handlers
  handlers-register id id' name l r =
      ap or_empty (handlers_of-register task_type task_type name id id' l r)
      ∙ ground (arith, eq_refl task_type)

  pub is_called-register :
      (id id' : ℕ) (k l : K) (name : String) (r : Registry K)
      → get name (handlers id r) ≡ none
      → is_called k (handlers id' (register task_type id name l r))
        ≡ ((id == id' && l == k) || is_called k (handlers id' r))
  is_called-register id id' k l name r free =
      ap (is_called k) (handlers-register id id' name l r) ∙ (elim (Bool-cases (nat_beq id id')) [
        | inl e ↦
            let same : handlers id r ≡ handlers id' r =
              ap (λ i. handlers i r) ((nat_beq_iff id id').0 e) in
            ap (λ b. is_called k (if b then put name l (handlers id r) else handlers id' r)) e
            ∙ is_called-put k l name (handlers id r) free
            ∙ ap (λ hs. l == k || is_called k hs) same
            ∙ ap (λ b. (b && l == k) || is_called k (handlers id' r)) (sym e)
        | inr e ↦
            ap (λ b. is_called k (if b then put name l (handlers id r) else handlers id' r)) e
            ∙ ap (λ b. (b && l == k) || is_called k (handlers id' r)) (sym e)
      ])

  pub get-register :
      (id id' : ℕ) (name other : String) (l : K) (r : Registry K)
      → (name == other) ≡ false
      → get other (handlers id' r) ≡ none
      → get other (handlers id' (register task_type id name l r)) ≡ none
  get-register id id' name other l r apart free =
      ap (get other) (handlers-register id id' name l r) ∙ (elim (Bool-cases (nat_beq id id')) [
        | inl e ↦
            let same : handlers id r ≡ handlers id' r =
              ap (λ i. handlers i r) ((nat_beq_iff id id').0 e) in
            ap (λ b. get other (if b then put name l (handlers id r) else handlers id' r)) e
            ∙ get-put name other l (handlers id r)
            ∙ ap (λ b. if b then some l else get other (handlers id r)) apart
            ∙ ap (get other) same
            ∙ free
        | inr e ↦
            ap (λ b. get other (if b then put name l (handlers id r) else handlers id' r)) e ∙ free
      ])

  -- No row of a list has a key, and no function is registered under the names of the rows
  abbrev pub IsNew : K → List (K × RowTask) → Type 0
  IsNew k rows = All (λ row. (row.0 == k) ≡ false) rows

  abbrev pub HasKeys : List (K × RowTask) → Type 0
  HasKeys [] = Unit
  HasKeys ((k, r) ∷ rows) = IsNew k rows × HasKeys rows

  pub beq_comm : (k l : K) → (k == l) ≡ (l == k)
  beq_comm k l = ground (arith, key_eq.same_iff k l, key_eq.same_iff l k)

  pub row_at-call_row :
      (k l : K) (u : RowUpdate) (rows : List (K × RowTask))
      → row_at k (call_row l u rows) ≡ update_if (l == k) u (row_at k rows)
  unfolding call_row update_if
  row_at-call_row k l u [] = refl
  row_at-call_row k l u ((m, r) ∷ rows) = elim (Bool-cases (m == k)) [
    | inl e ↦
        let swapped : (m == l) ≡ (l == k) =
          ap (λ x. x == l) ((key_eq.same_iff m k).0 e) ∙ beq_comm k l in
        ap
          (λ b.
            if b
            then some (if m == l then row_updated u r else r)
            else row_at k (call_row l u rows))
          e
        ∙ ap (λ b. some (if b then row_updated u r else r)) swapped
        ∙ ap (λ b. update_if (l == k) u (if b then some r else row_at k rows)) (sym e)
    | inr e ↦
        ap
          (λ b.
            if b
            then some (if m == l then row_updated u r else r)
            else row_at k (call_row l u rows))
          e
        ∙ row_at-call_row k l u rows
        ∙ ap (λ b. update_if (l == k) u (if b then some r else row_at k rows)) (sym e)
  ]

  pub row_at-call_rows :
      (k : K) (u : RowUpdate) (hs : Handlers K) (rows : List (K × RowTask))
      → row_at k (call_rows (map (λ kh. (kh.1, u)) hs) rows)
        ≡ update_if (is_called k hs) u (row_at k rows)
  unfolding call_rows
  row_at-call_rows k u [] rows = update_if-false u (row_at k rows)
  row_at-call_rows k u ((name, l) ∷ hs) rows =
      row_at-call_rows k u hs (call_row l u rows)
      ∙ ap (update_if (is_called k hs) u) (row_at-call_row k l u rows)
      ∙ update_if-update_if (is_called k hs) (l == k) u (row_at k rows)

  pub is_row_of_new :
      (id : ℕ) (k : K) (rows : List (K × RowTask)) → IsNew k rows → is_row_of id k rows ≡ false
  is_row_of_new id k [] h = refl
  is_row_of_new id k ((l, r) ∷ rows) (e, h) = ground (arith, e, is_row_of_new id k rows h)

  pub update_if-is_row_of :
      (id : ℕ) (k : K) (u : RowUpdate) (rows : List (K × RowTask))
      → HasKeys rows
      → update_if (is_row_of id k rows) u (row_at k rows) ≡ after_update id u (row_at k rows)
  unfolding update_if
  update_if-is_row_of id k u [] h = refl
  update_if-is_row_of id k u ((l, r) ∷ rows) (new, h) = elim (Bool-cases (l == k)) [
    | inl e ↦
        let none_else : is_row_of id k rows ≡ false =
          is_row_of_new id k rows (subst (λ x. IsNew x rows) ((key_eq.same_iff l k).0 e) new) in
        ground (arith, e, none_else)
    | inr e ↦ ground (arith, e, update_if-is_row_of id k u rows h)
  ]
