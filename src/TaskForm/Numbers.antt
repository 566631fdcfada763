-- ===== src/TaskForm/Numbers.antt =====
-- The numbers that the form of a task sends (web/client/src/screen/taskList/TaskInfoEditForm.js):
-- the types of its values through its state.
use gonitor.Prelude.{
  filter, ◌&&◌, ◌++◌, string_eq, ℕ, Bool, true, false, not, Option, none, some, List, [], ◌∷◌, All,
  if◌then◌else◌, ◌==◌, nat_eq, ◌≡◌, refl,
}
use gonitor.Prelude.Int.{ℤ, pos}
use gonitor.Request.{Reply, got, failed}
use gonitor.Js.{trim, Value, parse_int, truthy_value, or_zero}
use gonitor.TaskForm.{
  TaskInfo, FormState, FormValues, FormEvent, NodeItem, TaskItem, get_form_values, initial,
  initial_priority, handle_execute_type_change, handle_tag_input_key_down, handle_delete_tag,
  master_node, is_other, includes, on_nodes, on_tasks, on_form_event, run_form,
}

-- A value that `parseInt` reads as a number
abbrev pub IsRead : Value → Type 0
IsRead v = (z : ℤ) × (parse_int v ≡ some z)

-- A value that is missing or a number
abbrev pub IsOptional : Value → Type 0
IsOptional Value.undefined = Unit
IsOptional (Value.number z) = Unit
IsOptional (Value.text s) = ⊥

-- A task with numbers that can be read, of which some may be missing
pub record IsTask (task : TaskInfo) : Type 0 where
  pub retry_times : IsRead task.retry_times
  pub retry_interval : IsRead task.retry_interval
  pub exec_strategy : IsRead task.exec_strategy
  pub timeout : IsOptional task.timeout
  pub priority : IsOptional task.priority
  pub node_id : IsOptional task.node_id
  pub depends_on_task_id : IsOptional task.depends_on_task_id

-- An event that gives a numeric input something that can be read
abbrev pub IsNumeric : FormEvent → Type 0
IsNumeric (FormEvent.retries v) = IsRead v
IsNumeric (FormEvent.waits v) = IsRead v
IsNumeric (FormEvent.limits v) = IsRead v
IsNumeric (FormEvent.picks_strategy v) = IsRead v
IsNumeric (FormEvent.ranks v) = IsRead v
IsNumeric (FormEvent.picks_node v) = IsRead v
IsNumeric (FormEvent.depends v) = IsRead v
IsNumeric (FormEvent.names s) = Unit
IsNumeric (FormEvent.describes s) = Unit
IsNumeric (FormEvent.picks_type s) = Unit
IsNumeric (FormEvent.commands s) = Unit
IsNumeric (FormEvent.schedules s) = Unit
IsNumeric (FormEvent.disables b) = Unit
IsNumeric (FormEvent.types_tag s) = Unit
IsNumeric (FormEvent.keys_tag key) = Unit
IsNumeric (FormEvent.deletes_tag tag) = Unit
IsNumeric (FormEvent.asserts code) = Unit
IsNumeric (FormEvent.handles code) = Unit
IsNumeric (FormEvent.lists_nodes r) = Unit
IsNumeric (FormEvent.lists_tasks r) = Unit

-- The seven numeric values of the form can be read
abbrev IsTyped : FormState → Type 0
IsTyped f =
    IsRead f.retry_times
    × IsRead f.retry_interval
    × IsRead f.timeout
    × IsRead f.exec_strategy
    × IsRead f.priority
    × IsRead f.node_id
    × IsRead f.depends_on_task_id

-- What is sent has numbers where the server has them
pub record IsSendable (v : FormValues) : Type 0 where
  pub retry_times : (z : ℤ) × (v.retry_times ≡ some z)
  pub retry_interval : (z : ℤ) × (v.retry_interval ≡ some z)
  pub timeout : (z : ℤ) × (v.timeout ≡ some z)
  pub exec_strategy : (z : ℤ) × (v.exec_strategy ≡ some z)
  pub priority : (z : ℤ) × (v.priority ≡ some z)
  pub node_id : (z : ℤ) × (v.node_id ≡ some z)
  pub depends_on_task_id : (z : ℤ) × (v.depends_on_task_id ≡ some z)

or_zero-IsRead : (v : Value) → IsOptional v → IsRead (or_zero v)
unfolding parse_int truthy_value
or_zero-IsRead Value.undefined h = (pos 0, refl)
or_zero-IsRead (Value.number z) h = either (truthy_value (Value.number z))
  where
    either : (b : Bool) → IsRead (if b then Value.number z else Value.number (pos 0))
    either true = (z, refl)
    either false = (pos 0, refl)
or_zero-IsRead (Value.text s) h = absurd h

initial_priority-IsRead : (v : Value) → IsOptional v → IsRead (initial_priority v)
unfolding parse_int initial_priority
initial_priority-IsRead Value.undefined h = (pos _, refl)
initial_priority-IsRead (Value.number z) h = (z, refl)
initial_priority-IsRead (Value.text s) h = absurd h

initial-IsTyped : (task : TaskInfo) → IsTask task → IsTyped (initial task)
unfolding initial
initial-IsTyped task h = (
  h.retry_times,
  h.retry_interval,
  or_zero-IsRead task.timeout h.timeout,
  h.exec_strategy,
  initial_priority-IsRead task.priority h.priority,
  or_zero-IsRead task.node_id h.node_id,
  or_zero-IsRead task.depends_on_task_id h.depends_on_task_id,
)

either-IsTyped : (b : Bool) (f g : FormState) → IsTyped f → IsTyped g → IsTyped (if b then f else g)
either-IsTyped true f g h k = h
either-IsTyped false f g h k = k

on_nodes-IsTyped :
    (task : TaskInfo) (r : Reply (List NodeItem)) (f : FormState)
    → IsTyped f
    → IsTyped (on_nodes task r f)
unfolding on_nodes parse_int
on_nodes-IsTyped task (failed err) f h = h
on_nodes-IsTyped task (got body) f h = by_content body.content
  where
    by_master :
        (o : Option ℕ) (nodes : List NodeItem)
        → IsTyped (elim o as (λ x. FormState) [
          | none ↦ record f { node_select_list = nodes }
          | some id ↦ record f { node_select_list = nodes; node_id = Value.number (pos id) }
        ])
    by_master none nodes = h
    by_master (some id) nodes = (h.0, h.1, h.2, h.3, h.4, (pos id, refl), h.6)

    by_content :
        (o : Option (List NodeItem))
        → IsTyped (elim o as (λ x. FormState) [
          | none ↦ f
          | some nodes ↦
              if body.code == 0
              then if not (truthy_value task.node_id)
                then elim (master_node nodes) as (λ x. FormState) [
                  | none ↦ record f { node_select_list = nodes }
                  | some id ↦ record f { node_select_list = nodes; node_id = Value.number (pos id) }
                ]
                else record f { node_select_list = nodes }
              else f
        ])
    by_content none = h
    by_content (some nodes) =
        either-IsTyped (body.code == 0) _ f
          (either-IsTyped (not (truthy_value task.node_id)) _
            (record f { node_select_list = nodes }) (by_master (master_node nodes) nodes) (h))
          h

on_tasks-IsTyped :
    (task : TaskInfo) (r : Reply (List TaskItem)) (f : FormState)
    → IsTyped f
    → IsTyped (on_tasks task r f)
unfolding on_tasks
on_tasks-IsTyped task (failed err) f h = h
on_tasks-IsTyped task (got body) f h = by_content body.content
  where
    by_content :
        (o : Option (List TaskItem))
        → IsTyped (elim o as (λ x. FormState) [
          | none ↦ f
          | some tasks ↦
              if body.code == 0
              then record f { task_select_list = filter (is_other task) tasks }
              else f
        ])
    by_content none = h
    by_content (some tasks) = either-IsTyped (body.code == 0) _ f (h) h

on_form_event-IsTyped :
    (task : TaskInfo) (e : FormEvent) (f : FormState)
    → IsNumeric e
    → IsTyped f
    → IsTyped (on_form_event task e f)
unfolding on_form_event handle_execute_type_change handle_tag_input_key_down handle_delete_tag
on_form_event-IsTyped task (FormEvent.retries v) f n (a, b, c, d, p, q, r) = (n, b, c, d, p, q, r)
on_form_event-IsTyped task (FormEvent.waits v) f n (a, b, c, d, p, q, r) = (a, n, c, d, p, q, r)
on_form_event-IsTyped task (FormEvent.limits v) f n (a, b, c, d, p, q, r) = (a, b, n, d, p, q, r)
on_form_event-IsTyped task (FormEvent.picks_strategy v) f n (a, b, c, d, p, q, r) =
    (a, b, c, n, p, q, r)
on_form_event-IsTyped task (FormEvent.ranks v) f n (a, b, c, d, p, q, r) = (a, b, c, d, n, q, r)
on_form_event-IsTyped task (FormEvent.picks_node v) f n (a, b, c, d, p, q, r) =
    (a, b, c, d, p, n, r)
on_form_event-IsTyped task (FormEvent.depends v) f n (a, b, c, d, p, q, r) = (a, b, c, d, p, q, n)
on_form_event-IsTyped task (FormEvent.names s) f n h = h
on_form_event-IsTyped task (FormEvent.describes s) f n h = h
on_form_event-IsTyped task (FormEvent.picks_type s) f n h = h
on_form_event-IsTyped task (FormEvent.commands s) f n h = h
on_form_event-IsTyped task (FormEvent.schedules s) f n h = h
on_form_event-IsTyped task (FormEvent.disables b) f n h = h
on_form_event-IsTyped task (FormEvent.types_tag s) f n h = h
on_form_event-IsTyped task (FormEvent.keys_tag key) f n h =
    let tag = trim f.tag_input in
    either-IsTyped (key == "Enter" && not (tag == ""))
      (record f {
        tags = (if not (includes tag f.tags) then f.tags ++ tag ∷ [] else f.tags);
        tag_input = "";
      })
      f (h) h
on_form_event-IsTyped task (FormEvent.deletes_tag tag) f n h = h
on_form_event-IsTyped task (FormEvent.asserts code) f n h = h
on_form_event-IsTyped task (FormEvent.handles code) f n h = h
on_form_event-IsTyped task (FormEvent.lists_nodes r) f n h = on_nodes-IsTyped task r f h
on_form_event-IsTyped task (FormEvent.lists_tasks r) f n h = on_tasks-IsTyped task r f h

run_form-IsTyped :
    (task : TaskInfo) (es : List FormEvent) (f : FormState)
    → All IsNumeric es
    → IsTyped f
    → IsTyped (run_form task es f)
unfolding run_form
run_form-IsTyped task [] f n h = h
run_form-IsTyped task (e ∷ es) f (n, ns) h =
    run_form-IsTyped task es (on_form_event task e f) ns (on_form_event-IsTyped task e f n h)

-- For a task of which `parseInt` reads the retries, the pause and the strategy, and whose other
-- numbers are numbers or missing, after any events of the form, its answers included, that give its
-- numeric inputs what `parseInt` can read, all seven numbers that the form sends are numbers, and
-- none is NaN.
pub run_form-IsSendable :
    (task : TaskInfo) (es : List FormEvent)
    → IsTask task
    → All IsNumeric es
    → IsSendable (get_form_values (run_form task es (initial task)))
unfolding get_form_values
run_form-IsSendable task es h n =
    let t = run_form-IsTyped task es (initial task) n (initial-IsTyped task h) in
    record {
      retry_times = t.0;
      retry_interval = t.1;
      timeout = t.2;
      exec_strategy = t.3;
      priority = t.4;
      node_id = t.5;
      depends_on_task_id = t.6;
    }
