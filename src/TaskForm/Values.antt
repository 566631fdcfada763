-- ===== src/TaskForm/Values.antt =====
-- What the form of a task sends where nothing is changed
-- (web/client/src/screen/taskList/TaskInfoEditForm.js).
use gonitor.Prelude.{
  List, [], Option, none, not, true, if◌then◌else◌, nat_eq, sym, ◌∙◌, arith, Bool-cases, inl, inr,
  ℕ, zero, suc, Bool, false, some, ◌∷◌, String, ◌==◌, string_eq, ◌≡◌, refl, ap, All, or_else,
}
use gonitor.Prelude.Int.{ℤ, pos, negsuc}
use gonitor.Js.{Value, parse_int, or_zero, join_commas, trim, truthy_value}
use gonitor.Request.{Reply, got, failed}
use gonitor.Js.Laws.{NoComma}
use gonitor.TaskForm.{
  TaskItem, NodeItem, FormState, FormEvent, on_nodes, on_tasks, on_form_event, run_form,
  master_node, TaskInfo, FormValues, initial, get_form_values, initial_priority,
}
use gonitor.TaskForm.Tags.{initial_tags-join}

-- A task as the server keeps it: its numbers are integers, and it has at least one tag.
pub record SavedTask : Type 0 where
  pub id : ℕ
  pub name : String
  pub description : String
  pub exec_type : String
  pub command : String
  pub schedule : String
  pub retry_times : ℤ
  pub retry_interval : ℤ
  pub timeout : ℤ
  pub exec_strategy : ℤ
  pub is_disable : Bool
  pub priority : ℤ
  pub tag : String
  pub tags : List String
  pub assert : String
  pub result_handler : String
  pub node_id : ℤ
  pub depends_on_task_id : ℤ

abbrev pub to_info : SavedTask → TaskInfo
to_info t = record {
  id = some t.id;
  name = t.name;
  description = t.description;
  exec_type = t.exec_type;
  command = t.command;
  schedule = t.schedule;
  retry_times = Value.number t.retry_times;
  retry_interval = Value.number t.retry_interval;
  timeout = Value.number t.timeout;
  exec_strategy = Value.number t.exec_strategy;
  is_disable = t.is_disable;
  priority = Value.number t.priority;
  tags = join_commas (t.tag ∷ t.tags);
  assert = t.assert;
  result_handler = t.result_handler;
  node_id = Value.number t.node_id;
  depends_on_task_id = Value.number t.depends_on_task_id;
}

abbrev pub values_of : SavedTask → FormValues
values_of t = record {
  name = t.name;
  description = t.description;
  exec_type = t.exec_type;
  command = t.command;
  schedule = t.schedule;
  retry_times = some t.retry_times;
  retry_interval = some t.retry_interval;
  timeout = some t.timeout;
  exec_strategy = some t.exec_strategy;
  is_disable = t.is_disable;
  priority = some t.priority;
  tags = join_commas (t.tag ∷ t.tags);
  assert = t.assert;
  result_handler = t.result_handler;
  node_id = some t.node_id;
  depends_on_task_id = some t.depends_on_task_id;
}

or_zero-number : (z : ℤ) → parse_int (or_zero (Value.number z)) ≡ some z
unfolding truthy_value parse_int
or_zero-number (pos zero) = refl
or_zero-number (pos (suc n)) = refl
or_zero-number (negsuc n) = refl

or_else-empty : (s : String) → or_else s "" ≡ s
or_else-empty String.[] = refl
or_else-empty (String.◌∷◌ c s) = refl

initial-values_of :
    (t : SavedTask)
    → All NoComma (t.tag ∷ t.tags)
    → All (λ u. (trim u == "") ≡ false) (t.tag ∷ t.tags)
    → get_form_values (initial (to_info t)) ≡ values_of t
unfolding get_form_values initial initial_priority parse_int
initial-values_of t c b = cc (
  or_else-empty t.description,
  or_zero-number t.timeout,
  or_zero-number t.node_id,
  or_zero-number t.depends_on_task_id,
  ap join_commas (initial_tags-join t.tag t.tags c b),
)

-- An answer to one of the requests for nodes and for tasks
abbrev pub IsListing : FormEvent → Type 0
IsListing (FormEvent.lists_nodes r) = Unit {0}
IsListing (FormEvent.lists_tasks r) = Unit {0}
IsListing _ = ⊥

-- The first master of some nodes
abbrev pub first_master : List NodeItem → Option ℕ
first_master [] = none
first_master (node ∷ nodes) =
    let rest = first_master nodes in if node.is_master then some node.id else rest

-- The node that an answer of nodes assigns: its first master, if it is a success and has one
abbrev pub master_of : Reply (List NodeItem) → Option ℕ
master_of (failed err) = none
master_of (got body) = elim body.content [
  | none ↦ none
  | some nodes ↦ if body.code == 0 then first_master nodes else none
]

-- The node of a task without a node after some answers: the last that one has assigned
abbrev pub assigned : List FormEvent → ℤ → ℤ
assigned [] z = z
assigned (FormEvent.lists_nodes r ∷ es) z =
    assigned es (elim (master_of r) [ none ↦ z | some id ↦ pos id ])
assigned (_ ∷ es) z = assigned es z

abbrev pub is_zero : ℤ → Bool
is_zero (pos zero) = true
is_zero (pos (suc n)) = false
is_zero (negsuc n) = false

abbrev pub with_node : ℤ → FormValues → FormValues
with_node z v = record v { node_id = some z }

master_node-first_master : (nodes : List NodeItem) → master_node nodes ≡ first_master nodes
unfolding master_node
master_node-first_master [] = refl
master_node-first_master (node ∷ nodes) = ground (arith, master_node-first_master nodes)

truthy_value-is_zero : (z : ℤ) → truthy_value (Value.number z) ≡ not (is_zero z)
unfolding truthy_value
truthy_value-is_zero (pos zero) = refl
truthy_value-is_zero (pos (suc n)) = refl
truthy_value-is_zero (negsuc n) = refl

-- A property of a form in both branches of a test, and on both cases of an option
if-form : (P : FormState → Type 0) (b : Bool) (f g : FormState) → P f → P g → P (if b then f else g)
if-form P true f g h k = h
if-form P false f g h k = k

option-form :
    {A : Type 0} (P : FormState → Type 0) (o : Option A) (f : FormState) (g : A → FormState)
    → P f
    → ((x : A) → P (g x))
    → P (elim o as (λ y. FormState) [ none ↦ f | some x ↦ g x ])
option-form P none f g h k = h
option-form P (some x) f g h k = k x

-- The answers change no value but that of the node.
on_nodes-values :
    (task : TaskInfo) (r : Reply (List NodeItem)) (f : FormState)
    → get_form_values (on_nodes task r f)
      ≡ record (get_form_values f) { node_id = parse_int (on_nodes task r f).node_id }
unfolding on_nodes get_form_values
on_nodes-values task (failed err) f = refl
on_nodes-values task (got body) f = option-form IsKept body.content f _ refl (λ nodes.
    if-form IsKept (body.code == 0) _ f
      (if-form IsKept (not (truthy_value task.node_id)) _ _
        (option-form IsKept (master_node nodes) _ _ refl (λ id. refl)) refl)
      refl)
  where
    IsKept : FormState → Type 0
    IsKept g = get_form_values g ≡ record (get_form_values f) { node_id = parse_int g.node_id }

on_tasks-values :
    (task : TaskInfo) (r : Reply (List TaskItem)) (f : FormState)
    → get_form_values (on_tasks task r f) ≡ get_form_values f
unfolding on_tasks get_form_values
on_tasks-values task (failed err) f = refl
on_tasks-values task (got body) f =
    option-form (λ g. get_form_values g ≡ get_form_values f) body.content f _ refl
      (λ tasks. if-form (λ g. get_form_values g ≡ get_form_values f) (body.code == 0) _ f refl refl)

on_nodes-kept :
    (task : TaskInfo) (r : Reply (List NodeItem)) (f : FormState)
    → truthy_value task.node_id ≡ true
    → (on_nodes task r f).node_id ≡ f.node_id
unfolding on_nodes
on_nodes-kept task (failed err) f h = refl
on_nodes-kept task (got body) f h = ground (arith, h)

-- `master_of`, by the source's own search
found_master : Reply (List NodeItem) → Option ℕ
found_master (failed err) = none
found_master (got body) = elim body.content [
  | none ↦ none
  | some nodes ↦ if body.code == 0 then master_node nodes else none
]

found_master-master_of : (r : Reply (List NodeItem)) → found_master r ≡ master_of r
unfolding found_master
found_master-master_of (failed err) = refl
found_master-master_of (got body) = by_content body.content
  where
    by_content :
        (o : Option (List NodeItem))
        → (elim o as (λ x. Option ℕ) [
          | none ↦ none
          | some nodes ↦ if body.code == 0 then master_node nodes else none
        ])
          ≡ (elim o as (λ x. Option ℕ) [
            | none ↦ none
            | some nodes ↦ if body.code == 0 then first_master nodes else none
          ])
    by_content none = refl
    by_content (some nodes) =
        ap (λ m. if body.code == 0 then m else none) (master_node-first_master nodes)

abbrev node_after : Option ℕ → Value → Value
node_after none v = v
node_after (some id) v = Value.number (pos id)

abbrev number_after : Option ℕ → ℤ → ℤ
number_after m z = elim m [ none ↦ z | some id ↦ pos id ]

on_nodes-found :
    (task : TaskInfo) (r : Reply (List NodeItem)) (f : FormState)
    → truthy_value task.node_id ≡ false
    → (on_nodes task r f).node_id ≡ node_after (found_master r) f.node_id
unfolding on_nodes found_master
on_nodes-found task (failed err) f h = refl
on_nodes-found task (got body) f h = ground (arith, h)

parse_int-node_after :
    (m : Option ℕ) (v : Value) (z : ℤ)
    → parse_int v ≡ some z
    → parse_int (node_after m v) ≡ some (number_after m z)
unfolding parse_int
parse_int-node_after none v z e = e
parse_int-node_after (some id) v z e = refl

on_nodes-assigned :
    (task : TaskInfo) (r : Reply (List NodeItem)) (f : FormState) (z : ℤ) (v : FormValues)
    → truthy_value task.node_id ≡ false
    → get_form_values f ≡ with_node z v
    → get_form_values (on_nodes task r f) ≡ with_node (number_after (master_of r) z) v
unfolding get_form_values
on_nodes-assigned task r f z v h e =
    let node =
      ap parse_int
        (on_nodes-found task r f h ∙ ap (λ m. node_after m f.node_id) (found_master-master_of r))
      ∙ parse_int-node_after (master_of r) f.node_id z (ap (λ w. w.node_id) e) in
    on_nodes-values task r f ∙ (λ i. record (e i) { node_id = node i })

run_form-assigned :
    (task : TaskInfo) (es : List FormEvent) (f : FormState) (z : ℤ) (v : FormValues)
    → All IsListing es
    → truthy_value task.node_id ≡ false
    → get_form_values f ≡ with_node z v
    → get_form_values (run_form task es f) ≡ with_node (assigned es z) v
unfolding run_form on_form_event
run_form-assigned task [] f z v l h e = e
run_form-assigned task (FormEvent.lists_nodes r ∷ es) f z v l h e =
    run_form-assigned task es (on_nodes task r f) (number_after (master_of r) z) v l.1 h
      (on_nodes-assigned task r f z v h e)
run_form-assigned task (FormEvent.lists_tasks r ∷ es) f z v l h e =
    run_form-assigned task es (on_tasks task r f) z v l.1 h (on_tasks-values task r f ∙ e)
run_form-assigned task (_ ∷ es) f z v l h e = absurd l.0

run_form-kept :
    (task : TaskInfo) (es : List FormEvent) (f : FormState)
    → All IsListing es
    → truthy_value task.node_id ≡ true
    → get_form_values (run_form task es f) ≡ get_form_values f
unfolding run_form on_form_event get_form_values
run_form-kept task [] f l h = refl
run_form-kept task (FormEvent.lists_nodes r ∷ es) f l h =
    run_form-kept task es (on_nodes task r f) l.1 h
    ∙ on_nodes-values task r f
    ∙ ap (λ v. record (get_form_values f) { node_id = parse_int v }) (on_nodes-kept task r f h)
run_form-kept task (FormEvent.lists_tasks r ∷ es) f l h =
    run_form-kept task es (on_tasks task r f) l.1 h ∙ on_tasks-values task r f
run_form-kept task (_ ∷ es) f l h = absurd l.0

-- If a saved task has a tag, and none of its tags is blank or has a comma, then after any answers
-- to the form's requests for nodes and for tasks the form sends the task back that it has opened
-- on, but for the node of a task that is saved without one (its node id is 0): this is the first
-- master of the last successful answer of nodes that has a master, and 0 where none has.
pub get_form_values-run_form :
    (t : SavedTask) (es : List FormEvent)
    → All NoComma (t.tag ∷ t.tags)
    → All (λ u. (trim u == "") ≡ false) (t.tag ∷ t.tags)
    → All IsListing es
    → get_form_values (run_form (to_info t) es (initial (to_info t))) ≡ record (values_of t) {
      node_id = some (if is_zero t.node_id then assigned es t.node_id else t.node_id);
    }
get_form_values-run_form t es c b l =
    let same = initial-values_of t c b in
    elim (Bool-cases (is_zero t.node_id)) [
      | inl lacks ↦
          run_form-assigned (to_info t) es (initial (to_info t)) t.node_id (values_of t) l
            (truthy_value-is_zero t.node_id ∙ ap not lacks) same
          ∙ ap (λ x. with_node (if x then assigned es t.node_id else t.node_id) (values_of t))
              (sym lacks)
      | inr has ↦
          run_form-kept (to_info t) es (initial (to_info t)) l
            (truthy_value-is_zero t.node_id ∙ ap not has)
          ∙ same
          ∙ ap (λ x. with_node (if x then assigned es t.node_id else t.node_id) (values_of t))
              (sym has)
    ]
