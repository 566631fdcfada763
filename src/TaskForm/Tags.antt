-- ===== src/TaskForm/Tags.antt =====
-- The tags of the form of a task, and the tasks that it offers as a dependency
-- (web/client/src/screen/taskList/TaskInfoEditForm.js).
use gonitor.Prelude.{
  ℕ, Bool, true, false, not, ◌&&◌, Option, none, some, List, [], ◌∷◌, ◌++◌, String, if◌then◌else◌,
  ◌==◌, nat_eq, string_eq, filter, ◌≡◌, ◌≢◌, refl, ap, sym, ◌∙◌, subst, arith, All, All-append,
  All-filter, truthy, concat,
}
use gonitor.Js.{join_commas, trim, trim_start, trim_end}
use gonitor.Js.Laws.{split_commas-join_commas, NoComma}
use gonitor.Request.{Reply, got, failed}
use gonitor.TaskForm.{
  TaskInfo, NodeItem, TaskItem, FormState, FormEvent, on_form_event, run_form, initial_tags,
  includes, on_tasks, on_nodes, is_other, handle_tag_input_key_down, handle_delete_tag,
  handle_execute_type_change, initial,
}
use text.Mathlib.TextEquality.{eq_iff}
use text.Mathlib.TextLemmas.{cons-append}

-- No tag twice
abbrev pub Distinct : List String → Type 0
Distinct [] = Unit {0}
Distinct (t ∷ ts) = All (λ u. u ≢ t) ts × Distinct ts

Distinct-filter : (p : String → Bool) (ts : List String) → Distinct ts → Distinct (filter p ts)
Distinct-filter p [] h = tt
Distinct-filter p (t ∷ ts) (a, d) =
    ground (arith, All-filter (λ u. u ≢ t) p ts a, Distinct-filter p ts d)

-- A tag that `includes` does not find can be added at the end.
Distinct-add :
    (t : String) (ts : List String) → includes t ts ≡ false → Distinct ts → Distinct (ts ++ t ∷ [])
unfolding includes
Distinct-add t [] h d = (tt, tt)
Distinct-add t (u ∷ ts) h (a, d) = (
  All-append (λ v. v ≢ u) ts (t ∷ []) a (λ e. ground (arith, eq_iff u t), tt),
  Distinct-add t ts (ground arith) d,
)

on_nodes-tags :
    (task : TaskInfo) (r : Reply (List NodeItem)) (f : FormState)
    → (on_nodes task r f).tags ≡ f.tags
unfolding on_nodes
on_nodes-tags task (failed err) f = refl
on_nodes-tags task (got body) f = ground arith

on_tasks-tags :
    (task : TaskInfo) (r : Reply (List TaskItem)) (f : FormState)
    → (on_tasks task r f).tags ≡ f.tags
unfolding on_tasks
on_tasks-tags task (failed err) f = refl
on_tasks-tags task (got body) f = ground arith

-- The tags after Enter on a tag
added-Distinct :
    (found : Bool) (tag : String) (tags : List String)
    → includes tag tags ≡ found
    → Distinct tags
    → Distinct (if not found then tags ++ tag ∷ [] else tags)
added-Distinct true tag tags e h = h
added-Distinct false tag tags e h = Distinct-add tag tags e h

if-tags :
    (b : Bool) (f g : FormState)
    → Distinct f.tags
    → Distinct g.tags
    → Distinct (if b then f else g).tags
if-tags true f g h k = h
if-tags false f g h k = k

key_down-Distinct :
    (key : String) (f : FormState)
    → Distinct f.tags
    → Distinct (handle_tag_input_key_down key f).tags
unfolding handle_tag_input_key_down
key_down-Distinct key f h =
    if-tags (key == "Enter" && not (trim f.tag_input == "")) _ f
      (added-Distinct _ (trim f.tag_input) f.tags refl h) h

event-Distinct :
    (task : TaskInfo) (e : FormEvent) (f : FormState)
    → Distinct f.tags
    → Distinct (on_form_event task e f).tags
unfolding on_form_event handle_delete_tag handle_execute_type_change
event-Distinct task (FormEvent.keys_tag key) f h = key_down-Distinct key f h
event-Distinct task (FormEvent.deletes_tag tag) f h = Distinct-filter (λ t. not (t == tag)) f.tags h
event-Distinct task (FormEvent.lists_nodes r) f h = subst Distinct (sym (on_nodes-tags task r f)) h
event-Distinct task (FormEvent.lists_tasks r) f h = subst Distinct (sym (on_tasks-tags task r f)) h
event-Distinct task _ f h = h

-- A form that begins without a repeated tag never shows one, whatever is done to it.
pub run_form-Distinct :
    (task : TaskInfo) (es : List FormEvent) (f : FormState)
    → Distinct f.tags
    → Distinct (run_form task es f).tags
unfolding run_form
run_form-Distinct task [] f h = h
run_form-Distinct task (e ∷ es) f h = run_form-Distinct task es _ (event-Distinct task e f h)

All-kept :
    (ts : List String)
    → All (λ t. (trim t == "") ≡ false) ts
    → filter (λ t. not (trim t == "")) ts ≡ ts
All-kept [] h = refl
All-kept (t ∷ ts) h = ground (arith, All-kept ts h.1)

-- A tag that is not blank makes the joined text truthy.
truthy-join :
    (t : String) (ts : List String) → (trim t == "") ≡ false → truthy (join_commas (t ∷ ts)) ≡ true
unfolding join_commas trim trim_start trim_end
truthy-join String.[] ts b = absurd (ground arith)
truthy-join (String.◌∷◌ c s) [] b = refl
truthy-join (String.◌∷◌ c s) (u ∷ us) b =
    ap truthy (cons-append c s (concat "," (join_commas (u ∷ us))))

if-true : {A : Type 0} {b : Bool} (x y : A) → b ≡ true → (if b then x else y) ≡ x
if-true {b = true} x y h = refl
if-true {b = false} x y h = absurd (ground arith)

-- The tags that the form sends come back where a form opens on them, in their order, if there is
-- one and none is blank or has a comma.
pub initial_tags-join :
    (t : String) (ts : List String)
    → All NoComma (t ∷ ts)
    → All (λ u. (trim u == "") ≡ false) (t ∷ ts)
    → initial_tags (join_commas (t ∷ ts)) ≡ t ∷ ts
unfolding initial_tags
initial_tags-join t ts c b =
    if-true _ [] (truthy-join t ts b.0)
    ∙ ap (filter (λ u. not (trim u == ""))) (split_commas-join_commas t ts c)
    ∙ All-kept (t ∷ ts) b

-- No task of a list is the one that the form is about.
abbrev pub NoSelf : TaskInfo → List TaskItem → Type 0
NoSelf task = All (λ item. some item.id ≢ task.id)

is_other-differs :
    (task : TaskInfo) (item : TaskItem) → is_other task item ≡ true → some item.id ≢ task.id
unfolding is_other
is_other-differs task item = differs task.id
  where
    differs :
        (o : Option ℕ)
        → elim o [ none ↦ true | some id ↦ not (item.id == id) ] ≡ true
        → some item.id ≢ o
    differs none h e = ground arith
    differs (some id) h e = ground arith

if-NoSelf :
    (task : TaskInfo) (item : TaskItem) (items : List TaskItem)
    → (is_other task item ≡ true → some item.id ≢ task.id)
    → NoSelf task items
    → NoSelf task (if is_other task item then item ∷ items else items)
if-NoSelf task item items h k = ground arith

others-NoSelf :
    (task : TaskInfo) (items : List TaskItem) → NoSelf task (filter (is_other task) items)
unfolding is_other
others-NoSelf task [] = tt
others-NoSelf task (item ∷ items) =
    if-NoSelf task item _ (is_other-differs task item) (others-NoSelf task items)

on_nodes-tasks :
    (task : TaskInfo) (r : Reply (List NodeItem)) (f : FormState)
    → (on_nodes task r f).task_select_list ≡ f.task_select_list
unfolding on_nodes
on_nodes-tasks task (failed err) f = refl
on_nodes-tasks task (got body) f = ground arith

if-tasks :
    (b : Bool) (f g : FormState)
    → f.task_select_list ≡ g.task_select_list
    → (if b then f else g).task_select_list ≡ g.task_select_list
if-tasks true f g e = e
if-tasks false f g e = refl

on_tasks-NoSelf :
    (task : TaskInfo) (r : Reply (List TaskItem)) (f : FormState)
    → NoSelf task f.task_select_list
    → NoSelf task (on_tasks task r f).task_select_list
unfolding on_tasks
on_tasks-NoSelf task (failed err) f h = h
on_tasks-NoSelf task (got body) f h = listed body.content (body.code == 0)
  where
    listed :
        (o : Option (List TaskItem)) (b : Bool)
        → NoSelf task
            (elim o as (λ x. FormState) [
              | none ↦ f
              | some tasks ↦
                  if b then record f { task_select_list = filter (is_other task) tasks } else f
            ]).task_select_list
    listed none b = h
    listed (some tasks) true = others-NoSelf task tasks
    listed (some tasks) false = h

event-NoSelf :
    (task : TaskInfo) (e : FormEvent) (f : FormState)
    → NoSelf task f.task_select_list
    → NoSelf task (on_form_event task e f).task_select_list
unfolding on_form_event handle_delete_tag handle_execute_type_change handle_tag_input_key_down
event-NoSelf task (FormEvent.keys_tag key) f h =
    subst (NoSelf task) (sym (if-tasks (key == "Enter" && not (trim f.tag_input == "")) _ f refl)) h
event-NoSelf task (FormEvent.lists_nodes r) f h =
    subst (NoSelf task) (sym (on_nodes-tasks task r f)) h
event-NoSelf task (FormEvent.lists_tasks r) f h = on_tasks-NoSelf task r f h
event-NoSelf task _ f h = h

-- Whatever is done to a form, it never offers its own task as a dependency.
pub run_form-NoSelf :
    (task : TaskInfo) (es : List FormEvent)
    → NoSelf task (run_form task es (initial task)).task_select_list
unfolding initial run_form
run_form-NoSelf task es = from es (initial task) tt
  where
    from :
        (es : List FormEvent) (f : FormState)
        → NoSelf task f.task_select_list
        → NoSelf task (run_form task es f).task_select_list
    from [] f h = h
    from (e ∷ es) f h = from es _ (event-NoSelf task e f h)
