-- ===== src/TaskForm/Tests.antt =====
-- The form of a task on concrete tasks and events, at which the theorems hold.
use gonitor.Prelude.{
  true, ℕ, false, some, List, [], ◌∷◌, ◌≡◌, refl, All, ◌==◌, string_eq, arith, subst, sym,
}
use text.Mathlib.TextEquality.{eq_iff}
use gonitor.Prelude.Int.{pos}
use gonitor.Js.{
  Value, trim, trim_start, trim_end, is_space, parse_int, read_signed, read_number, read_digits,
  digit,
}
use gonitor.TaskForm.Numbers.{IsNumeric, IsTask, IsSendable, run_form-IsSendable}
use gonitor.Js.Laws.{NoComma}
use gonitor.Request.{got, failed}
use gonitor.TaskForm.{FormState, FormEvent, get_form_values, initial, run_form}
use gonitor.TaskForm.Editors.{EditorKind, EditorEvent, first_helps}
use gonitor.TaskForm.Typed.{run_editors, run_editors-last}
use gonitor.TaskForm.Values.{SavedTask, to_info, values_of, get_form_values-run_form}
use gonitor.TaskForm.Tags.{Distinct, NoSelf, run_form-Distinct, initial_tags-join, run_form-NoSelf}

abbrev saved : SavedTask
saved = record {
  id = 7;
  name = "backup";
  description = "";
  exec_type = "cmd";
  command = "ls";
  schedule = "* * * * *";
  retry_times = pos 0;
  retry_interval = pos 3000;
  timeout = pos 0;
  exec_strategy = pos 1;
  is_disable = false;
  priority = pos 0;
  tag = "a";
  tags = "b" ∷ [];
  assert = "";
  result_handler = "";
  node_id = pos 2;
  depends_on_task_id = pos 0;
}

tags-NoComma : All NoComma ("a" ∷ "b" ∷ [])
tags-NoComma = ((λ e. ground arith, tt), ((λ e. ground arith, tt), tt))

tags_not_blank : All (λ u. (trim u == "") ≡ false) ("a" ∷ "b" ∷ [])
unfolding trim trim_start trim_end is_space
tags_not_blank = (refl, (refl, tt))

-- The task is saved without a node, and the second node of the answer is the master.
abbrev without_node : SavedTask
without_node = record saved { node_id = pos 0 }

abbrev answers : List FormEvent
answers =
    FormEvent.lists_tasks (failed (record { message = "offline" }))
    ∷ FormEvent.lists_nodes (
        got (record {
          code = 0;
          message = "";
          content = some (
              record { id = 4; name = "a"; is_master = false; region = "" }
              ∷ record { id = 5; name = "b"; is_master = true; region = "" }
              ∷ []);
        }))
    ∷ []

get_form_values-run_form_example :
    get_form_values (run_form (to_info without_node) answers (initial (to_info without_node)))
    ≡ record (values_of saved) { node_id = some (pos 5) }
get_form_values-run_form_example =
    get_form_values-run_form without_node answers tags-NoComma tags_not_blank (tt, (tt, tt))

-- The same tag is entered twice, and the task itself is in the list of tasks.
abbrev events : List FormEvent
events =
    FormEvent.types_tag "x"
    ∷ FormEvent.keys_tag "Enter"
    ∷ FormEvent.types_tag " x"
    ∷ FormEvent.keys_tag "Enter"
    ∷ FormEvent.lists_tasks (
        got (record {
          code = 0;
          message = "";
          content =
              some (record { id = 7; name = "backup" } ∷ record { id = 8; name = "mail" } ∷ []);
        }))
    ∷ []

abbrev form : FormState
form = initial (to_info saved)

form-Distinct : Distinct form.tags
unfolding initial
form-Distinct =
    subst Distinct (sym (initial_tags-join "a" ("b" ∷ []) tags-NoComma tags_not_blank))
      ((λ e. ground (arith, eq_iff "b" "a"), tt), (tt, tt))

run_form-Distinct_example : Distinct (run_form (to_info saved) events form).tags
run_form-Distinct_example = run_form-Distinct (to_info saved) events form form-Distinct

run_form-NoSelf_example :
    NoSelf (to_info saved) (run_form (to_info saved) events form).task_select_list
run_form-NoSelf_example = run_form-NoSelf (to_info saved) events

abbrev typing : List (EditorEvent ℕ)
typing =
    EditorEvent.types EditorKind.schedules "@daily"
    ∷ EditorEvent.opens_help EditorKind.asserts 3
    ∷ EditorEvent.types EditorKind.asserts "function main() {}"
    ∷ EditorEvent.types EditorKind.schedules "@hourly"
    ∷ EditorEvent.closes_help EditorKind.asserts
    ∷ []

run_editors-last_example :
    run_editors (to_info saved) typing (form, first_helps)
    ≡ (record form { schedule = "@hourly"; assert = "function main() {}" }, first_helps)
run_editors-last_example = run_editors-last (to_info saved) typing form first_helps

abbrev numbers : List FormEvent
numbers =
    FormEvent.retries (Value.text " 3")
    ∷ FormEvent.ranks (Value.number (pos 2))
    ∷ FormEvent.lists_nodes (
        got (record {
          code = 0;
          message = "";
          content = some (record { id = 4; name = "a"; region = ""; is_master = true } ∷ []);
        }))
    ∷ FormEvent.limits (Value.text "10s")
    ∷ []

numbers-IsNumeric : All IsNumeric numbers
unfolding parse_int trim_start is_space read_signed read_number read_digits digit
numbers-IsNumeric = ((pos 3, refl), ((pos 2, refl), (tt, ((pos 10, refl), tt))))

saved-IsTask : IsTask (to_info saved)
unfolding parse_int
saved-IsTask = record {
  retry_times = (pos 0, refl);
  retry_interval = (pos 3000, refl);
  exec_strategy = (pos 1, refl);
  timeout = tt;
  priority = tt;
  node_id = tt;
  depends_on_task_id = tt;
}

run_form-IsSendable_example :
    IsSendable (get_form_values (run_form (to_info saved) numbers (initial (to_info saved))))
run_form-IsSendable_example =
    run_form-IsSendable (to_info saved) numbers saved-IsTask numbers-IsNumeric
