-- ===== src/TaskForm/Shown.antt =====
-- The inputs of the form of a task are controlled
-- (web/client/src/screen/taskList/TaskInfoEditForm.js).
use gonitor.Prelude.{
  ℕ, zero, suc, Bool, not, Option, none, some, List, [], ◌∷◌, String, ◌==◌, string_eq, filter, ◌≡◌,
  refl,
}
use gonitor.Js.{Value}
use gonitor.TaskForm.{
  TaskInfo, FormState, on_form_event, handle_execute_type_change, handle_delete_tag,
}
use gonitor.TaskForm.View.{Field, fields, upper_fields, lower_fields}

pub data Shown : Type 0 where
  text : String → Shown
  value : Value → Shown
  tags : List String → Shown
  flag : Bool → Shown

abbrev pub shown : Field → Shown
shown (Field.text_field id label required v on_change) = Shown.text v
shown (Field.number_field id label required v on_change) = Shown.value v
shown (Field.type_select v choices on_change) = Shown.text v
shown (Field.select id label v choices on_change) = Shown.value v
shown (Field.schedule_field v on_change) = Shown.text v
shown (Field.tag_field v on_change on_key_down) = Shown.text v
shown (Field.chips ts on_delete) = Shown.tags ts
shown (Field.radio_group label v choices on_change) = Shown.value v
shown (Field.switch label v on_change) = Shown.flag v
shown (Field.assert_field v on_change) = Shown.text v
shown (Field.result_handler_field v on_change) = Shown.text v

-- What the input at a place shows
abbrev pub shown_at : ℕ → List Field → Option Shown
shown_at i [] = none
shown_at zero (field ∷ rest) = some (shown field)
shown_at (suc i) (field ∷ rest) = shown_at i rest

-- After a change of the input at place `i`, that place shows what was entered; a deleted chip is
-- gone. A `RadioGroup` has a `defaultValue` only, and keeps what it shows itself.
abbrev pub Controls : TaskInfo → FormState → ℕ → Field → Type 0
Controls task f i (Field.text_field id label required v on) =
    (s : String) → shown_at i (fields (on_form_event task (on s) f)) ≡ some (Shown.text s)
Controls task f i (Field.number_field id label required v on) =
    (s : Value) → shown_at i (fields (on_form_event task (on s) f)) ≡ some (Shown.value s)
Controls task f i (Field.type_select v choices on) =
    (s : String) → shown_at i (fields (on_form_event task (on s) f)) ≡ some (Shown.text s)
Controls task f i (Field.select id label v choices on) =
    (s : Value) → shown_at i (fields (on_form_event task (on s) f)) ≡ some (Shown.value s)
Controls task f i (Field.schedule_field v on) =
    (s : String) → shown_at i (fields (on_form_event task (on s) f)) ≡ some (Shown.text s)
Controls task f i (Field.tag_field v on on_key_down) =
    (s : String) → shown_at i (fields (on_form_event task (on s) f)) ≡ some (Shown.text s)
Controls task f i (Field.chips ts on) =
    (s : String)
    → shown_at i (fields (on_form_event task (on s) f))
      ≡ some (Shown.tags (filter (λ t. not (t == s)) ts))
Controls task f i (Field.radio_group label v choices on) = Unit {0}
Controls task f i (Field.switch label v on) =
    (b : Bool) → shown_at i (fields (on_form_event task (on b) f)) ≡ some (Shown.flag b)
Controls task f i (Field.assert_field v on) =
    (s : String) → shown_at i (fields (on_form_event task (on s) f)) ≡ some (Shown.text s)
Controls task f i (Field.result_handler_field v on) =
    (s : String) → shown_at i (fields (on_form_event task (on s) f)) ≡ some (Shown.text s)

abbrev pub AllControl : TaskInfo → FormState → ℕ → List Field → Type 0
AllControl task f i [] = Unit {0}
AllControl task f i (field ∷ rest) = Controls task f i field × AllControl task f (suc i) rest

-- Every input of the form, but the group of radio buttons, shows what was entered into it.
pub fields-AllControl : (task : TaskInfo) (f : FormState) → AllControl task f 0 (fields f)
unfolding fields upper_fields lower_fields on_form_event handle_execute_type_change
    handle_delete_tag
fields-AllControl task f = (
  λ s. refl,
  (
    λ s. refl,
    (
      λ s. refl,
      (
        λ s. refl,
        (
          λ s. refl,
          (
            λ s. refl,
            (
              λ s. refl,
              (
                λ s. refl,
                (
                  λ s. refl,
                  (
                    λ s. refl,
                    (
                      λ s. refl,
                      (λ s. refl, (λ s. refl, (tt, (λ s. refl, (λ s. refl, (λ s. refl, tt)))))),
                    ),
                  ),
                ),
              ),
            ),
          ),
        ),
      ),
    ),
  ),
)
