-- ===== src/TaskForm/Typed.antt =====
-- What the three fields with a help do to the form (web/client/src/screen/taskList/fields/ and
-- TaskInfoEditForm.js above it).
use gonitor.Prelude.{Bool, true, false, none, some, List, [], ◌∷◌, String, if◌then◌else◌, ◌≡◌, refl}
use gonitor.Popover.{Anchor}
use gonitor.TaskForm.{TaskInfo, FormState, on_form_event}
use gonitor.TaskForm.Editors.{
  EditorKind, EditorEvent, Helps, editor, set_help, on_editor_event, schedule_field, assert_field,
  result_handler_field,
}

abbrev pub same_kind : EditorKind → EditorKind → Bool
same_kind EditorKind.schedules EditorKind.schedules = true
same_kind EditorKind.asserts EditorKind.asserts = true
same_kind EditorKind.result_handlers EditorKind.result_handlers = true
same_kind _ _ = false

module _ {E : Type 0} where
  unfoldable pub run_editors :
      TaskInfo → List (EditorEvent E) → FormState × Helps E → FormState × Helps E
  unfolding on_editor_event
  run_editors task [] s = s
  run_editors task (e ∷ es) s = run_editors task es (on_editor_event task e s)

  -- The last text that is typed into a field, and the anchor of its help after some events
  abbrev pub last_typed : EditorKind → String → List (EditorEvent E) → String
  last_typed kind old [] = old
  last_typed kind old (EditorEvent.types k text ∷ es) =
      last_typed kind (if same_kind k kind then text else old) es
  last_typed kind old (EditorEvent.opens_help k target ∷ es) = last_typed kind old es
  last_typed kind old (EditorEvent.closes_help k ∷ es) = last_typed kind old es

  abbrev pub last_help : EditorKind → Anchor E → List (EditorEvent E) → Anchor E
  last_help kind old [] = old
  last_help kind old (EditorEvent.types k text ∷ es) = last_help kind old es
  last_help kind old (EditorEvent.opens_help k target ∷ es) =
      last_help kind (if same_kind k kind then some target else old) es
  last_help kind old (EditorEvent.closes_help k ∷ es) =
      last_help kind (if same_kind k kind then none else old) es

  -- After any events of the three fields, each of the three texts of the form is the last that was
  -- typed into its field, the rest of the form is as before, and each help hangs on the button
  -- that opened it last, or on none where it was closed since.
  pub run_editors-last :
      (task : TaskInfo) (es : List (EditorEvent E)) (f : FormState) (h : Helps E)
      → run_editors task es (f, h) ≡ (
        record f {
          schedule = last_typed EditorKind.schedules f.schedule es;
          assert = last_typed EditorKind.asserts f.assert es;
          result_handler = last_typed EditorKind.result_handlers f.result_handler es;
        },
        record {
          schedule = last_help EditorKind.schedules h.schedule es;
          assert = last_help EditorKind.asserts h.assert es;
          result_handler = last_help EditorKind.result_handlers h.result_handler es;
        },
      )
  unfolding run_editors on_editor_event editor set_help on_form_event schedule_field assert_field
      result_handler_field
  run_editors-last task [] f h = refl
  run_editors-last task (EditorEvent.types EditorKind.schedules text ∷ es) f h =
      run_editors-last task es (record f { schedule = text }) h
  run_editors-last task (EditorEvent.types EditorKind.asserts text ∷ es) f h =
      run_editors-last task es (record f { assert = text }) h
  run_editors-last task (EditorEvent.types EditorKind.result_handlers text ∷ es) f h =
      run_editors-last task es (record f { result_handler = text }) h
  run_editors-last task (EditorEvent.opens_help EditorKind.schedules target ∷ es) f h =
      run_editors-last task es f (record h { schedule = some target })
  run_editors-last task (EditorEvent.opens_help EditorKind.asserts target ∷ es) f h =
      run_editors-last task es f (record h { assert = some target })
  run_editors-last task (EditorEvent.opens_help EditorKind.result_handlers target ∷ es) f h =
      run_editors-last task es f (record h { result_handler = some target })
  run_editors-last task (EditorEvent.closes_help EditorKind.schedules ∷ es) f h =
      run_editors-last task es f (record h { schedule = none })
  run_editors-last task (EditorEvent.closes_help EditorKind.asserts ∷ es) f h =
      run_editors-last task es f (record h { assert = none })
  run_editors-last task (EditorEvent.closes_help EditorKind.result_handlers ∷ es) f h =
      run_editors-last task es f (record h { result_handler = none })
