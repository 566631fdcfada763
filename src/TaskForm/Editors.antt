-- ===== src/TaskForm/Editors.antt =====
-- The three fields of the form of a task that have a help (web/client/src/screen/taskList/fields/):
-- an input or an editor for one text, and a button that opens the help. The editor is of a package
-- that hands its whole text to `onChange`.
use gonitor.Prelude.{Bool, Option, none, some, List, String}
use gonitor.Popover.{Anchor, is_shown, handle_popover_open, handle_popover_close}
use gonitor.TaskForm.{TaskInfo, FormEvent, FormState, on_form_event}
use gonitor.TaskForm.Help.{HelpPart, schedule_help, assert_help, result_handler_help}

-- What a field shows: its label, its text, the language of its editor, and its help while it is open
pub record EditorView (E : Type 0) : Type 0 where
  pub label : String
  pub value : String
  pub language : Option String
  pub on_change : String → FormEvent
  pub help_open : Bool
  pub help_anchor : Anchor E
  pub help : List HelpPart

-- The anchors of the helps of the three fields
pub record Helps (E : Type 0) : Type 0 where
  pub schedule : Anchor E
  pub assert : Anchor E
  pub result_handler : Anchor E

module _ {E : Type 0} where
  abbrev pub first_helps : Helps E
  first_helps = record { schedule = none; assert = none; result_handler = none }

  unfoldable pub schedule_field : String → Anchor E → EditorView E
  unfolding schedule_help
  schedule_field schedule anchor = record {
    label = "Schedule";
    value = schedule;
    language = none;
    on_change = FormEvent.schedules;
    help_open = is_shown anchor;
    help_anchor = anchor;
    help = schedule_help;
  }

  unfoldable pub assert_field : String → Anchor E → EditorView E
  unfolding assert_help
  assert_field assert anchor = record {
    label = "Assert";
    value = assert;
    language = some "javascript";
    on_change = FormEvent.asserts;
    help_open = is_shown anchor;
    help_anchor = anchor;
    help = assert_help;
  }

  unfoldable pub result_handler_field : String → Anchor E → EditorView E
  unfolding result_handler_help
  result_handler_field result_handler anchor = record {
    label = "Result Handler";
    value = result_handler;
    language = some "javascript";
    on_change = FormEvent.handles;
    help_open = is_shown anchor;
    help_anchor = anchor;
    help = result_handler_help;
  }

-- Which of the three fields an event is about
pub data EditorKind : Type 0 where
  schedules asserts result_handlers : EditorKind

pub data EditorEvent (E : Type 0) : Type 0 where
  types : EditorKind → String → EditorEvent E
  opens_help : EditorKind → E → EditorEvent E
  closes_help : EditorKind → EditorEvent E

module _ {E : Type 0} where
  unfoldable pub editor : EditorKind → FormState → Helps E → EditorView E
  unfolding schedule_field assert_field result_handler_field
  editor EditorKind.schedules f h = schedule_field f.schedule h.schedule
  editor EditorKind.asserts f h = assert_field f.assert h.assert
  editor EditorKind.result_handlers f h = result_handler_field f.result_handler h.result_handler

  unfoldable pub set_help : EditorKind → (Anchor E → Anchor E) → Helps E → Helps E
  set_help EditorKind.schedules change h = record h { schedule = change h.schedule }
  set_help EditorKind.asserts change h = record h { assert = change h.assert }
  set_help EditorKind.result_handlers change h = record h {
    result_handler = change h.result_handler;
  }

  unfoldable pub on_editor_event :
      TaskInfo → EditorEvent E → FormState × Helps E → FormState × Helps E
  unfolding editor set_help on_form_event
  on_editor_event task (EditorEvent.types kind text) (f, h) =
      (on_form_event task ((editor kind f h).on_change text) f, h)
  on_editor_event task (EditorEvent.opens_help kind target) (f, h) =
      (f, set_help kind (handle_popover_open target) h)
  on_editor_event task (EditorEvent.closes_help kind) (f, h) =
      (f, set_help kind handle_popover_close h)
