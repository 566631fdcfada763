-- ===== src/Popover.antt =====
-- The popovers that hang on the element that was clicked: `anchorEl`, `handlePopoverOpen` and
-- `handlePopoverClose` of AssertField.js, ResultHandlerField.js and ScheduleField.js
-- (web/client/src/screen/taskList/fields/), and of the menus of web/client/src/screen/layout/. The
-- elements of the page are of a type `E`.
use gonitor.Prelude.{Bool, true, false, Option, none, some}

-- `anchorEl`, `none` for null
abbrev pub Anchor : Type 0 → Type 0
Anchor E = Option E

module _ {E : Type 0} where
  -- With `event.currentTarget`
  abbrev pub handle_popover_open : E → Anchor E → Anchor E
  handle_popover_open current_target anchor = some current_target

  abbrev pub handle_popover_close : Anchor E → Anchor E
  handle_popover_close anchor = none

  -- `Boolean(anchorEl)`
  abbrev pub is_shown : Anchor E → Bool
  is_shown none = false
  is_shown (some element) = true
