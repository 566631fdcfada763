-- ===== src/Layout.antt =====
-- The frame of all pages (web/client/src/screen/layout/Layout.js): its bar, its drawer, and the two
-- menus of the bar (LanguageMenu.js and NotificationDrawer.js beside it). The third menu is
-- `PersonMenu` of the module Session. Transitions and colours are left out.
use gonitor.Prelude.{
  ℕ, suc, ◌%◌, Bool, not, Option, none, some, List, [], ◌∷◌, String, if◌then◌else◌, ◌==◌, nat_eq,
}
use gonitor.Prelude.Int.{pos}
use gonitor.Request.{Piece}
use gonitor.Popover.{Anchor, is_shown, handle_popover_open, handle_popover_close}

-- The hooks `useState` of `DashboardContent` and of the two menus
pub record Layout (E : Type 0) : Type 0 where
  pub is_open : Bool
  pub language : Anchor E
  pub notifications : Anchor E

-- `useState(isDesktop)`, for a screen at least 600 pixels wide at the first rendering
unfoldable pub first_layout : {E : Type 0} → Bool → Layout E
first_layout is_desktop = record { is_open = is_desktop; language = none; notifications = none }

unfoldable pub toggle_drawer : {E : Type 0} → Layout E → Layout E
toggle_drawer s = record s { is_open = not s.is_open }

pub data LayoutEvent (E : Type 0) : Type 0 where
  toggles : LayoutEvent E
  opens_language opens_notifications : E → LayoutEvent E
  closes_language closes_notifications : LayoutEvent E

unfoldable pub on_layout_event : {E : Type 0} → LayoutEvent E → Layout E → Layout E
unfolding toggle_drawer
on_layout_event LayoutEvent.toggles s = toggle_drawer s
on_layout_event (LayoutEvent.opens_language target) s = record s {
  language = handle_popover_open target s.language;
}
on_layout_event (LayoutEvent.opens_notifications target) s = record s {
  notifications = handle_popover_open target s.notifications;
}
on_layout_event LayoutEvent.closes_language s = record s {
  language = handle_popover_close s.language;
}
on_layout_event LayoutEvent.closes_notifications s = record s {
  notifications = handle_popover_close s.notifications;
}

abbrev pub drawer_width : ℕ
drawer_width = 240

-- The bar: where it is moved aside, its left margin, by which it is also narrower
unfoldable pub bar_margin : Bool → Option ℕ
bar_margin is_open = if is_open then some drawer_width else none

-- The width of the drawer; `spacing` is that of the theme, and small screens are below `sm`
unfoldable pub drawer_paper_width : (ℕ → ℕ) → Bool → Bool → ℕ
drawer_paper_width spacing is_small is_open =
    if is_open then drawer_width else if is_small then spacing 7 else spacing 9

-- The button of the bar that opens the drawer is hidden while it is open
unfoldable pub menu_button_shown : Bool → Bool
menu_button_shown is_open = not is_open

-- A disabled item of a menu
abbrev pub languages : List String
languages = "简体中文" ∷ "English" ∷ []

pub record PopoverView (E : Type 0) : Type 0 where
  pub id : Option String
  pub is_open : Bool
  pub anchor : Anchor E

unfoldable pub language_menu : {E : Type 0} → Anchor E → PopoverView E
language_menu anchor = record {
  id = (if is_shown anchor then some "language-popover" else none);
  is_open = is_shown anchor;
  anchor = anchor;
}

unfoldable pub notification_drawer : {E : Type 0} → Anchor E → PopoverView E
notification_drawer anchor = record { id = none; is_open = is_shown anchor; anchor = anchor }

pub data NotifyIcon : Type 0 where
  inbox mail : NotifyIcon

-- The items of a list from an index on, with their icons
unfoldable pub notify_items : ℕ → List String → List (NotifyIcon × String)
notify_items index [] = []
notify_items index (text ∷ texts) =
    (if index % 2 == 0 then NotifyIcon.inbox else NotifyIcon.mail, text)
    ∷ notify_items (suc index) texts

-- `NotifyList`, two lists of disabled items
unfoldable pub notify_list : List (NotifyIcon × String) × List (NotifyIcon × String)
unfolding notify_items
notify_list = (
  notify_items 0 ("Inbox" ∷ "Starred" ∷ "Send email" ∷ "Drafts" ∷ []),
  notify_items 0 ("All mail" ∷ "Trash" ∷ "Spam" ∷ []),
)

-- `Copyright`, in a year
unfoldable pub copyright : ℕ → List Piece
copyright year =
    Piece.text "Copyright © "
    ∷ Piece.text "ponull"
    ∷ Piece.text " "
    ∷ Piece.num (pos year)
    ∷ Piece.text "."
    ∷ []
