-- ===== src/Session/View.antt =====
-- What the page for signing in and the menu of the user show
-- (web/client/src/screen/login/Login.js and web/client/src/screen/layout/PersonMenu.js).
use gonitor.Prelude.{
  ℕ, Bool, true, false, Option, none, some, List, [], ◌∷◌, String, if◌then◌else◌, map,
}
use gonitor.Prelude.Int.{pos}
use gonitor.Request.{Piece}
use gonitor.Session.{Session, SessionEffect, PersonMenu, login_submit, login_out}

-- An input that keeps its own text, which the form submits under its name
pub record LoginInput : Type 0 where
  pub name : String
  pub label : String
  pub type : Option String
  pub required : Bool
  pub auto_focus : Bool

unfoldable pub login_inputs : List LoginInput
login_inputs =
    record {
      name = "login_account";
      label = "Login Account";
      type = none;
      required = true;
      auto_focus = true;
    }
    ∷ record {
      name = "password";
      label = "Password";
      type = some "password";
      required = true;
      auto_focus = false;
    }
    ∷ []

pub record LoginView : Type 0 where
  pub title : String
  pub inputs : List LoginInput
  pub button : String
  pub on_submit : String → String → List SessionEffect

-- The form has `noValidate`: the browser submits it with empty inputs as well
unfoldable pub login_view : LoginView
unfolding login_inputs login_submit
login_view = record {
  title = "Sign in";
  inputs = login_inputs;
  button = "Sign In";
  on_submit = login_submit;
}

-- `Copyright`, in a year
unfoldable pub login_copyright : ℕ → List Piece
login_copyright year =
    Piece.text "Copyright © "
    ∷ Piece.text "Honghea"
    ∷ Piece.text " "
    ∷ Piece.num (pos year)
    ∷ Piece.text "."
    ∷ []

-- An item of the menu of the user; a disabled item has no handler
pub record PersonItem : Type 0 where
  pub label : String
  pub disabled : Bool
  pub on_click : Option (Session → Session)

unfoldable pub person_items : List PersonItem
unfolding login_out
person_items =
    record { label = "Profile"; disabled = true; on_click = none }
    ∷ record { label = "Settings"; disabled = true; on_click = none }
    ∷ record { label = "Logout"; disabled = false; on_click = some login_out }
    ∷ []

-- The button with the picture of the user, and the popover
pub record PersonView : Type 0 where
  pub id : Option String
  pub alt : String
  pub src : String
  pub is_open : Bool
  pub items : List (String × Bool)

unfoldable pub person_view : PersonMenu → PersonView
unfolding person_items
person_view m = record {
  id = (if m.is_open then some "person-popover" else none);
  alt = m.username;
  src = m.avatar;
  is_open = m.is_open;
  items = map (λ item. (item.label, item.disabled)) person_items;
}
