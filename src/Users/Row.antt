-- ===== src/Users/Row.antt =====
-- A row of the table of users (web/client/src/screen/userList/UserRow.js). The formatting of a time
-- by moment is an argument.
use gonitor.Prelude.{ℕ, ◌+◌, List, [], ◌∷◌, String}
use gonitor.Users.{User, UserEffect}
use gonitor.Users.View.{show_edit_dialog, show_confirm_delete_dialog}

-- The fields of a user that the row shows beside its name
pub record UserInfo : Type 0 where
  pub user : User
  pub avatar : String
  pub login_account : String
  pub create_time : String

pub record UserRowView : Type 0 where
  pub number : ℕ
  pub avatar : String × String
  pub username : String
  pub login_account : String
  pub create_time : String
  pub buttons : List (String × List UserEffect)

unfoldable pub user_row_view : (String → String) → ℕ → UserInfo → UserRowView
user_row_view format index info = record {
  number = index + 1;
  avatar = (info.user.username, info.avatar);
  username = info.user.username;
  login_account = info.login_account;
  create_time = format info.create_time;
  buttons =
      ("Edit", show_edit_dialog info.user) ∷ ("Delete", show_confirm_delete_dialog info.user) ∷ [];
}
