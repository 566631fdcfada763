-- ===== src/Users/View.antt =====
-- What the page of users shows (web/client/src/screen/userList/UserList.js).
use gonitor.Prelude.{ℕ, zero, suc, List, [], ◌∷◌, if◌then◌else◌}
use gonitor.Users.{User, UsersState, UserEffect, refresh_user_list}

-- A row of the table: a placeholder with 6 cells, or a user with its index
pub data TableRow : Type 0 where
  skeleton : TableRow
  user_row : ℕ → User → TableRow

unfoldable pub user_rows : ℕ → List User → List TableRow
user_rows index [] = []
user_rows index (user ∷ users) = TableRow.user_row index user ∷ user_rows (suc index) users

abbrev pub skeletons : ℕ → List TableRow
skeletons zero = []
skeletons (suc n) = TableRow.skeleton ∷ skeletons n

-- The rows of the body of the table
unfoldable pub table_rows : UsersState → List TableRow
unfolding user_rows
table_rows s = if s.loading then skeletons 5 else user_rows 0 s.user_list

-- The buttons above the table: a `LoadingButton` is disabled while it is loading
unfoldable pub click_refresh : UsersState → UsersState × List UserEffect
unfolding refresh_user_list
click_refresh s = if s.refresh_loading then (s, []) else refresh_user_list s

unfoldable pub click_add : UsersState → UsersState × List UserEffect
click_add s = (s, UserEffect.open_add ∷ [])

abbrev pub show_edit_dialog : User → List UserEffect
show_edit_dialog user = UserEffect.open_edit user ∷ []

abbrev pub show_confirm_delete_dialog : User → List UserEffect
show_confirm_delete_dialog user = UserEffect.open_delete user ∷ []
