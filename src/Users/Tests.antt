-- ===== src/Users/Tests.antt =====
-- The page of users on concrete answers, at which the theorems hold.
use gonitor.Prelude.{ℕ, true, false, none, some, [], ◌∷◌, ◌≡◌, any}
use gonitor.Prelude.Int.{pos}
use gonitor.Request.{got, Failure, Body}
use gonitor.Users.{User, UsersState, Listing, UserConfirm, first_state, user_deleted_here}
use gonitor.Users.Form.{UserForm}
use gonitor.Users.Laws.{is_announce, user_deleted_here-mute}

abbrev user : ℕ → User
user id = record { id = id; username = "ann"; update_time = "now"; uni_key = [] }

abbrev second_page : Listing
second_page = record { list = user 11 ∷ []; page = pos 2; limit = 10; total_rows = 11 }

abbrev timed_out : Failure
timed_out = record { message = "timeout" }

abbrev confirm : UserConfirm
confirm = record { is_open = true; user = some (user 11) }

abbrev deleted : Body ℕ
deleted = record { code = 0; message = ""; content = none }

user_deleted_here-mute_example :
    ((user_deleted_here timed_out (got deleted) confirm first_state).0.is_open ≡ false)
    × ((user_deleted_here timed_out (got deleted) confirm first_state).1 ≡ first_state)
    × (any is_announce (user_deleted_here timed_out (got deleted) confirm first_state).2 ≡ false)
user_deleted_here-mute_example = user_deleted_here-mute timed_out (got deleted) confirm first_state

abbrev two_users : UsersState
two_users = record first_state { user_list = user 11 ∷ user 12 ∷ []; loading = false }

abbrev form : UserForm
form = record {
  username = some "ann";
  login_account = some "ann1";
  password = some "secret";
  confirm_password = some "secret";
  avatar = none;
}
