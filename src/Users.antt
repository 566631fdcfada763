-- ===== src/Users.antt =====
-- The page of users (web/client/src/screen/userList/UserList.js). A handler returns the new state
-- with the effects in the order in which the code causes them.
pub mod View
pub mod Row
pub mod Form
pub mod Submit
pub mod Laws
pub mod Tests
use gonitor.Prelude.{
  ℕ, ◌+◌, Bool, true, false, not, Option, none, some, List, [], ◌∷◌, String, if◌then◌else◌, ◌==◌,
  nat_eq, map,
}
use gonitor.Prelude.Int.{ℤ, pos, pred, succ}
use gonitor.Request.{Reply, got, failed, Failure, Url, Piece, Method}

pub record User : Type 0 where
  pub id : ℕ
  pub username : String
  pub update_time : String
  pub uni_key : List Piece

-- `pageInfo`, whose page counts from 0
pub record UserPage : Type 0 where
  pub page : ℤ
  pub limit : ℕ
  pub total_rows : ℕ

-- The `data` of an answer to `/user/list`, whose page counts from 1
pub record Listing : Type 0 where
  pub list : List User
  pub page : ℤ
  pub limit : ℕ
  pub total_rows : ℕ

-- The hooks of `UserList`
pub record UsersState : Type 0 where
  pub user_list : List User
  pub loading : Bool
  pub refresh_loading : Bool
  pub page_info : UserPage

pub data UserEffect : Type 0 where
  complain : String → UserEffect
  announce : String → UserEffect
  request : Method → Url → UserEffect
  open_add : UserEffect
  open_edit : User → UserEffect
  open_delete : User → UserEffect

unfoldable pub first_state : UsersState
first_state = record {
  user_list = [];
  loading = true;
  refresh_loading = false;
  page_info = record { page = pos 0; limit = 10; total_rows = 0 };
}

-- The request of `getUserList`
unfoldable pub ask_users : ℤ → ℕ → List UserEffect
ask_users page limit =
    UserEffect.request Method.get (
      Piece.text "/user/list/"
      ∷ Piece.num (succ page)
      ∷ Piece.text "/"
      ∷ Piece.num (pos limit)
      ∷ [])
    ∷ []

unfoldable pub keyed_user : User → User
keyed_user user = record user {
  uni_key = Piece.text user.update_time ∷ Piece.text "_" ∷ Piece.num (pos user.id) ∷ [];
}

-- `getUserList` from the answer on; `none` is an exception, by a failed request or by `data` being
-- null, and a third part is what is shown
unfoldable pub on_users : Reply Listing → UsersState → Option (UsersState × List UserEffect)
unfolding keyed_user
on_users (failed err) s = none
on_users (got body) s =
    if not (body.code == 0)
    then some (s, UserEffect.complain body.message ∷ [])
    else elim body.content [
      | none ↦ none
      | some d ↦ some (
        record s {
          user_list = map keyed_user d.list;
          page_info = record { page = pred d.page; limit = d.limit; total_rows = d.total_rows };
        },
        [],
      )
    ]

-- `refreshUserList` and its continuation
unfoldable pub refresh_user_list : UsersState → UsersState × List UserEffect
unfolding ask_users
refresh_user_list s =
    (record s { refresh_loading = true }, ask_users s.page_info.page s.page_info.limit)

abbrev pub refreshed :
    UsersState → Option (UsersState × List UserEffect) → UsersState × List UserEffect
refreshed s none = (s, [])
refreshed s (some (s', effects)) = (record s' { refresh_loading = false }, effects)

unfoldable pub users_refreshed : Reply Listing → UsersState → UsersState × List UserEffect
unfolding on_users
users_refreshed r s = refreshed s (on_users r s)

-- The effect of the first rendering and its continuation
unfoldable pub users_first : Bool → UsersState → Bool × List UserEffect
unfolding ask_users
users_first first_render s =
    if not first_render
    then (first_render, [])
    else (false, ask_users s.page_info.page s.page_info.limit)

abbrev pub loaded :
    UsersState → Option (UsersState × List UserEffect) → UsersState × List UserEffect
loaded s none = (s, [])
loaded s (some (s', effects)) = (record s' { loading = false }, effects)

unfoldable pub users_loaded : Reply Listing → UsersState → UsersState × List UserEffect
unfolding on_users
users_loaded r s = loaded s (on_users r s)

-- `handleChangePage` and its continuation
unfoldable pub handle_change_page : ℤ → ℕ → List UserEffect
unfolding ask_users
handle_change_page page limit = ask_users page limit

abbrev pub changed :
    UsersState → Option (UsersState × List UserEffect) → UsersState × List UserEffect
changed s none = (s, [])
changed s (some result) = result

unfoldable pub page_changed : Reply Listing → UsersState → UsersState × List UserEffect
unfolding on_users
page_changed r s = changed s (on_users r s)

-- `DeleteConfirmDialog`: `open` and the user, `none` for the empty object
pub record UserConfirm : Type 0 where
  pub is_open : Bool
  pub user : Option User

unfoldable pub user_confirm_open : User → UserConfirm → UserConfirm
user_confirm_open user d = record { is_open = true; user = some user }

unfoldable pub user_confirm_close : UserConfirm → UserConfirm
user_confirm_close d = record d { is_open = false }

abbrev pub user_piece : Option User → Piece
user_piece none = Piece.text "undefined"
user_piece (some user) = Piece.num (pos user.id)

unfoldable pub delete_user : UserConfirm → List UserEffect
delete_user d = UserEffect.request Method.delete (Piece.text "/user/" ∷ user_piece d.user ∷ []) ∷ []

-- Its continuations. `delete_user_by_id` is the property of that name, `none` for undefined, whose
-- call throws the TypeError.
unfoldable pub user_deleted :
    {A : Type 0}
    → Failure
    → Option (UsersState → UsersState)
    → Reply A
    → UserConfirm
    → UsersState
    → UserConfirm × UsersState × List UserEffect
unfolding user_confirm_close
user_deleted type_error delete_user_by_id (failed err) d s =
    (user_confirm_close d, s, UserEffect.complain err.message ∷ [])
user_deleted type_error delete_user_by_id (got body) d s =
    if body.code == 0
    then elim delete_user_by_id [
      | none ↦ (user_confirm_close d, s, UserEffect.complain type_error.message ∷ [])
      | some f ↦ (user_confirm_close d, f s, UserEffect.announce "Delete Success" ∷ [])
    ]
    else (user_confirm_close d, s, UserEffect.complain body.message ∷ [])

-- As `UserList` renders the dialog, without that property
unfoldable pub user_deleted_here :
    {A : Type 0}
    → Failure
    → Reply A
    → UserConfirm
    → UsersState
    → UserConfirm × UsersState × List UserEffect
unfolding user_deleted
user_deleted_here type_error r d s = user_deleted type_error none r d s
