-- ===== src/Users/Laws.antt =====
-- How the page of users follows the answers (web/client/src/screen/userList/UserList.js).
use gonitor.Prelude.{
  ℕ, zero, suc, ◌+◌, Bool, true, false, not, ◌||◌, none, some, List, [], ◌∷◌, String, ◌==◌, nat_eq,
  ◌≡◌, refl, ap, ap₂, ◌∙◌, arith, any, at,
}
use gonitor.Prelude.Int.{ℤ, succ, pred, pred-succ}
use gonitor.Request.{Reply, got, failed, Failure}
use gonitor.Users.{
  User, UsersState, Listing, UserEffect, UserConfirm, ask_users, on_users, refresh_user_list,
  users_refreshed, page_changed, handle_change_page, user_deleted, user_deleted_here,
  user_confirm_close,
}
use gonitor.Users.View.{TableRow, table_rows, user_rows}

-- After a change of the page, which the server answers with the page and the limit asked for,
-- a refresh asks for the same page with the same limit.
pub refresh-change_page :
    (page : ℤ) (limit : ℕ) (d : Listing) (message : String) (s : UsersState)
    → d.page ≡ succ page
    → d.limit ≡ limit
    → (refresh_user_list
        (page_changed (got (record { code = 0; message = message; content = some d })) s).0).1
      ≡ handle_change_page page limit
unfolding refresh_user_list page_changed on_users handle_change_page
refresh-change_page page limit d message s p l = ap₂ ask_users (ap pred p ∙ pred-succ page) l

-- An answer that the code of the page gets through: an error code, or data
abbrev pub answered : Reply Listing → Bool
answered (failed err) = false
answered (got body) = not (body.code == 0) || elim body.content [ none ↦ false | some d ↦ true ]

-- The button for refreshing stops to load exactly on an error code or on data: a failed request,
-- or a success without data, leaves it loading.
pub users_refreshed-loading :
    (r : Reply Listing) (s : UsersState)
    → (users_refreshed r (refresh_user_list s).0).0.refresh_loading ≡ not (answered r)
unfolding users_refreshed on_users refresh_user_list
users_refreshed-loading (failed err) s = refl
users_refreshed-loading (got body) s = ground arith

abbrev pub is_announce : UserEffect → Bool
is_announce (UserEffect.announce message) = true
is_announce _ = false

-- Whatever the server answers to the deletion of a user, the list stays as it is and no success
-- is announced; the dialog closes.
pub user_deleted_here-mute :
    {A : Type 0} (type_error : Failure) (r : Reply A) (d : UserConfirm) (s : UsersState)
    → ((user_deleted_here type_error r d s).0.is_open ≡ false)
      × ((user_deleted_here type_error r d s).1 ≡ s)
      × (any is_announce (user_deleted_here type_error r d s).2 ≡ false)
unfolding user_deleted_here user_deleted user_confirm_close
user_deleted_here-mute type_error (failed err) d s = (refl, refl, refl)
user_deleted_here-mute type_error (got body) d s = ground arith

at-user_rows :
    (i k : ℕ) (user : User) (users : List User)
    → at i users ≡ some user
    → at i (user_rows k users) ≡ some (TableRow.user_row (k + i) user)
unfolding user_rows
at-user_rows i k user [] h = absurd (ground arith)
at-user_rows zero k user (v ∷ users) h = ground arith
at-user_rows (suc i) k user (v ∷ users) h =
    at-user_rows i (suc k) user users h ∙ ap (λ n. some (TableRow.user_row n user)) (omega arith)

-- A page that is loaded shows each user in its own row, under the user's index.
pub at-table_rows :
    (i : ℕ) (user : User) (s : UsersState)
    → s.loading ≡ false
    → at i s.user_list ≡ some user
    → at i (table_rows s) ≡ some (TableRow.user_row i user)
unfolding table_rows
at-table_rows i user s l h = ground (arith, at-user_rows i 0 user s.user_list h)
