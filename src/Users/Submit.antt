-- ===== src/Users/Submit.antt =====
-- What the dialogs for adding and editing a user send, and how they follow the answers
-- (web/client/src/screen/userList/).
use gonitor.Prelude.{
  Bool, true, false, not, Option, none, some, List, String, ◌==◌, nat_eq, string_eq, find, any, ◌≡◌,
  refl, arith,
}
use gonitor.Request.{Reply, got, failed}
use gonitor.Users.Form.{
  UserForm, UserField, SubmitEffect, user_values, user_fields, login_fields, user_add_reply,
  user_edit_reply,
}

-- The value that the input of a name shows, `none` where there is no such input
abbrev pub shown_as : String → List UserField → Option String
shown_as name fields = elim (find (λ f. f.name == name) fields) as (λ x. Option String) [
  | none ↦ none
  | some f ↦ f.value
]

-- The form sends what its inputs show, each under the name of its input; without an input for the
-- login account it sends none.
pub user_values-shown :
    (is_add : Bool) (f : UserForm)
    → ((user_values is_add f).username ≡ shown_as "username" (user_fields is_add f))
      × ((user_values is_add f).login_account ≡ shown_as "login_account" (user_fields is_add f))
      × ((user_values is_add f).password ≡ shown_as "password" (user_fields is_add f))
      × ((user_values is_add f).confirm_password
          ≡ shown_as "confirm_password" (user_fields is_add f))
      × ((user_values is_add f).avatar ≡ shown_as "avatar" (user_fields is_add f))
unfolding user_values user_fields login_fields
user_values-shown true f = (refl, refl, refl, refl, refl)
user_values-shown false f = (refl, refl, refl, refl, refl)

abbrev pub accepted : {A : Type 0} → Reply A → Bool
accepted (got body) = body.code == 0
accepted (failed err) = false

abbrev pub is_refresh : SubmitEffect → Bool
is_refresh SubmitEffect.refresh = true
is_refresh _ = false

abbrev pub refreshes : List SubmitEffect → Bool
refreshes = any is_refresh

-- On every answer each of the two dialogs closes, and has the list read again, exactly if the
-- answer is a success.
pub reply-refreshes :
    {A : Type 0} (r : Reply A)
    → ((user_add_reply r true).0 ≡ not (accepted r))
      × (refreshes (user_add_reply r true).1 ≡ accepted r)
      × ((user_edit_reply r true).0 ≡ not (accepted r))
      × (refreshes (user_edit_reply r true).1 ≡ accepted r)
unfolding user_add_reply user_edit_reply
reply-refreshes (failed err) = (refl, refl, refl, refl)
reply-refreshes (got body) = ground arith
