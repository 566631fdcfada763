-- ===== src/Users/Form.antt =====
-- The form of a user and the dialogs for adding and editing one
-- (web/client/src/screen/userList/UserInfoEditForm.js, UserAdd.js and UserEdit.js). A text that is
-- `none` is undefined; `form` is what the `ref` of the form holds, `none` for null.
use gonitor.Prelude.{
  ℕ, Bool, true, false, Option, none, some, List, [], ◌∷◌, ◌++◌, String, if◌then◌else◌, ◌==◌,
  nat_eq,
}
use gonitor.Prelude.Int.{pos}
use gonitor.Request.{Reply, got, failed, Method, Url, Piece}

pub record UserInfo : Type 0 where
  pub id : Option ℕ
  pub username : Option String
  pub login_account : Option String
  pub password : Option String
  pub confirm_password : Option String
  pub avatar : Option String

-- The hooks of `UserInfoEditForm`
pub record UserForm : Type 0 where
  pub username : Option String
  pub login_account : Option String
  pub password : Option String
  pub confirm_password : Option String
  pub avatar : Option String

-- What `getFormValues` returns
pub record UserValues : Type 0 where
  pub username : Option String
  pub password : Option String
  pub confirm_password : Option String
  pub avatar : Option String
  pub login_account : Option String

unfoldable pub user_values : Bool → UserForm → UserValues
user_values is_add f = record {
  username = f.username;
  password = f.password;
  confirm_password = f.confirm_password;
  avatar = f.avatar;
  login_account = (if is_add then f.login_account else none);
}

-- `userInfo.login_account ?? ""`
abbrev pub or_blank : Option String → Option String
or_blank none = some ""
or_blank (some s) = some s

unfoldable pub user_initial : UserInfo → UserForm
user_initial user = record {
  username = user.username;
  login_account = or_blank user.login_account;
  password = user.password;
  confirm_password = user.confirm_password;
  avatar = user.avatar;
}

pub data UserFormEvent : Type 0 where
  names logs_in sets_password confirms pictures : String → UserFormEvent

unfoldable pub on_user_form_event : UserFormEvent → UserForm → UserForm
on_user_form_event (UserFormEvent.names s) f = record f { username = some s }
on_user_form_event (UserFormEvent.logs_in s) f = record f { login_account = some s }
on_user_form_event (UserFormEvent.sets_password s) f = record f { password = some s }
on_user_form_event (UserFormEvent.confirms s) f = record f { confirm_password = some s }
on_user_form_event (UserFormEvent.pictures s) f = record f { avatar = some s }

pub record UserField : Type 0 where
  pub name : String
  pub label : String
  pub value : Option String
  pub is_password : Bool
  pub on_change : String → UserFormEvent

unfoldable pub login_fields : Bool → UserForm → List UserField
login_fields is_add f =
    if is_add
    then record {
      name = "login_account";
      label = "Login Account";
      value = f.login_account;
      is_password = false;
      on_change = UserFormEvent.logs_in;
    }
      ∷ []
    else []

-- The inputs of the form, in order
unfoldable pub user_fields : Bool → UserForm → List UserField
unfolding login_fields
user_fields is_add f =
    record {
      name = "username";
      label = "Name";
      value = f.username;
      is_password = false;
      on_change = UserFormEvent.names;
    }
      ∷ login_fields is_add f
    ++ record {
      name = "password";
      label = "Password";
      value = f.password;
      is_password = true;
      on_change = UserFormEvent.sets_password;
    }
      ∷ record {
        name = "confirm_password";
        label = "Confirm Password";
        value = f.confirm_password;
        is_password = true;
        on_change = UserFormEvent.confirms;
      }
      ∷ record {
        name = "avatar";
        label = "Avatar Url(not support upload)";
        value = f.avatar;
        is_password = false;
        on_change = UserFormEvent.pictures;
      }
      ∷ []

-- The user that the form for adding opens on
abbrev pub user_add_info : UserInfo
user_add_info = record {
  id = none;
  username = some "";
  login_account = some "";
  password = some "";
  confirm_password = some "";
  avatar = some "";
}

pub data SubmitEffect : Type 0 where
  error success : String → SubmitEffect
  request : Method → Url → Option UserValues → SubmitEffect
  refresh : SubmitEffect

abbrev pub form_user : Bool → Option UserForm → Option UserValues
form_user is_add none = none
form_user is_add (some f) = some (user_values is_add f)

abbrev pub info_piece : Option ℕ → Piece
info_piece none = Piece.text "undefined"
info_piece (some id) = Piece.num (pos id)

-- `handleSubmit` of `UserAdd` and its continuations
unfoldable pub user_add_submit : Option UserForm → List SubmitEffect
unfolding user_values
user_add_submit form =
    SubmitEffect.request Method.post (Piece.text "/user" ∷ []) (form_user true form) ∷ []

unfoldable pub user_add_reply : {A : Type 0} → Reply A → Bool → Bool × List SubmitEffect
user_add_reply (failed err) is_open = (is_open, SubmitEffect.error "Add Fail" ∷ [])
user_add_reply (got body) is_open =
    if body.code == 0
    then (false, SubmitEffect.success "Add Success" ∷ SubmitEffect.refresh ∷ [])
    else (is_open, SubmitEffect.error body.message ∷ [])

-- `handleSubmit` of `UserEdit` and its continuations
unfoldable pub user_edit_submit : UserInfo → Option UserForm → List SubmitEffect
unfolding user_values
user_edit_submit user form =
    SubmitEffect.request Method.put (Piece.text "/user/" ∷ info_piece user.id ∷ [])
      (form_user false form)
    ∷ []

unfoldable pub user_edit_reply : {A : Type 0} → Reply A → Bool → Bool × List SubmitEffect
user_edit_reply (failed err) is_open = (is_open, SubmitEffect.error "Edit Fail" ∷ [])
user_edit_reply (got body) is_open =
    if body.code == 0
    then (false, SubmitEffect.success "Edit Success" ∷ SubmitEffect.refresh ∷ [])
    else (is_open, SubmitEffect.error body.message ∷ [])

-- The two dialogs, with the buttons for closing and saving
pub record UserDialog : Type 0 where
  pub is_open : Bool
  pub title : String
  pub save_label : String
  pub on_close : Bool → Bool
  pub on_save : Option UserForm → List SubmitEffect

unfoldable pub user_add_view : Bool → UserDialog
unfolding user_add_submit
user_add_view is_open = record {
  is_open = is_open;
  title = "Add User";
  save_label = "save";
  on_close = λ was. false;
  on_save = user_add_submit;
}

unfoldable pub user_edit_view : UserInfo → Bool → UserDialog
unfolding user_edit_submit
user_edit_view user is_open = record {
  is_open = is_open;
  title = "Edit User";
  save_label = "Save";
  on_close = λ was. false;
  on_save = user_edit_submit user;
}
