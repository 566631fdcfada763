-- ===== src/Session.antt =====
-- Who uses the client and where: the form for signing in (web/client/src/screen/login/Login.js),
-- the menu of the user and the main menu (PersonMenu.js and ListItems.js of
-- web/client/src/screen/layout/), and the routes (web/client/src/App.js).
pub mod Token
pub mod View
pub mod Tests
use gonitor.Prelude.{
  ℕ, Bool, true, false, not, Option, none, some, List, [], ◌∷◌, String, if◌then◌else◌, ◌==◌, nat_eq,
  string_eq, at, get,
}
use gonitor.Request.{Reply, got, failed, Url, Piece, Method}

pub data Page : Type 0 where
  login dashboard task_list task_info user_list node_list operation_list system_settings : Page

-- The routes, those below `admin` with its path
unfoldable pub routes : List (String × Page)
routes =
    ("/", Page.login)
    ∷ ("/admin", Page.dashboard)
    ∷ ("/admin/taskList", Page.task_list)
    ∷ ("/admin/taskInfo/:taskId", Page.task_info)
    ∷ ("/admin/userList", Page.user_list)
    ∷ ("/admin/nodeList", Page.node_list)
    ∷ ("/admin/operationList", Page.operation_list)
    ∷ ("/admin/systemSettings", Page.system_settings)
    ∷ []

-- `MainListItems`
unfoldable pub main_list_items : List (String × String)
main_list_items =
    ("控制台", "/admin")
    ∷ ("任务列表", "/admin/taskList")
    ∷ ("节点管理", "/admin/nodeList")
    ∷ ("用户列表", "/admin/userList")
    ∷ ("操作日志", "/admin/operationList")
    ∷ ("系统设置", "/admin/systemSettings")
    ∷ []

-- The item `token` of the browser's local storage, and the path that is shown
pub record Session : Type 0 where
  pub token : Option String
  pub path : String

pub data SessionEffect : Type 0 where
  complain : String → SessionEffect
  post_form : Url → List (String × String) → SessionEffect

-- `handleSubmit` of `Login`, on what its two inputs hold
unfoldable pub login_submit : String → String → List SessionEffect
login_submit login_account password =
    SessionEffect.post_form (Piece.text "/user/login" ∷ [])
      (("login_account", login_account) ∷ ("password", password) ∷ [])
    ∷ []

-- `localStorage.setItem` stores null as a text.
abbrev pub stored_text : Option String → String
stored_text none = "null"
stored_text (some token) = token

-- Its continuation
unfoldable pub login_reply : Reply String → Session → Session × List SessionEffect
login_reply (failed err) s = (s, SessionEffect.complain "网络错误" ∷ [])
login_reply (got body) s =
    if not (body.code == 0)
    then (s, SessionEffect.complain body.message ∷ [])
    else (record { token = some (stored_text body.content); path = "/admin" }, [])

-- `loginOut` of `PersonMenu`
unfoldable pub login_out : Session → Session
login_out s = record s { path = "/" }

-- A click on an item of the main menu
abbrev pub link_of : Option (String × String) → Session → Session
link_of none s = s
link_of (some (primary, to)) s = record s { path = to }

unfoldable pub follow_link : ℕ → Session → Session
unfolding main_list_items
follow_link i s = link_of (at i main_list_items) s

-- The assignment to `window.location.href` on the code of a lost session
unfoldable pub session_lost : Session → Session
session_lost s = record s { path = "/" }

-- The hooks of `PersonMenu`
pub record PersonMenu : Type 0 where
  pub is_open : Bool
  pub username : String
  pub avatar : String

pub record SelfInfo : Type 0 where
  pub username : String
  pub avatar : String

unfoldable pub first_menu : PersonMenu
first_menu = record { is_open = false; username = ""; avatar = "" }

unfoldable pub menu_click : PersonMenu → PersonMenu
menu_click m = record m { is_open = true }

unfoldable pub menu_close : PersonMenu → PersonMenu
menu_close m = record m { is_open = false }

-- The answer to `/user/selfInfo`; null would be an exception of the next rendering, `none`
unfoldable pub self_info_reply :
    Reply SelfInfo → PersonMenu → Option PersonMenu × List SessionEffect
self_info_reply (failed err) m = (some m, [])
self_info_reply (got body) m =
    if not (body.code == 0) then (some m, SessionEffect.complain body.message ∷ []) else (
      elim body.content as (λ x. Option PersonMenu) [
        | none ↦ none
        | some info ↦ some (record m { username = info.username; avatar = info.avatar })
      ],
      [],
    )

pub data SessionEvent : Type 0 where
  answers : Reply String → SessionEvent
  leaves : SessionEvent
  follows : ℕ → SessionEvent
  loses : SessionEvent

unfoldable pub on_session_event : SessionEvent → Session → Session
unfolding login_reply login_out follow_link session_lost
on_session_event (SessionEvent.answers r) s = (login_reply r s).0
on_session_event SessionEvent.leaves s = login_out s
on_session_event (SessionEvent.follows i) s = follow_link i s
on_session_event SessionEvent.loses s = session_lost s

abbrev pub run_session : List SessionEvent → Session → Session
unfolding on_session_event
run_session [] s = s
run_session (e ∷ es) s = run_session es (on_session_event e s)
