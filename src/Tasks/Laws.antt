-- ===== src/Tasks/Laws.antt =====
-- What the handlers of the page of tasks do on every branch (web/client/src/screen/taskList/).
use gonitor.Prelude.{
  ℕ, Bool, true, false, not, List, if◌then◌else◌, ◌==◌, nat_eq, string_eq, ◌≡◌, refl, arith, any,
  filter, length,
}
use gonitor.Request.{Reply, got, failed, Body}
use gonitor.TaskForm.{TaskInfo}
use gonitor.Tasks.{Effect}
use gonitor.Tasks.Dialog.{add_reply, edit_reply}
use gonitor.Tasks.Page.{Row, PageState, delete_task_list}
use gonitor.Tasks.Delete.{Confirm, delete_reply, confirm_close}
use gonitor.Tasks.Action.{Action, Item, items, act_reply}

abbrev pub succeeded : {A : Type 0} → Reply A → Bool
succeeded (got body) = body.code == 0
succeeded (failed err) = false

abbrev pub is_refresh : Effect → Bool
is_refresh Effect.refresh_task_list = true
is_refresh _ = false

abbrev pub is_notify : Effect → Bool
is_notify (Effect.notify variant message) = true
is_notify _ = false

-- What both dialogs owe to an answer: it closes on success only, the list is read again on success
-- only, and the user reads one message.
abbrev pub Submitted : Bool → Bool × List Effect → Type 0
Submitted success (is_open, effects) =
    (is_open ≡ not success)
    × (any is_refresh effects ≡ success)
    × (length (filter is_notify effects) ≡ 1)

-- On every answer the dialogs for adding and for editing a task stay open and leave the list
-- alone unless the answer is a success, and show one message.
pub reply-Submitted :
    {A : Type 0} (r : Reply A)
    → Submitted (succeeded r) (add_reply r true) × Submitted (succeeded r) (edit_reply r true)
unfolding add_reply edit_reply
reply-Submitted (failed err) = ((refl, refl, refl), (refl, refl, refl))
reply-Submitted (got body) = ground arith

-- Start, stop and test: no answer leaves the button loading, and only an answer with an error
-- code is reported, so that a failed request is silent.
pub act_reply-idle :
    {A : Type 0} (r : Reply A) (loading : Bool)
    → ((act_reply r loading).0 ≡ false)
      × (length (act_reply r loading).1
          ≡ (elim r [ got body ↦ if body.code == 0 then 0 else 1 | failed err ↦ 0 ]))
unfolding act_reply
act_reply-idle (failed err) loading = (refl, refl)
act_reply-idle (got body) loading = ground arith

-- A successful deletion shows the list that was captured when it was confirmed, less the deleted
-- task: what the page has listed since does not matter.
pub delete_reply-captured :
    {A : Type 0} (captured : List Row) (id : ℕ) (body : Body A) (d : Confirm) (s : PageState)
    → body.code ≡ 0
    → ((delete_reply captured id (got body) d s).1.task_list
        ≡ filter (λ row. not (row.id == id)) captured)
      × ((delete_reply captured id (got body) d s).0.is_open ≡ false)
unfolding delete_reply delete_task_list confirm_close
delete_reply-captured captured id body d s h = ground (arith, h)

-- The button of an action
abbrev pub is_button : Action → Item → Bool
is_button Action.start (Item.button Action.start) = true
is_button Action.stop (Item.button Action.stop) = true
is_button Action.test (Item.button Action.test) = true
is_button _ _ = false

-- The actions offered for a task: start for a disabled one and stop for an enabled one, never
-- both, and test exactly where the menu is open.
pub items-actions :
    (task : TaskInfo) (menu_open : Bool)
    → (any (is_button Action.start) (items task menu_open) ≡ task.is_disable)
      × (any (is_button Action.stop) (items task menu_open) ≡ not task.is_disable)
      × (any (is_button Action.test) (items task menu_open) ≡ menu_open)
unfolding items
items-actions task true = ground arith
items-actions task false = ground arith
