-- ===== src/Tasks/Stuck.antt =====
-- The button for refreshing after a request that fails
-- (web/client/src/screen/taskList/TaskList.js, `refreshTaskList`).
use gonitor.Prelude.{
  Option, none, some, at, ℕ, Bool, true, false, List, [], ◌∷◌, String, if◌then◌else◌, ◌==◌, nat_eq,
  string_eq, ◌≡◌, refl, All, arith, ◌∙◌,
}
use gonitor.Request.{Reply, got, failed, Failure, Piece}
use gonitor.Tasks.Page.{
  Row, PageState, on_list, refresh_task_list, refresh_reply, handle_search, search_reply,
  handle_search_key_down, show_edit_dialog, delete_task_list,
}
use gonitor.Tasks.Delete.{delete_reply}
use gonitor.Tasks.Run.{Screen, ScreenEvent, on_screen_event, run_screen, answer_delete, remove_at}

-- Every event but an answer with a body to a request for refreshing
abbrev pub NoAnswer : ScreenEvent → Type 0
NoAnswer (ScreenEvent.refresh_answered (got body)) = ⊥
NoAnswer _ = Unit {0}

if-loading :
    (b : Bool) (f g : PageState)
    → f.refresh_loading ≡ g.refresh_loading
    → (if b then f else g).refresh_loading ≡ g.refresh_loading
if-loading true f g e = e
if-loading false f g e = refl

search_reply-loading :
    (r : Reply (List Row)) (s : PageState) → (search_reply r s).refresh_loading ≡ s.refresh_loading
unfolding search_reply on_list
search_reply-loading (failed err) s = refl
search_reply-loading (got body) s = if-loading (body.code == 0) _ s refl

answer_delete-loading :
    (r : Reply Piece) (o : Option (List Row × ℕ)) (others : List (List Row × ℕ)) (w : Screen)
    → (answer_delete r o others w).page.refresh_loading ≡ w.page.refresh_loading
unfolding answer_delete delete_reply delete_task_list
answer_delete-loading r none others w = refl
answer_delete-loading (failed err) (some (captured, id)) others w = refl
answer_delete-loading (got body) (some (captured, id)) others w = ground arith

module _ (encode : List (String × Piece) → String) where
  event-loading :
      (e : ScreenEvent) (w : Screen)
      → NoAnswer e
      → w.page.refresh_loading ≡ true
      → (on_screen_event encode e w).page.refresh_loading ≡ true
  unfolding on_screen_event refresh_task_list refresh_reply handle_search handle_search_key_down
      show_edit_dialog
  event-loading (ScreenEvent.keys key) w n h = if-keys (key == "Enter")
    where
      if-keys :
          (b : Bool)
          → (if b then handle_search encode w.page else (w.page, [])).0.refresh_loading ≡ true
      if-keys true = h
      if-keys false = h
  event-loading ScreenEvent.clicks_refresh w n h = ground arith
  event-loading ScreenEvent.dialog_refreshes w n h = refl
  event-loading (ScreenEvent.search_answered r) w n h = search_reply-loading r w.page ∙ h
  event-loading (ScreenEvent.refresh_answered (got body)) w n h = absurd n
  event-loading (ScreenEvent.refresh_answered (failed err)) w n h = h
  event-loading (ScreenEvent.delete_answered i r) w n h =
      answer_delete-loading r (at i w.pending) (remove_at i w.pending) w ∙ h
  event-loading _ w n h = h

  loading-run :
      (es : List ScreenEvent) (w : Screen)
      → All NoAnswer es
      → w.page.refresh_loading ≡ true
      → (run_screen encode es w).page.refresh_loading ≡ true
  unfolding run_screen
  loading-run [] w n h = h
  loading-run (e ∷ es) w n h =
      loading-run es (on_screen_event encode e w) n.1 (event-loading e w n.0 h)

  click-starts :
      (w : Screen)
      → (on_screen_event encode ScreenEvent.clicks_refresh w).page.refresh_loading ≡ true
  unfolding on_screen_event refresh_task_list
  click-starts w = ground arith

  click-ignored :
      (w : Screen)
      → w.page.refresh_loading ≡ true
      → on_screen_event encode ScreenEvent.clicks_refresh w ≡ w
  unfolding on_screen_event
  click-ignored w h = ground arith

  -- A refresh whose request fails leaves the button loading, and so disabled, through every
  -- sequence of events in which no answer to a later refresh arrives: a click on the button does
  -- nothing any more.
  pub refresh-stuck :
      (err : Failure) (es : List ScreenEvent) (w : Screen)
      → All NoAnswer es
      → (let stuck =
            run_screen encode
              (ScreenEvent.clicks_refresh ∷ ScreenEvent.refresh_answered (failed err) ∷ es)
              w in
          (stuck.page.refresh_loading ≡ true)
          × (on_screen_event encode ScreenEvent.clicks_refresh stuck ≡ stuck))
  unfolding run_screen
  refresh-stuck err es w n =
      let failing = ScreenEvent.clicks_refresh ∷ ScreenEvent.refresh_answered (failed err) ∷ [] in
      let after = run_screen encode failing w in
      let stays = loading-run es after n (
        event-loading (ScreenEvent.refresh_answered (failed err))
          (on_screen_event encode ScreenEvent.clicks_refresh w) tt (click-starts w)) in
      (stays, click-ignored (run_screen encode es after) stays)
