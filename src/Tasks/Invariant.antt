-- ===== src/Tasks/Invariant.antt =====
-- What holds of the list of tasks after any sequence of events
-- (web/client/src/screen/taskList/TaskList.js).
use gonitor.Prelude.{
  at, zero, suc, filter, sym, ap, ◌∙◌, ℕ, Bool, true, false, not, Option, none, some, List, [], ◌∷◌,
  String, if◌then◌else◌, ◌==◌, nat_eq, string_eq, ◌≡◌, refl, All, All-append, All-filter, arith,
  map,
}
use gonitor.Prelude.Int.{pos}
use gonitor.Request.{Reply, got, failed, Piece}
use gonitor.Tasks.Page.{
  Row, PageState, on_list, with_key, refresh_task_list, refresh_reply, handle_search, search_reply,
  handle_search_key_down, show_edit_dialog, delete_task_list,
}
use gonitor.Tasks.Delete.{Confirm, delete_reply}
use gonitor.Tasks.Run.{Screen, ScreenEvent, answer_delete, remove_at, on_screen_event, run_screen}

-- The key of a row is made from the row.
abbrev pub IsKeyed : Row → Type 0
IsKeyed row =
    row.uni_key ≡ Piece.text row.update_time ∷ Piece.text "_" ∷ Piece.num (pos row.id) ∷ []

-- Every task of a list is there once.
abbrev pub IsDistinct : List Row → Type 0
IsDistinct [] = Unit {0}
IsDistinct (row ∷ rows) = All (λ r. (r.id == row.id) ≡ false) rows × IsDistinct rows

abbrev pub IsTable : List Row → Type 0
IsTable rows = All IsKeyed rows × IsDistinct rows

-- The list shown, and the lists that deletions have captured
abbrev pub Keyed : Screen → Type 0
Keyed w = IsTable w.page.task_list × All (λ p. IsTable p.0) w.pending

abbrev IsProperContent : Option (List Row) → Type 0
IsProperContent none = Unit {0}
IsProperContent (some rows) = IsDistinct rows

abbrev pub IsProperReply : Reply (List Row) → Type 0
IsProperReply (failed err) = Unit {0}
IsProperReply (got body) = IsProperContent body.content

-- Every list that the server answers with has every task once.
abbrev pub IsProper : ScreenEvent → Type 0
IsProper (ScreenEvent.search_answered r) = IsProperReply r
IsProper (ScreenEvent.refresh_answered r) = IsProperReply r
IsProper _ = Unit {0}

-- No two of the listed tasks have the same key.
abbrev pub DistinctKeys : List Row → Type 0
DistinctKeys [] = Unit {0}
DistinctKeys (row ∷ rows) = All (λ r. ¬ (r.uni_key ≡ row.uni_key)) rows × DistinctKeys rows

map-IsKeyed : (rows : List Row) → All IsKeyed (map with_key rows)
unfolding with_key
map-IsKeyed [] = tt
map-IsKeyed (row ∷ rows) = (refl, map-IsKeyed rows)

with_key-other :
    (id : ℕ) (rows : List Row)
    → All (λ r. (r.id == id) ≡ false) rows
    → All (λ r. (r.id == id) ≡ false) (map with_key rows)
unfolding with_key
with_key-other id [] h = tt
with_key-other id (row ∷ rows) (h, hs) = (h, with_key-other id rows hs)

map-IsDistinct : (rows : List Row) → IsDistinct rows → IsDistinct (map with_key rows)
unfolding with_key
map-IsDistinct [] d = tt
map-IsDistinct (row ∷ rows) (h, d) = (with_key-other row.id rows h, map-IsDistinct rows d)

filter-IsDistinct :
    (f : Row → Bool) (rows : List Row) → IsDistinct rows → IsDistinct (filter f rows)
filter-IsDistinct f [] d = tt
filter-IsDistinct f (row ∷ rows) (h, d) = by_test (f row) (filter-IsDistinct f rows d)
  where
    by_test :
        (b : Bool)
        → IsDistinct (filter f rows)
        → IsDistinct (if b then row ∷ filter f rows else filter f rows)
    by_test true k = (All-filter (λ r. (r.id == row.id) ≡ false) f rows h, k)
    by_test false k = k

if-IsTable :
    (b : Bool) (f g : PageState)
    → IsTable f.task_list
    → IsTable g.task_list
    → IsTable (if b then f else g).task_list
if-IsTable true f g h k = h
if-IsTable false f g h k = k

content-IsTable :
    (o : Option (List Row))
    → IsProperContent o
    → IsTable (elim o as (λ x. List Row) [ none ↦ [] | some rows ↦ map with_key rows ])
content-IsTable none p = (tt, tt)
content-IsTable (some rows) p = (map-IsKeyed rows, map-IsDistinct rows p)

on_list-IsTable :
    (code : ℕ) (o : Option (List Row)) (s : PageState)
    → IsProperContent o
    → IsTable s.task_list
    → IsTable (on_list code o s).task_list
unfolding on_list
on_list-IsTable code o s p h = if-IsTable (code == 0) _ s (content-IsTable o p) h

search_reply-IsTable :
    (r : Reply (List Row)) (s : PageState)
    → IsProperReply r
    → IsTable s.task_list
    → IsTable (search_reply r s).task_list
unfolding search_reply
search_reply-IsTable (failed err) s p h = h
search_reply-IsTable (got body) s p h = on_list-IsTable body.code body.content s p h

refresh_reply-IsTable :
    (r : Reply (List Row)) (s : PageState)
    → IsProperReply r
    → IsTable s.task_list
    → IsTable (refresh_reply r s).task_list
unfolding refresh_reply
refresh_reply-IsTable (failed err) s p h = h
refresh_reply-IsTable (got body) s p h = on_list-IsTable body.code body.content s p h

if-second :
    {A B C : Type 0} (b : Bool) (x y : A × B × C) (P : B → Type 0)
    → P x.1
    → P y.1
    → P (if b then x else y).1
if-second true x y P h k = h
if-second false x y P h k = k

delete_reply-IsTable :
    (captured : List Row) (id : ℕ) (r : Reply Piece) (d : Confirm) (s : PageState)
    → IsTable captured
    → IsTable s.task_list
    → IsTable (delete_reply captured id r d s).1.task_list
unfolding delete_reply delete_task_list
delete_reply-IsTable captured id (failed err) d s c h = h
delete_reply-IsTable captured id (got body) d s c h =
    if-second (body.code == 0) _ _ (λ (p : PageState). IsTable p.task_list)
      (
        All-filter IsKeyed (λ row. not (row.id == id)) captured c.0,
        filter-IsDistinct (λ row. not (row.id == id)) captured c.1,
      )
      h

-- What a deletion has captured, if there is one
abbrev IsCaptured : Option (List Row × ℕ) → Type 0
IsCaptured none = Unit {0}
IsCaptured (some p) = IsTable p.0

at-IsCaptured :
    (i : ℕ) (pending : List (List Row × ℕ))
    → All (λ p. IsTable p.0) pending
    → IsCaptured (at i pending)
at-IsCaptured i [] h = tt
at-IsCaptured zero (p ∷ ps) h = h.0
at-IsCaptured (suc i) (p ∷ ps) h = at-IsCaptured i ps h.1

All-remove_at :
    (P : List Row × ℕ → Type 0) (i : ℕ) (pending : List (List Row × ℕ))
    → All P pending
    → All P (remove_at i pending)
All-remove_at P i [] h = tt
All-remove_at P zero (p ∷ ps) h = h.1
All-remove_at P (suc i) (p ∷ ps) h = (h.0, All-remove_at P i ps h.1)

answer_delete-Keyed :
    (r : Reply Piece) (o : Option (List Row × ℕ)) (others : List (List Row × ℕ)) (w : Screen)
    → Keyed w
    → All (λ p. IsTable p.0) others
    → IsCaptured o
    → Keyed (answer_delete r o others w)
unfolding answer_delete
answer_delete-Keyed r none others w h k c = h
answer_delete-Keyed r (some (captured, id)) others w h k c =
    (delete_reply-IsTable captured id r w.confirm w.page c h.0, k)

last_num : List Piece → ℕ
last_num (a ∷ b ∷ Piece.num (pos n) ∷ ps) = n
last_num _ = 0

key-id : (r row : Row) → IsKeyed r → IsKeyed row → r.uni_key ≡ row.uni_key → r.id ≡ row.id
unfolding last_num
key-id r row k l e = ap last_num (sym k ∙ e ∙ l)

keys-other :
    (row : Row) (rows : List Row)
    → IsKeyed row
    → All IsKeyed rows
    → All (λ r. (r.id == row.id) ≡ false) rows
    → All (λ r. ¬ (r.uni_key ≡ row.uni_key)) rows
keys-other row [] k ks ds = tt
keys-other row (r ∷ rows) k ks ds =
    ((λ e. ground (arith, key-id r row ks.0 k e, ds.0)), keys-other row rows k ks.1 ds.1)

IsTable-DistinctKeys : (rows : List Row) → IsTable rows → DistinctKeys rows
IsTable-DistinctKeys [] h = tt
IsTable-DistinctKeys (row ∷ rows) (k, d) =
    (keys-other row rows k.0 k.1 d.0, IsTable-DistinctKeys rows (k.1, d.1))

module _ (encode : List (String × Piece) → String) where
  event-Keyed :
      (e : ScreenEvent) (w : Screen) → IsProper e → Keyed w → Keyed (on_screen_event encode e w)
  unfolding on_screen_event refresh_task_list handle_search handle_search_key_down show_edit_dialog
  event-Keyed (ScreenEvent.keys key) w p (h, k) = (if-keys (key == "Enter"), k)
    where
      if-keys :
          (b : Bool) → IsTable (if b then handle_search encode w.page else (w.page, [])).0.task_list
      if-keys true = h
      if-keys false = h
  event-Keyed ScreenEvent.clicks_refresh w p h = if-loading w.page.refresh_loading
    where
      if-loading :
          (b : Bool)
          → Keyed (if b then w else record w { page = (refresh_task_list encode w.page).0 })
      if-loading true = h
      if-loading false = h
  event-Keyed ScreenEvent.confirms_delete w p (h, k) = (
    h,
    All-append (λ p. IsTable p.0) w.pending ((w.page.task_list, w.confirm.task_id) ∷ []) k (h, tt),
  )
  event-Keyed (ScreenEvent.search_answered r) w p (h, k) = (search_reply-IsTable r w.page p h, k)
  event-Keyed (ScreenEvent.refresh_answered r) w p (h, k) = (refresh_reply-IsTable r w.page p h, k)
  event-Keyed (ScreenEvent.delete_answered i r) w p h =
      answer_delete-Keyed r (at i w.pending) (remove_at i w.pending) w h
        (All-remove_at (λ p. IsTable p.0) i w.pending h.1) (at-IsCaptured i w.pending h.1)
  event-Keyed _ w p h = h

  run_screen-Keyed :
      (es : List ScreenEvent) (w : Screen)
      → All IsProper es
      → Keyed w
      → Keyed (run_screen encode es w)
  unfolding run_screen
  run_screen-Keyed [] w p h = h
  run_screen-Keyed (e ∷ es) w p h =
      run_screen-Keyed es (on_screen_event encode e w) p.1 (event-Keyed e w p.0 h)

  -- If every list that the server answers with has every task once, and so has each list of the
  -- page and of its pending deletions at the start, with keys made from the tasks' times and ids,
  -- then after any events, with the deletions answered in any order, no two of the listed tasks
  -- have the same key, as the parts of its template literal.
  pub run_screen-DistinctKeys :
      (es : List ScreenEvent) (w : Screen)
      → All IsProper es
      → Keyed w
      → DistinctKeys (run_screen encode es w).page.task_list
  run_screen-DistinctKeys es w p h =
      IsTable-DistinctKeys (run_screen encode es w).page.task_list (run_screen-Keyed es w p h).0
