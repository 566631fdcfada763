-- ===== src/Tasks/Query.antt =====
-- The filters of the list of tasks and the query that they make
-- (web/client/src/screen/taskList/TaskList.js).
use gonitor.Prelude.{
  ℕ, Bool, true, false, Option, none, some, List, [], ◌∷◌, ◌++◌, String, if◌then◌else◌, string_eq,
  ◌≡◌, refl, truthy, get,
}
use gonitor.Prelude.Int.{pos}
use gonitor.Request.{Piece}
use gonitor.Tasks.Page.{PageState, params}
use gonitor.Tasks.Run.{Screen, ScreenEvent, on_screen_event, run_screen}
use gonitor.Tasks.View.{controls, Control}

-- The query names each filter that is set, with its value, and no filter that is empty; the
-- priority 0 counts as set.
pub get-params :
    (s : PageState)
    → (get "keyword" (params s)
        ≡ (if truthy s.search_keyword then some (Piece.text s.search_keyword) else none))
      × (get "priority" (params s)
          ≡ elim s.filter_priority [ none ↦ none | some p ↦ some (Piece.num (pos p)) ])
      × (get "status" (params s)
          ≡ (if truthy s.filter_status then some (Piece.text s.filter_status) else none))
unfolding params get
get-params s = pairs (truthy s.search_keyword) s.filter_priority (truthy s.filter_status)
  where
    query : Bool → Option ℕ → Bool → List (String × Piece)
    query k p t =
        (if k then ("keyword", Piece.text s.search_keyword) ∷ [] else [])
        ++ elim p as (λ x. List (String × Piece)) [
          | none ↦ []
          | some n ↦ ("priority", Piece.num (pos n)) ∷ []
        ]
        ++ (if t then ("status", Piece.text s.filter_status) ∷ [] else [])

    pairs :
        (k : Bool) (p : Option ℕ) (t : Bool)
        → (get "keyword" (query k p t) ≡ (if k then some (Piece.text s.search_keyword) else none))
          × (get "priority" (query k p t)
              ≡ elim p as (λ x. Option Piece) [ none ↦ none | some n ↦ some (Piece.num (pos n)) ])
          × (get "status" (query k p t) ≡ (if t then some (Piece.text s.filter_status) else none))
    pairs true none true = (refl, refl, refl)
    pairs true none false = (refl, refl, refl)
    pairs false none true = (refl, refl, refl)
    pairs false none false = (refl, refl, refl)
    pairs true (some n) true = (refl, refl, refl)
    pairs true (some n) false = (refl, refl, refl)
    pairs false (some n) true = (refl, refl, refl)
    pairs false (some n) false = (refl, refl, refl)

-- What the filters show, `none` where a control is missing
abbrev pub shown_filters : List Control → Option (String × Option ℕ × String)
shown_filters
      (Control.search_field k _ _
        ∷ Control.priority_filter p _ _
        ∷ Control.status_filter t _ _
        ∷ rest) =
    some (k, p, t)
shown_filters _ = none

-- Entering a keyword, a priority and a status shows them.
pub filters-shown :
    (encode : List (String × Piece) → String) (k t : String) (p : Option ℕ) (w : Screen)
    → shown_filters (
        controls
          (run_screen encode
            (ScreenEvent.types_keyword k
              ∷ ScreenEvent.picks_priority p
              ∷ ScreenEvent.picks_status t
              ∷ [])
            w).page)
      ≡ some (k, p, t)
unfolding controls run_screen on_screen_event
filters-shown encode k t p w = refl
