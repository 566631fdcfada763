-- ===== src/Logs/Ended.antt =====
-- The ended logs of a task: `TaskEndedLog` and its rows
-- (web/client/src/screen/taskInfo/TaskEndedLog.js and TaskExecOutputDialog.js), and the clicks on
-- the page bar below them.
use gonitor.Prelude.{
  ℕ, suc, Bool, true, false, not, Option, none, some, List, [], ◌∷◌, String, if◌then◌else◌, ◌==◌,
  nat_eq, ◌≡◌, sym, subst, arith,
}
use gonitor.Prelude.Int.{ℤ, pos, negsuc, pred, succ, pred-succ}
use gonitor.Request.{Reply, got, failed, Url, Piece, Method}
use gonitor.Pagination.{PageInfo, Number, Change, Button, click}
use gonitor.Pagination.Bounds.{HasRows, full, Leads, click-Leads}

pub record EndedLog : Type 0 where
  pub id : ℕ
  pub exec_time : String
  pub command : String
  pub retry_times : ℕ
  pub exec_result : Bool

-- `pageInfo`, whose page counts from 0
pub record LogPage : Type 0 where
  pub page : ℤ
  pub limit : ℕ
  pub total_rows : ℕ

-- The `data` of an answer, whose page counts from 1
pub record LogListing : Type 0 where
  pub list : List EndedLog
  pub page : ℤ
  pub limit : ℕ
  pub total_rows : ℕ

-- The hooks of `TaskEndedLog`
pub record Ended : Type 0 where
  pub log_list : List EndedLog
  pub page_info : LogPage

pub data LogEffect : Type 0 where
  complain : String → LogEffect
  request : Method → Url → LogEffect

unfoldable pub first_ended : Ended
first_ended = record {
  log_list = [];
  page_info = record { page = pos 0; limit = 10; total_rows = 0 };
}

-- `getLogList`, and from the answer on; an exception changes nothing
unfoldable pub ask_logs : String → ℤ → ℕ → List LogEffect
ask_logs task_id page limit =
    LogEffect.request Method.get (
      Piece.text "/task/log/list/"
      ∷ Piece.text task_id
      ∷ Piece.text "/"
      ∷ Piece.num (succ page)
      ∷ Piece.text "/"
      ∷ Piece.num (pos limit)
      ∷ [])
    ∷ []

unfoldable pub ended_listed : Reply LogListing → Ended → Ended × List LogEffect
ended_listed (failed err) s = (s, [])
ended_listed (got body) s =
    if not (body.code == 0) then (s, LogEffect.complain body.message ∷ []) else elim body.content [
      | none ↦ (s, [])
      | some d ↦ (
        record {
          log_list = d.list;
          page_info = record { page = pred d.page; limit = d.limit; total_rows = d.total_rows };
        },
        [],
      )
    ]

-- The effect of the first rendering
unfoldable pub ended_first : String → Ended → List LogEffect
unfolding ask_logs
ended_first task_id s = ask_logs task_id s.page_info.page s.page_info.limit

-- `handleChangePage`
unfoldable pub change_log_page : String → ℤ → ℕ → List LogEffect
unfolding ask_logs
change_log_page task_id page limit = ask_logs task_id page limit

-- The hooks of a row; the output is `none` for null
pub record EndedRow : Type 0 where
  pub is_open : Bool
  pub exec_output : Option String

-- `showExecOutput` and its continuation, which does not read the code
unfoldable pub show_exec_output : ℕ → EndedRow → EndedRow × List LogEffect
show_exec_output id r = (
  record { is_open = true; exec_output = some "正在加载..." },
  LogEffect.request Method.get (Piece.text "/task/log/output/" ∷ Piece.num (pos id) ∷ []) ∷ [],
)

unfoldable pub output_loaded : Reply String → EndedRow → EndedRow
output_loaded (failed err) r = r
output_loaded (got body) r = record r { exec_output = body.content }

unfoldable pub close_exec_output : EndedRow → EndedRow
close_exec_output r = record r { is_open = false }

-- The page bar for a page that is no less than 0
abbrev pub bar_of : ℤ → ℕ → ℕ → Option PageInfo
bar_of (pos p) limit total = some (record { page = p; limit = limit; total_rows = total })
bar_of (negsuc n) limit total = none

abbrev pub bar : Ended → Option PageInfo
bar s = bar_of s.page_info.page s.page_info.limit s.page_info.total_rows

-- A server with a number of rows, that answers with the page asked for
module _ (rows : ℤ → ℕ → List EndedLog) (total : ℕ) where
  abbrev pub page_reply : ℤ → ℕ → Reply LogListing
  page_reply page limit = got (record {
    code = 0;
    message = "";
    content =
        some
          (record { list = rows page limit; page = succ page; limit = limit; total_rows = total });
  })

  abbrev pub turned : Option Change → Ended → Ended
  unfolding ended_listed
  turned none s = s
  turned (some change) s = elim change.new_page as (λ x. Ended) [
    | Number.finite page ↦ (ended_listed (page_reply page change.new_limit) s).0
    | Number.infinity ↦ s
    | Number.nan ↦ s
  ]

  -- A click on a button of the page bar, with the answer to the request that it causes
  abbrev pub turn_on : Option PageInfo → Button → Ended → Ended
  unfolding turned click
  turn_on none b s = s
  turn_on (some info) b s = turned (click b info) s

  abbrev pub turn : Button → Ended → Ended
  unfolding turn_on
  turn b s = turn_on (bar s) b s

  abbrev pub turns : List Button → Ended → Ended
  unfolding turn
  turns [] s = s
  turns (b ∷ bs) s = turns bs (turn b s)

  -- The page that is shown has rows, and the number of rows is that of the server.
  abbrev pub ShowsRows : ℕ → Ended → Type 0
  ShowsRows r s =
      (p : ℕ) × (s.page_info ≡ record { page = pos p; limit = suc r; total_rows = total })
      × HasRows p (full p r total)

  turned-ShowsRows :
      (r p : ℕ) (change : Option Change) (s : Ended)
      → ShowsRows r s
      → Leads (full p r total) change
      → ShowsRows r (turned change s)
  unfolding turned ended_listed
  turned-ShowsRows r p none s h l = h
  turned-ShowsRows r p (some change) s h (q, e, rows', kept) =
      (q, ground (arith, e, kept, pred-succ (pos q)), rows')

  turn-ShowsRows : (r : ℕ) (b : Button) (s : Ended) → ShowsRows r s → ShowsRows r (turn b s)
  unfolding turn turn_on
  turn-ShowsRows r b s (p, e, h) =
      subst (λ i. ShowsRows r (turn_on (bar_of i.page i.limit i.total_rows) b s)) (sym e)
        (turned-ShowsRows r p (click b (full p r total)) s (p, e, h) (click-Leads b p r total h))

  -- Whoever starts from a page of the ended logs that has rows and goes on by the buttons of the
  -- page bar, over a server that answers with the page asked for and whose number of rows stays
  -- the same, comes to a page that has rows, with the same number of rows per page.
  pub turns-ShowsRows :
      (r : ℕ) (bs : List Button) (s : Ended) → ShowsRows r s → ShowsRows r (turns bs s)
  unfolding turns
  turns-ShowsRows r [] s h = h
  turns-ShowsRows r (b ∷ bs) s h = turns-ShowsRows r bs (turn b s) (turn-ShowsRows r b s h)
