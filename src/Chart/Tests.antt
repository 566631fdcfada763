-- ===== src/Chart/Tests.antt =====
-- The chart of a number on concrete events, at which the theorem holds.
use gonitor.Prelude.{ℕ, false, Option, some, List, [], ◌∷◌, ◌≡◌, refl}
use gonitor.Hook.{
  Interval, use_interval, unmount_interval, set_interval, clear_interval, run_cleanup,
  start_interval, elapsed,
}
use gonitor.Logs.Info.{tick}
use gonitor.Chart.{
  ChartEvent, ChartOption, rendered_chart, draw, mount_chart, extended, on_interval, on_chart_event,
  run_chart,
}
use gonitor.Request.{Reply, got, failed}
use gonitor.Chart.Box.{Boxed, BoxEvent, run_box}
use gonitor.Chart.Shown.{IsShown, box_samples, run_box-IsShown}

abbrev other : Interval
other = record { handle = 3; delay = 300; own = false }

abbrev sample : ChartOption ℕ
sample = record { dates = "2000-06-05" ∷ []; values = 116 ∷ [] }

abbrev minute : List (ChartEvent ℕ)
minute =
    ChartEvent.fired 4 "10:00:01"
    ∷ ChartEvent.fired 3 "10:00:01"
    ∷ ChartEvent.changed 8
    ∷ ChartEvent.fired 4 "10:00:02"
    ∷ ChartEvent.gone
    ∷ ChartEvent.fired 4 "10:00:03"
    ∷ []

abbrev counts : Boxed ℕ ℕ ℕ
counts = record { merge = λ u n. u; load = λ reply n. loaded reply n; text = λ n. n }
  where
    loaded : Reply ℕ → ℕ → Option ℕ
    loaded (failed err) n = some n
    loaded (got body) n = body.content

abbrev answered : List (BoxEvent ℕ ℕ)
answered =
    BoxEvent.fired 4 "10:00:01"
    ∷ BoxEvent.answered (got (record { code = 0; message = ""; content = some 5 }))
    ∷ BoxEvent.fired 3 "10:00:01"
    ∷ BoxEvent.fired 4 "10:00:02"
    ∷ BoxEvent.updated 8
    ∷ BoxEvent.fired 4 "10:00:03"
    ∷ []

run_box-IsShown_example :
    IsShown counts 4
      (box_samples counts 4 7 answered)
      (run_box counts answered (some (mount_chart sample 7 4 (other ∷ []))))
run_box-IsShown_example = run_box-IsShown counts 4 sample 7 (other ∷ []) refl answered

three_samples :
    box_samples counts 4 7 answered
    ≡ some (("10:00:01", 7) ∷ ("10:00:02", 5) ∷ ("10:00:03", 8) ∷ [])
three_samples = refl

two_seconds :
    (run_chart (λ n. n) minute (mount_chart sample 7 4 (other ∷ []))).used
    ≡ ("10:00:01", 7) ∷ ("10:00:02", 8) ∷ []
unfolding run_chart on_chart_event on_interval extended tick draw rendered_chart mount_chart
    use_interval unmount_interval set_interval clear_interval run_cleanup start_interval elapsed
two_seconds = refl
