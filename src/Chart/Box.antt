-- ===== src/Chart/Box.antt =====
-- A component with a chart: `CpuInfo`, `MemoryInfo` (web/client/src/screen/dashboard/) and the task
-- of `TaskInfo` (web/client/src/screen/taskInfo/TaskInfo.js). Its value follows the updates of a
-- subscription, whose callback is that of the last rendering, and the answer to a request.
use gonitor.Prelude.{ℕ, Option, none, some, List, [], ◌∷◌, String, if◌then◌else◌}
use gonitor.Request.{Reply}
use gonitor.Chart.{Chart, ChartEvent, on_chart_event}

-- What the components differ in: how an update is merged, what an answer makes of the value, `none`
-- for an exception of the next rendering, and the text of the value in the chart
pub record Boxed (U V L : Type 0) : Type 0 where
  pub merge : U → V → V
  pub load : Reply V → V → Option V
  pub text : V → L

pub data BoxEvent (U V : Type 0) : Type 0 where
  updated : U → BoxEvent U V
  answered : Reply V → BoxEvent U V
  fired : ℕ → String → BoxEvent U V
  gone : BoxEvent U V

module _ {U V L : Type 0} (b : Boxed U V L) where
  -- The state after an answer
  unfoldable pub on_loaded : Option V → Chart V L → Option (Chart V L)
  unfolding on_chart_event
  on_loaded none s = if s.mounted then none else some s
  on_loaded (some value) s = some (on_chart_event b.text (ChartEvent.changed value) s)

  -- One event, `none` where the rendering fails
  unfoldable pub on_box_event : BoxEvent U V → Chart V L → Option (Chart V L)
  unfolding on_loaded on_chart_event
  on_box_event (BoxEvent.updated u) s =
      some (on_chart_event b.text (ChartEvent.changed (b.merge u s.value)) s)
  on_box_event (BoxEvent.answered reply) s = on_loaded (b.load reply s.value) s
  on_box_event (BoxEvent.fired handle time) s =
      some (on_chart_event b.text (ChartEvent.fired handle time) s)
  on_box_event BoxEvent.gone s = some (on_chart_event b.text ChartEvent.gone s)

  -- The events in order, up to the first exception
  unfoldable pub run_box : List (BoxEvent U V) → Option (Chart V L) → Option (Chart V L)
  unfolding on_box_event
  run_box [] s = s
  run_box (e ∷ es) none = none
  run_box (e ∷ es) (some s) = run_box es (on_box_event e s)
