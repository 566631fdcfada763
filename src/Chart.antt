-- ===== src/Chart.antt =====
-- The chart of a value over the last minute, as CpuInfo.js and MemoryInfo.js
-- (web/client/src/screen/dashboard/) and TaskInfo.js (web/client/src/screen/taskInfo/) write it
-- out: the state `usedList`, the interval that extends it, and the effect that draws it.
--
-- The components differ in the value and in its text. What the browser's clock shows is an
-- argument of the event. React renders again after each change of the state.
pub mod Window
pub mod Box
pub mod Sample
pub mod Shown
pub mod Tests
use gonitor.Prelude.{
  ℕ, Bool, true, false, Option, none, some, List, [], ◌∷◌, String, if◌then◌else◌, map,
}
use gonitor.Logs.Info.{tick}
use gonitor.Hook.{Hook, Interval, unused_hook, use_interval, unmount_interval, elapsed}

-- An entry of `usedList`
abbrev pub Entry : Type 0 → Type 0
Entry L = String × L

-- What a rendering's callback has captured
pub record Closure (V L : Type 0) : Type 0 where
  pub used : List (Entry L)
  pub value : V

-- The parts of the option that the effect sets: `xAxis.data` and the data of the series
pub record ChartOption (L : Type 0) : Type 0 where
  pub dates : List String
  pub values : List L

pub record Chart (V L : Type 0) : Type 0 where
  pub used : List (Entry L)
  pub value : V
  pub option : ChartOption L
  pub hook : Hook (Closure V L)
  pub mounted : Bool

pub data ChartEvent (V : Type 0) : Type 0 where
  -- The value changes, by an update or an answer
  changed : V → ChartEvent V
  -- The interval with a handle elapses at a time
  fired : ℕ → String → ChartEvent V
  gone : ChartEvent V

module _ {V L : Type 0} where
  -- A rendering, whose callback captures the state
  unfoldable pub rendered_chart : Chart V L → Chart V L
  unfolding use_interval
  rendered_chart s = record s {
    hook = use_interval (record { used = s.used; value = s.value }) (some 1000) s.hook;
  }

  -- The effect on `usedList`
  unfoldable pub draw : Chart V L → Chart V L
  draw s = record s {
    option = record { dates = map (λ item. item.0) s.used; values = map (λ item. item.1) s.used };
  }

  -- The first rendering, with the option of `getOption()`
  unfoldable pub mount_chart : ChartOption L → V → ℕ → List Interval → Chart V L
  unfolding rendered_chart draw
  mount_chart get_option value next pending = draw (
      rendered_chart (record {
        used = [];
        value = value;
        option = get_option;
        hook = unused_hook next pending;
        mounted = true;
      }))

module _ {V L : Type 0} (text : V → L) where
  -- The callback of a rendering, at a time: `setUsedList(newUsedList)`
  unfoldable pub extended : Closure V L → String → List (Entry L)
  unfolding tick
  extended c time = tick c.used (time, text c.value)

  -- What the interval does, by the callback that it calls
  unfoldable pub on_interval : Option (Closure V L) → String → Chart V L → Chart V L
  unfolding extended rendered_chart draw
  on_interval none time s = s
  on_interval (some c) time s = draw (rendered_chart (record s { used = extended c time }))

  unfoldable pub on_chart_event : ChartEvent V → Chart V L → Chart V L
  unfolding on_interval rendered_chart elapsed unmount_interval
  on_chart_event (ChartEvent.changed value) s =
      if s.mounted then rendered_chart (record s { value = value }) else s
  on_chart_event (ChartEvent.fired handle time) s =
      if s.mounted then on_interval (elapsed handle s.hook) time s else s
  on_chart_event ChartEvent.gone s =
      if s.mounted then record s { hook = unmount_interval s.hook; mounted = false } else s

  unfoldable pub run_chart : List (ChartEvent V) → Chart V L → Chart V L
  unfolding on_chart_event
  run_chart [] s = s
  run_chart (e ∷ es) s = run_chart es (on_chart_event e s)
