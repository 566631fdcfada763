-- ===== src/Chart/Shown.antt =====
-- What a component with a chart shows (web/client/src/screen/dashboard/CpuInfo.js, MemoryInfo.js
-- and web/client/src/screen/taskInfo/TaskInfo.js).
use gonitor.Prelude.{
  ℕ, Bool, true, false, Option, none, some, List, [], ◌∷◌, String, if◌then◌else◌, ◌==◌, nat_eq,
  Option-cases, ◌≡◌, refl, sym, ap, ◌∙◌, subst, inl, inr, arith,
}
use gonitor.Hook.{Interval, unmount_interval}
use gonitor.Hook.Intervals.{owned}
use gonitor.Logs.Info.{recent}
use gonitor.Chart.{
  Entry, Chart, ChartOption, ChartEvent, mount_chart, rendered_chart, on_chart_event, run_chart,
}
use gonitor.Chart.Box.{Boxed, BoxEvent, on_loaded, on_box_event, run_box}
use gonitor.Chart.Window.{
  Shows, IsLive, samples, mount_chart-IsLive, changed-IsLive, fired-IsLive, run_chart-recent,
  run_chart-gone,
}

-- One more at the front
abbrev pub preceded : {A : Type 0} → A → Option (List A) → Option (List A)
preceded x none = none
preceded x (some xs) = some (x ∷ xs)

module _ {U V L : Type 0} (b : Boxed U V L) (own : ℕ) where
  -- The entries that are to be made, `none` where an answer makes the rendering fail
  abbrev pub box_samples : V → List (BoxEvent U V) → Option (List (Entry L))
  box_samples value [] = some []
  box_samples value (BoxEvent.updated u ∷ es) = box_samples (b.merge u value) es
  box_samples value (BoxEvent.answered reply ∷ es) =
      elim (b.load reply value) as (λ x. Option (List (Entry L))) [
        | none ↦ none
        | some new ↦ box_samples new es
      ]
  box_samples value (BoxEvent.fired handle time ∷ es) =
      let rest = box_samples value es in
      if own == handle then preceded (time, b.text value) rest else rest
  box_samples value (BoxEvent.gone ∷ es) = some []

  -- The same events for the chart alone
  unfoldable chart_events : V → List (BoxEvent U V) → Option (List (ChartEvent V))
  chart_events value [] = some []
  chart_events value (BoxEvent.updated u ∷ es) =
      preceded (ChartEvent.changed (b.merge u value)) (chart_events (b.merge u value) es)
  chart_events value (BoxEvent.answered reply ∷ es) =
      elim (b.load reply value) as (λ x. Option (List (ChartEvent V))) [
        | none ↦ none
        | some new ↦ preceded (ChartEvent.changed new) (chart_events new es)
      ]
  chart_events value (BoxEvent.fired handle time ∷ es) =
      preceded (ChartEvent.fired handle time) (chart_events value es)
  chart_events value (BoxEvent.gone ∷ es) = some (ChartEvent.gone ∷ [])

  on_samples : V → Option (List (ChartEvent V)) → Option (List (Entry L))
  on_samples value none = none
  on_samples value (some es) = some (samples b.text own value es)

  on_samples-changed :
      (new value : V) (o : Option (List (ChartEvent V)))
      → on_samples new o ≡ on_samples value (preceded (ChartEvent.changed new) o)
  unfolding on_samples
  on_samples-changed new value none = refl
  on_samples-changed new value (some es) = refl

  on_samples-fired :
      (handle : ℕ) (time : String) (value : V) (o : Option (List (ChartEvent V)))
      → (if own == handle
          then preceded (time, b.text value) (on_samples value o)
          else on_samples value o)
        ≡ on_samples value (preceded (ChartEvent.fired handle time) o)
  unfolding on_samples
  on_samples-fired handle time value none = by_own (own == handle)
    where
      by_own :
          (c : Bool) → (if c then preceded {A = Entry L} (time, b.text value) none else none) ≡ none
      by_own true = refl
      by_own false = refl
  on_samples-fired handle time value (some es) = by_own (own == handle)
    where
      by_own :
          (c : Bool)
          → (if c
              then preceded (time, b.text value) (some (samples b.text own value es))
              else some (samples b.text own value es))
            ≡ some (
                if c
                then (time, b.text value) ∷ samples b.text own value es
                else samples b.text own value es)
      by_own true = refl
      by_own false = refl

  box_samples-chart_events :
      (es : List (BoxEvent U V)) (value : V)
      → box_samples value es ≡ on_samples value (chart_events value es)
  unfolding chart_events on_samples
  box_samples-chart_events [] value = refl
  box_samples-chart_events (BoxEvent.updated u ∷ es) value =
      box_samples-chart_events es (b.merge u value)
      ∙ on_samples-changed (b.merge u value) value (chart_events (b.merge u value) es)
  box_samples-chart_events (BoxEvent.answered reply ∷ es) value =
      elim (Option-cases (b.load reply value)) [
        | inl e ↦ ground (arith, e)
        | inr (new, e) ↦ ground (
          arith,
          e,
          box_samples-chart_events es new,
          on_samples-changed new value (chart_events new es),
        )
      ]
  box_samples-chart_events (BoxEvent.fired handle time ∷ es) value =
      ap (λ rest. if own == handle then preceded (time, b.text value) rest else rest)
        (box_samples-chart_events es value)
      ∙ on_samples-fired handle time value (chart_events value es)
  box_samples-chart_events (BoxEvent.gone ∷ es) value = refl

  ran : Chart V L → Option (List (ChartEvent V)) → Option (Chart V L)
  ran s none = none
  ran s (some es) = some (run_chart b.text es s)

  ran-preceded :
      (e : ChartEvent V) (s : Chart V L) (o : Option (List (ChartEvent V)))
      → ran (on_chart_event b.text e s) o ≡ ran s (preceded e o)
  unfolding ran run_chart
  ran-preceded e s none = refl
  ran-preceded e s (some es) = refl

  run_box-none : (es : List (BoxEvent U V)) → run_box b es none ≡ none
  unfolding run_box
  run_box-none [] = refl
  run_box-none (e ∷ es) = refl

  on_chart_event-gone :
      (e : ChartEvent V) (s : Chart V L) → s.mounted ≡ false → on_chart_event b.text e s ≡ s
  unfolding run_chart
  on_chart_event-gone e s h = run_chart-gone b.text own (e ∷ []) s h

  on_loaded-gone : (o : Option V) (s : Chart V L) → s.mounted ≡ false → on_loaded b o s ≡ some s
  unfolding on_loaded
  on_loaded-gone none s h = ap (λ m. if m then none else some s) h
  on_loaded-gone (some new) s h = ap some (on_chart_event-gone (ChartEvent.changed new) s h)

  run_box-gone :
      (es : List (BoxEvent U V)) (s : Chart V L)
      → s.mounted ≡ false
      → run_box b es (some s) ≡ some s
  unfolding run_box on_box_event
  run_box-gone [] s e = refl
  run_box-gone (BoxEvent.updated u ∷ es) s e =
      ap (λ r. run_box b es (some r))
        (on_chart_event-gone (ChartEvent.changed (b.merge u s.value)) s e)
      ∙ run_box-gone es s e
  run_box-gone (BoxEvent.answered reply ∷ es) s e =
      ap (run_box b es) (on_loaded-gone (b.load reply s.value) s e) ∙ run_box-gone es s e
  run_box-gone (BoxEvent.fired handle time ∷ es) s e =
      ap (λ r. run_box b es (some r)) (on_chart_event-gone (ChartEvent.fired handle time) s e)
      ∙ run_box-gone es s e
  run_box-gone (BoxEvent.gone ∷ es) s e =
      ap (λ r. run_box b es (some r)) (on_chart_event-gone ChartEvent.gone s e)
      ∙ run_box-gone es s e

  changed-value :
      (new : V) (s : Chart V L)
      → s.mounted ≡ true
      → (on_chart_event b.text (ChartEvent.changed new) s).value ≡ new
  unfolding on_chart_event rendered_chart
  changed-value new s e =
      ap (λ m. (if m then rendered_chart (record s { value = new }) else s).value) e

  -- A change of the value, given the rest of the events
  changed-chart_events :
      (es : List (BoxEvent U V))
      → ((t : Chart V L)
          → IsLive b.text own t
          → run_box b es (some t) ≡ ran t (chart_events t.value es))
      → (new : V) (s : Chart V L) → IsLive b.text own s
      → run_box b es (some (on_chart_event b.text (ChartEvent.changed new) s))
        ≡ ran s (preceded (ChartEvent.changed new) (chart_events new es))
  changed-chart_events es rest new s h =
      let e = ChartEvent.changed new in
      let t = on_chart_event b.text e s in
      rest t (changed-IsLive b.text own new s h)
      ∙ ap (λ v. ran t (chart_events v es)) (changed-value new s h.mounted)
      ∙ ran-preceded e s (chart_events new es)

  loaded-chart_events :
      (es : List (BoxEvent U V))
      → ((t : Chart V L)
          → IsLive b.text own t
          → run_box b es (some t) ≡ ran t (chart_events t.value es))
      → (o : Option V) (s : Chart V L) → IsLive b.text own s
      → run_box b es (on_loaded b o s)
        ≡ ran s (elim o as (λ x. Option (List (ChartEvent V))) [
          | none ↦ none
          | some new ↦ preceded (ChartEvent.changed new) (chart_events new es)
        ])
  unfolding on_loaded ran
  loaded-chart_events es rest none s h =
      ap (λ m. run_box b es (if m then none else some s)) h.mounted ∙ run_box-none es
  loaded-chart_events es rest (some new) s h = changed-chart_events es rest new s h

  run_box-chart_events :
      (es : List (BoxEvent U V)) (s : Chart V L)
      → IsLive b.text own s
      → run_box b es (some s) ≡ ran s (chart_events s.value es)
  unfolding run_box on_box_event chart_events ran run_chart on_loaded on_chart_event
  run_box-chart_events [] s h = refl
  run_box-chart_events (BoxEvent.updated u ∷ es) s h =
      changed-chart_events es (run_box-chart_events es) (b.merge u s.value) s h
  run_box-chart_events (BoxEvent.answered reply ∷ es) s h =
      loaded-chart_events es (run_box-chart_events es) (b.load reply s.value) s h
  run_box-chart_events (BoxEvent.fired handle time ∷ es) s h =
      let e = ChartEvent.fired handle time in
      let t = on_chart_event b.text e s in
      let step = fired-IsLive b.text own handle time s h in
      run_box-chart_events es t step.0
      ∙ ap (λ v. ran t (chart_events v es)) step.1
      ∙ ran-preceded e s (chart_events s.value es)
  run_box-chart_events (BoxEvent.gone ∷ es) s h =
      let t = on_chart_event b.text ChartEvent.gone s in
      run_box-gone es t (
        ap
          (λ m.
            (if m then record s { hook = unmount_interval s.hook; mounted = false } else s).mounted)
          h.mounted)

  -- A component that has failed, or that shows some entries
  abbrev pub IsShown : Option (List (Entry L)) → Option (Chart V L) → Type 0
  IsShown none s = s ≡ none
  IsShown (some xs) s = (r : Chart V L) × (s ≡ some r) × Shows (recent xs) r

  -- A component with a chart is mounted in a browser where it has no interval. After any updates,
  -- answers and intervals that elapse it has failed exactly where the entries that are to be made
  -- have no value, by an answer before it was gone that makes the rendering fail. Otherwise its
  -- list and its chart hold the last 61 of those entries, or all where there are fewer: one for
  -- each time at which its own interval elapsed before it was gone, with the text of the value
  -- that the updates and the answers until then have made.
  pub run_box-IsShown :
      (sample : ChartOption L) (value : V) (is : List Interval)
      → owned is ≡ []
      → (es : List (BoxEvent U V))
      → IsShown (box_samples value es) (run_box b es (some (mount_chart sample value own is)))
  unfolding mount_chart on_samples ran
  run_box-IsShown sample value is e es =
      let s = mount_chart sample value own is in
      subst (λ r. IsShown (box_samples value es) r)
        (sym (run_box-chart_events es s (mount_chart-IsLive b.text own sample value is e)))
        (subst (λ o. IsShown o (ran s (chart_events value es)))
          (sym (box_samples-chart_events es value)) (of_events (chart_events value es)))
    where
      of_events :
          (o : Option (List (ChartEvent V)))
          → IsShown (on_samples value o) (ran (mount_chart sample value own is) o)
      of_events none = refl
      of_events (some ces) = (
        run_chart b.text ces (mount_chart sample value own is),
        refl,
        run_chart-recent b.text own sample value is e ces,
      )
