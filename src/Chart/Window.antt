-- ===== src/Chart/Window.antt =====
-- What the chart of a value holds (web/client/src/screen/dashboard/CpuInfo.js, MemoryInfo.js and
-- web/client/src/screen/taskInfo/TaskInfo.js).
use gonitor.Prelude.{
  ℕ, Bool, true, false, none, some, List, [], ◌∷◌, ◌++◌, String, if◌then◌else◌, ◌==◌, nat_eq,
  nat_beq, any, map, Bool-cases, ◌&&◌, ◌≡◌, refl, sym, ap, ap₂, ◌∙◌, subst, inl, inr, arith,
}
use gonitor.Hook.{Interval, use_interval, unmount_interval, elapsed}
use gonitor.Hook.Intervals.{owned}
use gonitor.Logs.Info.{tick, ticks, recent, ticks-recent}
use gonitor.Chart.{
  Entry, Closure, ChartOption, Chart, ChartEvent, rendered_chart, draw, mount_chart, extended,
  on_interval, on_chart_event, run_chart,
}

-- Whether a handle is that of an interval of the hook
abbrev pub is_owned : ℕ → List Interval → Bool
is_owned h = any (λ i. i.own && i.handle == h)

is_owned-first :
    (next h : ℕ) (is : List Interval)
    → owned is ≡ []
    → is_owned h (is ++ record { handle = next; delay = 1000; own = true } ∷ []) ≡ nat_beq next h
is_owned-first next h [] e = ground arith
is_owned-first next h (i ∷ is) e = elim (Bool-cases i.own) [
  | inl o ↦ absurd (ground (arith, e, o))
  | inr o ↦ ground (arith, e, o, is_owned-first next h is)
]

module _ {V L : Type 0} where
  -- What is shown of a list of entries
  abbrev pub Shows : List (Entry L) → Chart V L → Type 0
  Shows xs s =
      (s.used ≡ xs)
      × (s.option.dates ≡ map (λ item. item.0) xs)
      × (s.option.values ≡ map (λ item. item.1) xs)

module _ {V L : Type 0} (text : V → L) (own : ℕ) where
  -- The entries that the interval is to make: one whenever it elapses, of the value at that time
  abbrev pub samples : V → List (ChartEvent V) → List (Entry L)
  samples value [] = []
  samples value (ChartEvent.changed new ∷ es) = samples new es
  samples value (ChartEvent.fired handle time ∷ es) =
      let rest = samples value es in if own == handle then (time, text value) ∷ rest else rest
  samples value (ChartEvent.gone ∷ es) = []

  pub record IsLive (s : Chart V L) : Type 0 where
    pub mounted : s.mounted ≡ true
    pub latest : s.hook.latest ≡ some (record { used = s.used; value = s.value })
    pub running : s.hook.dependencies ≡ some (some 1000)
    pub one : (h : ℕ) → is_owned h s.hook.pending ≡ nat_beq own h
    pub drawn :
        s.option
        ≡ record { dates = map (λ item. item.0) s.used; values = map (λ item. item.1) s.used }

  -- A rendering of a live component only replaces the callback
  rendered_chart-live :
      (s : Chart V L)
      → s.hook.dependencies ≡ some (some 1000)
      → rendered_chart s ≡ record s {
        hook = record s.hook { latest = some (record { used = s.used; value = s.value }) };
      }
  unfolding rendered_chart use_interval
  rendered_chart-live s e = ground (arith, e)

  pub run_chart-gone :
      (es : List (ChartEvent V)) (s : Chart V L) → s.mounted ≡ false → run_chart text es s ≡ s
  unfolding run_chart on_chart_event
  run_chart-gone [] s e = refl
  run_chart-gone (ChartEvent.changed value ∷ es) s e =
      ap (λ b. run_chart text es (if b then rendered_chart (record s { value = value }) else s)) e
      ∙ run_chart-gone es s e
  run_chart-gone (ChartEvent.fired handle time ∷ es) s e =
      ap (λ b. run_chart text es (if b then on_interval text (elapsed handle s.hook) time s else s))
        e
      ∙ run_chart-gone es s e
  run_chart-gone (ChartEvent.gone ∷ es) s e =
      ap
        (λ b.
          run_chart text es
            (if b then record s { hook = unmount_interval s.hook; mounted = false } else s))
        e
      ∙ run_chart-gone es s e

  -- A rendering of a component whose callback is of an earlier state
  rendered_chart-IsLive :
      (s : Chart V L)
      → s.mounted ≡ true
      → s.hook.dependencies ≡ some (some 1000)
      → ((h : ℕ) → is_owned h s.hook.pending ≡ nat_beq own h)
      → s.option
        ≡ record { dates = map (λ item. item.0) s.used; values = map (λ item. item.1) s.used }
      → IsLive (rendered_chart s)
  rendered_chart-IsLive s m e o d =
      subst IsLive (sym (rendered_chart-live s e))
        (record { mounted = m; latest = refl; running = e; one = o; drawn = d })

  pub changed-IsLive :
      (value : V) (s : Chart V L)
      → IsLive s
      → IsLive (on_chart_event text (ChartEvent.changed value) s)
  unfolding on_chart_event
  changed-IsLive value s h =
      subst (λ b. IsLive (if b then rendered_chart (record s { value = value }) else s))
        (sym h.mounted)
        (rendered_chart-IsLive (record s { value = value }) h.mounted h.running h.one h.drawn)

  pub fired-IsLive :
      (handle : ℕ) (time : String) (s : Chart V L)
      → IsLive s
      → let r = on_chart_event text (ChartEvent.fired handle time) s in
        IsLive r
        × (r.value ≡ s.value)
        × (r.used ≡ (if own == handle then tick s.used (time, text s.value) else s.used))
  unfolding on_chart_event on_interval elapsed extended draw
  fired-IsLive handle time s h =
      let c : Closure V L = record { used = s.used; value = s.value } in
      let called : elapsed handle s.hook ≡ (if own == handle then some c else none) =
        ap (λ b. if b then s.hook.latest else none) (h.one handle)
        ∙ ap (λ o. if own == handle then o else none) h.latest in
      subst (Live_after (own == handle))
        (sym (
          ap (λ b. if b then on_interval text (elapsed handle s.hook) time s else s) h.mounted
          ∙ ap (λ o. on_interval text o time s) called))
        (by_own (own == handle))
    where
      Live_after : Bool → Chart V L → Type 0
      Live_after b r =
          IsLive r
          × (r.value ≡ s.value)
          × (r.used ≡ (if b then tick s.used (time, text s.value) else s.used))

      by_own :
          (b : Bool)
          → Live_after b (
              on_interval text
                (if b then some (record { used = s.used; value = s.value }) else none)
                time
                s)
      by_own true =
          let new : Chart V L = draw (record s { used = tick s.used (time, text s.value) }) in
          let r = rendered_chart-live new h.running in
          (
            rendered_chart-IsLive new h.mounted h.running h.one refl,
            ap (λ t. t.value) r,
            ap (λ t. t.used) r,
          )
      by_own false = (h, refl, refl)

  IsLive-Shows : (s : Chart V L) → IsLive s → Shows s.used s
  IsLive-Shows s h = (refl, ap (λ o. o.dates) h.drawn, ap (λ o. o.values) h.drawn)

  equal_lists_shown : {xs ys : List (Entry L)} (s : Chart V L) → xs ≡ ys → Shows xs s → Shows ys s
  equal_lists_shown s e h = subst (λ zs. Shows zs s) e h

  run_chart-Shows :
      (es : List (ChartEvent V)) (s : Chart V L)
      → IsLive s
      → Shows (ticks s.used (samples s.value es)) (run_chart text es s)
  unfolding run_chart ticks on_chart_event
  run_chart-Shows [] s h = IsLive-Shows s h
  run_chart-Shows (ChartEvent.changed value ∷ es) s h =
      let same : (on_chart_event text (ChartEvent.changed value) s).used ≡ s.used =
        ap (λ b. (if b then rendered_chart (record s { value = value }) else s).used) h.mounted in
      let new : (on_chart_event text (ChartEvent.changed value) s).value ≡ value =
        ap (λ b. (if b then rendered_chart (record s { value = value }) else s).value) h.mounted in
      equal_lists_shown (run_chart text es (on_chart_event text (ChartEvent.changed value) s))
        (ap₂ (λ u v. ticks u (samples v es)) same new)
        (run_chart-Shows es (on_chart_event text (ChartEvent.changed value) s)
          (changed-IsLive value s h))
  run_chart-Shows (ChartEvent.fired handle time ∷ es) s h =
      let step = fired-IsLive handle time s h in
      let next = on_chart_event text (ChartEvent.fired handle time) s in
      let rest = run_chart-Shows es next step.0 in
      let made : ticks next.used (samples next.value es)
          ≡ ticks s.used (samples s.value (ChartEvent.fired handle time ∷ es)) =
        ap₂ (λ u v. ticks u (samples v es)) step.2 step.1 ∙ by_own (own == handle) in
      equal_lists_shown (run_chart text es next) made rest
    where
      by_own :
          (b : Bool)
          → ticks (if b then tick s.used (time, text s.value) else s.used) (samples s.value es)
            ≡ ticks s.used
                (if b then (time, text s.value) ∷ samples s.value es else samples s.value es)
      by_own true = refl
      by_own false = refl
  run_chart-Shows (ChartEvent.gone ∷ es) s h =
      let end : Chart V L = record s { hook = unmount_interval s.hook; mounted = false } in
      let ended : run_chart text (ChartEvent.gone ∷ es) s ≡ end =
        ap (λ b. run_chart text es (if b then end else s)) h.mounted ∙ run_chart-gone es end refl in
      subst (Shows s.used) (sym ended) (IsLive-Shows s h)

  pub mount_chart-IsLive :
      (sample : ChartOption L) (value : V) (is : List Interval)
      → owned is ≡ []
      → IsLive (mount_chart sample value own is)
  unfolding mount_chart draw rendered_chart use_interval
  mount_chart-IsLive sample value is e = record {
    mounted = refl;
    latest = refl;
    running = refl;
    one = λ h. is_owned-first own h is e;
    drawn = refl;
  }

  -- For a component that is mounted in a browser where it has no interval, after any changes of
  -- its value and any intervals that elapse, the list and the chart hold the last 61 entries, or
  -- all where there are fewer, of one entry for each time at which the component's own interval
  -- has elapsed before it was gone, with that time and the text of the value at that time.
  pub run_chart-recent :
      (sample : ChartOption L) (value : V) (is : List Interval)
      → owned is ≡ []
      → (es : List (ChartEvent V))
      → Shows (recent (samples value es)) (run_chart text es (mount_chart sample value own is))
  unfolding mount_chart
  run_chart-recent sample value is e es =
      equal_lists_shown (run_chart text es (mount_chart sample value own is))
        (ticks-recent (samples value es))
        (run_chart-Shows es (mount_chart sample value own is)
          (mount_chart-IsLive sample value is e))
