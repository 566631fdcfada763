-- ===== src/Hook.antt =====
-- The hook `useInterval` of a component (web/client/src/common/utils/hook.js), over the table of
-- the browser's intervals, which other code uses as well.
--
-- A callback is the closure of one rendering, of a type `C`. The delay is a number, or null as
-- `none`. React runs the cleanup of an effect before the effects of the same rendering, and runs
-- an effect again where its dependencies have changed.
pub mod Intervals
pub mod Laws
pub mod Tests
use gonitor.Prelude.{
  ℕ, suc, Bool, true, false, not, Option, none, some, List, [], ◌∷◌, ◌++◌, if◌then◌else◌, ◌==◌,
  nat_eq, any, filter, ◌&&◌,
}

-- A pending interval: its handle, its delay, and whether this hook has set it
pub record Interval : Type 0 where
  pub handle : ℕ
  pub delay : ℕ
  pub own : Bool

-- The hook and the browser: `latestCallback.current`, where `none` is the function that does
-- nothing; the dependencies and the handle that the cleanup of the second effect has captured
pub record Hook (C : Type 0) : Type 0 where
  pub latest : Option C
  pub dependencies : Option (Option ℕ)
  pub cleanup : Option ℕ
  pub next : ℕ
  pub pending : List Interval

-- `[delay]` against the dependencies of the last run; on the first rendering there is none
abbrev pub same_delay : Option (Option ℕ) → Option ℕ → Bool
same_delay none delay = false
same_delay (some none) none = true
same_delay (some none) (some d) = false
same_delay (some (some e)) none = false
same_delay (some (some e)) (some d) = e == d

module _ {C : Type 0} where
  -- A component that is not mounted, while other code has some intervals
  abbrev pub unused_hook : ℕ → List Interval → Hook C
  unused_hook next pending = record {
    latest = none;
    dependencies = none;
    cleanup = none;
    next = next;
    pending = pending;
  }

  -- `setInterval`, with the handle of the browser
  unfoldable pub set_interval : ℕ → Bool → Hook C → Hook C
  set_interval delay own s = record s {
    next = suc s.next;
    pending = s.pending ++ record { handle = s.next; delay = delay; own = own } ∷ [];
  }

  -- `clearInterval(interval)`
  unfoldable pub clear_interval : ℕ → Hook C → Hook C
  clear_interval handle s = record s { pending = filter (λ i. not (i.handle == handle)) s.pending }

  -- What the second effect has returned
  unfoldable pub run_cleanup : Option ℕ → Hook C → Hook C
  unfolding clear_interval
  run_cleanup none s = s
  run_cleanup (some handle) s = record (clear_interval handle s) { cleanup = none }

  -- The first effect
  abbrev pub keep_callback : C → Hook C → Hook C
  keep_callback callback s = record s { latest = some callback }

  -- The second effect; `delay || 0` is the delay, also where it is 0
  unfoldable pub start_interval : Option ℕ → Hook C → Hook C
  unfolding set_interval
  start_interval none s = record s { dependencies = some none; cleanup = none }
  start_interval (some delay) s = record (set_interval delay true s) {
    dependencies = some (some delay);
    cleanup = some s.next;
  }

  -- A rendering, with its effects
  unfoldable pub use_interval : C → Option ℕ → Hook C → Hook C
  unfolding run_cleanup start_interval
  use_interval callback delay s =
      if same_delay s.dependencies delay
      then keep_callback callback s
      else start_interval delay (keep_callback callback (run_cleanup s.cleanup s))

  -- The component is unmounted; mounted again, it has new references
  unfoldable pub unmount_interval : Hook C → Hook C
  unfolding run_cleanup
  unmount_interval s =
      let cleaned = run_cleanup s.cleanup s in unused_hook cleaned.next cleaned.pending

  -- The interval with a handle has elapsed: the callback that is called, `none` where it is not
  -- pending or not the hook's
  unfoldable pub elapsed : ℕ → Hook C → Option C
  elapsed handle s = if any (λ i. i.own && i.handle == handle) s.pending then s.latest else none

pub data HookEvent (C : Type 0) : Type 0 where
  -- A rendering
  rendered : C → Option ℕ → HookEvent C
  unmounted : HookEvent C
  -- Other code sets an interval
  other_set : ℕ → HookEvent C

module _ {C : Type 0} where
  unfoldable pub on_hook_event : HookEvent C → Hook C → Hook C
  unfolding use_interval unmount_interval set_interval
  on_hook_event (HookEvent.rendered callback delay) s = use_interval callback delay s
  on_hook_event HookEvent.unmounted s = unmount_interval s
  on_hook_event (HookEvent.other_set delay) s = set_interval delay false s

  unfoldable pub run_hook : List (HookEvent C) → Hook C → Hook C
  unfolding on_hook_event
  run_hook [] s = s
  run_hook (e ∷ es) s = run_hook es (on_hook_event e s)
