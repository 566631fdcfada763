-- ===== src/Hook/Tests.antt =====
-- The interval of a component on concrete renderings, at which the theorem holds.
use gonitor.Prelude.{ℕ, true, false, none, some, List, [], ◌∷◌, ◌++◌, map, ◌≡◌, refl, arith}
use gonitor.Hook.{
  Interval, HookEvent, unused_hook, run_hook, elapsed, on_hook_event, use_interval,
  unmount_interval, set_interval, clear_interval, run_cleanup, start_interval,
}
use gonitor.Hook.Intervals.{owned, foreign, delays}
use gonitor.Hook.Laws.{wanted_after, set_by_others, run_hook-delays}

abbrev other : Interval
other = record { handle = 3; delay = 300; own = false }

abbrev renderings : List (HookEvent ℕ)
renderings =
    HookEvent.rendered 1 (some 1000)
    ∷ HookEvent.other_set 50
    ∷ HookEvent.rendered 2 (some 1000)
    ∷ HookEvent.rendered 3 (some 500)
    ∷ []

run_hook-delays_example :
    (map (λ i. i.delay) (owned (run_hook renderings (unused_hook 4 (other ∷ []))).pending)
      ≡ delays (wanted_after renderings none))
    × (map (λ i. i.delay) (foreign (run_hook renderings (unused_hook 4 (other ∷ []))).pending)
        ≡ map (λ i. i.delay) (foreign (other ∷ [])) ++ set_by_others renderings)
run_hook-delays_example = run_hook-delays 4 (other ∷ []) (omega arith, tt) refl renderings

set_again : run_hook renderings (unused_hook 4 (other ∷ [])) ≡ record {
  latest = some 3;
  dependencies = some (some 500);
  cleanup = some 6;
  next = 7;
  pending =
      other
      ∷ record { handle = 5; delay = 50; own = false }
      ∷ record { handle = 6; delay = 500; own = true }
      ∷ [];
}
unfolding run_hook on_hook_event use_interval unmount_interval set_interval clear_interval
    run_cleanup start_interval
set_again = refl

latest_called :
    elapsed {C = ℕ} 4 (
      run_hook
        (HookEvent.rendered 1 (some 9) ∷ HookEvent.rendered 2 (some 9) ∷ [])
        (unused_hook 4 []))
    ≡ some 2
unfolding run_hook on_hook_event use_interval unmount_interval set_interval clear_interval
    run_cleanup start_interval elapsed
latest_called = refl
