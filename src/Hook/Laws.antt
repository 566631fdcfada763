-- ===== src/Hook/Laws.antt =====
-- The intervals of `useInterval` (web/client/src/common/utils/hook.js): one for the delay of the
-- last rendering, and none after the component is gone.
use gonitor.Prelude.{
  ℕ, suc, true, false, not, Option, none, some, List, [], ◌∷◌, ◌++◌, if◌then◌else◌, ◌==◌, nat_eq,
  map, All, All-append, All-filter, filter-append, Bool-cases, ◌≡◌, refl, sym, ap, ◌∙◌, subst, inl,
  inr, arith, append-nil, append_assoc, map-append,
}
use gonitor.Hook.{
  Interval, Hook, HookEvent, unused_hook, set_interval, clear_interval, run_cleanup, same_delay,
  keep_callback, start_interval, use_interval, unmount_interval, on_hook_event, run_hook,
}
use gonitor.Hook.Intervals.{
  owned, foreign, Earlier, IsStarted, IsApart, All-IsApart-none, All-IsApart_next, All-Earlier-suc,
  foreign-clear, owned-clear, current, same_delay-current, next-IsApart, IsStarted-suc, delays,
  IsStarted-delays,
}

module _ {C : Type 0} where
  record IsHook (s : Hook C) : Type 0 where
    earlier : All (Earlier s.next) s.pending
    sets : IsStarted s.cleanup s.dependencies s.next (owned s.pending)
    apart : All (IsApart s.cleanup) s.pending

  -- What the cleanup of the second effect leaves
  record IsClean (s t : Hook C) : Type 0 where
    earlier : All (Earlier t.next) t.pending
    nothing : owned t.pending ≡ []
    others : foreign t.pending ≡ foreign s.pending

  run_cleanup-IsClean : (s : Hook C) → IsHook s → IsClean s (run_cleanup s.cleanup s)
  unfolding run_cleanup clear_interval
  run_cleanup-IsClean s h = by_cleanup s.cleanup s.dependencies h.sets h.apart
    where
      by_cleanup :
          (c : Option ℕ) (d : Option (Option ℕ))
          → IsStarted c d s.next (owned s.pending)
          → All (IsApart c) s.pending
          → IsClean s (run_cleanup c s)
      by_cleanup none none e a = record { earlier = h.earlier; nothing = e; others = refl }
      by_cleanup none (some none) e a = record { earlier = h.earlier; nothing = e; others = refl }
      by_cleanup none (some (some d)) e a = absurd e
      by_cleanup (some c) none e a = absurd e
      by_cleanup (some c) (some none) e a = absurd e
      by_cleanup (some c) (some (some d)) e a = record {
        earlier = All-filter (Earlier s.next) (λ i. not (i.handle == c)) s.pending h.earlier;
        nothing = owned-clear c d s.pending e.0;
        others = foreign-clear c s.pending a;
      }

  start_interval-IsHook :
      (delay : Option ℕ) (s t : Hook C)
      → IsClean s t
      → let r = start_interval delay t in
        IsHook r × (foreign r.pending ≡ foreign s.pending) × (r.dependencies ≡ some delay)
  unfolding start_interval set_interval
  start_interval-IsHook none s t c = (
    record { earlier = c.earlier; sets = c.nothing; apart = All-IsApart-none t.pending },
    c.others,
    refl,
  )
  start_interval-IsHook (some d) s t c =
      let i : Interval = record { handle = t.next; delay = d; own = true } in
      (
        record {
          earlier =
              All-append (Earlier (suc t.next)) t.pending (i ∷ [])
                (All-Earlier-suc t.next t.pending c.earlier) (omega arith, tt);
          sets = (
            filter-append (λ i. i.own) t.pending (i ∷ []) ∙ ap (λ w. w ++ i ∷ []) c.nothing,
            omega arith,
          );
          apart =
              All-append (IsApart (some t.next)) t.pending (i ∷ [])
                (All-IsApart_next t.next t.pending c.earlier) ((λ e. cc), tt);
        },
        filter-append (λ i. not i.own) t.pending (i ∷ [])
            ∙ append-nil (foreign t.pending)
            ∙ c.others,
        refl,
      )

  -- The delay that the hook is to have after an event
  abbrev pub wanted : HookEvent C → Option ℕ → Option ℕ
  wanted (HookEvent.rendered callback delay) old = delay
  wanted HookEvent.unmounted old = none
  wanted (HookEvent.other_set delay) old = old

  abbrev pub wanted_after : List (HookEvent C) → Option ℕ → Option ℕ
  wanted_after [] old = old
  wanted_after (e ∷ es) old = wanted_after es (wanted e old)

  abbrev pub set_by_others : List (HookEvent C) → List ℕ
  set_by_others [] = []
  set_by_others (HookEvent.rendered callback delay ∷ es) = set_by_others es
  set_by_others (HookEvent.unmounted ∷ es) = set_by_others es
  set_by_others (HookEvent.other_set delay ∷ es) = delay ∷ set_by_others es

  use_interval-IsHook :
      (callback : C) (delay : Option ℕ) (s : Hook C)
      → IsHook s
      → let r = use_interval callback delay s in
        IsHook r × (foreign r.pending ≡ foreign s.pending) × (current r.dependencies ≡ delay)
  unfolding use_interval
  use_interval-IsHook callback delay s h = elim (Bool-cases (same_delay s.dependencies delay)) [
    | inl e ↦
        subst
          (λ b.
            let r =
              if b
              then keep_callback callback s
              else start_interval delay (keep_callback callback (run_cleanup s.cleanup s)) in
            IsHook r × (foreign r.pending ≡ foreign s.pending) × (current r.dependencies ≡ delay))
          (sym e)
          (
            record { earlier = h.earlier; sets = h.sets; apart = h.apart },
            refl,
            same_delay-current s.dependencies delay e,
          )
    | inr e ↦
        let c = run_cleanup-IsClean s h in
        let t = keep_callback callback (run_cleanup s.cleanup s) in
        let clean : IsClean s t = record {
          earlier = c.earlier;
          nothing = c.nothing;
          others = c.others;
        } in
        let started = start_interval-IsHook delay s t clean in
        subst
          (λ b.
            let r = if b then keep_callback callback s else start_interval delay t in
            IsHook r × (foreign r.pending ≡ foreign s.pending) × (current r.dependencies ≡ delay))
          (sym e) (started.0, started.1, ap current started.2)
  ]

  Followed : HookEvent C → Hook C → Hook C → Type 0
  Followed e s r =
      IsHook r
      × (current r.dependencies ≡ wanted e (current s.dependencies))
      × (map (λ i. i.delay) (foreign r.pending)
          ≡ map (λ i. i.delay) (foreign s.pending) ++ set_by_others (e ∷ []))

  on_hook_event-Followed :
      (e : HookEvent C) (s : Hook C) → IsHook s → Followed e s (on_hook_event e s)
  unfolding on_hook_event unmount_interval set_interval Followed
  on_hook_event-Followed (HookEvent.rendered callback delay) s h =
      let r = use_interval-IsHook callback delay s h in
      (r.0, r.2, ap (map (λ i. i.delay)) r.1 ∙ sym (append-nil _))
  on_hook_event-Followed HookEvent.unmounted s h =
      let c = run_cleanup-IsClean s h in
      (
        record {
          earlier = c.earlier;
          sets = c.nothing;
          apart = All-IsApart-none (run_cleanup s.cleanup s).pending;
        },
        refl,
        ap (map (λ i. i.delay)) c.others ∙ sym (append-nil _),
      )
  on_hook_event-Followed (HookEvent.other_set delay) s h =
      let i : Interval = record { handle = s.next; delay = delay; own = false } in
      let same : owned (s.pending ++ i ∷ []) ≡ owned s.pending =
        filter-append (λ j. j.own) s.pending (i ∷ []) ∙ append-nil (owned s.pending) in
      (
        record {
          earlier =
              All-append (Earlier (suc s.next)) s.pending (i ∷ [])
                (All-Earlier-suc s.next s.pending h.earlier) (omega arith, tt);
          sets =
              subst (IsStarted s.cleanup s.dependencies (suc s.next)) (sym same)
                (IsStarted-suc s.cleanup s.dependencies s.next (owned s.pending) h.sets);
          apart =
              All-append (IsApart s.cleanup) s.pending (i ∷ []) h.apart
                (next-IsApart s.cleanup s.dependencies s.next delay (owned s.pending) h.sets, tt);
        },
        refl,
        ap (map (λ j. j.delay)) (filter-append (λ j. not j.own) s.pending (i ∷ []))
            ∙ map-append (λ j. j.delay) (foreign s.pending) (i ∷ []),
      )

  set_by_others-cons :
      (e : HookEvent C) (es : List (HookEvent C))
      → set_by_others (e ∷ es) ≡ set_by_others (e ∷ []) ++ set_by_others es
  set_by_others-cons (HookEvent.rendered callback delay) es = refl
  set_by_others-cons HookEvent.unmounted es = refl
  set_by_others-cons (HookEvent.other_set delay) es = refl

  run_hook-from :
      (es : List (HookEvent C)) (s : Hook C)
      → IsHook s
      → let r = run_hook es s in
        (map (λ i. i.delay) (owned r.pending) ≡ delays (wanted_after es (current s.dependencies)))
        × (map (λ i. i.delay) (foreign r.pending)
            ≡ map (λ i. i.delay) (foreign s.pending) ++ set_by_others es)
  unfolding Followed run_hook
  run_hook-from [] s h = (
    IsStarted-delays s.cleanup s.dependencies s.next (owned s.pending) h.sets,
    sym (append-nil _),
  )
  run_hook-from (e ∷ es) s h =
      let step = on_hook_event-Followed e s h in
      let rest = run_hook-from es (on_hook_event e s) step.0 in
      let before = map (λ i. i.delay) (foreign s.pending) in
      (
        rest.0 ∙ ap (λ d. delays (wanted_after es d)) step.1,
        rest.1
            ∙ ap (λ w. w ++ set_by_others es) step.2
            ∙ append_assoc before (set_by_others (e ∷ [])) (set_by_others es)
            ∙ ap (λ w. before ++ w) (sym (set_by_others-cons e es)),
      )

  -- In a browser where the hook has no interval and all handles are below the next one, after any
  -- renderings, unmountings and intervals that other code sets, the hook has one interval pending,
  -- with the delay of the last rendering, or none where that delay is null, the component is gone,
  -- or there was no rendering; and no interval of other code is lost.
  pub run_hook-delays :
      (next : ℕ) (is : List Interval)
      → All (Earlier next) is
      → owned is ≡ []
      → (es : List (HookEvent C))
      → let r = run_hook es (unused_hook next is) in
        (map (λ i. i.delay) (owned r.pending) ≡ delays (wanted_after es none))
        × (map (λ i. i.delay) (foreign r.pending)
            ≡ map (λ i. i.delay) (foreign is) ++ set_by_others es)
  run_hook-delays next is h e es =
      run_hook-from es (unused_hook next is)
        (record { earlier = h; sets = e; apart = All-IsApart-none is })
