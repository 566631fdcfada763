-- ===== src/Socket/Reconnect.antt =====
-- How often the socket of web/client/src/common/socket/Socket.js reconnects.
use gonitor.Prelude.{
  ℕ, zero, suc, ◌+◌, true, false, Option, none, some, List, [], ◌∷◌, String, ◌≡◌, refl, arith, ◌∙◌,
  subst,
}
use gonitor.Prelude.Int.{ℤ, pos, minus_one}
use gonitor.Socket.Timers.{set_timeout, job_of}
use gonitor.Socket.{
  Socket, ReadyState, has_url, create, on_close, on_reconnect, reconnect_unless_destroyed,
  stop_heart, reset_retries, reconnected, send, send_all, on_open, restart_heart, run_open_cb,
}
use gonitor.Socket.Step.{opens, closes, fires, run_job, fire, step}

module _ {M D App : Type 0} (stringify : M → String) where
  -- A connection attempt fails, and then the timer of the reconnection runs, if there is one.
  abbrev fire_named : Option ℕ → Socket M D App → Socket M D App
  fire_named none s = s
  fire_named (some i) s = step true stringify s (fires i)

  abbrev pub retry : Socket M D App → Socket M D App
  retry s = let c = step true stringify s closes in fire_named c.reconnect_timer c

  abbrev pub retries : ℕ → Socket M D App → Socket M D App
  retries zero s = s
  retries (suc k) s = retries k (retry s)

  -- The socket is about to connect, and `n` further attempts are left.
  pub record IsTrying (n : ℤ) (s : Socket M D App) : Type 0 where
    pub waiting : s.ws ≡ some ReadyState.connecting
    pub left : s.options.reconnect_count ≡ n
    pub kept : s.options.is_restory ≡ false
    pub target : has_url s.options.url ≡ true

  retry-IsTrying :
      (n : ℕ) (s : Socket M D App) → IsTrying (pos (suc n)) s → IsTrying (pos n) (retry s)
  unfolding step on_close reconnect_unless_destroyed stop_heart on_reconnect reconnected create fire
      run_job set_timeout job_of
  retry-IsTrying n s v = record {
    waiting = ground arith;
    left = ground arith;
    kept = ground arith;
    target = ground arith;
  }

  connections-retry :
      (n : ℕ) (s : Socket M D App)
      → IsTrying (pos (suc n)) s
      → (retry s).connections ≡ s.connections + 1
  unfolding step on_close reconnect_unless_destroyed stop_heart on_reconnect reconnected create fire
      run_job set_timeout job_of
  connections-retry n s v = ground arith

  -- With a budget of `k + n` reconnections, `k` failing attempts in a row, each followed by the
  -- timer of the reconnection, make `k` new connections and leave a budget of `n`, with the
  -- socket connecting again.
  pub retries-IsTrying :
      (k n : ℕ) (s : Socket M D App)
      → IsTrying (pos (k + n)) s
      → IsTrying (pos n) (retries k s) × ((retries k s).connections ≡ s.connections + k)
  retries-IsTrying zero n s v = (subst (λ m. IsTrying (pos m) s) (omega arith) v, omega arith)
  retries-IsTrying (suc k) n s v =
      let w : IsTrying (pos (suc (k + n))) s = subst (λ m. IsTrying (pos m) s) (omega arith) v in
      let rest = retries-IsTrying k n (retry s) (retry-IsTrying (k + n) s w) in
      (rest.0, omega (arith, rest.1, connections-retry (k + n) s w))

  -- A failing attempt that finds the budget spent sets no timer for another one: the connection
  -- is closed, the handle of that timer is unchanged, and the budget is again the one of the
  -- field `reconnectCount`.
  pub closes_spent :
      (s : Socket M D App)
      → IsTrying (pos 0) s
      → ((step true stringify s closes).ws ≡ some ReadyState.closed)
        × ((step true stringify s closes).options.reconnect_count ≡ s.reconnect_count)
        × ((step true stringify s closes).reconnect_timer ≡ s.reconnect_timer)
  unfolding step on_close reconnect_unless_destroyed stop_heart on_reconnect reset_retries
  closes_spent s v = (ground arith, ground arith, ground arith)

  -- A budget of -1 is never spent by failing attempts.
  retry-IsTrying_unlimited :
      (s : Socket M D App) → IsTrying minus_one s → IsTrying minus_one (retry s)
  unfolding step on_close reconnect_unless_destroyed stop_heart on_reconnect reconnected create fire
      run_job set_timeout job_of
  retry-IsTrying_unlimited s v = record {
    waiting = ground arith;
    left = ground arith;
    kept = ground arith;
    target = ground arith;
  }

  retries-IsTrying_unlimited :
      (k : ℕ) (s : Socket M D App) → IsTrying minus_one s → IsTrying minus_one (retries k s)
  retries-IsTrying_unlimited zero s v = v
  retries-IsTrying_unlimited (suc k) s v =
      retries-IsTrying_unlimited k (retry s) (retry-IsTrying_unlimited s v)

  count-send_all :
      (ms : List M) (s : Socket M D App)
      → (send_all ms s).options.reconnect_count ≡ s.options.reconnect_count
  unfolding send
  count-send_all [] s = refl
  count-send_all (m ∷ ms) s = count-send_all ms (send m s)

  step-opens :
      (s : Socket M D App)
      → s.ws ≡ some ReadyState.connecting
      → (step true stringify s opens).options.reconnect_count ≡ s.reconnect_count
  unfolding step on_open
  step-opens s e = rw e (
      count-send_all (run_open_cb r.options.open_cb r.app) r
      ∙ unfold restart_heart reset_retries in refl)
    where
      r : Socket M D App
      r = restart_heart (reset_retries (record s { ws = some ReadyState.opened }))

  -- A budget of -1 lasts for any number of failing attempts; once the connection then opens, the
  -- budget is the one of the field `reconnectCount`.
  pub unlimited_until_open :
      (k : ℕ) (s : Socket M D App)
      → IsTrying minus_one s
      → IsTrying minus_one (retries k s)
        × ((step true stringify (retries k s) opens).options.reconnect_count
            ≡ (retries k s).reconnect_count)
  unlimited_until_open k s v =
      let w = retries-IsTrying_unlimited k s v in (w, step-opens (retries k s) w.waiting)
