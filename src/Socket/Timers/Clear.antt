-- ===== src/Socket/Timers/Clear.antt =====
-- What `clearTimeout` and `reset` leave pending, by kind.
use gonitor.Prelude.{ℕ, ◌≤◌, Bool, true, false, Option, none, some, ◌≡◌, refl, ◌∙◌, arith}
use gonitor.Socket.Timers.{Job, TimerTable, Heart, clear_timeout, reset}
use gonitor.Socket.Timers.Laws.{
  count, NamesOnly, NamesAll, count-drop_timer_zero, count-zero_of_none, count-drop_timer_other,
  count-drop_timer_le,
}
use gonitor.Socket.Timers.Named.{
  is_beat, is_server_beat, is_heart, is_poll, is_reconnect, Named, count-heart, Named-clear_timeout,
}

module _ (ts : TimerTable) where
  count-clear_other :
      (p q : Job → Bool) (k : Option ℕ)
      → ((j : Job) → p j ≡ true → q j ≡ false)
      → NamesOnly p k ts.pending
      → count q (clear_timeout k ts).pending ≡ count q ts.pending
  unfolding clear_timeout
  count-clear_other p q none apart o = refl
  count-clear_other p q (some i) apart o = count-drop_timer_other p q i ts.pending apart o

  count-clear_zero :
      (p : Job → Bool) (k : Option ℕ)
      → NamesAll p k ts.pending
      → count p (clear_timeout k ts).pending ≡ 0
  unfolding clear_timeout
  count-clear_zero p none a = count-zero_of_none p ts.pending a
  count-clear_zero p (some i) a = count-drop_timer_zero p i ts.pending a

module _ (ts : TimerTable) where
  count-clear_le :
      (p : Job → Bool) (k : Option ℕ) → count p (clear_timeout k ts).pending ≤ count p ts.pending
  unfolding clear_timeout
  count-clear_le p none = omega arith
  count-clear_le p (some i) = count-drop_timer_le p i ts.pending

heart_apart_poll : (j : Job) → is_heart j ≡ true → is_poll j ≡ false
heart_apart_poll j e = ground arith

heart_apart_reconnect : (j : Job) → is_heart j ≡ true → is_reconnect j ≡ false
heart_apart_reconnect j e = ground arith

module _ (rc : Option ℕ) (h : Heart) (ts : TimerTable)
    (v : Named h.heart_time_out h.server_heart_time_out rc ts) where
  cleared : TimerTable
  cleared = clear_timeout h.heart_time_out ts

  cleared-Named : Named h.heart_time_out h.server_heart_time_out rc cleared
  unfolding cleared
  cleared-Named = Named-clear_timeout _ _ _ ts v h.heart_time_out

  pub Named-reset : Named h.heart_time_out h.server_heart_time_out rc (reset h ts)
  unfolding reset cleared
  Named-reset = Named-clear_timeout _ _ _ cleared cleared-Named h.server_heart_time_out

  -- `reset` ends every timer of the heart, and no other timer.
  pub count-reset_heart : count is_heart (reset h ts).pending ≡ 0
  unfolding reset cleared
  count-reset_heart = omega (
    arith,
    count-heart (clear_timeout h.server_heart_time_out cleared).pending,
    count-clear_zero cleared is_server_beat h.server_heart_time_out cleared-Named.server_all,
    count-clear_zero ts is_beat h.heart_time_out v.beat_all,
    count-clear_le cleared is_beat h.server_heart_time_out,
  )

  pub count-reset_poll : count is_poll (reset h ts).pending ≡ count is_poll ts.pending
  unfolding reset cleared
  count-reset_poll =
      count-clear_other cleared is_heart is_poll h.server_heart_time_out heart_apart_poll
        cleared-Named.server_only
      ∙ count-clear_other ts is_heart is_poll h.heart_time_out heart_apart_poll v.beat_only

  pub count-reset_reconnect :
      count is_reconnect (reset h ts).pending ≡ count is_reconnect ts.pending
  unfolding reset cleared
  count-reset_reconnect =
      count-clear_other cleared is_heart is_reconnect h.server_heart_time_out heart_apart_reconnect
        cleared-Named.server_only
      ∙ count-clear_other ts is_heart is_reconnect h.heart_time_out heart_apart_reconnect
          v.beat_only

  -- Clearing the timer of the reconnection ends it, and no other timer.
  pub count-clear_reconnect : count is_reconnect (clear_timeout rc ts).pending ≡ 0
  count-clear_reconnect = count-clear_zero ts is_reconnect rc v.reconnect_all

  pub count-clear_reconnect_heart :
      count is_heart (clear_timeout rc ts).pending ≡ count is_heart ts.pending
  count-clear_reconnect_heart =
      count-clear_other ts is_reconnect is_heart rc (λ j e. ground arith) v.reconnect_only

  pub count-clear_reconnect_poll :
      count is_poll (clear_timeout rc ts).pending ≡ count is_poll ts.pending
  count-clear_reconnect_poll =
      count-clear_other ts is_reconnect is_poll rc (λ j e. ground arith) v.reconnect_only
