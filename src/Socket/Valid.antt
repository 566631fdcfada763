-- ===== src/Socket/Valid.antt =====
-- The invariant of a socket (web/client/src/common/socket/Socket.js): its handles name its
-- timers, at most one timer of the heart is pending, an open connection has a poll of the queue
-- pending, and a reconnection is pending only where the connection is closed and the socket is
-- not destroyed.
pub mod Handlers
pub mod Steps
use gonitor.Prelude.{
  ℕ, suc, subst, sym, map, ◌++◌, ◌+◌, ◌≤◌, ◌<◌, Bool, true, false, ◌||◌, Option, none, some, List,
  [], ◌∷◌, String, ◌≡◌, refl, arith, nat_beq, ◌∙◌, Bool-cases, inl, inr, if◌then◌else◌,
}
use gonitor.Prelude.Int.{is_pos, is_minus_one, pred}
use gonitor.Socket.Timers.{Job, Timer, TimerTable, Heart, set_timeout, clear_timeout, job_of, reset}
use gonitor.Socket.Timers.Laws.{of_bool, count, count-drop_timer}
use gonitor.Socket.Timers.Named.{
  is_beat, is_server_beat, is_heart, is_poll, is_reconnect, Named, count-heart, Named-clear_timeout,
  Named-set_poll, Named-set_beat, Named-set_server, Named-set_reconnect,
}
use gonitor.Socket.Timers.Clear.{
  Named-reset, count-reset_heart, count-reset_poll, count-reset_reconnect, count-clear_reconnect,
  count-clear_reconnect_heart, count-clear_reconnect_poll,
}
use gonitor.Socket.{
  Socket, Packet, ReadyState, Options, Result, returned, thrown, is_connected, send, send_all,
  fire_send_on, stop_heart, restart_heart, on_open, on_close, on_error, on_message, on_reconnect,
  reconnected, create, destroy, run_open_cb, close_ws, reset_retries, reconnect_unless_destroyed,
}
use gonitor.Socket
use gonitor.Socket.Queue.{drain_lem}
use gonitor.Socket.Step.{
  Event, opens, server_closes, closes, fails, destroys, receives, fires, sends, run_job, fire, step,
  run, connect, begin_close, disconnect, deliver,
}

module _ {M D App : Type 0} where
  abbrev pub hearts : Socket M D App → ℕ
  hearts s = count is_heart s.timers.pending

  abbrev pub polls : Socket M D App → ℕ
  polls s = count is_poll s.timers.pending

  abbrev pub reconnects : Socket M D App → ℕ
  reconnects s = count is_reconnect s.timers.pending

  pub record IsCore (s : Socket M D App) : Type 0 where
    pub named :
        Named s.heart.heart_time_out s.heart.server_heart_time_out s.reconnect_timer s.timers
    pub one_heart : hearts s ≤ 1
    pub one_reconnect : reconnects s ≤ 1
    pub waits : 0 < reconnects s → (s.ws ≡ some ReadyState.closed) × (s.options.is_restory ≡ false)

  abbrev pub IsPolled : Socket M D App → Type 0
  IsPolled s = s.ws ≡ some ReadyState.opened → 0 < polls s

  pub record IsValid (s : Socket M D App) : Type 0 where
    pub core : IsCore s
    pub polled : IsPolled s

  pub send-IsCore : (m : M) (s : Socket M D App) → IsCore s → IsCore (send m s)
  unfolding send
  send-IsCore m s v = record {
    named = v.named;
    one_heart = v.one_heart;
    one_reconnect = v.one_reconnect;
    waits = v.waits;
  }

  pub send_all-IsCore : (ms : List M) (s : Socket M D App) → IsCore s → IsCore (send_all ms s)
  send_all-IsCore [] s v = v
  send_all-IsCore (m ∷ ms) s v = send_all-IsCore ms (send m s) (send-IsCore m s v)

  module _ (s : Socket M D App) (v : IsCore s) where
    pub stop_heart-IsCore : IsCore (stop_heart s)
    unfolding stop_heart
    stop_heart-IsCore = record {
      named = Named-reset s.reconnect_timer s.heart s.timers v.named;
      one_heart = omega (arith, count-reset_heart s.reconnect_timer s.heart s.timers v.named);
      one_reconnect =
          rw (count-reset_reconnect s.reconnect_timer s.heart s.timers v.named) v.one_reconnect;
      waits = rw (count-reset_reconnect s.reconnect_timer s.heart s.timers v.named) v.waits;
    }

    pub polls-stop_heart : polls (stop_heart s) ≡ polls s
    unfolding stop_heart
    polls-stop_heart = count-reset_poll s.reconnect_timer s.heart s.timers v.named

    pub hearts-stop_heart : hearts (stop_heart s) ≡ 0
    unfolding stop_heart
    hearts-stop_heart = count-reset_heart s.reconnect_timer s.heart s.timers v.named

    pub restart_heart-IsCore : IsCore (restart_heart s)
    unfolding restart_heart
    restart_heart-IsCore =
        let w = Named-reset s.reconnect_timer s.heart s.timers v.named in
        let z = count-reset_heart s.reconnect_timer s.heart s.timers v.named in
        let r = count-reset_reconnect s.reconnect_timer s.heart s.timers v.named in
        record {
          named =
              Named-set_beat _ _ _ (reset s.heart s.timers) w s.heart.timeout
                (omega (arith, z, count-heart (reset s.heart s.timers).pending));
          one_heart = unfold set_timeout in omega (arith, z);
          one_reconnect = unfold set_timeout in rw r v.one_reconnect;
          waits = unfold set_timeout in rw r v.waits;
        }

    pub polls-restart_heart : polls (restart_heart s) ≡ polls s
    unfolding restart_heart set_timeout
    polls-restart_heart = count-reset_poll s.reconnect_timer s.heart s.timers v.named

    pub set_poll-IsCore : IsCore (record s { timers = set_timeout Job.poll 100 s.timers })
    set_poll-IsCore = record {
      named = Named-set_poll _ _ _ s.timers v.named 100;
      one_heart = unfold set_timeout in v.one_heart;
      one_reconnect = unfold set_timeout in v.one_reconnect;
      waits = unfold set_timeout in v.waits;
    }

    -- With no reconnection pending, the connection may be in any state.
    pub set_ws-IsCore : (w : Option ReadyState) → reconnects s ≡ 0 → IsCore (record s { ws = w })
    set_ws-IsCore w q = record {
      named = v.named;
      one_heart = v.one_heart;
      one_reconnect = v.one_reconnect;
      waits = λ h. absurd (omega arith);
    }

    -- With the timer of the reconnection cleared, the options and the connection may be any.
    pub clear_reconnect-IsCore :
        (o : Options M D App) (w : Option ReadyState)
        → IsCore
            (record s { timers = clear_timeout s.reconnect_timer s.timers; options = o; ws = w })
    clear_reconnect-IsCore o w =
        let z = count-clear_reconnect s.reconnect_timer s.heart s.timers v.named in
        record {
          named = Named-clear_timeout _ _ _ s.timers v.named s.reconnect_timer;
          one_heart =
              rw (count-clear_reconnect_heart s.reconnect_timer s.heart s.timers v.named)
                v.one_heart;
          one_reconnect = omega (arith, z);
          waits = λ h. absurd (omega (arith, z));
        }

    pub reset_retries-IsCore : IsCore (reset_retries s)
    unfolding reset_retries
    reset_retries-IsCore = clear_reconnect-IsCore _ s.ws

    pub polls-reset_retries : polls (reset_retries s) ≡ polls s
    unfolding reset_retries
    polls-reset_retries = count-clear_reconnect_poll s.reconnect_timer s.heart s.timers v.named

    pub on_reconnect-IsCore :
        reconnects s ≡ 0
        → s.ws ≡ some ReadyState.closed
        → s.options.is_restory ≡ false
        → IsCore (on_reconnect s)
    unfolding on_reconnect set_timeout
    on_reconnect-IsCore q e r =
        elim (Bool-cases
          (is_pos s.options.reconnect_count || is_minus_one s.options.reconnect_count)) [
            | inl more ↦ rw more (record {
              named = Named-set_reconnect _ _ _ s.timers v.named s.options.reconnect_time q;
              one_heart = v.one_heart;
              one_reconnect = omega arith;
              waits = λ h. (e, r);
            })
            | inr spent ↦ rw spent reset_retries-IsCore
          ]
