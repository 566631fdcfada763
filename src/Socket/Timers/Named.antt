-- ===== src/Socket/Timers/Named.antt =====
-- The handles that a socket keeps (`heartTimeOut`, `ServerHeartTimeOut`, `reconnectTimer`) name
-- its pending timers, so that clearing them leaves no orphan.
use gonitor.Prelude.{
  ℕ, suc, ◌+◌, ◌<◌, Bool, true, false, Option, none, some, List, [], ◌∷◌, ◌≡◌, refl, arith,
}
use gonitor.Socket.Timers.{Job, Timer, TimerTable, set_timeout, clear_timeout}
use gonitor.Socket.Timers.Laws.{
  count, Descends, NamesOnly, NamesAll, Descends-drop_timer, NamesAll-of_zero, NamesAll-drop_timer,
  NamesOnly-drop_timer, NamesOnly-fresh,
}

abbrev pub is_beat : Job → Bool
is_beat Job.beat = true
is_beat _ = false

abbrev pub is_server_beat : Job → Bool
is_server_beat Job.server_beat = true
is_server_beat _ = false

-- A timer of the heart, in either stage.
abbrev pub is_heart : Job → Bool
is_heart Job.beat = true
is_heart Job.server_beat = true
is_heart _ = false

abbrev pub is_poll : Job → Bool
is_poll Job.poll = true
is_poll _ = false

abbrev pub is_reconnect : Job → Bool
is_reconnect Job.reconnect = true
is_reconnect _ = false

abbrev pub IsBelow : ℕ → Option ℕ → Type 0
IsBelow n none = Unit {0}
IsBelow n (some i) = i < n

pub record Named (h sv rc : Option ℕ) (ts : TimerTable) : Type 0 where
  pub order : Descends ts.next_id ts.pending
  pub beat_all : NamesAll is_beat h ts.pending
  pub beat_only : NamesOnly is_heart h ts.pending
  pub beat_below : IsBelow ts.next_id h
  pub server_all : NamesAll is_server_beat sv ts.pending
  pub server_only : NamesOnly is_heart sv ts.pending
  pub server_below : IsBelow ts.next_id sv
  pub reconnect_all : NamesAll is_reconnect rc ts.pending
  pub reconnect_only : NamesOnly is_reconnect rc ts.pending
  pub reconnect_below : IsBelow ts.next_id rc

pub count-heart : (ts : List Timer) → count is_heart ts ≡ count is_beat ts + count is_server_beat ts
count-heart [] = refl
count-heart (t ∷ ts) = ground (arith, count-heart ts)

module _ (h sv rc : Option ℕ) (ts : TimerTable) (v : Named h sv rc ts) where
  pub Named-clear_timeout : (k : Option ℕ) → Named h sv rc (clear_timeout k ts)
  unfolding clear_timeout
  Named-clear_timeout none = v
  Named-clear_timeout (some i) = record {
    order = Descends-drop_timer i ts.next_id ts.pending v.order;
    beat_all = NamesAll-drop_timer is_beat h i ts.pending v.beat_all;
    beat_only = NamesOnly-drop_timer is_heart h i ts.pending v.beat_only;
    beat_below = v.beat_below;
    server_all = NamesAll-drop_timer is_server_beat sv i ts.pending v.server_all;
    server_only = NamesOnly-drop_timer is_heart sv i ts.pending v.server_only;
    server_below = v.server_below;
    reconnect_all = NamesAll-drop_timer is_reconnect rc i ts.pending v.reconnect_all;
    reconnect_only = NamesOnly-drop_timer is_reconnect rc i ts.pending v.reconnect_only;
    reconnect_below = v.reconnect_below;
  }

  IsBelow-suc : (k : Option ℕ) → IsBelow ts.next_id k → IsBelow (suc ts.next_id) k
  IsBelow-suc none b = tt
  IsBelow-suc (some i) b = omega arith

  -- A new timer is named by no handle yet.
  only_new :
      (p : Job → Bool) (k : Option ℕ) (d : ℕ) (j : Job)
      → NamesOnly p k ts.pending
      → IsBelow ts.next_id k
      → NamesOnly p k (record { id = ts.next_id; delay = d; job = j } ∷ ts.pending)
  only_new p none d j o b = tt
  only_new p (some i) d j o b = ((λ e. absurd (omega arith)), o)

  pub Named-set_poll : (d : ℕ) → Named h sv rc (set_timeout Job.poll d ts)
  unfolding set_timeout
  Named-set_poll d = record {
    order = (omega arith, v.order);
    beat_all = ((λ e. cc), v.beat_all);
    beat_only = only_new is_heart h d Job.poll v.beat_only v.beat_below;
    beat_below = IsBelow-suc h v.beat_below;
    server_all = ((λ e. cc), v.server_all);
    server_only = only_new is_heart sv d Job.poll v.server_only v.server_below;
    server_below = IsBelow-suc sv v.server_below;
    reconnect_all = ((λ e. cc), v.reconnect_all);
    reconnect_only = only_new is_reconnect rc d Job.poll v.reconnect_only v.reconnect_below;
    reconnect_below = IsBelow-suc rc v.reconnect_below;
  }

  pub Named-set_beat :
      (d : ℕ)
      → count is_beat ts.pending ≡ 0
      → Named (some ts.next_id) sv rc (set_timeout Job.beat d ts)
  unfolding set_timeout
  Named-set_beat d z = record {
    order = (omega arith, v.order);
    beat_all = ((λ e. refl), NamesAll-of_zero is_beat (some ts.next_id) ts.pending z);
    beat_only = (
      (λ e. refl),
      NamesOnly-fresh is_heart ts.next_id ts.next_id ts.pending v.order (omega arith),
    );
    beat_below = omega arith;
    server_all = ((λ e. cc), v.server_all);
    server_only = only_new is_heart sv d Job.beat v.server_only v.server_below;
    server_below = IsBelow-suc sv v.server_below;
    reconnect_all = ((λ e. cc), v.reconnect_all);
    reconnect_only = only_new is_reconnect rc d Job.beat v.reconnect_only v.reconnect_below;
    reconnect_below = IsBelow-suc rc v.reconnect_below;
  }

  pub Named-set_server :
      (d : ℕ)
      → count is_server_beat ts.pending ≡ 0
      → Named h (some ts.next_id) rc (set_timeout Job.server_beat d ts)
  unfolding set_timeout
  Named-set_server d z = record {
    order = (omega arith, v.order);
    beat_all = ((λ e. cc), v.beat_all);
    beat_only = only_new is_heart h d Job.server_beat v.beat_only v.beat_below;
    beat_below = IsBelow-suc h v.beat_below;
    server_all = ((λ e. refl), NamesAll-of_zero is_server_beat (some ts.next_id) ts.pending z);
    server_only = (
      (λ e. refl),
      NamesOnly-fresh is_heart ts.next_id ts.next_id ts.pending v.order (omega arith),
    );
    server_below = omega arith;
    reconnect_all = ((λ e. cc), v.reconnect_all);
    reconnect_only = only_new is_reconnect rc d Job.server_beat v.reconnect_only v.reconnect_below;
    reconnect_below = IsBelow-suc rc v.reconnect_below;
  }

  pub Named-set_reconnect :
      (d : ℕ)
      → count is_reconnect ts.pending ≡ 0
      → Named h sv (some ts.next_id) (set_timeout Job.reconnect d ts)
  unfolding set_timeout
  Named-set_reconnect d z = record {
    order = (omega arith, v.order);
    beat_all = ((λ e. cc), v.beat_all);
    beat_only = only_new is_heart h d Job.reconnect v.beat_only v.beat_below;
    beat_below = IsBelow-suc h v.beat_below;
    server_all = ((λ e. cc), v.server_all);
    server_only = only_new is_heart sv d Job.reconnect v.server_only v.server_below;
    server_below = IsBelow-suc sv v.server_below;
    reconnect_all = ((λ e. refl), NamesAll-of_zero is_reconnect (some ts.next_id) ts.pending z);
    reconnect_only = (
      (λ e. refl),
      NamesOnly-fresh is_reconnect ts.next_id ts.next_id ts.pending v.order (omega arith),
    );
    reconnect_below = omega arith;
  }
