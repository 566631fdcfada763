-- ===== src/Logs/Late.antt =====
-- A second timer of a row that is gone (web/client/src/screen/taskInfo/TaskRunningLog.js).
use gonitor.Prelude.{
  ℕ, true, false, not, none, some, List, ◌∷◌, ◌==◌, nat_eq, filter, any, ◌≡◌, arith,
}
use gonitor.Logs.{
  LogInfo, LogRow, Ref, Running, is_over, list_of, new_timers, set_log_list, log_added, delete_log,
  is_ref, remove_ref, call_latest, timer_fired,
}
use gonitor.Logs.Watched.{any-append_left}
use gonitor.Logs.Fired.{find-filtered}

-- A row that is gone, whose last rendering was over with a list, and which has a timer pending
abbrev IsLate : ℕ → ℕ → List LogInfo → Running → Type 0
IsLate id n logs s =
    (s.rows id ≡ none)
    × (s.gone id n ≡ some (record { deletes = true; logs = logs }))
    × (any (is_ref id n) s.timers ≡ true)

abbrev without : ℕ → List LogInfo → List LogInfo
without id logs = filter (λ log. not (log.id == id)) logs

-- A first timer makes a row late that has started two.
fired-IsLate :
    (id : ℕ) (r : LogRow) (s : Running) (logs : List LogInfo) (others : List Ref)
    → s.log_list ≡ some logs
    → s.rows id ≡ some r
    → is_over r ≡ true
    → s.timers
      ≡ record { id = id; instance_id = r.instance_id }
        ∷ record { id = id; instance_id = r.instance_id }
        ∷ others
    → IsLate id r.instance_id logs (timer_fired id r.instance_id s)
      × ((timer_fired id r.instance_id s).log_list ≡ some (without id logs))
unfolding timer_fired call_latest delete_log set_log_list
fired-IsLate id r s logs others l e o t =
    let found = find-filtered id (list_of s.log_list) in
    (
      (
        ground (arith, l, e, o, t, found),
        ground (arith, l, e, o, t, found),
        ground (
          arith,
          l,
          e,
          o,
          t,
          any-append_left id r.instance_id (remove_ref id r.instance_id s.timers)
              (new_timers s.next_instance s.rows (without id (list_of s.log_list)))
              (ground (arith, t)),
        ),
      ),
      ground (arith, l, e, o, t),
    )

added-IsLate :
    (id n : ℕ) (logs shown : List LogInfo) (new : LogInfo) (s : Running)
    → IsLate id n logs s
    → s.log_list ≡ some (without id shown)
    → (new.id == id) ≡ false
    → IsLate id n logs (log_added new s)
unfolding log_added set_log_list
added-IsLate id n logs shown new s (r, g, t) l d =
    let found = find-filtered id shown in
    (
      ground (arith, r, g, t, l, d, found),
      ground (arith, r, g, t, l, d, found),
      ground (
        arith,
        l,
        any-append_left id n s.timers (new_timers s.next_instance s.rows (new ∷ without id shown))
            t,
      ),
    )

late-fires :
    (id n : ℕ) (logs : List LogInfo) (s : Running)
    → IsLate id n logs s
    → (timer_fired id n s).log_list ≡ some (without id logs)
unfolding timer_fired call_latest delete_log set_log_list
late-fires id n logs s (r, g, t) = ground (arith, r, g, t)

-- If a row whose log has ended and whose output is closed has two timers pending, the first two of
-- the table, then a log of another id that is added between the first, which deletes the log of the
-- row, and the second is lost with the second: the list is then again the one from before the first, without the log of
-- the row.
pub late_timer-drops :
    (id : ℕ) (r : LogRow) (s : Running) (logs : List LogInfo) (others : List Ref) (new : LogInfo)
    → s.log_list ≡ some logs
    → s.rows id ≡ some r
    → is_over r ≡ true
    → s.timers
      ≡ record { id = id; instance_id = r.instance_id }
        ∷ record { id = id; instance_id = r.instance_id }
        ∷ others
    → (new.id == id) ≡ false
    → (timer_fired id r.instance_id (log_added new (timer_fired id r.instance_id s))).log_list
      ≡ some (filter (λ log. not (log.id == id)) logs)
late_timer-drops id r s logs others new l e o t d =
    let (late, shown) = fired-IsLate id r s logs others l e o t in
    late-fires id r.instance_id logs (log_added new (timer_fired id r.instance_id s))
      (added-IsLate id r.instance_id logs logs new (timer_fired id r.instance_id s) late shown d)
