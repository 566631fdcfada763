-- ===== src/Logs/Fired.antt =====
-- What the timers of the rows do, and that a log that is over is deleted in the end
-- (web/client/src/screen/taskInfo/TaskRunningLog.js).
use gonitor.Prelude.{
  ℕ, Bool, true, false, not, ◌&&◌, Option, none, some, List, [], ◌∷◌, if◌then◌else◌, ◌==◌, nat_eq,
  nat_beq_iff, filter, find, any, Bool-cases, inl, inr, ◌⊎◌, ◌≡◌, refl, sym, ap, ◌∙◌, arith, subst,
}
use gonitor.Request.{got, failed}
use gonitor.Logs.{
  LogInfo, LogRow, Closure, Ref, Running, LogEvent, first_running, is_over, list_of, has_id,
  set_log_list, running_listed, log_added, delete_log, row_changed, log_updated, output_toggled,
  output_closed, is_ref, remove_ref, alive, call_latest, timer_fired, on_log_event, merge, run_logs,
}
use gonitor.Logs.Watched.{is_watched, Watches, set_log_list-Watches, row_changed-Watches}

remove_ref-keeps :
    (id n j m : ℕ) (ts : List Ref)
    → (id == j && n == m) ≡ false
    → any (is_ref j m) ts ≡ true
    → any (is_ref j m) (remove_ref id n ts) ≡ true
remove_ref-keeps id n j m [] d h = absurd (ground arith)
remove_ref-keeps id n j m (t ∷ ts) d h = elim (Bool-cases (is_ref id n t)) [
  | inl removed ↦ ground (arith, removed, d, h)
  | inr kept ↦ elim (Bool-cases (is_ref j m t)) [
    | inl this ↦ ground (arith, kept, this)
    | inr other ↦
        ground (arith, kept, other, remove_ref-keeps id n j m ts d (ground (arith, other, h)))
  ]
]

-- What the removal of a timer does to a row that is watched
removed-watched :
    (id n j : ℕ) (o : Option LogRow) (ts : List Ref)
    → (id == j) ≡ false
    → is_watched j o ts ≡ true
    → is_watched j o (remove_ref id n ts) ≡ true
removed-watched id n j none ts d h = refl
removed-watched id n j (some r) ts d h = elim (Bool-cases (is_over r)) [
  | inl over ↦ ground (
    arith,
    remove_ref-keeps id n j r.instance_id ts (ground (arith, d)) (ground (arith, over, h)),
  )
  | inr waits ↦ ground (arith, waits)
]

pub find-filtered :
    (id : ℕ) (logs : List LogInfo)
    → find (has_id id) (filter (λ log. not (log.id == id)) logs) ≡ none
find-filtered id [] = refl
find-filtered id (log ∷ logs) = ground (arith, find-filtered id logs)

-- A timer that is over leaves the rows watched that it has not deleted and that had not started it.
removed-other :
    (id n : ℕ) (o : Option LogRow) (ts : List Ref)
    → alive n o ≡ none
    → is_watched id o ts ≡ true
    → is_watched id o (remove_ref id n ts) ≡ true
removed-other id n none ts a h = refl
removed-other id n (some r) ts a h = elim (Bool-cases (is_over r)) [
  | inl over ↦ ground (
    arith,
    remove_ref-keeps id n id r.instance_id ts (ground (arith, a)) (ground (arith, over, h)),
  )
  | inr waits ↦ ground (arith, waits)
]

alive-row : (n : ℕ) (o : Option LogRow) (r : LogRow) → alive n o ≡ some r → o ≡ some r
alive-row n none r h = absurd (ground arith)
alive-row n (some q) r h = ground (arith, h)

delete_log-Watches :
    (logs : List LogInfo) (id n : ℕ) (s : Running)
    → Watches s
    → Watches (delete_log logs id (record s { timers = remove_ref id n s.timers }))
unfolding delete_log
delete_log-Watches logs id n s w j =
    set_log_list-Watches (some (filter (λ log. not (log.id == id)) logs))
      (record s { timers = remove_ref id n s.timers }) j
      (elim (Bool-cases (id == j)) [
        | inl same ↦ inl (
            ap (λ k. find (has_id k) (filter (λ log. not (log.id == id)) logs))
              (sym ((nat_beq_iff id j).0 same))
            ∙ find-filtered id logs)
        | inr other ↦ inr (removed-watched id n j (s.rows j) s.timers other (w j))
      ])

-- The state in which a timer calls
abbrev spent : ℕ → ℕ → Running → Running
spent id n s = record s { timers = remove_ref id n s.timers }

by_key :
    (id j : ℕ) (s s' : Running)
    → is_watched id (s.rows id) s'.timers ≡ true
    → ((id == j) ≡ true) ⊎ (is_watched j (s.rows j) s'.timers ≡ true)
    → is_watched j (s.rows j) s'.timers ≡ true
by_key id j s s' h (inl same) =
    ap (λ k. is_watched k (s.rows k) s'.timers) (sym ((nat_beq_iff id j).0 same)) ∙ h
by_key id j s s' h (inr w) = w

spent-Watches :
    (id n : ℕ) (s : Running)
    → Watches s
    → is_watched id (s.rows id) (remove_ref id n s.timers) ≡ true
    → Watches (spent id n s)
spent-Watches id n s w h j = by_key id j s (spent id n s) h (elim (Bool-cases (id == j)) [
  | inl same ↦ inl same
  | inr other ↦ inr (removed-watched id n j (s.rows j) s.timers other (w j))
])

call_latest-Watches :
    (id n : ℕ) (o : Option LogRow) (c : Option Closure) (s : Running)
    → alive n (s.rows id) ≡ o
    → Watches s
    → Watches (call_latest id o c (spent id n s))
unfolding call_latest
call_latest-Watches id n (some r) c s a w = elim (Bool-cases (is_over r)) [
  | inl over ↦
      subst
        (λ b.
          Watches (if b then delete_log (list_of s.log_list) id (spent id n s) else spent id n s))
        (sym over) (delete_log-Watches (list_of s.log_list) id n s w)
  | inr waits ↦
      subst
        (λ b.
          Watches (if b then delete_log (list_of s.log_list) id (spent id n s) else spent id n s))
        (sym waits)
        (spent-Watches id n s w (
          ap (λ o. is_watched id o (remove_ref id n s.timers)) (alive-row n (s.rows id) r a)
          ∙ ground (arith, waits)))
]
call_latest-Watches id n none none s a w =
    spent-Watches id n s w (removed-other id n (s.rows id) s.timers a (w id))
call_latest-Watches id n none (some c) s a w = elim (Bool-cases c.deletes) [
  | inl deletes ↦
      subst (λ b. Watches (if b then delete_log c.logs id (spent id n s) else spent id n s))
        (sym deletes) (delete_log-Watches c.logs id n s w)
  | inr keeps ↦
      subst (λ b. Watches (if b then delete_log c.logs id (spent id n s) else spent id n s))
        (sym keeps) (spent-Watches id n s w (removed-other id n (s.rows id) s.timers a (w id)))
]

timer_fired-Watches : (id n : ℕ) (s : Running) → Watches s → Watches (timer_fired id n s)
unfolding timer_fired
timer_fired-Watches id n s w = elim (Bool-cases (any (is_ref id n) s.timers)) [
  | inl pending ↦
      subst (λ b. Watches (if b then called else s)) (sym pending)
        (call_latest-Watches id n (alive n (s.rows id)) (s.gone id n) s refl w)
  | inr absent ↦ subst (λ b. Watches (if b then called else s)) (sym absent) w
]
  where
    called : Running
    called = call_latest id (alive n (s.rows id)) (s.gone id n) (spent id n s)

changed-Watches :
    (id : ℕ) (f : LogRow → LogRow) (o : Option LogRow) (s : Running)
    → Watches s
    → Watches (elim o as (λ x. Running) [ none ↦ s | some r ↦ row_changed id (f r) s ])
changed-Watches id f none s w = w
changed-Watches id f (some r) s w = λ j. row_changed-Watches id (f r) s j (w j)

closed-Watches :
    (id : ℕ) (o : Option LogRow) (s : Running)
    → Watches s
    → Watches (elim o as (λ x. Running) [
      | none ↦ s
      | some r ↦ if r.is_open then row_changed id (record r { is_open = false }) s else s
    ])
closed-Watches id none s w = w
closed-Watches id (some r) s w = if-Watches r.is_open
  where
    changed : Running
    changed = row_changed id (record r { is_open = false }) s

    if-Watches : (b : Bool) → Watches (if b then changed else s)
    if-Watches true = λ j. row_changed-Watches id (record r { is_open = false }) s j (w j)
    if-Watches false = w

added-Watches :
    (log : LogInfo) (o : Option (List LogInfo)) (s : Running)
    → Watches s
    → Watches
        (elim o as (λ x. Running) [ none ↦ s | some logs ↦ set_log_list (some (log ∷ logs)) s ])
added-Watches log none s w = w
added-Watches log (some logs) s w = λ j. set_log_list-Watches (some (log ∷ logs)) s j (inr (w j))

on_log_event-Watches : (e : LogEvent) (s : Running) → Watches s → Watches (on_log_event e s)
unfolding on_log_event running_listed log_added log_updated output_toggled output_closed
on_log_event-Watches (LogEvent.lists (failed err)) s w = w
on_log_event-Watches (LogEvent.lists (got body)) s w =
    λ j. set_log_list-Watches body.content s j (inr (w j))
on_log_event-Watches (LogEvent.adds log) s w = added-Watches log s.log_list s w
on_log_event-Watches (LogEvent.updates id u) s w =
    changed-Watches id (λ r. record r { self_log_info = merge u r.self_log_info }) (s.rows id) s w
on_log_event-Watches (LogEvent.toggles id) s w =
    changed-Watches id (λ r. record r { is_open = not r.is_open }) (s.rows id) s w
on_log_event-Watches (LogEvent.closes id) s w = closed-Watches id (s.rows id) s w
on_log_event-Watches (LogEvent.fires id n) s w = timer_fired-Watches id n s w

run_logs-Watches : (es : List LogEvent) (s : Running) → Watches s → Watches (run_logs es s)
unfolding run_logs
run_logs-Watches [] s w = w
run_logs-Watches (e ∷ es) s w = run_logs-Watches es (on_log_event e s) (on_log_event-Watches e s w)

-- Whatever happens to the table from its first rendering on, a log whose task has ended and whose
-- output is closed has a timer pending that its row has started.
pub first-watched :
    (es : List LogEvent) (id : ℕ)
    → is_watched id ((run_logs es first_running).rows id) (run_logs es first_running).timers ≡ true
unfolding first_running
first-watched es id = run_logs-Watches es first_running (λ j. refl) id

fired-deletes :
    (id : ℕ) (r : LogRow) (s : Running)
    → s.rows id ≡ some r
    → is_over r ≡ true
    → is_watched id (s.rows id) s.timers ≡ true
    → (timer_fired id r.instance_id s).log_list
      ≡ some (filter (λ log. not (log.id == id)) (list_of s.log_list))
unfolding timer_fired call_latest delete_log set_log_list
fired-deletes id r s e o w =
    let pending : any (is_ref id r.instance_id) s.timers ≡ true =
      ground (arith, ap (λ x. is_watched id x s.timers) e, o, w) in
    ground (arith, pending, e, o)

fired-keeps :
    (id : ℕ) (r : LogRow) (s : Running)
    → s.rows id ≡ some r
    → is_over r ≡ false
    → (timer_fired id r.instance_id s).log_list ≡ s.log_list
unfolding timer_fired call_latest
fired-keeps id r s e o = elim (Bool-cases (any (is_ref id r.instance_id) s.timers)) [
  | inl pending ↦ ground (arith, pending, e, o)
  | inr absent ↦ ground (arith, absent)
]

-- After any events, and for any row that is in the table: as a timer that the row has started is
-- over, the list loses the log of the row and keeps all others, in order, if this log has ended
-- and its output is closed, and stays as it is otherwise.
pub timer_fired-deletes :
    (es : List LogEvent) (id : ℕ) (r : LogRow)
    → (run_logs es first_running).rows id ≡ some r
    → (let s = run_logs es first_running in
        list_of (timer_fired id r.instance_id s).log_list ≡ (
          if not r.self_log_info.status && not r.is_open
          then filter (λ log. not (log.id == id)) (list_of s.log_list)
          else list_of s.log_list))
timer_fired-deletes es id r e =
    let s = run_logs es first_running in
    elim (Bool-cases (is_over r)) [
      | inl over ↦
          ap list_of (fired-deletes id r s e over (first-watched es id))
          ∙ ap
              (λ b.
                if b
                then filter (λ log. not (log.id == id)) (list_of s.log_list)
                else list_of s.log_list)
              (sym over)
      | inr waits ↦
          ap list_of (fired-keeps id r s e waits)
          ∙ ap
              (λ b.
                if b
                then filter (λ log. not (log.id == id)) (list_of s.log_list)
                else list_of s.log_list)
              (sym waits)
    ]
