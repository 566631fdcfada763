-- ===== src/Logs/Watched.antt =====
-- A running log that is over has a timer that deletes it
-- (web/client/src/screen/taskInfo/TaskRunningLog.js).
use gonitor.Prelude.{
  ℕ, Bool, true, not, ◌||◌, Option, none, some, List, [], ◌∷◌, ◌++◌, ◌==◌, nat_eq, nat_beq_iff,
  find, any, Bool-cases, inl, inr, ◌⊎◌, ◌≡◌, refl, ap, ◌∙◌, arith,
}
use gonitor.Logs.{
  LogInfo, LogRow, Ref, Running, is_over, list_of, has_id, new_row, row_for, started, new_timers,
  set_log_list, row_changed, is_ref,
}

-- A row that is over, and whose output is closed, has a pending timer.
abbrev pub is_watched : ℕ → Option LogRow → List Ref → Bool
is_watched id none ts = true
is_watched id (some r) ts = not (is_over r) || any (is_ref id r.instance_id) ts

pub any-append_left :
    (id n : ℕ) (ts us : List Ref)
    → any (is_ref id n) ts ≡ true
    → any (is_ref id n) (ts ++ us) ≡ true
any-append_left id n [] us h = absurd (ground arith)
any-append_left id n (t ∷ ts) us h = elim (Bool-cases (is_ref id n t)) [
  | inl this ↦ ground (arith, this)
  | inr other ↦ ground (arith, other, any-append_left id n ts us (ground (arith, other, h)))
]

any-append_right :
    (id n : ℕ) (ts us : List Ref)
    → any (is_ref id n) us ≡ true
    → any (is_ref id n) (ts ++ us) ≡ true
any-append_right id n [] us h = h
any-append_right id n (t ∷ ts) us h = ground (arith, any-append_right id n ts us h)

started-keeps :
    (id n m : ℕ) (l : LogInfo) (o : Option LogRow) (ts : List Ref)
    → any (is_ref id m) ts ≡ true
    → any (is_ref id m) (started n l o ts) ≡ true
started-keeps id n m l none ts h = ground (arith, h)
started-keeps id n m l (some r) ts h = h

-- A row that is new and over gets its timer.
new_timers-has :
    (n id : ℕ) (rows : ℕ → Option LogRow) (logs : List LogInfo) (log : LogInfo)
    → rows id ≡ none
    → find (has_id id) logs ≡ some log
    → is_over (new_row n log) ≡ true
    → any (is_ref id n) (new_timers n rows logs) ≡ true
new_timers-has n id rows [] log fresh f o = absurd (ground arith)
new_timers-has n id rows (l ∷ logs) log fresh f o =
    elim (Bool-cases (l.id == id))
      as (λ x. any (is_ref id n) (new_timers n rows (l ∷ logs)) ≡ true) [
        | inl same ↦
            let here : l ≡ log = ground (arith, same, f) in
            let unknown = ap rows ((nat_beq_iff l.id id).0 same) ∙ fresh in
            let over = ap (λ x. is_over (new_row n x)) here ∙ o in
            ap (λ x. any (is_ref id n) (started n l x (new_timers n rows logs))) unknown
            ∙ ground (arith, over, same)
        | inr other ↦
            started-keeps id n n l (rows l.id) (new_timers n rows logs)
              (new_timers-has n id rows logs log fresh (ground (arith, other, f)) o)
      ]

-- A rendering keeps a row watched, unless it drops it.
row_for-watched :
    (n id : ℕ) (found : Option LogInfo) (rows : ℕ → Option LogRow) (old : Option LogRow)
    (logs : List LogInfo) (ts : List Ref)
    → find (has_id id) logs ≡ found
    → rows id ≡ old
    → (found ≡ none) ⊎ (is_watched id old ts ≡ true)
    → is_watched id (row_for n found old) (ts ++ new_timers n rows logs) ≡ true
row_for-watched n id none rows old logs ts f o w = refl
row_for-watched n id (some log) rows none logs ts f o w =
    elim (Bool-cases (is_over (new_row n log)))
      as (λ x. is_watched id (some (new_row n log)) (ts ++ new_timers n rows logs) ≡ true) [
        | inl over ↦ ground (
          arith,
          any-append_right id n ts (new_timers n rows logs)
              (new_timers-has n id rows logs log o f over),
        )
        | inr waits ↦ ground (arith, waits)
      ]
row_for-watched n id (some log) rows (some r) logs ts f o (inl e) = absurd (ground arith)
row_for-watched n id (some log) rows (some r) logs ts f o (inr w) =
    elim (Bool-cases (is_over r))
      as (λ x.
        is_watched id (some (record r { log_info = log })) (ts ++ new_timers n rows logs) ≡ true) [
          | inl over ↦ ground (
            arith,
            any-append_left id r.instance_id ts (new_timers n rows logs) (ground (arith, over, w)),
          )
          | inr waits ↦ ground (arith, waits)
        ]

abbrev pub Watches : Running → Type 0
Watches s = (id : ℕ) → is_watched id (s.rows id) s.timers ≡ true

pub set_log_list-Watches :
    (logs : Option (List LogInfo)) (s : Running) (id : ℕ)
    → (find (has_id id) (list_of logs) ≡ none) ⊎ (is_watched id (s.rows id) s.timers ≡ true)
    → is_watched id ((set_log_list logs s).rows id) (set_log_list logs s).timers ≡ true
unfolding set_log_list
set_log_list-Watches logs s id w =
    row_for-watched s.next_instance id (find (has_id id) (list_of logs)) s.rows (s.rows id)
      (list_of logs) s.timers refl refl w

watched_more :
    (id : ℕ) (o : Option LogRow) (ts us : List Ref)
    → is_watched id o ts ≡ true
    → is_watched id o (ts ++ us) ≡ true
watched_more id none ts us h = refl
watched_more id (some r) ts us h = elim (Bool-cases (is_over r)) [
  | inl over ↦ ground (arith, any-append_left id r.instance_id ts us (ground (arith, over, h)))
  | inr waits ↦ ground (arith, waits)
]

pub row_changed-Watches :
    (id : ℕ) (r : LogRow) (s : Running) (j : ℕ)
    → is_watched j (s.rows j) s.timers ≡ true
    → is_watched j ((row_changed id r s).rows j) (row_changed id r s).timers ≡ true
unfolding row_changed
row_changed-Watches id r s j w = elim (Bool-cases (is_over r)) [
  | inl over ↦ elim (Bool-cases (id == j)) [
    | inl same ↦ ground (
      arith,
      over,
      same,
      any-append_right j r.instance_id s.timers
          (record { id = id; instance_id = r.instance_id } ∷ []) (ground (arith, same)),
    )
    | inr other ↦ ground (
      arith,
      over,
      other,
      watched_more j (s.rows j) s.timers (record { id = id; instance_id = r.instance_id } ∷ []) w,
    )
  ]
  | inr waits ↦ ground (arith, waits, w)
]
