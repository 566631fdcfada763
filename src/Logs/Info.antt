-- ===== src/Logs/Info.antt =====
-- The page of one task (web/client/src/screen/taskInfo/TaskInfo.js): the task with its updates and
-- its tags, and the window of the chart of its running count.
use gonitor.Prelude.{
  ℕ, zero, suc, ◌+◌, ◌-◌, ◌≤◌, Bool, true, Option, none, some, List, [], ◌∷◌, ◌++◌, String, concat,
  if◌then◌else◌, ◌==◌, nat_eq, ltb, truthy, length, length-append, filter, map, All, Bool-cases,
  inl, inr, ◌≡◌, refl, sym, ap, ◌∙◌, append-nil, append_assoc, arith,
}
use gonitor.Request.{Reply, got, failed}
use gonitor.Js.{trim, split_commas, join_commas}
use text.Mathlib.TextLemmas.{cons-append}
use gonitor.Js.Laws.{NoComma, split_commas-join_commas}

-- The fields of the task that the page shows
pub record ShownTask : Type 0 where
  pub name : String
  pub description : String
  pub schedule : String
  pub exec_type : String
  pub is_disable : Bool
  pub last_run_time : String
  pub next_run_time : String
  pub priority : ℕ
  pub running_count : ℕ
  pub tags : String

unfoldable pub first_task : ShownTask
first_task = record {
  name = "";
  description = "";
  schedule = "";
  exec_type = "";
  is_disable = true;
  last_run_time = "";
  next_run_time = "";
  priority = 1;
  running_count = 0;
  tags = "";
}

-- The data of an update, `none` for a field that is not there
pub record TaskUpdate : Type 0 where
  pub name : Option String
  pub description : Option String
  pub schedule : Option String
  pub exec_type : Option String
  pub is_disable : Option Bool
  pub last_run_time : Option String
  pub next_run_time : Option String
  pub priority : Option ℕ
  pub running_count : Option ℕ
  pub tags : Option String

abbrev pub or_kept : {A : Type 0} → Option A → A → A
or_kept none old = old
or_kept (some new) old = new

-- The subscription to the task
unfoldable pub task_updated : TaskUpdate → ShownTask → ShownTask
task_updated u t = record {
  name = or_kept u.name t.name;
  description = or_kept u.description t.description;
  schedule = or_kept u.schedule t.schedule;
  exec_type = or_kept u.exec_type t.exec_type;
  is_disable = or_kept u.is_disable t.is_disable;
  last_run_time = or_kept u.last_run_time t.last_run_time;
  next_run_time = or_kept u.next_run_time t.next_run_time;
  priority = or_kept u.priority t.priority;
  running_count = or_kept u.running_count t.running_count;
  tags = or_kept u.tags t.tags;
}

-- The answer to `/task/info/`; null would be an exception of the next rendering, `none`
unfoldable pub task_loaded : Reply ShownTask → ShownTask → Option ShownTask
task_loaded (failed err) t = some t
task_loaded (got body) t = if body.code == 0 then body.content else some t

-- `tagList`
unfoldable pub tag_list : ShownTask → List String
tag_list t = if truthy t.tags then filter (λ tag. truthy (trim tag)) (split_commas t.tags) else []

-- The labels of the chips of the tags
unfoldable pub tag_labels : ShownTask → List String
unfolding tag_list
tag_labels t = map trim (tag_list t)

module _ {A : Type 0} where
  -- `usedList.shift()`
  abbrev pub shift : List A → List A
  shift [] = []
  shift (x ∷ xs) = xs

  -- What the interval of the chart does to `usedList`
  unfoldable pub tick : List A → A → List A
  tick used now = (if ltb 60 (length used) then shift used else used) ++ now ∷ []

  unfoldable pub ticks : List A → List A → List A
  unfolding tick
  ticks used [] = used
  ticks used (x ∷ xs) = ticks (tick used x) xs

  abbrev pub drop : ℕ → List A → List A
  drop zero xs = xs
  drop (suc n) [] = []
  drop (suc n) (x ∷ xs) = drop n xs

  -- The last 61 of some values
  abbrev pub recent : List A → List A
  recent xs = drop (length xs - 61) xs

  length-drop : (n : ℕ) (xs : List A) → n ≤ length xs → length (drop n xs) + n ≡ length xs
  length-drop zero xs h = omega arith
  length-drop (suc n) [] h = absurd (omega arith)
  length-drop (suc n) (x ∷ xs) h = omega (arith, length-drop n xs (omega arith))

  shift-drop : (n : ℕ) (xs : List A) → shift (drop n xs) ≡ drop (suc n) xs
  shift-drop zero [] = refl
  shift-drop zero (x ∷ xs) = refl
  shift-drop (suc n) [] = refl
  shift-drop (suc n) (x ∷ xs) = shift-drop n xs

  drop-append : (n : ℕ) (xs ys : List A) → n ≤ length xs → drop n (xs ++ ys) ≡ drop n xs ++ ys
  drop-append zero xs ys h = refl
  drop-append (suc n) [] ys h = absurd (omega arith)
  drop-append (suc n) (x ∷ xs) ys h = drop-append n xs ys (omega arith)

  tick-recent : (xs : List A) (x : A) → tick (recent xs) x ≡ recent (xs ++ x ∷ [])
  unfolding tick
  tick-recent xs x = elim (Bool-cases (ltb 60 (length xs))) [
    | inl many ↦
        let k = length xs - 61 in
        let kept : ltb 60 (length (recent xs)) ≡ true =
          ground (arith, length-drop k xs (omega arith), many) in
        let next : suc k ≡ length (xs ++ x ∷ []) - 61 =
          ground (arith, length-append xs (x ∷ []), many) in
        ap (λ b. (if b then shift (recent xs) else recent xs) ++ x ∷ []) kept
        ∙ ap (λ w. w ++ x ∷ []) (shift-drop k xs)
        ∙ sym (drop-append (suc k) xs (x ∷ []) (ground (arith, many)))
        ∙ ap (λ n. drop n (xs ++ x ∷ [])) next
    | inr few ↦
        let all : length xs - 61 ≡ 0 = ground (arith, few) in
        let all' : length (xs ++ x ∷ []) - 61 ≡ 0 =
          ground (arith, length-append xs (x ∷ []), few) in
        ap (λ n. (if ltb 60 (length (drop n xs)) then shift (drop n xs) else drop n xs) ++ x ∷ [])
          all
        ∙ ap (λ b. (if b then shift xs else xs) ++ x ∷ []) few
        ∙ ap (λ n. drop n (xs ++ x ∷ [])) (sym all')
  ]

  ticks-from : (ys xs : List A) → ticks (recent ys) xs ≡ recent (ys ++ xs)
  unfolding ticks
  ticks-from ys [] = ap recent (sym (append-nil ys))
  ticks-from ys (x ∷ xs) =
      ap (λ w. ticks w xs) (tick-recent ys x)
      ∙ ticks-from (ys ++ x ∷ []) xs
      ∙ ap recent (append_assoc ys (x ∷ []) xs)

  -- However long the interval runs, the chart holds the last 61 values, or all where there are
  -- fewer, in order.
  pub ticks-recent : (xs : List A) → ticks [] xs ≡ recent xs
  ticks-recent xs = ticks-from [] xs

-- A tag that the form can have made: no comma, and no blank text
abbrev pub IsTag : String → Type 0
IsTag tag = NoComma tag × (truthy (trim tag) ≡ true)

All-NoComma : (ts : List String) → All IsTag ts → All NoComma ts
All-NoComma [] h = tt
All-NoComma (t ∷ ts) (h, hs) = (h.0, All-NoComma ts hs)

filter-tags : (ts : List String) → All IsTag ts → filter (λ tag. truthy (trim tag)) ts ≡ ts
filter-tags [] h = refl
filter-tags (t ∷ ts) (h, hs) = ground (arith, h.1, filter-tags ts hs)

truthy-trim : (s : String) → truthy (trim s) ≡ true → truthy s ≡ true
unfolding trim
truthy-trim String.[] h = h
truthy-trim (String.◌∷◌ c s) h = refl

truthy-concat : (s t : String) → truthy s ≡ true → truthy (concat s t) ≡ true
truthy-concat String.[] t h = absurd (ground arith)
truthy-concat (String.◌∷◌ c s) t h = ap truthy (cons-append c s t)

truthy-join_commas :
    (s : String) (ts : List String) → truthy s ≡ true → truthy (join_commas (s ∷ ts)) ≡ true
unfolding join_commas
truthy-join_commas s [] h = h
truthy-join_commas s (t ∷ ts) h = truthy-concat s (concat "," (join_commas (t ∷ ts))) h

-- Tags without commas that are not blank, joined as the form of the task joins them, are shown as
-- they were, in order.
pub tag_list-join_commas :
    (tags : List String) (t : ShownTask)
    → All IsTag tags
    → t.tags ≡ join_commas tags
    → tag_list t ≡ tags
unfolding tag_list join_commas
tag_list-join_commas [] t h e =
    ap (λ s. if truthy s then filter (λ tag. truthy (trim tag)) (split_commas s) else []) e
tag_list-join_commas (tag ∷ tags) t h e =
    let split = split_commas-join_commas tag tags (All-NoComma (tag ∷ tags) h) in
    ap (λ s. if truthy s then filter (λ tag. truthy (trim tag)) (split_commas s) else []) e
    ∙ ap
        (λ b.
          if b
          then filter (λ tag. truthy (trim tag)) (split_commas (join_commas (tag ∷ tags)))
          else [])
        (truthy-join_commas tag tags (truthy-trim tag h.0.1))
    ∙ ap (filter (λ tag. truthy (trim tag))) split
    ∙ filter-tags (tag ∷ tags) h
