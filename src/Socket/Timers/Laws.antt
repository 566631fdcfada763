-- ===== src/Socket/Timers/Laws.antt =====
-- Counting the pending timers of a kind, and what clearing one of them does to the counts.
use gonitor.Prelude.{
  ℕ, suc, if◌then◌else◌, ◌+◌, ◌≤◌, ◌<◌, Bool, true, false, Option, none, some, List, [], ◌∷◌, ◌≡◌,
  refl, arith,
}
use gonitor.Socket.Timers.{Job, Timer, drop_timer, job_of}

abbrev pub of_bool : Bool → ℕ
of_bool true = 1
of_bool false = 0

-- How many pending timers have a job that passes the test.
abbrev pub count : (Job → Bool) → List Timer → ℕ
count p [] = 0
count p (t ∷ ts) = let rest = count p ts in if p t.job then suc rest else rest

-- Identifiers fall along the list and stay under the bound.
abbrev pub Descends : ℕ → List Timer → Type 0
Descends n [] = Unit {0}
Descends n (t ∷ ts) = (t.id < n) × Descends t.id ts

-- A handle names only timers with the given job.
abbrev pub NamesOnly : (Job → Bool) → Option ℕ → List Timer → Type 0
NamesOnly p none ts = Unit {0}
NamesOnly p (some i) [] = Unit {0}
NamesOnly p (some i) (t ∷ ts) = (t.id ≡ i → p t.job ≡ true) × NamesOnly p (some i) ts

-- A handle names every timer with the given job.
abbrev pub NamesAll : (Job → Bool) → Option ℕ → List Timer → Type 0
NamesAll p h [] = Unit {0}
NamesAll p h (t ∷ ts) = (p t.job ≡ true → h ≡ some t.id) × NamesAll p h ts

pub Descends-mono : (m n : ℕ) (ts : List Timer) → m ≤ n → Descends m ts → Descends n ts
Descends-mono m n [] h d = tt
Descends-mono m n (t ∷ ts) h d = (omega arith, d.1)

pub Descends-drop_timer : (i n : ℕ) (ts : List Timer) → Descends n ts → Descends n (drop_timer i ts)
unfolding drop_timer
Descends-drop_timer i n [] d = tt
Descends-drop_timer i n (t ∷ ts) d =
    ground (arith, Descends-drop_timer i t.id ts d.1, Descends-mono t.id n (drop_timer i ts))

-- No identifier under the bound is missing from the test: a timer above is not in the list.
pub job_of_above : (i n : ℕ) (ts : List Timer) → Descends n ts → n ≤ i → job_of i ts ≡ none
unfolding job_of
job_of_above i n [] d h = refl
job_of_above i n (t ∷ ts) d h = ground (arith, job_of_above i t.id ts d.1)

pub drop_timer_above : (i n : ℕ) (ts : List Timer) → Descends n ts → n ≤ i → drop_timer i ts ≡ ts
unfolding drop_timer
drop_timer_above i n [] d h = refl
drop_timer_above i n (t ∷ ts) d h = ground (arith, drop_timer_above i t.id ts d.1)

module _ (p : Job → Bool) where
  -- Clearing a timer takes exactly that timer away.
  pub count-drop_timer :
      (i n : ℕ) (j : Job) (ts : List Timer)
      → Descends n ts
      → job_of i ts ≡ some j
      → of_bool (p j) + count p (drop_timer i ts) ≡ count p ts
  unfolding drop_timer job_of
  count-drop_timer i n j [] d e = absurd (ground arith)
  count-drop_timer i n j (t ∷ ts) d e =
      ground (arith, count-drop_timer i t.id j ts d.1, drop_timer_above i t.id ts d.1)

  pub count-drop_timer_le : (i : ℕ) (ts : List Timer) → count p (drop_timer i ts) ≤ count p ts
  unfolding drop_timer
  count-drop_timer_le i [] = omega arith
  count-drop_timer_le i (t ∷ ts) = ground (arith, count-drop_timer_le i ts)

  -- Clearing a handle that names every timer of the kind leaves none.
  pub count-drop_timer_zero :
      (i : ℕ) (ts : List Timer) → NamesAll p (some i) ts → count p (drop_timer i ts) ≡ 0
  unfolding drop_timer
  count-drop_timer_zero i [] h = refl
  count-drop_timer_zero i (t ∷ ts) h = ground (arith, count-drop_timer_zero i ts h.1)

  pub count-zero_of_none : (ts : List Timer) → NamesAll p none ts → count p ts ≡ 0
  count-zero_of_none [] h = refl
  count-zero_of_none (t ∷ ts) h = ground (arith, count-zero_of_none ts h.1)

  -- With no timer of the kind, any handle will do.
  pub NamesAll-of_zero : (h : Option ℕ) (ts : List Timer) → count p ts ≡ 0 → NamesAll p h ts
  NamesAll-of_zero h [] e = tt
  NamesAll-of_zero h (t ∷ ts) e = (ground arith, NamesAll-of_zero h ts (ground arith))

  pub NamesAll-drop_timer :
      (h : Option ℕ) (i : ℕ) (ts : List Timer) → NamesAll p h ts → NamesAll p h (drop_timer i ts)
  unfolding drop_timer
  NamesAll-drop_timer h i [] k = tt
  NamesAll-drop_timer h i (t ∷ ts) k = ground (arith, NamesAll-drop_timer h i ts k.1)

  pub NamesOnly-drop_timer :
      (h : Option ℕ) (i : ℕ) (ts : List Timer) → NamesOnly p h ts → NamesOnly p h (drop_timer i ts)
  unfolding drop_timer
  NamesOnly-drop_timer none i ts k = tt
  NamesOnly-drop_timer (some a) i [] k = tt
  NamesOnly-drop_timer (some a) i (t ∷ ts) k =
      ground (arith, NamesOnly-drop_timer (some a) i ts k.1)

  -- A fresh identifier names no pending timer.
  pub NamesOnly-fresh :
      (i n : ℕ) (ts : List Timer) → Descends n ts → n ≤ i → NamesOnly p (some i) ts
  NamesOnly-fresh i n [] d h = tt
  NamesOnly-fresh i n (t ∷ ts) d h =
      ((λ e. absurd (omega arith)), NamesOnly-fresh i t.id ts d.1 (omega arith))

-- Clearing a handle that names timers of one kind only leaves the other kinds alone.
pub count-drop_timer_other :
    (p q : Job → Bool) (i : ℕ) (ts : List Timer)
    → ((j : Job) → p j ≡ true → q j ≡ false)
    → NamesOnly p (some i) ts
    → count q (drop_timer i ts) ≡ count q ts
unfolding drop_timer
count-drop_timer_other p q i [] apart h = refl
count-drop_timer_other p q i (t ∷ ts) apart h =
    ground (arith, count-drop_timer_other p q i ts apart h.1, apart t.job)
