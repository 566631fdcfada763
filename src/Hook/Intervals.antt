-- ===== src/Hook/Intervals.antt =====
-- Lists of intervals under the cleanup of `useInterval` (web/client/src/common/utils/hook.js), and
-- what its dependencies and its cleanup say of them.
use gonitor.Prelude.{
  ℕ, suc, ◌<◌, true, false, not, Option, none, some, List, [], ◌∷◌, if◌then◌else◌, ◌==◌, nat_eq,
  filter, map, All, filter_comm, Bool-cases, nat_beq, nat_beq_iff, ◌≡◌, refl, ap, ◌∙◌, inl, inr,
  arith,
}
use gonitor.Hook.{Interval, same_delay}

-- The intervals of the hook, and those of other code
abbrev pub owned : List Interval → List Interval
owned = filter (λ i. i.own)

abbrev pub foreign : List Interval → List Interval
foreign = filter (λ i. not i.own)

abbrev pub Earlier : ℕ → Interval → Type 0
Earlier next i = i.handle < next

-- What the hook has set: nothing, or the one interval that its cleanup clears
abbrev pub IsStarted : Option ℕ → Option (Option ℕ) → ℕ → List Interval → Type 0
IsStarted none none next own = own ≡ []
IsStarted none (some none) next own = own ≡ []
IsStarted none (some (some d)) next own = ⊥
IsStarted (some h) none next own = ⊥
IsStarted (some h) (some none) next own = ⊥
IsStarted (some h) (some (some d)) next own =
    (own ≡ record { handle = h; delay = d; own = true } ∷ []) × (h < next)

-- No other code has the interval that the cleanup clears
abbrev pub IsApart : Option ℕ → Interval → Type 0
IsApart none i = Unit
IsApart (some h) i = i.own ≡ false → nat_beq i.handle h ≡ false

pub All-IsApart-none : (is : List Interval) → All (IsApart none) is
All-IsApart-none [] = tt
All-IsApart-none (i ∷ is) = (tt, All-IsApart-none is)

pub All-IsApart_next : (n : ℕ) (is : List Interval) → All (Earlier n) is → All (IsApart (some n)) is
All-IsApart_next n [] h = tt
All-IsApart_next n (i ∷ is) (e, h) = (λ _. ground (arith, e), All-IsApart_next n is h)

pub All-Earlier-suc : (n : ℕ) (is : List Interval) → All (Earlier n) is → All (Earlier (suc n)) is
All-Earlier-suc n [] h = tt
All-Earlier-suc n (i ∷ is) (e, h) = (omega (arith, e), All-Earlier-suc n is h)

-- Clearing leaves what other code has set
pub foreign-clear :
    (h : ℕ) (is : List Interval)
    → All (IsApart (some h)) is
    → foreign (filter (λ i. not (i.handle == h)) is) ≡ foreign is
foreign-clear h [] a = refl
foreign-clear h (i ∷ is) (p, a) = elim (Bool-cases i.own) [
  | inl e ↦ ground (arith, foreign-clear h is a, e)
  | inr e ↦ ground (arith, foreign-clear h is a, e, p e)
]

pub owned-clear :
    (h d : ℕ) (is : List Interval)
    → owned is ≡ record { handle = h; delay = d; own = true } ∷ []
    → owned (filter (λ i. not (i.handle == h)) is) ≡ []
owned-clear h d is e =
    filter_comm (λ i. i.own) (λ i. not (i.handle == h)) is
    ∙ ap (filter (λ i. not (i.handle == h))) e
    ∙ ap (λ b. if not b then record { handle = h; delay = d; own = true } ∷ [] else [])
        ((nat_beq_iff h h).1 refl)

-- The delay of the interval that is set
abbrev pub current : Option (Option ℕ) → Option ℕ
current none = none
current (some delay) = delay

-- The same dependencies are those of the last rendering
pub same_delay-current :
    (d : Option (Option ℕ)) (delay : Option ℕ) → same_delay d delay ≡ true → current d ≡ delay
same_delay-current none delay e = absurd (ground (arith, e))
same_delay-current (some none) none e = refl
same_delay-current (some none) (some d) e = absurd (ground (arith, e))
same_delay-current (some (some c)) none e = absurd (ground (arith, e))
same_delay-current (some (some c)) (some d) e = ap some ((nat_beq_iff c d).0 e)

-- A new interval of other code, whose handle is not the hook's
pub next-IsApart :
    (c : Option ℕ) (d : Option (Option ℕ)) (n delay : ℕ) (own : List Interval)
    → IsStarted c d n own
    → IsApart c (record { handle = n; delay = delay; own = false })
next-IsApart none d n delay own h = tt
next-IsApart (some c) none n delay own h = absurd h
next-IsApart (some c) (some none) n delay own h = absurd h
next-IsApart (some c) (some (some d)) n delay own h = λ _. ground (arith, h.1)

pub IsStarted-suc :
    (c : Option ℕ) (d : Option (Option ℕ)) (n : ℕ) (own : List Interval)
    → IsStarted c d n own
    → IsStarted c d (suc n) own
IsStarted-suc none none n own h = h
IsStarted-suc none (some none) n own h = h
IsStarted-suc none (some (some d)) n own h = h
IsStarted-suc (some c) none n own h = h
IsStarted-suc (some c) (some none) n own h = h
IsStarted-suc (some c) (some (some d)) n own h = (h.0, omega (arith, h.1))

-- A delay, or none, as a list
abbrev pub delays : Option ℕ → List ℕ
delays none = []
delays (some d) = d ∷ []

pub IsStarted-delays :
    (c : Option ℕ) (d : Option (Option ℕ)) (n : ℕ) (own : List Interval)
    → IsStarted c d n own
    → map (λ i. i.delay) own ≡ delays (current d)
IsStarted-delays none none n own h = ap (map (λ i. i.delay)) h
IsStarted-delays none (some none) n own h = ap (map (λ i. i.delay)) h
IsStarted-delays none (some (some d)) n own h = absurd h
IsStarted-delays (some c) none n own h = absurd h
IsStarted-delays (some c) (some none) n own h = absurd h
IsStarted-delays (some c) (some (some d)) n own h = ap (map (λ i. i.delay)) h.0
