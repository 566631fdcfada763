-- ===== src/Nodes/Size.antt =====
-- The sizes that the page of nodes shows: `formatBytes` of
-- web/client/src/screen/nodeList/NodeList.js. `Math.log` is exact.
use gonitor.Prelude.{
  ℕ, zero, suc, ◌+◌, ◌*◌, ◌/◌, ◌%◌, ◌≤◌, ◌<◌, ◌^◌, none, some, List, [], ◌∷◌, String, if◌then◌else◌,
  ltb, ◌==◌, nat_eq, ◌≡◌, refl, arith, at, Bool-cases, inl, inr,
}
use gonitor.Prelude.Int.{pos}
use gonitor.Request.{Piece}
use native.Mathlib.Nat.{div-mul-le_self, lt-div-mul-add, one-le-pow}

-- `Math.floor(Math.log(n) / Math.log(1024))`, by at most `fuel` divisions
unfoldable pub log_floor : ℕ → ℕ → ℕ
log_floor zero n = 0
log_floor (suc fuel) n = let rest = log_floor fuel (n / 1024) in if ltb n 1024 then 0 else suc rest

unfoldable pub magnitude : ℕ → ℕ
unfolding log_floor
magnitude bytes = log_floor bytes bytes

-- `(a / b).toFixed(1)` in tenths, a half rounded up
unfoldable pub to_fixed_1 : ℕ → ℕ → ℕ
to_fixed_1 a b = (20 * a + b) / (2 * b)

abbrev pub sizes : List String
sizes = "B" ∷ "KB" ∷ "MB" ∷ "GB" ∷ "TB" ∷ []

-- `sizes[i]`, which is undefined from 5 on
abbrev pub size_name : ℕ → String
size_name i = elim (at i sizes) as (λ x. String) [ none ↦ "undefined" | some name ↦ name ]

-- The parts of the text
unfoldable pub format_bytes : ℕ → List Piece
unfolding magnitude to_fixed_1
format_bytes bytes =
    if bytes == 0
    then Piece.text "-" ∷ []
    else (let i = magnitude bytes in
        let tenths = to_fixed_1 bytes (1024 ^ i) in
        Piece.num (pos (tenths / 10))
        ∷ Piece.text "."
        ∷ Piece.num (pos (tenths % 10))
        ∷ Piece.text " "
        ∷ Piece.text (size_name i)
        ∷ [])

pub log_floor_lem :
    (fuel n : ℕ)
    → n ≤ fuel
    → 0 < n
    → (1024 ^ log_floor fuel n ≤ n) × (n < 1024 ^ suc (log_floor fuel n))
unfolding log_floor
log_floor_lem zero n h p = absurd (omega arith)
log_floor_lem (suc fuel) n h p = elim (Bool-cases (ltb n 1024)) [
  | inl small ↦ ground arith
  | inr big ↦
      let (low, high) = log_floor_lem fuel (n / 1024) (ground arith) (ground arith) in ground arith
]

pub lt_next : (a b : ℕ) → 0 < b → a < a / b * b + b
lt_next a b h = lt-div-mul-add h

to_fixed_1-le :
    (a b : ℕ)
    → 0 < b
    → (2 * (to_fixed_1 a b * b) ≤ 20 * a + b) × (20 * a ≤ 2 * (to_fixed_1 a b * b) + b)
unfolding to_fixed_1
to_fixed_1-le a b h =
    let low = div-mul-le_self (20 * a + b) (2 * b) in
    let high = lt_next (20 * a + b) (2 * b) (omega arith) in
    (omega (arith, low), omega (arith, high))

-- The name of the unit of 1024 ^ i bytes, and what stands in its place where there is none
abbrev pub unit_of : ℕ → String
unit_of zero = "B"
unit_of (suc zero) = "KB"
unit_of (suc (suc zero)) = "MB"
unit_of (suc (suc (suc zero))) = "GB"
unit_of (suc (suc (suc (suc zero)))) = "TB"
unit_of (suc (suc (suc (suc (suc n))))) = "undefined"

size_name-unit_of : (i : ℕ) → size_name i ≡ unit_of i
size_name-unit_of zero = refl
size_name-unit_of (suc zero) = refl
size_name-unit_of (suc (suc zero)) = refl
size_name-unit_of (suc (suc (suc zero))) = refl
size_name-unit_of (suc (suc (suc (suc zero)))) = refl
size_name-unit_of (suc (suc (suc (suc (suc n))))) = refl

-- The text of a size in tenths
abbrev pub size_text : String → ℕ → List Piece
size_text unit tenths =
    Piece.num (pos (tenths / 10))
    ∷ Piece.text "."
    ∷ Piece.num (pos (tenths % 10))
    ∷ Piece.text " "
    ∷ Piece.text unit
    ∷ []

-- A size of at least one byte is shown in the unit of the largest power of 1024 that is no more
-- than it (B, KB, MB, GB or TB), with one decimal, and the number shown is within half a tenth of
-- the size in this unit; from 1024 ^ 5 bytes on, "undefined" is shown for the unit.
pub format_bytes-Near :
    (bytes : ℕ)
    → 0 < bytes
    → (i tenths : ℕ) × (format_bytes bytes ≡ size_text (unit_of i) tenths)
      × (1024 ^ i ≤ bytes)
      × (bytes < 1024 ^ suc i)
      × (2 * (tenths * 1024 ^ i) ≤ 20 * bytes + 1024 ^ i)
      × (20 * bytes ≤ 2 * (tenths * 1024 ^ i) + 1024 ^ i)
unfolding format_bytes magnitude
format_bytes-Near bytes h =
    let (low, high) = log_floor_lem bytes bytes (omega arith) h in
    let (below, above) =
      to_fixed_1-le bytes (1024 ^ magnitude bytes)
        (one-le-pow (magnitude bytes) 1024 (omega arith)) in
    (
      magnitude bytes,
      to_fixed_1 bytes (1024 ^ magnitude bytes),
      ground (arith, size_name-unit_of (magnitude bytes)),
      low,
      high,
      below,
      above,
    )
