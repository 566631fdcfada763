-- ===== src/Dashboard/Precision.antt =====
-- The sizes and the gauge of the disk (web/client/src/screen/dashboard/DiskInfo.js and System.js).
use gonitor.Prelude.{
  ℕ, suc, ◌+◌, ◌-◌, ◌*◌, ◌/◌, ◌%◌, ◌^◌, ◌≤◌, ◌<◌, true, some, List, [], ◌∷◌, ◌++◌, ltb, nat_eq, ◌≡◌,
  ap, ◌∙◌, arith, Bool-cases, inl, inr,
}
use gonitor.Prelude.Int.{pos}
use gonitor.Request.{Piece}
use gonitor.Nodes.Size.{magnitude, log_floor_lem, lt_next}
use gonitor.Dashboard.{
  Disk, to_precision_3, precision_text, bytes_to_size, byte_size_name, used_percent, gauge,
}
use native.Mathlib.Nat.{div-mul-le_self, one-le-pow, mul-le-mul_right, suc-mul}

-- A size in exponential notation
abbrev pub exponent_parts : ℕ → ℕ → ℕ → ℕ → List Piece
exponent_parts i hundreds tens ones =
    Piece.num (pos hundreds)
    ∷ Piece.text "."
    ∷ Piece.num (pos tens)
    ∷ Piece.num (pos ones)
    ∷ Piece.text "e+"
    ∷ Piece.num (pos 3)
    ∷ Piece.text " "
    ∷ Piece.text (byte_size_name i)
    ∷ []

abbrev pub exponent_text : ℕ → ℕ → List Piece
exponent_text i d = exponent_parts i 1 0 d

le_of_mul-lt : (x y c : ℕ) → x * c < suc y * c → x ≤ y
le_of_mul-lt x y c h = elim (Bool-cases (ltb y x)) [
  | inl more ↦ absurd (omega (arith, h, mul-le-mul_right c (above y x more)))
  | inr less ↦ ground (arith, less)
]
  where
    above : (y x : ℕ) → ltb y x ≡ true → suc y ≤ x
    above y x e = ground (arith, e)

thousand :
    (a b : ℕ)
    → 0 < b
    → 1000 * b ≤ a
    → a < 1024 * b
    → (d : ℕ) × (d ≤ 2) × (to_precision_3 a b ≡ (100 + d, 3))
unfolding to_precision_3
thousand a b p low high =
    let q = (2 * a + 10 * b) / (20 * b) in
    let below : q * (20 * b) ≤ 2 * a + 10 * b = div-mul-le_self (2 * a + 10 * b) (20 * b) in
    let above : 2 * a + 10 * b < q * (20 * b) + 20 * b =
      lt_next (2 * a + 10 * b) (20 * b) (omega arith) in
    let most : q ≤ 102 = le_of_mul-lt q 102 (20 * b) (omega (arith, below, high)) in
    let least : 100 ≤ q =
      le_of_mul-lt 100 q (20 * b) (omega (arith, above, low, suc-mul q (20 * b))) in
    (q - 100, omega (arith, most, least), ground (arith, most, least, low, p))

digits :
    (d i : ℕ)
    → d ≤ 2
    → precision_text (100 + d) 3 ++ Piece.text " " ∷ Piece.text (byte_size_name i) ∷ []
      ≡ exponent_text i d
unfolding precision_text
digits d i h =
    let hundreds : (100 + d) / 100 ≡ 1 = omega (arith, h) in
    let tens : (100 + d) / 10 % 10 ≡ 0 = omega (arith, h) in
    let ones : (100 + d) % 10 ≡ d = omega (arith, h) in
    ap (λ x. exponent_parts i x ((100 + d) / 10 % 10) ((100 + d) % 10)) hundreds
    ∙ ap (λ x. exponent_parts i 1 x ((100 + d) % 10)) tens
    ∙ ap (λ x. exponent_parts i 1 0 x) ones

-- A size of at least one byte that is 1000 or more in the unit of its power of 1024 is shown in
-- exponential notation: as 1.00e+3, 1.01e+3 or 1.02e+3 of that unit.
pub bytes_to_size-exponent :
    (bytes : ℕ)
    → 0 < bytes
    → 1000 * 1024 ^ magnitude bytes ≤ bytes
    → (d : ℕ) × (d ≤ 2) × (bytes_to_size bytes ≡ exponent_text (magnitude bytes) d)
unfolding bytes_to_size magnitude precision_text
bytes_to_size-exponent bytes p h =
    let u = 1024 ^ magnitude bytes in
    let high = (log_floor_lem bytes bytes (omega arith) p).1 in
    let (d, small, e) =
      thousand bytes u (one-le-pow (magnitude bytes) 1024 (omega arith)) h (omega (arith, high)) in
    (d, small, ground (arith, e, p) ∙ digits d (magnitude bytes) small)

-- For a disk that has a size, and of which no more is used than that, the two parts of the ring of
-- the gauge make 100.
pub gauge-used_percent :
    (d : Disk)
    → 0 < d.total
    → d.used ≤ d.total
    → (n : ℕ) × (n ≤ 100)
      × ((gauge (used_percent d)).filled ≡ some (pos n))
      × ((gauge (used_percent d)).left ≡ some (pos (100 - n)))
unfolding gauge used_percent
gauge-used_percent d p h =
    let q = 100 * d.used / d.total in
    let below : q * d.total ≤ 100 * d.used = div-mul-le_self (100 * d.used) d.total in
    let most : q ≤ 100 = le_of_mul-lt q 100 d.total (omega (arith, below, h, p)) in
    (q, most, ground (arith, p), ground (arith, p, most))
