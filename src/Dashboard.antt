-- ===== src/Dashboard.antt =====
-- The disk on the dashboard: `DiskInfo` and `bytesToSize`
-- (web/client/src/screen/dashboard/DiskInfo.js), and the gauge that it shows,
-- `CircularProgressWithLabel` (System.js beside it). `Math.log` is exact.
pub mod Precision
pub mod Boxes
pub mod System
pub mod Users
pub mod Gauges
pub mod Shared
pub mod Tests
use gonitor.Prelude.{
  ℕ, suc, ◌+◌, ◌-◌, ◌*◌, ◌/◌, ◌%◌, ◌^◌, Bool, true, false, Option, none, some, List, [], ◌∷◌, ◌++◌,
  String, if◌then◌else◌, ltb, ◌==◌, nat_eq, at,
}
use gonitor.Prelude.Int.{ℤ, pos, negsuc}
use gonitor.Request.{Reply, got, failed, Piece}
use gonitor.Nodes.Size.{magnitude}

-- `(a / b).toPrecision(3)` as its three digits and its exponent, a half rounded up
abbrev pub settle : ℕ → ℕ → ℕ × ℕ
settle e n = if n == 1000 then (100, suc e) else (n, e)

unfoldable pub to_precision_3 : ℕ → ℕ → ℕ × ℕ
to_precision_3 a b =
    if ltb a (10 * b)
    then settle 0 ((200 * a + b) / (2 * b))
    else if ltb a (100 * b)
    then settle 1 ((20 * a + b) / (2 * b))
    else if ltb a (1000 * b)
    then settle 2 ((2 * a + b) / (2 * b))
    else settle 3 ((2 * a + 10 * b) / (20 * b))

-- The digits as text; from an exponent of 3 on, in exponential notation
abbrev pub digit_of : ℕ → Piece
digit_of n = Piece.num (pos n)

unfoldable pub precision_text : ℕ → ℕ → List Piece
precision_text n e =
    if e == 0
    then digit_of (n / 100) ∷ Piece.text "." ∷ digit_of (n / 10 % 10) ∷ digit_of (n % 10) ∷ []
    else if e == 1
    then digit_of (n / 100) ∷ digit_of (n / 10 % 10) ∷ Piece.text "." ∷ digit_of (n % 10) ∷ []
    else if e == 2
    then digit_of (n / 100) ∷ digit_of (n / 10 % 10) ∷ digit_of (n % 10) ∷ []
    else digit_of (n / 100)
      ∷ Piece.text "."
      ∷ digit_of (n / 10 % 10)
      ∷ digit_of (n % 10)
      ∷ Piece.text "e+"
      ∷ digit_of e
      ∷ []

abbrev pub byte_sizes : List String
byte_sizes = "B" ∷ "KB" ∷ "MB" ∷ "GB" ∷ "TB" ∷ "PB" ∷ "EB" ∷ "ZB" ∷ "YB" ∷ []

abbrev pub byte_size_name : ℕ → String
byte_size_name i = elim (at i byte_sizes) as (λ x. String) [ none ↦ "undefined" | some name ↦ name ]

-- The parts of the text
unfoldable pub bytes_to_size : ℕ → List Piece
unfolding to_precision_3 precision_text
bytes_to_size bytes =
    if bytes == 0
    then Piece.text "0 B" ∷ []
    else (let i = magnitude bytes in
        let (n, e) = to_precision_3 bytes (1024 ^ i) in
        precision_text n e ++ Piece.text " " ∷ Piece.text (byte_size_name i) ∷ [])

-- The hooks of `DiskInfo`
pub record Disk : Type 0 where
  pub total : ℕ
  pub file_system : String
  pub used : ℕ
  pub free : ℕ
  pub log_used : ℕ

unfoldable pub first_disk : Disk
first_disk = record { total = 0; file_system = ""; used = 0; free = 0; log_used = 0 }

-- The answer to `/system/disk`, whose code is not read; null would be an exception of the next
-- rendering, `none`
unfoldable pub disk_loaded : Reply Disk → Disk → Option Disk
disk_loaded (failed err) d = some d
disk_loaded (got body) d = body.content

-- A quotient of JavaScript
pub data Percent : Type 0 where
  ratio : ℕ → ℕ → Percent
  infinite nan : Percent

-- `diskInfo.used / diskInfo.total * 100`
unfoldable pub used_percent : Disk → Percent
used_percent d =
    if d.total == 0
    then (if d.used == 0 then Percent.nan else Percent.infinite)
    else Percent.ratio (100 * d.used) d.total

-- What the gauge shows: its label, its colour, and the parts of its ring
pub record Gauge : Type 0 where
  pub label : List Piece
  pub color : String
  pub filled : Option ℤ
  pub left : Option ℤ

-- `100 - n`
abbrev pub rest_of : ℕ → ℤ
rest_of n = if ltb 100 n then negsuc (n - 101) else pos (100 - n)

unfoldable pub gauge : Percent → Gauge
gauge Percent.nan = record {
  label = Piece.text "NaN%" ∷ [];
  color = "#20a53a";
  filled = none;
  left = none;
}
gauge Percent.infinite = record {
  label = Piece.text "Infinity%" ∷ [];
  color = "#FF0000";
  filled = none;
  left = none;
}
gauge (Percent.ratio a b) = record {
  label = Piece.num (pos (a / b)) ∷ Piece.text "%" ∷ [];
  color = (if ltb (90 * b) a then "#FF0000" else if ltb (75 * b) a then "#FFA500" else "#20a53a");
  filled = some (pos (a / b));
  left = some (rest_of (a / b));
}

-- `usedPercent.toFixed(2)`, a half rounded up
unfoldable pub to_fixed_2 : Percent → List Piece
to_fixed_2 Percent.nan = Piece.text "NaN" ∷ []
to_fixed_2 Percent.infinite = Piece.text "Infinity" ∷ []
to_fixed_2 (Percent.ratio a b) =
    let hundredths = (200 * a + b) / (2 * b) in
    Piece.num (pos (hundredths / 100))
    ∷ Piece.text "."
    ∷ Piece.num (pos (hundredths / 10 % 10))
    ∷ Piece.num (pos (hundredths % 10))
    ∷ []

-- With a percent sign
unfoldable pub percent_text : Percent → List Piece
unfolding to_fixed_2
percent_text p = to_fixed_2 p ++ Piece.text "%" ∷ []

-- What `DiskInfo` lists
unfoldable pub disk_items : Disk → List (String × List Piece)
unfolding bytes_to_size used_percent percent_text
disk_items d =
    ("Path", Piece.text "/" ∷ [])
    ∷ ("File system type", Piece.text d.file_system ∷ [])
    ∷ ("Total", bytes_to_size d.total)
    ∷ ("Free", bytes_to_size d.free)
    ∷ ("Used", bytes_to_size d.used)
    ∷ ("used Percent", percent_text (used_percent d))
    ∷ ("Log Used", bytes_to_size d.log_used)
    ∷ []
