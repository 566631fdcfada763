-- ===== src/Pagination/Bounds.antt =====
-- Where the buttons of the page bar lead (web/client/src/components/MyTablePagination.js).
use gonitor.Prelude.{
  ℕ, zero, suc, ◌+◌, ◌-◌, ◌*◌, ◌/◌, ◌≤◌, ◌<◌, Bool, true, false, Option, none, some, leb, ◌≡◌, refl,
  arith, Bool-cases, inl, inr, if◌then◌else◌, ◌↔◌,
}
use gonitor.Prelude.Int.{pos}
use native.Mathlib.Nat.{suc-mul, zero-mul, mul-le-mul_right, div-mul-le_self, lt-div-mul-add}
use gonitor.Pagination.{
  PageInfo, Number, Button, Change, click, target, disabled, at_end, last_of, page_count,
  on_page_change,
}

-- A page that has at least one row
abbrev pub HasRows : ℕ → PageInfo → Type 0
HasRows page info = page * info.limit < info.total_rows

ceil-lower : (count r n : ℕ) → n < (count + r) / suc r → n * suc r < count
ceil-lower count r n h =
    omega
      (arith, suc-mul n (suc r), mul-le-mul_right (suc r) h, div-mul-le_self (count + r) (suc r))

ceil-upper : (count r n : ℕ) → (count + r) / suc r ≤ n → count ≤ n * suc r
ceil-upper count r n h =
    omega
      (arith, lt-div-mul-add {a = count + r} {b = suc r} (omega arith), mul-le-mul_right (suc r) h)

-- A table with `r + 1` rows per page
abbrev pub full : ℕ → ℕ → ℕ → PageInfo
full page r total = record { page = page; limit = suc r; total_rows = total }

-- The page of a change has rows, and the change keeps the rows per page.
abbrev pub Leads : PageInfo → Option Change → Type 0
Leads info none = Unit
Leads info (some change) =
    (p : ℕ) × (change.new_page ≡ Number.finite (pos p))
    × HasRows p info
    × (change.new_limit ≡ info.limit)

if-Leads :
    (d : Bool) (info : PageInfo) (p : ℕ)
    → (d ≡ false → HasRows p info)
    → Leads info (
        if d
        then none
        else some (record { new_page = Number.finite (pos p); new_limit = info.limit }))
if-Leads true info p h = tt
if-Leads false info p h = (p, refl, h refl, refl)

-- On a table with rows per page, where the current page has rows, an enabled button leads to a
-- page that has rows, and keeps the rows per page.
pub click-Leads :
    (b : Button) (page r total : ℕ)
    → HasRows page (full page r total)
    → Leads (full page r total) (click b (full page r total))
unfolding click disabled target at_end page_count on_page_change last_of
click-Leads Button.first_page page r total h =
    if-Leads _ (full page r total) 0 (λ e. omega (arith, zero-mul (suc r)))
click-Leads Button.back zero r total h = tt
click-Leads Button.back (suc page) r total h =
    if-Leads _ (full (suc page) r total) page (λ e. omega (arith, h, suc-mul page (suc r)))
click-Leads Button.next page r total h =
    if-Leads _ (full page r total) (page + 1) (λ e. ceil-lower total r (page + 1) (ground arith))
click-Leads Button.last_page page r total h =
    if-Leads _ (full page r total) ((total + r) / suc r - 1)
      (λ e. ceil-lower total r _ (ground arith))

at_end-ceil :
    (total r page : ℕ) → total ≤ (page + 1) * suc r → leb ((total + r) / suc r) (page + 1) ≡ true
at_end-ceil total r page h = elim (Bool-cases (leb ((total + r) / suc r) (page + 1))) [
  | inl held ↦ held
  | inr over ↦ absurd (omega (arith, h, ceil-lower total r (page + 1) (ground arith)))
]

-- On a table with rows per page, the buttons for the next and for the last page are disabled
-- exactly where no row comes after the current page.
pub disabled_iff :
    (page r total : ℕ)
    → ((disabled Button.next (full page r total) ≡ true) ↔ (total ≤ (page + 1) * suc r))
      × (disabled Button.last_page (full page r total) ≡ disabled Button.next (full page r total))
unfolding disabled at_end page_count
disabled_iff page r total =
    ((λ e. ceil-upper total r (page + 1) (ground arith), λ h. at_end-ceil total r page h), refl)

-- The button for the last page leads to the page with the last row: the pages after it have none.
pub last_page-holds_last :
    (page r total p : ℕ)
    → target Button.last_page (full page r total) ≡ Number.finite (pos p)
    → total ≤ (p + 1) * suc r
unfolding target last_of page_count
last_page-holds_last page r total p e = ceil-upper total r (p + 1) (ground arith)
