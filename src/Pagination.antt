-- ===== src/Pagination.antt =====
-- The page bar of the tables (web/client/src/components/MyTablePagination.js).
--
-- A quotient is a number of JavaScript: a division by 0 is infinite, or NaN for 0 / 0. The counts
-- are below 2 ^ 53, where the rounded quotient and `Math.ceil` give the same as on integers.
pub mod Bounds
use gonitor.Prelude.{
  ℕ, zero, suc, ◌+◌, ◌-◌, ◌/◌, Bool, true, false, Option, none, some, List, [], ◌∷◌, if◌then◌else◌,
  leb, ◌==◌, nat_eq,
}
use gonitor.Prelude.Int.{ℤ, pos, pred}

-- `pageInfo`
pub record PageInfo : Type 0 where
  pub page : ℕ
  pub limit : ℕ
  pub total_rows : ℕ

pub data Number : Type 0 where
  finite : ℤ → Number
  infinity : Number
  nan : Number

-- The arguments of `onChangePage`
pub record Change : Type 0 where
  pub new_page : Number
  pub new_limit : ℕ

pub data Button : Type 0 where
  first_page back next last_page : Button

abbrev pub rows_per_page_options : List ℕ
rows_per_page_options = 10 ∷ 20 ∷ 50 ∷ []

-- `Math.ceil(count / rowsPerPage)`
unfoldable pub page_count : ℕ → ℕ → Number
page_count zero zero = Number.nan
page_count (suc count) zero = Number.infinity
page_count count (suc r) = Number.finite (pos ((count + r) / suc r))

-- `page >= pages - 1`
unfoldable pub at_end : ℕ → Number → Bool
at_end page (Number.finite (pos n)) = leb n (page + 1)
at_end page (Number.finite z) = true
at_end page Number.infinity = false
at_end page Number.nan = false

-- `Math.max(0, pages - 1)`
unfoldable pub last_of : Number → Number
last_of (Number.finite (pos n)) = Number.finite (pos (n - 1))
last_of (Number.finite z) = Number.finite (pos 0)
last_of Number.infinity = Number.infinity
last_of Number.nan = Number.nan

-- The page that the handler of a button passes to `onPageChange`
unfoldable pub target : Button → PageInfo → Number
unfolding last_of page_count
target Button.first_page info = Number.finite (pos 0)
target Button.back info = Number.finite (pred (pos info.page))
target Button.next info = Number.finite (pos (info.page + 1))
target Button.last_page info = last_of (page_count info.total_rows info.limit)

-- The attribute `disabled` of a button
unfoldable pub disabled : Button → PageInfo → Bool
unfolding at_end page_count
disabled Button.first_page info = info.page == 0
disabled Button.back info = info.page == 0
disabled Button.next info = at_end info.page (page_count info.total_rows info.limit)
disabled Button.last_page info = at_end info.page (page_count info.total_rows info.limit)

-- `onPageChange`
unfoldable pub on_page_change : PageInfo → Number → Change
on_page_change info new_page = record { new_page = new_page; new_limit = info.limit }

-- A click on a button; the browser ignores it on a disabled one.
unfoldable pub click : Button → PageInfo → Option Change
unfolding target disabled on_page_change
click b info = if disabled b info then none else some (on_page_change info (target b info))

-- `onRowsPerPageChange`, on one of the options
unfoldable pub on_rows_per_page_change : PageInfo → ℕ → Change
on_rows_per_page_change info value = record {
  new_page = Number.finite (pos info.page);
  new_limit = value;
}
