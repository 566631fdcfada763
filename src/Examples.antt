-- ===== src/Examples.antt =====
-- Concrete inputs at which the theorems about Js, Request and Pagination hold.
use gonitor.Prelude.{ℕ, true, Option, none, some, [], ◌∷◌, ◌≡◌, refl, arith, All}
use gonitor.Prelude.Int.{pos}
use gonitor.Js.Laws.{NoComma}
use gonitor.Request.{
  Piece, Method, Body, Failure, Settled, resolved, rejected, Config, got, reply, perform,
}
use gonitor.Request.Laws.{reply-perform, perform-rejected}
use gonitor.Pagination.{Number, Button, target, page_count, last_of}
use gonitor.Pagination.Bounds.{full}

two_tags-NoComma : All NoComma ("a" ∷ "b c" ∷ [])
two_tags-NoComma = (
  (λ e. ground arith, tt),
  ((λ e. ground arith, (λ e. ground arith, (λ e. ground arith, tt))), tt),
)

abbrev null_error : Failure
null_error = record { message = "Cannot read properties of null (reading 'code')" }

abbrev undefined_error : Failure
undefined_error = record { message = "Cannot read properties of undefined (reading 'code')" }

abbrev offline : Failure
offline = record { message = "Network Error" }

-- A server that answers `/task` with the code 100001, and no other address
abbrev transport : Config ℕ → Settled (Option (Body ℕ))
transport config = elim config.payload [
  | none ↦ rejected offline
  | some p ↦ resolved (some (record { code = 100001; message = "login"; content = some p }))
]

abbrev asking : Option ℕ → Config ℕ
asking payload = record {
  method = Method.post;
  url = Piece.text "/task" ∷ [];
  payload = payload;
  token = none;
}

reply-perform_example :
    (reply undefined_error (perform null_error (some "t") transport (asking (some 3))).settled
      ≡ got (record { code = 100001; message = "login"; content = some 3 }))
    × ((perform null_error (some "t") transport (asking (some 3))).redirected ≡ true)
reply-perform_example =
    reply-perform null_error (some "t") transport undefined_error (asking (some 3))

perform-rejected_example :
    (perform null_error (some "t") transport (asking none)).settled ≡ resolved none
perform-rejected_example =
    perform-rejected null_error (some "t") transport (asking none) offline refl

last_of_25 : target Button.last_page (full 0 9 25) ≡ Number.finite (pos 2)
unfolding target last_of page_count
last_of_25 = refl
