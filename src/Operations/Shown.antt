-- ===== src/Operations/Shown.antt =====
-- What the page of operations shows of an answer
-- (web/client/src/screen/operationList/OperationList.js).
use gonitor.Prelude.{ℕ, zero, suc, ◌+◌, some, List, [], ◌∷◌, String, map, at, ◌≡◌, ap, ◌∙◌, arith}
use gonitor.Prelude.Int.{pos}
use gonitor.Request.{got, Piece}
use gonitor.Operations.{
  Operation, OpListing, OperationsState, OpRow, OpBody, keyed_operation, on_operations,
  operations_loaded, op_rows, op_body,
}

abbrev pub op_row : (String → String) → ℕ → Operation → OpRow
op_row format number op = record {
  key = Piece.text op.update_time ∷ Piece.text "_" ∷ Piece.num (pos op.id) ∷ [];
  number = number;
  create_time = format op.create_time;
  username = op.username;
  op_type = op.op_type;
  remark = op.remark;
}

abbrev pub shown_rows : OpBody → List OpRow
shown_rows (OpBody.skeletons m n) = []
shown_rows (OpBody.rows rows) = rows

at-op_rows :
    (format : String → String) (k i : ℕ) (op : Operation) (ops : List Operation)
    → at i ops ≡ some op
    → at i (op_rows format k (map keyed_operation ops)) ≡ some (op_row format (k + i + 1) op)
unfolding op_rows keyed_operation
at-op_rows format k i op [] h = absurd (ground arith)
at-op_rows format k zero op (o ∷ ops) h =
    let same : o ≡ op = ground (arith, h) in
    let first : k + 1 ≡ k + 0 + 1 = omega arith in
    ap (λ x. some (op_row format (k + 1) x)) same ∙ ap (λ n. some (op_row format n op)) first
at-op_rows format k (suc i) op (o ∷ ops) h =
    at-op_rows format (suc k) i op ops h ∙ ap (λ n. some (op_row format n op)) (omega arith)

-- The first answer, if it is a success with data, is shown in its order: the row at a place has the
-- number of the place, the fields of the operation there, and a key that its last change makes.
pub at-op_body :
    (format : String → String) (d : OpListing) (message : String) (s : OperationsState) (i : ℕ)
    (op : Operation)
    → at i d.list ≡ some op
    → at i (
        shown_rows (
          op_body format
            (operations_loaded
              (got (record { code = 0; message = message; content = some d }))
              s).0))
      ≡ some (op_row format (i + 1) op)
unfolding op_body operations_loaded on_operations
at-op_body format d message s i op h =
    let place : 0 + i + 1 ≡ i + 1 = omega arith in
    at-op_rows format 0 i op d.list h ∙ ap (λ n. some (op_row format n op)) place
