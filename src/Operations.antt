-- ===== src/Operations.antt =====
-- The page of operations (web/client/src/screen/operationList/OperationList.js). The formatting of
-- a time by moment is an argument.
pub mod Shown
use gonitor.Prelude.{
  ℕ, suc, ◌+◌, Bool, true, false, not, Option, none, some, List, [], ◌∷◌, String, if◌then◌else◌,
  ◌==◌, nat_eq, map,
}
use gonitor.Prelude.Int.{ℤ, pos, pred, succ}
use gonitor.Request.{Reply, got, failed, Failure, Url, Piece, Method}

pub record Operation : Type 0 where
  pub id : ℕ
  pub create_time : String
  pub update_time : String
  pub username : String
  pub op_type : String
  pub remark : String
  pub uni_key : List Piece

-- `pageInfo`, whose page counts from 0
pub record OpPage : Type 0 where
  pub page : ℤ
  pub limit : ℕ
  pub total_rows : ℕ

-- The `data` of an answer, whose page counts from 1
pub record OpListing : Type 0 where
  pub list : List Operation
  pub page : ℤ
  pub limit : ℕ
  pub total_rows : ℕ

-- The hooks of `OperationList`
pub record OperationsState : Type 0 where
  pub op_list : List Operation
  pub loading : Bool
  pub page_info : OpPage

pub data OpEffect : Type 0 where
  complain : String → OpEffect
  request : Method → Url → OpEffect

unfoldable pub first_operations : OperationsState
first_operations = record {
  op_list = [];
  loading = true;
  page_info = record { page = pos 0; limit = 10; total_rows = 0 };
}

-- The request of `getOpList`
unfoldable pub ask_operations : ℤ → ℕ → List OpEffect
ask_operations page limit =
    OpEffect.request Method.get
      (Piece.text "/op/list/" ∷ Piece.num (succ page) ∷ Piece.text "/" ∷ Piece.num (pos limit) ∷ [])
    ∷ []

unfoldable pub keyed_operation : Operation → Operation
keyed_operation op = record op {
  uni_key = Piece.text op.update_time ∷ Piece.text "_" ∷ Piece.num (pos op.id) ∷ [];
}

-- `getOpList` from the answer on, `none` for an exception
unfoldable pub on_operations :
    Reply OpListing → OperationsState → Option (OperationsState × List OpEffect)
unfolding keyed_operation
on_operations (failed err) s = none
on_operations (got body) s =
    if not (body.code == 0)
    then some (s, OpEffect.complain body.message ∷ [])
    else elim body.content [
      | none ↦ none
      | some d ↦ some (
        record s {
          op_list = map keyed_operation d.list;
          page_info = record { page = pred d.page; limit = d.limit; total_rows = d.total_rows };
        },
        [],
      )
    ]

-- The effect of the first rendering and its continuation
unfoldable pub operations_first : Bool → OperationsState → Bool × List OpEffect
unfolding ask_operations
operations_first first_render s =
    if not first_render
    then (first_render, [])
    else (false, ask_operations s.page_info.page s.page_info.limit)

abbrev pub op_loaded :
    OperationsState → Option (OperationsState × List OpEffect) → OperationsState × List OpEffect
op_loaded s none = (s, [])
op_loaded s (some (s', effects)) = (record s' { loading = false }, effects)

unfoldable pub operations_loaded :
    Reply OpListing → OperationsState → OperationsState × List OpEffect
unfolding on_operations
operations_loaded r s = op_loaded s (on_operations r s)

-- `handleChangePage` and its continuation
unfoldable pub change_op_page : ℤ → ℕ → List OpEffect
unfolding ask_operations
change_op_page page limit = ask_operations page limit

abbrev pub op_changed :
    OperationsState → Option (OperationsState × List OpEffect) → OperationsState × List OpEffect
op_changed s none = (s, [])
op_changed s (some result) = result

unfoldable pub op_page_changed : Reply OpListing → OperationsState → OperationsState × List OpEffect
unfolding on_operations
op_page_changed r s = op_changed s (on_operations r s)

-- A row of the table
pub record OpRow : Type 0 where
  pub key : List Piece
  pub number : ℕ
  pub create_time : String
  pub username : String
  pub op_type : String
  pub remark : String

pub data OpBody : Type 0 where
  skeletons : ℕ → ℕ → OpBody
  rows : List OpRow → OpBody

unfoldable pub op_rows : (String → String) → ℕ → List Operation → List OpRow
op_rows format inx [] = []
op_rows format inx (op ∷ ops) =
    record {
      key = op.uni_key;
      number = inx + 1;
      create_time = format op.create_time;
      username = op.username;
      op_type = op.op_type;
      remark = op.remark;
    }
    ∷ op_rows format (suc inx) ops

-- The body of the table: five rows of five skeletons while loading
unfoldable pub op_body : (String → String) → OperationsState → OpBody
unfolding op_rows
op_body format s =
    if s.loading then OpBody.skeletons 5 5 else OpBody.rows (op_rows format 0 s.op_list)
