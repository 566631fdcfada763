-- ===== src/Nodes/Form.antt =====
-- The dialogs for adding, editing and deleting a node: `NodeAdd`, `NodeEdit` and
-- `DeleteConfirmDialog` of web/client/src/screen/nodeList/NodeList.js.
use gonitor.Prelude.{
  Bool, true, false, not, Option, none, some, List, [], ◌∷◌, String, if◌then◌else◌, ◌==◌, nat_eq,
  truthy, or_else,
}
use gonitor.Prelude.Int.{pos}
use gonitor.Request.{Reply, got, failed, Piece, Method}
use gonitor.Js.{trim}
use gonitor.Nodes.{Node, NodeInfo, NodesState, NodeFields, Payload, NodeEffect, refresh_node_list}

-- The hooks of `NodeAdd`, and those of `NodeEdit`
pub record NodeForm : Type 0 where
  pub is_open : Bool
  pub name : String
  pub region : String
  pub address : String
  pub remark : String

unfoldable pub first_form : NodeForm
first_form = record { is_open = false; name = ""; region = ""; address = ""; remark = "" }

-- The inputs of the two dialogs
pub data NodeFormEvent : Type 0 where
  names sets_region sets_address remarks : String → NodeFormEvent

unfoldable pub on_node_form_event : NodeFormEvent → NodeForm → NodeForm
on_node_form_event (NodeFormEvent.names s) f = record f { name = s }
on_node_form_event (NodeFormEvent.sets_region s) f = record f { region = s }
on_node_form_event (NodeFormEvent.sets_address s) f = record f { address = s }
on_node_form_event (NodeFormEvent.remarks s) f = record f { remark = s }

unfoldable pub close_form : NodeForm → NodeForm
close_form f = record f { is_open = false }

-- `NodeAdd`
unfoldable pub node_add_open : NodeForm → NodeForm
node_add_open f = record { is_open = true; name = ""; region = ""; address = ""; remark = "" }

abbrev pub form_fields : NodeForm → NodeFields
form_fields f = record { name = f.name; region = f.region; address = f.address; remark = f.remark }

unfoldable pub node_add_submit : NodeForm → List NodeEffect
node_add_submit f =
    if not (truthy (trim f.name))
    then NodeEffect.error "节点名称不能为空" ∷ []
    else if not (truthy (trim f.address))
    then NodeEffect.error "节点地址不能为空" ∷ []
    else NodeEffect.request Method.post (Piece.text "/node" ∷ [])
        (some (Payload.fields (form_fields f)))
      ∷ []

-- Its continuation, with the state of the page
unfoldable pub node_added :
    {A : Type 0} → Reply A → NodeForm → NodesState → NodeForm × NodesState × List NodeEffect
unfolding refresh_node_list close_form
node_added (failed err) f s = (f, s, NodeEffect.error "添加失败" ∷ [])
node_added (got body) f s =
    if not (body.code == 0)
    then (f, s, NodeEffect.error body.message ∷ [])
    else (let (s', effects) = refresh_node_list s in
        (close_form f, s', NodeEffect.success "添加成功" ∷ effects))

-- `NodeEdit`, with its property `nodeInfo`
unfoldable pub node_edit_open : NodeInfo → NodeForm → NodeForm
node_edit_open info f = record {
  is_open = true;
  name = or_else info.name "";
  region = or_else info.region "";
  address = or_else info.address "";
  remark = or_else info.remark "";
}

unfoldable pub node_edit_submit : NodeInfo → NodeForm → List NodeEffect
node_edit_submit info f =
    if not (truthy (trim f.name))
    then NodeEffect.error "节点名称不能为空" ∷ []
    else if not (truthy (trim f.address))
    then NodeEffect.error "节点地址不能为空" ∷ []
    else NodeEffect.request Method.put (Piece.text "/node/" ∷ Piece.num (pos info.id) ∷ [])
        (some (Payload.fields (form_fields f)))
      ∷ []

unfoldable pub node_edited :
    {A : Type 0} → Reply A → NodeForm → NodesState → NodeForm × NodesState × List NodeEffect
unfolding refresh_node_list close_form
node_edited (failed err) f s = (f, s, NodeEffect.error "修改失败" ∷ [])
node_edited (got body) f s =
    if not (body.code == 0)
    then (f, s, NodeEffect.error body.message ∷ [])
    else (let (s', effects) = refresh_node_list s in
        (close_form f, s', NodeEffect.success "修改成功" ∷ effects))

-- `showEditDialog`. The handle of the dialog is the one of the last rendering, whose `nodeInfo` is
-- the one from before the call of `setNodeEditInfo`.
unfoldable pub show_edit_dialog : Node → NodesState → NodeForm → NodesState × NodeForm
unfolding node_edit_open
show_edit_dialog node s f =
    (record s { node_edit_info = node.info }, node_edit_open s.node_edit_info f)

-- `DeleteConfirmDialog`: `open` and the node, `none` for the empty object
pub record NodeConfirm : Type 0 where
  pub is_open : Bool
  pub node : Option Node

unfoldable pub node_confirm_open : Node → NodeConfirm → NodeConfirm
node_confirm_open node d = record { is_open = true; node = some node }

unfoldable pub node_confirm_close : NodeConfirm → NodeConfirm
node_confirm_close d = record d { is_open = false }

abbrev pub node_piece : Option Node → Piece
node_piece none = Piece.text "undefined"
node_piece (some node) = Piece.num (pos node.info.id)

unfoldable pub handle_delete : NodeConfirm → List NodeEffect
handle_delete d =
    NodeEffect.request Method.delete (Piece.text "/node/" ∷ node_piece d.node ∷ []) none ∷ []

unfoldable pub node_deleted :
    {A : Type 0} → Reply A → NodeConfirm → NodesState → NodeConfirm × NodesState × List NodeEffect
unfolding node_confirm_close refresh_node_list
node_deleted (failed err) d s = (node_confirm_close d, s, NodeEffect.error err.message ∷ [])
node_deleted (got body) d s =
    if body.code == 0
    then (let (s', effects) = refresh_node_list s in
        (node_confirm_close d, s', NodeEffect.success "删除成功" ∷ effects))
    else (node_confirm_close d, s, NodeEffect.error body.message ∷ [])
