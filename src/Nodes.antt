-- ===== src/Nodes.antt =====
-- The page of nodes (web/client/src/screen/nodeList/NodeList.js): the hooks and the handlers of
-- `NodeList`. A handler returns the new state with its effects in order; the answer to its request
-- is an argument of the function that models the continuation.
pub mod Size
pub mod Form
pub mod Deploy
pub mod DeployNew
pub mod View
pub mod Dialogs
pub mod Edited
pub mod Pending
pub mod Laws
pub mod Host
pub mod Tests
use gonitor.Prelude.{
  ℕ, Bool, true, false, not, Option, none, some, List, [], ◌∷◌, String, if◌then◌else◌, ◌==◌, nat_eq,
}
use gonitor.Prelude.Int.{ℤ, pos}
use gonitor.Request.{Reply, got, failed, Failure, Url, Piece, Method}

-- What the dialog for editing gets of a node
pub record NodeInfo : Type 0 where
  pub id : ℕ
  pub name : String
  pub region : String
  pub address : String
  pub remark : String

pub record Node : Type 0 where
  pub info : NodeInfo
  pub secret_key : String
  pub status : ℕ
  pub is_master : Bool
  pub ip : String
  pub os : String
  pub arch : String
  pub cpu_cores : ℕ
  pub memory_total : ℕ
  pub go_version : String
  pub agent_version : String
  pub last_ping_at : Option String

-- The hooks of `NodeList`
pub record NodesState : Type 0 where
  pub node_list : List Node
  pub loading : Bool
  pub refresh_loading : Bool
  pub expanded_node_id : Option ℕ
  pub node_edit_info : NodeInfo

-- The bodies of the requests
pub record NodeFields : Type 0 where
  pub name : String
  pub region : String
  pub address : String
  pub remark : String

pub record SshLogin : Type 0 where
  pub ssh_host : String
  pub ssh_port : ℤ
  pub ssh_user : String
  pub ssh_password : String

pub data Payload : Type 0 where
  fields : NodeFields → Payload
  test : SshLogin → Payload
  deploy : Option ℕ → SshLogin → String → Payload
  deploy_new : String → String → String → SshLogin → String → Payload

pub data NodeEffect : Type 0 where
  error success : String → NodeEffect
  request : Method → Url → Option Payload → NodeEffect
  write_text : String → NodeEffect

unfoldable pub first_nodes : NodesState
first_nodes = record {
  node_list = [];
  loading = true;
  refresh_loading = false;
  expanded_node_id = none;
  node_edit_info = record { id = 0; name = ""; region = ""; address = ""; remark = "" };
}

-- The request of `getNodeList`
abbrev pub ask_nodes : List NodeEffect
ask_nodes = NodeEffect.request Method.get (Piece.text "/node/list" ∷ []) none ∷ []

-- `res.data || []`
abbrev pub list_or_empty : Option (List Node) → List Node
list_or_empty none = []
list_or_empty (some nodes) = nodes

-- `getNodeList` from the answer on, `none` for an exception
unfoldable pub on_nodes : Reply (List Node) → NodesState → Option (NodesState × List NodeEffect)
on_nodes (failed err) s = none
on_nodes (got body) s =
    if not (body.code == 0)
    then some (s, NodeEffect.error body.message ∷ [])
    else some (record s { node_list = list_or_empty body.content }, [])

-- `refreshNodeList` and its continuation
unfoldable pub refresh_node_list : NodesState → NodesState × List NodeEffect
refresh_node_list s = (record s { refresh_loading = true }, ask_nodes)

abbrev pub refreshed :
    NodesState → Option (NodesState × List NodeEffect) → NodesState × List NodeEffect
refreshed s none = (s, [])
refreshed s (some (s', effects)) = (record s' { refresh_loading = false }, effects)

unfoldable pub nodes_refreshed : Reply (List Node) → NodesState → NodesState × List NodeEffect
unfolding on_nodes
nodes_refreshed r s = refreshed s (on_nodes r s)

-- The effect of the first rendering and its continuation
unfoldable pub nodes_first : Bool → Bool × List NodeEffect
nodes_first first_render = if not first_render then (first_render, []) else (false, ask_nodes)

abbrev pub loaded :
    NodesState → Option (NodesState × List NodeEffect) → NodesState × List NodeEffect
loaded s none = (s, [])
loaded s (some (s', effects)) = (record s' { loading = false }, effects)

unfoldable pub nodes_loaded : Reply (List Node) → NodesState → NodesState × List NodeEffect
unfolding on_nodes
nodes_loaded r s = loaded s (on_nodes r s)

-- `handleRegenerateKey` and its continuation
unfoldable pub handle_regenerate_key : ℕ → List NodeEffect
handle_regenerate_key node_id =
    NodeEffect.request Method.get (Piece.text "/node/regenerate/" ∷ Piece.num (pos node_id) ∷ [])
      none
    ∷ []

unfoldable pub key_regenerated : {A : Type 0} → Reply A → NodesState → NodesState × List NodeEffect
unfolding refresh_node_list
key_regenerated (failed err) s = (s, NodeEffect.error "操作失败" ∷ [])
key_regenerated (got body) s =
    if not (body.code == 0)
    then (s, NodeEffect.error body.message ∷ [])
    else (let (s', effects) = refresh_node_list s in (s', NodeEffect.success "密钥已重新生成" ∷ effects))

-- `copyToClipboard`, and what follows when the browser has written the text, or has refused to
unfoldable pub copy_to_clipboard : String → List NodeEffect
copy_to_clipboard text = NodeEffect.write_text text ∷ []

unfoldable pub copied : Bool → List NodeEffect
copied written = if written then NodeEffect.success "已复制到剪贴板" ∷ [] else NodeEffect.error "复制失败" ∷ []

-- `expandedNodeId === nodeId`
abbrev pub is_expanded : ℕ → Option ℕ → Bool
is_expanded node_id none = false
is_expanded node_id (some id) = id == node_id

unfoldable pub toggle_expand : ℕ → NodesState → NodesState
toggle_expand node_id s = record s {
  expanded_node_id = (if is_expanded node_id s.expanded_node_id then none else some node_id);
}
