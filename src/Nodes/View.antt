-- ===== src/Nodes/View.antt =====
-- What the page of nodes shows: the table, the buttons of a row and `NodeDetailPanel`
-- (web/client/src/screen/nodeList/NodeList.js).
use gonitor.Prelude.{
  ℕ, zero, suc, ◌+◌, Bool, not, ◌&&◌, Option, none, some, List, [], ◌∷◌, ◌++◌, String,
  if◌then◌else◌, ltb, ◌==◌, nat_eq, truthy, or_else, concat,
}
use gonitor.Prelude.Int.{pos}
use gonitor.Request.{Piece}
use gonitor.Nodes.{Node, NodesState, is_expanded}
use gonitor.Nodes.Size.{format_bytes}

-- What a button of a row calls
pub data RowCommand : Type 0 where
  toggle : ℕ → RowCommand
  copy : String → RowCommand
  show_deploy show_edit : Node → RowCommand
  regenerate : ℕ → RowCommand
  show_delete : Node → RowCommand

pub record RowButton : Type 0 where
  pub title : String
  pub command : RowCommand

-- `node.secret_key.substring(0, 8)`
abbrev pub substring : ℕ → String → String
substring zero s = String.[]
substring (suc n) String.[] = String.[]
substring (suc n) (String.◌∷◌ c s) = String.◌∷◌ c (substring n s)

pub record Panel : Type 0 where
  pub is_open : Bool
  pub items : List (String × List Piece)

-- A row of the table, with the row of its details
pub record NodeRow : Type 0 where
  pub number : ℕ
  pub name : String
  pub region : String
  pub address : String
  pub ip_line : Option String
  pub status_chip : String × String
  pub kind_chip : String × String
  pub system : Option (String × Option (List Piece))
  pub secret : Option String
  pub buttons : List RowButton
  pub panel : Option Panel

abbrev pub or_dash : String → List Piece
or_dash s = Piece.text (or_else s "-") ∷ []

abbrev pub last_ping : Option String → String
last_ping none = "-"
last_ping (some at) = or_else at "-"

-- `NodeDetailPanel`
unfoldable pub detail_items : Node → List (String × List Piece)
unfolding format_bytes
detail_items node =
    ("IP 地址", or_dash node.ip)
    ∷ ("操作系统", or_dash node.os)
    ∷ ("系统架构", or_dash node.arch)
    ∷ (
      "CPU 核心数",
      if ltb 0 node.cpu_cores
          then Piece.num (pos node.cpu_cores) ∷ Piece.text " 核" ∷ []
          else Piece.text "-" ∷ [],
    )
    ∷ ("总内存", format_bytes node.memory_total)
    ∷ ("Go 版本", or_dash node.go_version)
    ∷ ("Agent 版本", or_dash node.agent_version)
    ∷ ("最后心跳", Piece.text (last_ping node.last_ping_at) ∷ [])
    ∷ ("节点地址", or_dash node.info.address)
    ∷ ("区域", or_dash node.info.region)
    ∷ ("备注", or_dash node.info.remark)
    ∷ []

-- The button that expands a row
abbrev pub expand_buttons : Bool → Node → List RowButton
expand_buttons expanded node =
    if not node.is_master
    then record {
      title = (if expanded then "KeyboardArrowUp" else "KeyboardArrowDown");
      command = RowCommand.toggle node.info.id;
    }
      ∷ []
    else []

abbrev pub has_secret : Node → Bool
has_secret node = not node.is_master && truthy node.secret_key

abbrev pub secret_buttons : Node → List RowButton
secret_buttons node =
    if has_secret node
    then record { title = "复制密钥"; command = RowCommand.copy node.secret_key } ∷ []
    else []

abbrev pub action_buttons : Node → List RowButton
action_buttons node =
    if not node.is_master
    then record { title = "SSH部署"; command = RowCommand.show_deploy node }
      ∷ record { title = "编辑"; command = RowCommand.show_edit node }
      ∷ record { title = "重新生成密钥"; command = RowCommand.regenerate node.info.id }
      ∷ record { title = "删除"; command = RowCommand.show_delete node }
      ∷ []
    else []

unfoldable pub row_buttons : Bool → Node → List RowButton
row_buttons expanded node =
    expand_buttons expanded node ++ secret_buttons node ++ action_buttons node

-- The system of a node
unfoldable pub system_cell : Node → Option (String × Option (List Piece))
unfolding format_bytes
system_cell node =
    if truthy node.os
    then some (
      (if truthy node.arch then concat node.os (concat " / " node.arch) else node.os),
      (if ltb 0 node.cpu_cores
          then some
              (Piece.num (pos node.cpu_cores) ∷ Piece.text " 核 / " ∷ format_bytes node.memory_total)
          else none),
    )
    else none

unfoldable pub node_row : Option ℕ → ℕ → Node → NodeRow
unfolding row_buttons system_cell detail_items
node_row expanded_node_id inx node =
    let expanded = is_expanded node.info.id expanded_node_id in
    record {
      number = inx + 1;
      name = node.info.name;
      region = node.info.region;
      address = (if node.is_master then "-" else node.info.address);
      ip_line =
          (if truthy node.ip && not node.is_master then some (concat "IP: " node.ip) else none);
      status_chip = (if node.status == 1 then ("在线", "success") else ("离线", "default"));
      kind_chip = (if node.is_master then ("主节点", "primary") else ("边缘节点", "secondary"));
      system = system_cell node;
      secret =
          (if has_secret node then some (concat (substring 8 node.secret_key) "...") else none);
      buttons = row_buttons expanded node;
      panel =
          (if not node.is_master
            then some (record { is_open = expanded; items = detail_items node })
            else none);
    }

unfoldable pub node_rows_from : Option ℕ → ℕ → List Node → List NodeRow
unfolding node_row
node_rows_from expanded_node_id inx [] = []
node_rows_from expanded_node_id inx (node ∷ nodes) =
    node_row expanded_node_id inx node ∷ node_rows_from expanded_node_id (suc inx) nodes

-- The body of the table: three rows of ten skeletons while loading
pub data NodesBody : Type 0 where
  skeletons : ℕ → ℕ → NodesBody
  rows : List NodeRow → NodesBody

unfoldable pub nodes_body : NodesState → NodesBody
unfolding node_rows_from
nodes_body s =
    if s.loading
    then NodesBody.skeletons 3 10
    else NodesBody.rows (node_rows_from s.expanded_node_id 0 s.node_list)
