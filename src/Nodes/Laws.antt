-- ===== src/Nodes/Laws.antt =====
-- How the page of nodes follows the answers, and what its table offers
-- (web/client/src/screen/nodeList/NodeList.js).
use gonitor.Prelude.{
  ℕ, suc, Bool, true, false, not, ◌&&◌, Option, List, [], ◌∷◌, ◌++◌, String, concat, ◌==◌, nat_eq,
  string_eq, if◌then◌else◌, any, All, All-append, ◌≡◌, refl, arith, filter, none, some, or_else,
  Bool-cases, inl, inr,
}
use gonitor.Request.{Reply, got, failed, Piece, Method}
use gonitor.Nodes.{
  Node, NodesState, NodeEffect, on_nodes, refresh_node_list, nodes_refreshed, is_expanded,
}
use gonitor.Nodes.Deploy.{DeployData, SshForm, deployed, ssh_close, log_or_done}
use gonitor.Nodes.View.{
  RowButton, RowCommand, NodeRow, NodesBody, row_buttons, expand_buttons, secret_buttons,
  action_buttons, has_secret, node_row, node_rows_from, nodes_body,
}

abbrev pub has_answer : {A : Type 0} → Reply A → Bool
has_answer (got body) = true
has_answer (failed err) = false

-- The button for refreshing stops to load exactly if the request is answered, be it by an error
-- code: after a failed request it loads on.
pub nodes_refreshed-loading :
    (r : Reply (List Node)) (s : NodesState)
    → (nodes_refreshed r (refresh_node_list s).0).0.refresh_loading ≡ not (has_answer r)
unfolding nodes_refreshed on_nodes refresh_node_list
nodes_refreshed-loading (failed err) s = refl
nodes_refreshed-loading (got body) s = ground arith

abbrev pub succeeded : {A : Type 0} → Reply A → Bool
succeeded (got body) = body.code == 0
succeeded (failed err) = false

-- The log that an answer to a deployment has, the empty one where there is none
abbrev pub sent_log : Option DeployData → String
sent_log none = ""
sent_log (some d) = elim d.deploy_log as (λ x. String) [ none ↦ "" | some log ↦ log ]

abbrev pub or_message : String → String
or_message String.[] = "部署完成"
or_message (String.◌∷◌ c s) = String.◌∷◌ c s

-- The log that the dialog shows after an answer: the log before it with the message of a failure
-- at its end, and else the log of the answer, or a message where it is empty
abbrev pub log_after : String → Reply DeployData → String
log_after old (failed err) = concat old (concat "\n请求失败: " err.message)
log_after old (got body) =
    if body.code == 0
    then or_message (sent_log body.content)
    else concat old (concat "\n部署失败: " body.message)

log_or_done-or_message : (o : Option DeployData) → log_or_done o ≡ or_message (sent_log o)
log_or_done-or_message none = refl
log_or_done-or_message (some d) = by_log d.deploy_log
  where
    by_text : (log : String) → or_else log "部署完成" ≡ or_message log
    by_text String.[] = refl
    by_text (String.◌∷◌ c s) = refl

    by_log :
        (o : Option String)
        → (elim o as (λ x. String) [ none ↦ "部署完成" | some log ↦ or_else log "部署完成" ])
          ≡ or_message (elim o as (λ x. String) [ none ↦ "" | some log ↦ log ])
    by_log none = refl
    by_log (some log) = by_text log

abbrev pub is_request : NodeEffect → Bool
is_request (NodeEffect.request method url payload) = true
is_request _ = false

-- Whatever the answer to a deployment: the dialog can be closed afterwards; the list of nodes is
-- asked for, with its button loading, exactly on a success, nothing else is asked for, and on a
-- failure the page stays as it is; and the log shown is on a failure the log before with the message of the failure at its end, and on a
-- success the log of the answer, or a message where the answer has none.
pub deployed-closes :
    (message : String) (r : Reply DeployData) (f : SshForm) (s : NodesState)
    → ((ssh_close (deployed message r f s).0).is_open ≡ false)
      × (filter is_request (deployed message r f s).2 ≡ (
          if succeeded r
          then NodeEffect.request Method.get (Piece.text "/node/list" ∷ []) none ∷ []
          else []))
      × ((deployed message r f s).1
          ≡ (if succeeded r then record s { refresh_loading = true } else s))
      × ((deployed message r f s).0.deploy_log ≡ log_after f.deploy_log r)
unfolding deployed ssh_close refresh_node_list
deployed-closes message (failed err) f s = (refl, refl, refl, refl)
deployed-closes message (got body) f s = elim (Bool-cases (body.code == 0)) [
  | inl success ↦ (
    ground (arith, success),
    ground (arith, success),
    ground (arith, success),
    ground (arith, success, log_or_done-or_message body.content),
  )
  | inr failure ↦ (
    ground (arith, failure),
    ground (arith, failure),
    ground (arith, failure),
    ground (arith, failure),
  )
]

-- The commands that a list of nodes allows: those about a node of it that is not the master
abbrev pub is_about : RowCommand → Node → Bool
is_about (RowCommand.toggle id) n = n.info.id == id
is_about (RowCommand.copy text) n = n.secret_key == text
is_about (RowCommand.show_deploy node) n = n.info.id == node.info.id
is_about (RowCommand.show_edit node) n = n.info.id == node.info.id
is_about (RowCommand.regenerate id) n = n.info.id == id
is_about (RowCommand.show_delete node) n = n.info.id == node.info.id

abbrev pub IsAllowed : List Node → RowButton → Type 0
IsAllowed nodes b = any (λ n. not n.is_master && is_about b.command n) nodes ≡ true

All-if :
    (P : RowButton → Type 0) (b : Bool) (buttons : List RowButton)
    → (b ≡ true → All P buttons)
    → All P (if b then buttons else [])
All-if P true buttons h = h refl
All-if P false buttons h = tt

row_buttons-IsAllowed :
    (expanded : Bool) (node : Node) (nodes : List Node)
    → All (IsAllowed (node ∷ nodes)) (row_buttons expanded node)
unfolding row_buttons
row_buttons-IsAllowed expanded node nodes =
    All-append (IsAllowed (node ∷ nodes)) (expand_buttons expanded node ++ secret_buttons node)
      (action_buttons node)
      (All-append (IsAllowed (node ∷ nodes)) (expand_buttons expanded node) (secret_buttons node)
        (All-if (IsAllowed (node ∷ nodes)) (not node.is_master) _ (λ e. (ground (arith, e), tt)))
        (All-if (IsAllowed (node ∷ nodes)) (has_secret node) _
          (λ e. (ground (arith, e, string_eq.same_iff node.secret_key node.secret_key), tt))))
      (All-if (IsAllowed (node ∷ nodes)) (not node.is_master) _ (λ e.
        (ground (arith, e), (ground (arith, e), (ground (arith, e), (ground (arith, e), tt))))))

IsAllowed-more :
    (node : Node) (nodes : List Node) (buttons : List RowButton)
    → All (IsAllowed nodes) buttons
    → All (IsAllowed (node ∷ nodes)) buttons
IsAllowed-more node nodes [] h = tt
IsAllowed-more node nodes (b ∷ buttons) (h, hs) =
    (ground (arith, h), IsAllowed-more node nodes buttons hs)

abbrev pub IsAllowedRow : List Node → NodeRow → Type 0
IsAllowedRow nodes row = All (IsAllowed nodes) row.buttons

IsAllowedRow-more :
    (node : Node) (nodes : List Node) (rows : List NodeRow)
    → All (IsAllowedRow nodes) rows
    → All (IsAllowedRow (node ∷ nodes)) rows
IsAllowedRow-more node nodes [] h = tt
IsAllowedRow-more node nodes (r ∷ rows) (h, hs) =
    (IsAllowed-more node nodes r.buttons h, IsAllowedRow-more node nodes rows hs)

node_rows-IsAllowedRow :
    (expanded : Option ℕ) (inx : ℕ) (nodes : List Node)
    → All (IsAllowedRow nodes) (node_rows_from expanded inx nodes)
unfolding node_rows_from node_row
node_rows-IsAllowedRow expanded inx [] = tt
node_rows-IsAllowedRow expanded inx (node ∷ nodes) = (
  row_buttons-IsAllowed (is_expanded node.info.id expanded) node nodes,
  IsAllowedRow-more node nodes _ (node_rows-IsAllowedRow expanded (suc inx) nodes),
)

abbrev pub body_rows : NodesBody → List NodeRow
body_rows (NodesBody.skeletons m n) = []
body_rows (NodesBody.rows rows) = rows

-- Every button in the table is about a node of the list that is not the master.
pub nodes_body-IsAllowedRow :
    (s : NodesState) → All (IsAllowedRow s.node_list) (body_rows (nodes_body s))
unfolding nodes_body
nodes_body-IsAllowedRow s = shown s.loading
  where
    shown :
        (loading : Bool)
        → All (IsAllowedRow s.node_list) (
            body_rows (
              if loading
              then NodesBody.skeletons 3 10
              else NodesBody.rows (node_rows_from s.expanded_node_id 0 s.node_list)))
    shown true = tt
    shown false = node_rows-IsAllowedRow s.expanded_node_id 0 s.node_list
