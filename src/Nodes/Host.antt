-- ===== src/Nodes/Host.antt =====
-- The host that the dialog for deploying takes from the address of a node, and the row that
-- `toggleExpand` opens (web/client/src/screen/nodeList/NodeList.js).
use gonitor.Prelude.{
  ℕ, zero, suc, ◌+◌, Bool, true, false, not, ◌&&◌, Option, none, some, List, [], ◌∷◌, String,
  concat, ◌==◌, nat_eq, if◌then◌else◌, at, or_else, ◌≡◌, refl, ap, ◌∙◌, arith,
}
use gonitor.Nodes.{Node, NodesState, toggle_expand, is_expanded}
use gonitor.Nodes.Deploy.{host_of, remove_scheme, after_scheme, drop_prefix, before_colon}
use gonitor.Nodes.View.{
  NodeRow, NodesBody, Panel, node_row, node_rows_from, nodes_body, detail_items,
}
use gonitor.Nodes.Laws.{body_rows}
use gonitor.Nodes.Edited.{or_else-blank}
use text.Mathlib.TextLemmas.{nil-append, cons-append}
use Prim.Native.Char.{code}

-- The characters of a text have no colon.
abbrev pub has_colon : String → Bool
has_colon String.[] = false
has_colon (String.◌∷◌ c s) = if code c == b':' then true else has_colon s

before_colon-concat :
    (host port : String)
    → has_colon host ≡ false
    → before_colon (concat host (concat ":" port)) ≡ host
unfolding before_colon
before_colon-concat String.[] port h =
    ap before_colon (
      nil-append (concat ":" port)
      ∙ cons-append ":" "" port
      ∙ ap (String.◌∷◌ ":") (nil-append port))
before_colon-concat (String.◌∷◌ c s) port h =
    ap before_colon (cons-append c s (concat ":" port))
    ∙ ground (arith, before_colon-concat s port (ground arith))

-- `concat` by clauses
abbrev joined : String → String → String
joined String.[] t = t
joined (String.◌∷◌ c s) t = String.◌∷◌ c (joined s t)

concat-joined : (s t : String) → concat s t ≡ joined s t
concat-joined String.[] t = nil-append t
concat-joined (String.◌∷◌ c s) t = cons-append c s t ∙ ap (String.◌∷◌ c) (concat-joined s t)

-- The texts that the pattern for the scheme matches
abbrev pub scheme : Bool → String
scheme is_secure = if is_secure then "https://" else "http://"

remove_scheme-joined :
    (is_secure : Bool) (rest : String) → remove_scheme (joined (scheme is_secure) rest) ≡ rest
unfolding remove_scheme after_scheme drop_prefix
remove_scheme-joined true rest = refl
remove_scheme-joined false rest = refl

-- For a node without an IP whose address is a scheme, http:// or https://, a host without a colon,
-- a colon and anything else, the dialog for deploying proposes that host.
pub host_of-address :
    (is_secure : Bool) (host port : String) (node : Node)
    → has_colon host ≡ false
    → node.ip ≡ ""
    → node.info.address ≡ concat (scheme is_secure) (concat host (concat ":" port))
    → host_of node ≡ host
unfolding host_of
host_of-address is_secure host port node h i a =
    let rest = concat host (concat ":" port) in
    let bare =
      ap remove_scheme (a ∙ concat-joined (scheme is_secure) rest)
      ∙ remove_scheme-joined is_secure rest in
    ap (λ ip. or_else ip (or_else (before_colon (remove_scheme node.info.address)) "")) i
    ∙ ap (λ s. or_else s "") (ap before_colon bare ∙ before_colon-concat host port h)
    ∙ or_else-blank host

at-node_rows :
    (expanded : Option ℕ) (k i : ℕ) (node : Node) (nodes : List Node)
    → at i nodes ≡ some node
    → at i (node_rows_from expanded k nodes) ≡ some (node_row expanded (k + i) node)
unfolding node_rows_from
at-node_rows expanded k i node [] h = absurd (ground arith)
at-node_rows expanded k zero node (n ∷ nodes) h = ground arith
at-node_rows expanded k (suc i) node (n ∷ nodes) h =
    at-node_rows expanded (suc k) i node nodes h
    ∙ ap (λ m. some (node_row expanded m node)) (omega arith)

-- Whether the details of a row are open, `none` for a row without details
abbrev pub panel_open : Option NodeRow → Option Bool
panel_open none = none
panel_open (some row) = elim row.panel as (λ x. Option Bool) [
  | none ↦ none
  | some panel ↦ some panel.is_open
]

nodes_body-loaded :
    (s : NodesState)
    → s.loading ≡ false
    → body_rows (nodes_body s) ≡ node_rows_from s.expanded_node_id 0 s.node_list
unfolding nodes_body
nodes_body-loaded s l =
    ap
      (λ b. body_rows (
        if b
        then NodesBody.skeletons 3 10
        else NodesBody.rows (node_rows_from s.expanded_node_id 0 s.node_list)))
      l

node_row-panel :
    (expanded : Option ℕ) (k : ℕ) (node : Node)
    → panel_open (some (node_row expanded k node))
      ≡ (if node.is_master then none else some (is_expanded node.info.id expanded))
unfolding node_row
node_row-panel expanded k node = by_kind node.is_master
  where
    by_kind :
        (master : Bool)
        → elim (if◌then◌else◌ {A = Option Panel}
              (not master)
              (some
                (record { is_open = is_expanded node.info.id expanded; items = detail_items node }))
              none)
            as (λ x. Option Bool) [ none ↦ none | some panel ↦ some panel.is_open ]
          ≡ (if master then none else some (is_expanded node.info.id expanded))
    by_kind true = refl
    by_kind false = refl

toggled_is :
    (was : Bool) (id other : ℕ)
    → is_expanded other (if was then none else some id) ≡ (id == other && not was)
toggled_is true id other = ground arith
toggled_is false id other = ground arith

-- In a table that is loaded, a click on the arrow of a node opens the details of this node and
-- closes those of every other; where they were open it closes them. A master has none.
pub toggle_expand-panel :
    (i : ℕ) (node other : Node) (s : NodesState)
    → s.loading ≡ false
    → at i s.node_list ≡ some other
    → panel_open (at i (body_rows (nodes_body (toggle_expand node.info.id s)))) ≡ (
        if other.is_master
        then none
        else some
            (node.info.id == other.info.id && not (is_expanded node.info.id s.expanded_node_id)))
unfolding toggle_expand
toggle_expand-panel i node other s l h =
    let toggled =
      (if is_expanded node.info.id s.expanded_node_id then none else some node.info.id) in
    ap (λ rows. panel_open (at i rows)) (nodes_body-loaded (toggle_expand node.info.id s) l)
    ∙ ap panel_open (at-node_rows toggled 0 i other s.node_list h)
    ∙ node_row-panel toggled (0 + i) other
    ∙ ap (λ b. if other.is_master then none else some b)
        (toggled_is (is_expanded node.info.id s.expanded_node_id) node.info.id other.info.id)
