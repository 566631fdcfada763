-- ===== src/Nodes/Tests.antt =====
-- The page of nodes on concrete nodes and answers, at which the theorems hold.
use gonitor.Prelude.{
  filter, ℕ, suc, ◌+◌, ◌*◌, ◌^◌, ◌≤◌, ◌<◌, true, false, none, some, [], ◌∷◌, String, concat, ◌≡◌,
  refl, All, arith,
}
use gonitor.Prelude.Int.{pos}
use gonitor.Request.{failed, Failure, Body, Piece, Method}
use gonitor.Js.{trim}
use gonitor.Nodes.{Node, NodesState, Payload, NodeEffect, first_nodes}
use gonitor.Nodes.Size.{size_text, unit_of, format_bytes, format_bytes-Near}
use gonitor.Nodes.Form.{first_form, node_edit_submit}
use gonitor.Nodes.Deploy.{Deploy, DeployData, first_ssh, deployed, ssh_close, deploy_open}
use gonitor.Nodes.Edited.{info_fields, edit_next, edit_next-stale}
use gonitor.Nodes.Pending.{
  Waiting, first_waiting, IsPending, ◌⟶*◌, open_for, here, next, waiting-IsPending,
}
use gonitor.Nodes.View.{nodes_body}
use gonitor.Nodes.Laws.{
  deployed-closes, is_request, IsAllowedRow, body_rows, nodes_body-IsAllowedRow,
}

abbrev node : ℕ → String → Node
node id name = record {
  info = record {
    id = id;
    name = name;
    region = "";
    address = "http://10.0.0.7:8899";
    remark = "";
  };
  secret_key = "0123456789abcdef";
  status = 1;
  is_master = false;
  ip = "";
  os = "linux";
  arch = "amd64";
  cpu_cores = 4;
  memory_total = 8589934592;
  go_version = "";
  agent_version = "";
  last_ping_at = none;
}

abbrev timeout : Failure
timeout = record { message = "timeout" }

abbrev two_nodes : NodesState
unfolding first_nodes
two_nodes = record first_nodes { node_list = node 1 "a" ∷ node 2 "b" ∷ []; loading = false }

shown_size : format_bytes 1536 ≡ size_text "KB" 15
unfolding format_bytes
shown_size = refl

shown_zero : format_bytes 0 ≡ Piece.text "-" ∷ []
unfolding format_bytes
shown_zero = refl

format_bytes-Near_example :
    (i tenths : ℕ) × (format_bytes 1600 ≡ size_text (unit_of i) tenths)
    × (1024 ^ i ≤ 1600)
    × (1600 < 1024 ^ suc i)
    × (2 * (tenths * 1024 ^ i) ≤ 20 * 1600 + 1024 ^ i)
    × (20 * 1600 ≤ 2 * (tenths * 1024 ^ i) + 1024 ^ i)
format_bytes-Near_example = format_bytes-Near 1600 (omega arith)

edit_next-stale_example :
    node_edit_submit
      (edit_next (node 1 "a") (node 2 "b") two_nodes first_form).0.node_edit_info
      (edit_next (node 1 "a") (node 2 "b") two_nodes first_form).1
    ≡ NodeEffect.request Method.put
        (Piece.text "/node/" ∷ Piece.num (pos 2) ∷ [])
        (some (Payload.fields (info_fields (node 1 "a").info)))
      ∷ []
unfolding trim
edit_next-stale_example = edit_next-stale (node 1 "a") (node 2 "b") two_nodes first_form refl refl

abbrev logged_in : Deploy
unfolding first_ssh
logged_in = record {
  node = some (node 1 "a");
  form = record first_ssh { is_open = true; ssh_host = "10.0.0.7"; ssh_pass = "secret" };
}

abbrev found : DeployData
found = record { deploy_log = none; sys_info = some (("os", "linux") ∷ []) }

abbrev reached : Body DeployData
reached = record { code = 0; message = ""; content = some found }

deployed-closes_example :
    ((ssh_close (deployed "ok" (failed timeout) logged_in.form two_nodes).0).is_open ≡ false)
    × (filter is_request (deployed "ok" (failed timeout) logged_in.form two_nodes).2 ≡ [])
    × ((deployed "ok" (failed timeout) logged_in.form two_nodes).1 ≡ two_nodes)
    × ((deployed "ok" (failed timeout) logged_in.form two_nodes).0.deploy_log
        ≡ concat logged_in.form.deploy_log "\n请求失败: timeout")
deployed-closes_example = deployed-closes "ok" (failed timeout) logged_in.form two_nodes

nodes_body-IsAllowedRow_example :
    All (IsAllowedRow two_nodes.node_list) (body_rows (nodes_body two_nodes))
nodes_body-IsAllowedRow_example = nodes_body-IsAllowedRow two_nodes

abbrev opened : Waiting
unfolding deploy_open
opened = record first_waiting { dialog = deploy_open (node 1 "a") first_waiting.dialog }

opened_reached : first_waiting ⟶* opened
unfolding deploy_open first_ssh first_waiting opened
opened_reached = next (open_for (node 1 "a") refl) here

waiting-IsPending_example : IsPending opened
waiting-IsPending_example = waiting-IsPending opened opened_reached
