-- ===== src/Nodes/Deploy.antt =====
-- The two dialogs that deploy over SSH: `NodeDeployDialog`, to a node of the list, and
-- `NodeDeployNewDialog`, which also makes the node (web/client/src/screen/nodeList/NodeList.js).
-- The hooks that both have are the record `SshForm`.
use gonitor.Prelude.{
  ℕ, Bool, true, false, not, ◌||◌, Option, none, some, List, [], ◌∷◌, String, if◌then◌else◌, ◌==◌,
  nat_eq, truthy, or_else, concat,
}
use gonitor.Prelude.Int.{ℤ, pos, is_zero}
use gonitor.Request.{Reply, got, failed, Piece, Method}
use gonitor.Js.{Value, parse_int}
use gonitor.Nodes.{Node, NodesState, SshLogin, Payload, NodeEffect, refresh_node_list}
use Prim.Native.Char.{code}

-- The system of the remote host, as `Object.entries` lists it
abbrev pub SysInfo : Type 0
SysInfo = List (String × String)

-- The data of the answers to the three requests
pub record DeployData : Type 0 where
  pub deploy_log : Option String
  pub sys_info : Option SysInfo

pub record SshForm : Type 0 where
  pub is_open : Bool
  pub ssh_host : String
  pub ssh_port : String
  pub ssh_user : String
  pub ssh_pass : String
  pub install_path : String
  pub deploying : Bool
  pub testing : Bool
  pub deploy_log : String
  pub sys_info : Option SysInfo

-- The hooks of `NodeDeployDialog`, `none` for the empty object
pub record Deploy : Type 0 where
  pub node : Option Node
  pub form : SshForm

-- The hooks of `NodeDeployNewDialog`
pub record DeployNew : Type 0 where
  pub name : String
  pub region : String
  pub remark : String
  pub form : SshForm

unfoldable pub first_ssh : SshForm
first_ssh = record {
  is_open = false;
  ssh_host = "";
  ssh_port = "22";
  ssh_user = "root";
  ssh_pass = "";
  install_path = "/opt/gonitor";
  deploying = false;
  testing = false;
  deploy_log = "";
  sys_info = none;
}

unfoldable pub drop_prefix : String → String → Option String
drop_prefix String.[] s = some s
drop_prefix (String.◌∷◌ c p) String.[] = none
drop_prefix (String.◌∷◌ c p) (String.◌∷◌ d s) =
    let rest = drop_prefix p s in if code c == code d then rest else none

-- A match of `/https?:\/\//` at the start of a text, as what stands after it
unfoldable pub after_scheme : String → Option String
unfolding drop_prefix
after_scheme s = elim (drop_prefix "https://" s) [
  | none ↦ drop_prefix "http://" s
  | some rest ↦ some rest
]

-- `s.replace(/https?:\/\//, "")`
unfoldable pub remove_scheme : String → String
unfolding after_scheme
remove_scheme String.[] = String.[]
remove_scheme (String.◌∷◌ c s) = elim (after_scheme (String.◌∷◌ c s)) [
  | none ↦ String.◌∷◌ c (remove_scheme s)
  | some rest ↦ rest
]

-- `s.split(":")[0]`
unfoldable pub before_colon : String → String
before_colon String.[] = String.[]
before_colon (String.◌∷◌ c s) =
    let rest = before_colon s in if code c == b':' then String.[] else String.◌∷◌ c rest

unfoldable pub host_of : Node → String
unfolding remove_scheme before_colon
host_of node = or_else node.ip (or_else (before_colon (remove_scheme node.info.address)) "")

-- What `handleClickOpen` sets of the hooks that both dialogs have: all but `testing`
unfoldable pub ssh_open : String → SshForm → SshForm
ssh_open host f = record f {
  ssh_host = host;
  ssh_port = "22";
  ssh_user = "root";
  ssh_pass = "";
  install_path = "/opt/gonitor";
  deploying = false;
  deploy_log = "";
  sys_info = none;
  is_open = true;
}

-- `NodeDeployDialog`
unfoldable pub deploy_open : Node → Deploy → Deploy
unfolding ssh_open host_of
deploy_open node d = record { node = some node; form = ssh_open (host_of node) d.form }

unfoldable pub ssh_close : SshForm → SshForm
ssh_close f = if not f.deploying then record f { is_open = false } else f

-- `parseInt(sshPort) || 22`
unfoldable pub port_of : String → ℤ
unfolding parse_int
port_of s = elim (parse_int (Value.text s)) [
  | none ↦ pos 22
  | some z ↦ if is_zero z then pos 22 else z
]

-- `!sshHost || !sshUser || !sshPass`
abbrev pub is_missing : SshForm → Bool
is_missing f = not (truthy f.ssh_host) || (not (truthy f.ssh_user) || not (truthy f.ssh_pass))

abbrev pub login_of : SshForm → SshLogin
unfolding port_of
login_of f = record {
  ssh_host = f.ssh_host;
  ssh_port = port_of f.ssh_port;
  ssh_user = f.ssh_user;
  ssh_password = f.ssh_pass;
}

-- `handleTestConnection`
unfoldable pub handle_test : SshForm → SshForm × List NodeEffect
unfolding port_of
handle_test f = if is_missing f then (f, NodeEffect.error "请填写SSH连接信息" ∷ []) else (
  record f { testing = true; sys_info = none },
  NodeEffect.request Method.post (Piece.text "/node/deploy/test" ∷ [])
        (some (Payload.test (login_of f)))
      ∷ [],
)

-- `res.data?.sys_info`, which replaces the one shown if there is one
abbrev pub sys_info_or : Option SysInfo → Option DeployData → Option SysInfo
sys_info_or old none = old
sys_info_or old (some d) = elim d.sys_info as (λ x. Option SysInfo) [
  | none ↦ old
  | some info ↦ some info
]

unfoldable pub tested : Reply DeployData → SshForm → SshForm × List NodeEffect
tested (failed err) f = (record f { testing = false }, NodeEffect.error "连接测试失败" ∷ [])
tested (got body) f =
    if not (body.code == 0)
    then (record f { testing = false }, NodeEffect.error (concat "连接失败: " body.message) ∷ [])
    else (
      record f { testing = false; sys_info = sys_info_or f.sys_info body.content },
      NodeEffect.success "SSH连接成功" ∷ [],
    )

-- `handleDeploy` of `NodeDeployDialog`
abbrev pub id_of : Option Node → Option ℕ
id_of none = none
id_of (some node) = some node.info.id

unfoldable pub handle_deploy : Deploy → Deploy × List NodeEffect
unfolding port_of
handle_deploy d = if is_missing d.form then (d, NodeEffect.error "请填写SSH连接信息" ∷ []) else (
  record d { form = record (d.form) { deploying = true; deploy_log = "正在连接并部署...\n" } },
  NodeEffect.request Method.post (Piece.text "/node/deploy" ∷ [])
        (some (Payload.deploy (id_of d.node) (login_of d.form) d.form.install_path))
      ∷ [],
)

-- `res.data?.deploy_log || "部署完成"`
abbrev pub log_or_done : Option DeployData → String
log_or_done none = "部署完成"
log_or_done (some d) = elim d.deploy_log as (λ x. String) [
  | none ↦ "部署完成"
  | some log ↦ or_else log "部署完成"
]

-- Its continuation, with the message of a success
unfoldable pub deployed :
    String → Reply DeployData → SshForm → NodesState → SshForm × NodesState × List NodeEffect
unfolding refresh_node_list
deployed message (failed err) f s = (
  record f { deploying = false; deploy_log = concat f.deploy_log (concat "\n请求失败: " err.message) },
  s,
  NodeEffect.error "部署请求失败" ∷ [],
)
deployed message (got body) f s =
    if not (body.code == 0)
    then (
      record f {
        deploying = false;
        deploy_log = concat f.deploy_log (concat "\n部署失败: " body.message);
      },
      s,
      NodeEffect.error (concat "部署失败: " body.message) ∷ [],
    )
    else (let (s', effects) = refresh_node_list s in
        (
          record f {
            deploying = false;
            deploy_log = log_or_done body.content;
            sys_info = sys_info_or f.sys_info body.content;
          },
          s',
          NodeEffect.success message ∷ effects,
        ))

unfoldable pub node_deployed :
    Reply DeployData → Deploy → NodesState → Deploy × NodesState × List NodeEffect
unfolding deployed
node_deployed r d s =
    let (f, s', effects) = deployed "部署成功" r d.form s in (record d { form = f }, s', effects)
