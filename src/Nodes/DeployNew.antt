-- ===== src/Nodes/DeployNew.antt =====
-- The dialog that makes a node and deploys to it: `NodeDeployNewDialog` of
-- web/client/src/screen/nodeList/NodeList.js.
use gonitor.Prelude.{true, not, some, List, [], ◌∷◌, String, if◌then◌else◌, truthy}
use gonitor.Request.{Reply, Piece, Method}
use gonitor.Js.{trim}
use gonitor.Nodes.{NodesState, Payload, NodeEffect}
use gonitor.Nodes.Deploy.{
  SshForm, DeployNew, DeployData, ssh_open, ssh_close, handle_test, tested, is_missing, login_of,
  deployed, port_of,
}

-- Its inputs, with those that the dialog for deploying has too
pub data SshEvent : Type 0 where
  sets_host sets_port sets_user sets_pass sets_path : String → SshEvent

unfoldable pub on_ssh_event : SshEvent → SshForm → SshForm
on_ssh_event (SshEvent.sets_host s) f = record f { ssh_host = s }
on_ssh_event (SshEvent.sets_port s) f = record f { ssh_port = s }
on_ssh_event (SshEvent.sets_user s) f = record f { ssh_user = s }
on_ssh_event (SshEvent.sets_pass s) f = record f { ssh_pass = s }
on_ssh_event (SshEvent.sets_path s) f = record f { install_path = s }

pub data DeployNewEvent : Type 0 where
  names sets_region remarks : String → DeployNewEvent
  ssh : SshEvent → DeployNewEvent

unfoldable pub on_deploy_new_event : DeployNewEvent → DeployNew → DeployNew
unfolding on_ssh_event
on_deploy_new_event (DeployNewEvent.names s) d = record d { name = s }
on_deploy_new_event (DeployNewEvent.sets_region s) d = record d { region = s }
on_deploy_new_event (DeployNewEvent.remarks s) d = record d { remark = s }
on_deploy_new_event (DeployNewEvent.ssh e) d = record d { form = on_ssh_event e d.form }

unfoldable pub deploy_new_open : DeployNew → DeployNew
unfolding ssh_open
deploy_new_open d = record { name = ""; region = ""; remark = ""; form = ssh_open "" d.form }

unfoldable pub deploy_new_close : DeployNew → DeployNew
unfolding ssh_close
deploy_new_close d = record d { form = ssh_close d.form }

unfoldable pub deploy_new_test : DeployNew → DeployNew × List NodeEffect
unfolding handle_test
deploy_new_test d = let (f, effects) = handle_test d.form in (record d { form = f }, effects)

unfoldable pub deploy_new_tested : Reply DeployData → DeployNew → DeployNew × List NodeEffect
unfolding tested
deploy_new_tested r d = let (f, effects) = tested r d.form in (record d { form = f }, effects)

unfoldable pub handle_deploy_new : DeployNew → DeployNew × List NodeEffect
unfolding port_of
handle_deploy_new d =
    if not (truthy (trim d.name))
    then (d, NodeEffect.error "请填写节点名称" ∷ [])
    else if is_missing d.form
    then (d, NodeEffect.error "请填写SSH连接信息" ∷ [])
    else (
      record d { form = record (d.form) { deploying = true; deploy_log = "正在创建节点并部署...\n" } },
      NodeEffect.request Method.post (Piece.text "/node/deploy/new" ∷ []) (
            some
              (Payload.deploy_new d.name d.region d.remark (login_of d.form) d.form.install_path))
          ∷ [],
    )

unfoldable pub node_made :
    Reply DeployData → DeployNew → NodesState → DeployNew × NodesState × List NodeEffect
unfolding deployed
node_made r d s =
    let (f, s', effects) = deployed "节点创建并部署成功" r d.form s in (record d { form = f }, s', effects)
