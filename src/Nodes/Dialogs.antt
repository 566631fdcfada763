-- ===== src/Nodes/Dialogs.antt =====
-- What the dialogs of the page of nodes show (web/client/src/screen/nodeList/NodeList.js).
use gonitor.Prelude.{
  ℕ, zero, suc, Bool, true, false, Option, none, some, List, [], ◌∷◌, String, if◌then◌else◌, truthy,
  or_else, concat, map, ◌≡◌, refl,
}
use gonitor.Nodes.{Node}
use gonitor.Nodes.Form.{NodeForm, NodeFormEvent, NodeConfirm, on_node_form_event}
use gonitor.Nodes.Deploy.{SshForm, Deploy, DeployNew, SysInfo}
use gonitor.Nodes.DeployNew.{SshEvent, DeployNewEvent, on_ssh_event, on_deploy_new_event}

-- A `TextField`, with the event of its change
pub record DialogField (E : Type 0) : Type 0 where
  pub label : String
  pub value : String
  pub required : Bool
  pub on_change : String → E

-- A button; one that loads cannot be clicked
pub record DialogButton : Type 0 where
  pub label : String
  pub loading : Bool
  pub disabled : Bool

pub record DialogView (E : Type 0) : Type 0 where
  pub is_open : Bool
  pub title : String
  pub fields : List (DialogField E)
  pub system : Option (List (String × String))
  pub progress : Bool
  pub log : Option String
  pub buttons : List DialogButton

abbrev pub button : String → DialogButton
button label = record { label = label; loading = false; disabled = false }

-- The inputs of `NodeAdd`, and those of `NodeEdit`
unfoldable pub node_form_fields : NodeForm → List (DialogField NodeFormEvent)
node_form_fields f =
    record { label = "节点名称"; value = f.name; required = true; on_change = NodeFormEvent.names }
    ∷ record {
      label = "区域 (例如: 香港, 新加坡)";
      value = f.region;
      required = false;
      on_change = NodeFormEvent.sets_region;
    }
    ∷ record {
      label = "节点地址 (例如: http://192.168.1.100:8899)";
      value = f.address;
      required = true;
      on_change = NodeFormEvent.sets_address;
    }
    ∷ record { label = "备注"; value = f.remark; required = false; on_change = NodeFormEvent.remarks }
    ∷ []

unfoldable pub node_add_view : NodeForm → DialogView NodeFormEvent
unfolding node_form_fields
node_add_view f = record {
  is_open = f.is_open;
  title = "添加边缘节点";
  fields = node_form_fields f;
  system = none;
  progress = false;
  log = none;
  buttons = button "取消" ∷ button "添加" ∷ [];
}

unfoldable pub node_edit_view : NodeForm → DialogView NodeFormEvent
unfolding node_form_fields
node_edit_view f = record {
  is_open = f.is_open;
  title = "编辑边缘节点";
  fields = node_form_fields f;
  system = none;
  progress = false;
  log = none;
  buttons = button "取消" ∷ button "保存" ∷ [];
}

-- The inputs for SSH that the two dialogs for deploying have
unfoldable pub ssh_fields : {E : Type 0} → (SshEvent → E) → SshForm → List (DialogField E)
ssh_fields event f =
    record {
      label = "SSH 主机地址";
      value = f.ssh_host;
      required = true;
      on_change = λ s. event (SshEvent.sets_host s);
    }
    ∷ record {
      label = "SSH 端口";
      value = f.ssh_port;
      required = false;
      on_change = λ s. event (SshEvent.sets_port s);
    }
    ∷ record {
      label = "SSH 用户名";
      value = f.ssh_user;
      required = true;
      on_change = λ s. event (SshEvent.sets_user s);
    }
    ∷ record {
      label = "SSH 密码";
      value = f.ssh_pass;
      required = true;
      on_change = λ s. event (SshEvent.sets_pass s);
    }
    ∷ record {
      label = "安装路径";
      value = f.install_path;
      required = false;
      on_change = λ s. event (SshEvent.sets_path s);
    }
    ∷ []

-- The information about the remote system
unfoldable pub system_items : Option SysInfo → Option (List (String × String))
system_items none = none
system_items (some info) = some (map (λ entry. (entry.0, or_else entry.1 "-")) info)

abbrev pub shown_log : String → Option String
shown_log log = if truthy log then some log else none

-- The three buttons, with the label of the last
unfoldable pub deploy_buttons : String → SshForm → List DialogButton
deploy_buttons label f =
    record { label = "取消"; loading = false; disabled = f.deploying }
    ∷ record { label = "测试连接"; loading = f.testing; disabled = f.deploying }
    ∷ record { label = label; loading = f.deploying; disabled = false }
    ∷ []

abbrev pub name_of : Option Node → String
name_of none = ""
name_of (some node) = node.info.name

unfoldable pub deploy_view : Deploy → DialogView SshEvent
unfolding ssh_fields system_items deploy_buttons
deploy_view d = record {
  is_open = d.form.is_open;
  title = concat "SSH 部署 - " (name_of d.node);
  fields = ssh_fields (λ e. e) d.form;
  system = system_items d.form.sys_info;
  progress = d.form.deploying;
  log = shown_log d.form.deploy_log;
  buttons = deploy_buttons "开始部署" d.form;
}

unfoldable pub deploy_new_fields : DeployNew → List (DialogField DeployNewEvent)
unfolding ssh_fields
deploy_new_fields d =
    record { label = "节点名称"; value = d.name; required = true; on_change = DeployNewEvent.names }
    ∷ record {
      label = "区域";
      value = d.region;
      required = false;
      on_change = DeployNewEvent.sets_region;
    }
    ∷ record {
      label = "备注";
      value = d.remark;
      required = false;
      on_change = DeployNewEvent.remarks;
    }
    ∷ ssh_fields DeployNewEvent.ssh d.form

unfoldable pub deploy_new_view : DeployNew → DialogView DeployNewEvent
unfolding deploy_new_fields system_items deploy_buttons
deploy_new_view d = record {
  is_open = d.form.is_open;
  title = "一键部署新边缘节点";
  fields = deploy_new_fields d;
  system = system_items d.form.sys_info;
  progress = d.form.deploying;
  log = shown_log d.form.deploy_log;
  buttons = deploy_buttons "创建并部署" d.form;
}

-- The text of `DeleteConfirmDialog`, around the name
unfoldable pub delete_text : NodeConfirm → String
delete_text d = concat "确定要删除节点 \"" (concat (name_of d.node) "\" 吗？删除前请确保没有任务分配到此节点。")

abbrev pub set_at : ℕ → String → List String → List String
set_at i s [] = []
set_at zero s (x ∷ xs) = s ∷ xs
set_at (suc i) s (x ∷ xs) = x ∷ set_at i s xs

abbrev pub values : {E : Type 0} → List (DialogField E) → List String
values [] = []
values (f ∷ fs) = f.value ∷ values fs

-- A text that is entered into one of the inputs, the first of which has the place `i`, is what
-- this input then shows, and the other inputs show what they did.
abbrev pub AllIndependent :
    {S E : Type 0}
    → (E → S → S)
    → (S → List (DialogField E))
    → S
    → ℕ
    → List (DialogField E)
    → Type 0
AllIndependent on view s i [] = Unit {0}
AllIndependent on view s i (field ∷ rest) =
    ((t : String) → values (view (on (field.on_change t) s)) ≡ set_at i t (values (view s)))
    × AllIndependent on view s (suc i) rest

-- In the dialogs for adding and editing a node and in the two for deploying, a text entered into
-- an input is what this input shows afterwards, and all other inputs show what they did.
pub fields-AllIndependent :
    (f : NodeForm) (ssh : SshForm) (d : DeployNew)
    → AllIndependent on_node_form_event node_form_fields f 0 (node_form_fields f)
      × AllIndependent on_ssh_event (ssh_fields (λ e. e)) ssh 0 (ssh_fields (λ e. e) ssh)
      × AllIndependent on_deploy_new_event deploy_new_fields d 0 (deploy_new_fields d)
unfolding node_form_fields on_node_form_event ssh_fields on_ssh_event deploy_new_fields
    on_deploy_new_event
fields-AllIndependent f ssh d = (
  (λ t. refl, (λ t. refl, (λ t. refl, (λ t. refl, tt)))),
  (λ t. refl, (λ t. refl, (λ t. refl, (λ t. refl, (λ t. refl, tt))))),
  (
    λ t. refl,
    (λ t. refl, (λ t. refl, (λ t. refl, (λ t. refl, (λ t. refl, (λ t. refl, (λ t. refl, tt))))))),
  ),
)
