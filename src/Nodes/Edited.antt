-- ===== src/Nodes/Edited.antt =====
-- What the dialogs of the page of nodes send and show when one follows another
-- (web/client/src/screen/nodeList/NodeList.js).
use gonitor.Prelude.{
  true, false, some, [], ◌∷◌, String, truthy, or_else, nat_eq, ◌≡◌, refl, ap, arith,
}
use gonitor.Prelude.Int.{pos}
use gonitor.Request.{got, Body, Piece, Method}
use gonitor.Js.{trim}
use gonitor.Nodes.{Node, NodeInfo, NodesState, NodeFields, Payload, NodeEffect}
use gonitor.Nodes.Form.{
  NodeForm, close_form, form_fields, node_edit_open, node_edit_submit, show_edit_dialog,
}
use gonitor.Nodes.Deploy.{
  Deploy, DeployData, SysInfo, deploy_open, handle_test, tested, ssh_open, ssh_close, is_missing,
  host_of,
}

pub or_else-blank : (s : String) → or_else s "" ≡ s
or_else-blank String.[] = refl
or_else-blank (String.◌∷◌ c s) = refl

abbrev pub info_fields : NodeInfo → NodeFields
info_fields info = record {
  name = info.name;
  region = info.region;
  address = info.address;
  remark = info.remark;
}

opened-fields :
    (info : NodeInfo) (f : NodeForm) → form_fields (node_edit_open info f) ≡ info_fields info
unfolding node_edit_open
opened-fields info f = cc (
  or_else-blank info.name,
  or_else-blank info.region,
  or_else-blank info.address,
  or_else-blank info.remark,
)

submit-fields :
    (info : NodeInfo) (f : NodeForm) (fields : NodeFields)
    → form_fields f ≡ fields
    → truthy (trim fields.name) ≡ true
    → truthy (trim fields.address) ≡ true
    → node_edit_submit info f
      ≡ NodeEffect.request Method.put
          (Piece.text "/node/" ∷ Piece.num (pos info.id) ∷ [])
          (some (Payload.fields fields))
        ∷ []
unfolding node_edit_submit
submit-fields info f fields e n p =
    ground (arith, e, ap (λ x. truthy (trim x.name)) e, ap (λ x. truthy (trim x.address)) e)

-- The page after the dialog for editing a node was shown and closed, and then shown for another
abbrev pub edit_next : Node → Node → NodesState → NodeForm → NodesState × NodeForm
unfolding show_edit_dialog close_form
edit_next a b s f = let (s', f') = show_edit_dialog a s f in show_edit_dialog b s' (close_form f')

-- When the dialog for editing is shown for a node `a` whose name and address are not blank,
-- closed, and then shown for a node `b`, saving it writes the fields of `a` to the node `b`.
pub edit_next-stale :
    (a b : Node) (s : NodesState) (f : NodeForm)
    → truthy (trim a.info.name) ≡ true
    → truthy (trim a.info.address) ≡ true
    → node_edit_submit (edit_next a b s f).0.node_edit_info (edit_next a b s f).1
      ≡ NodeEffect.request Method.put
          (Piece.text "/node/" ∷ Piece.num (pos b.info.id) ∷ [])
          (some (Payload.fields (info_fields a.info)))
        ∷ []
unfolding show_edit_dialog edit_next
edit_next-stale a b s f n p =
    submit-fields b.info (edit_next a b s f).1 (info_fields a.info)
      (opened-fields a.info (close_form (show_edit_dialog a s f).1)) n p

-- The dialog for deploying after a test was started, the dialog closed, and opened for a node
abbrev pub test_next : Node → Deploy → Deploy
unfolding handle_test ssh_close deploy_open
test_next b d = deploy_open b (record d { form = ssh_close (handle_test d.form).0 })

-- A connection test that is started in the dialog of one node, with its login filled in and
-- nothing being deployed, and that is answered with a system after the dialog was closed and
-- opened for the node `b`, is shown as the system of `b`; until the answer the dialog of `b` shows
-- a running test.
pub test_next-stale :
    (b : Node) (d : Deploy) (r : Body DeployData) (data' : DeployData) (info : SysInfo)
    → is_missing d.form ≡ false
    → d.form.deploying ≡ false
    → r.code ≡ 0
    → r.content ≡ some data'
    → data'.sys_info ≡ some info
    → ((test_next b d).node ≡ some b)
      × ((test_next b d).form.testing ≡ true)
      × ((tested (got r) (test_next b d).form).0.ssh_host ≡ host_of b)
      × ((tested (got r) (test_next b d).form).0.sys_info ≡ some info)
unfolding handle_test ssh_close deploy_open ssh_open tested
test_next-stale b d r data' info m p c k i = ground arith
