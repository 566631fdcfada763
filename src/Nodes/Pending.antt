-- ===== src/Nodes/Pending.antt =====
-- The dialog for deploying to a node as a state machine, with the requests that wait for their
-- answers (web/client/src/screen/nodeList/NodeList.js). The dialog is modal: its opening buttons
-- can be clicked while it is closed and its own while it is open, and a button that loads or is
-- disabled cannot be clicked.
use gonitor.Prelude.{
  ℕ, suc, ◌+◌, Bool, true, false, not, ◌&&◌, none, List, String, length, filter, if◌then◌else◌,
  nat_eq, ◌≡◌, refl, arith,
}
use gonitor.Request.{Reply, got, failed}
use gonitor.Nodes.{Node, NodesState, NodeEffect}
use gonitor.Nodes.Deploy.{
  Deploy, DeployData, SshForm, first_ssh, deploy_open, ssh_open, ssh_close, handle_test, tested,
  handle_deploy, deployed, node_deployed,
}
use gonitor.Nodes.DeployNew.{SshEvent, on_ssh_event}

-- The dialog with the numbers of its requests that have no answer yet
pub record Waiting : Type 0 where
  pub dialog : Deploy
  pub tests : ℕ
  pub deploys : ℕ

unfoldable pub first_waiting : Waiting
unfolding first_ssh
first_waiting = record { dialog = record { node = none; form = first_ssh }; tests = 0; deploys = 0 }

abbrev pub is_request : NodeEffect → Bool
is_request (NodeEffect.request method url payload) = true
is_request _ = false

abbrev pub requests : List NodeEffect → ℕ
requests effects = length (filter is_request effects)

infix 40 ◌⟶◌ ◌⟶*◌
pub data ◌⟶◌ : Waiting → Waiting → Type 0 where
  open_for :
      {w : Waiting} (node : Node)
      → w.dialog.form.is_open ≡ false
      → w ⟶ record w { dialog = deploy_open node w.dialog }
  close :
      {w : Waiting} → w ⟶ record w { dialog = record (w.dialog) { form = ssh_close w.dialog.form } }
  enter :
      {w : Waiting} (e : SshEvent)
      → w ⟶ record w { dialog = record (w.dialog) { form = on_ssh_event e w.dialog.form } }
  click_test :
      {w : Waiting}
      → w.dialog.form.is_open ≡ true
      → w.dialog.form.testing ≡ false
      → w.dialog.form.deploying ≡ false
      → w ⟶ record w {
        dialog = record (w.dialog) { form = (handle_test w.dialog.form).0 };
        tests = w.tests + requests (handle_test w.dialog.form).1;
      }
  click_deploy :
      {w : Waiting}
      → w.dialog.form.is_open ≡ true
      → w.dialog.form.deploying ≡ false
      → w ⟶ record w {
        dialog = (handle_deploy w.dialog).0;
        deploys = w.deploys + requests (handle_deploy w.dialog).1;
      }
  answer_test :
      {w : Waiting} (n : ℕ) (r : Reply DeployData)
      → w.tests ≡ suc n
      → w ⟶ record w { dialog = record (w.dialog) { form = (tested r w.dialog.form).0 }; tests = n }
  answer_deploy :
      {w : Waiting} (n : ℕ) (r : Reply DeployData) (s : NodesState)
      → w.deploys ≡ suc n
      → w ⟶ record w { dialog = (node_deployed r w.dialog s).0; deploys = n }

pub data ◌⟶*◌ : Waiting → Waiting → Type 0 where
  here : {w : Waiting} → w ⟶* w
  next : {w v u : Waiting} → w ⟶ v → v ⟶* u → w ⟶* u

abbrev pub one_if : Bool → ℕ
one_if b = if b then 1 else 0

-- A button loads exactly while its one request waits, and a dialog that deploys is open.
pub record IsPending (w : Waiting) : Type 0 where
  pub tests_one : w.tests ≡ one_if w.dialog.form.testing
  pub deploys_one : w.deploys ≡ one_if w.dialog.form.deploying
  pub stays_open : w.dialog.form.deploying && not w.dialog.form.is_open ≡ false

tested-flags :
    (r : Reply DeployData) (f : SshForm)
    → ((tested r f).0.testing ≡ false)
      × ((tested r f).0.deploying ≡ f.deploying)
      × ((tested r f).0.is_open ≡ f.is_open)
unfolding tested
tested-flags (failed err) f = (refl, refl, refl)
tested-flags (got body) f = ground arith

pub deployed-flags :
    (message : String) (r : Reply DeployData) (f : SshForm) (s : NodesState)
    → ((deployed message r f s).0.deploying ≡ false)
      × ((deployed message r f s).0.testing ≡ f.testing)
      × ((deployed message r f s).0.is_open ≡ f.is_open)
unfolding deployed
deployed-flags message (failed err) f s = (refl, refl, refl)
deployed-flags message (got body) f s = ground arith

entered-flags :
    (e : SshEvent) (f : SshForm)
    → ((on_ssh_event e f).deploying ≡ f.deploying)
      × ((on_ssh_event e f).testing ≡ f.testing)
      × ((on_ssh_event e f).is_open ≡ f.is_open)
unfolding on_ssh_event
entered-flags (SshEvent.sets_host s) f = (refl, refl, refl)
entered-flags (SshEvent.sets_port s) f = (refl, refl, refl)
entered-flags (SshEvent.sets_user s) f = (refl, refl, refl)
entered-flags (SshEvent.sets_pass s) f = (refl, refl, refl)
entered-flags (SshEvent.sets_path s) f = (refl, refl, refl)

step-IsPending : {w v : Waiting} → w ⟶ v → IsPending w → IsPending v
unfolding deploy_open ssh_open ssh_close handle_test handle_deploy node_deployed
step-IsPending (open_for node p) h = record {
  tests_one = h.tests_one;
  deploys_one = ground (arith, h.deploys_one, h.stays_open);
  stays_open = refl;
}
step-IsPending close h = record {
  tests_one = ground (arith, h.tests_one);
  deploys_one = ground (arith, h.deploys_one);
  stays_open = ground (arith, h.stays_open);
}
step-IsPending {w} (enter e) h =
    let (d, t, o) = entered-flags e w.dialog.form in
    record {
      tests_one = ground (arith, h.tests_one, t);
      deploys_one = ground (arith, h.deploys_one, d);
      stays_open = ground (arith, h.stays_open, d, o);
    }
step-IsPending (click_test o t d) h = record {
  tests_one = ground (arith, h.tests_one);
  deploys_one = ground (arith, h.deploys_one);
  stays_open = ground (arith, h.stays_open);
}
step-IsPending (click_deploy o d) h = record {
  tests_one = ground (arith, h.tests_one);
  deploys_one = ground (arith, h.deploys_one);
  stays_open = ground (arith, h.stays_open);
}
step-IsPending {w} (answer_test n r p) h =
    let (t, d, o) = tested-flags r w.dialog.form in
    record {
      tests_one = ground (arith, h.tests_one, t);
      deploys_one = ground (arith, h.deploys_one, d);
      stays_open = ground (arith, h.stays_open, d, o);
    }
step-IsPending {w} (answer_deploy n r s p) h =
    let (d, t, o) = deployed-flags "部署成功" r w.dialog.form s in
    record {
      tests_one = ground (arith, h.tests_one, t);
      deploys_one = ground (arith, h.deploys_one, d);
      stays_open = ground (arith, h.stays_open, d, o);
    }

steps-IsPending : {w v : Waiting} → w ⟶* v → IsPending w → IsPending v
steps-IsPending here h = h
steps-IsPending (next step steps) h = steps-IsPending steps (step-IsPending step h)

-- However the dialog for deploying is used from its first rendering on, the button for testing
-- and the one for deploying load exactly while one request of theirs waits for its answer, none
-- waits otherwise, and the dialog is open as long as it deploys.
pub waiting-IsPending : (w : Waiting) → first_waiting ⟶* w → IsPending w
unfolding first_waiting
waiting-IsPending w steps =
    steps-IsPending steps (record { tests_one = refl; deploys_one = refl; stays_open = refl })
