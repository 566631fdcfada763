-- ===== src/Settings.antt =====
-- The page of the system's settings (web/client/src/screen/systemSettings/SystemSettings.js).
pub mod Shown
pub mod Tests
use gonitor.Prelude.{
  ℕ, Bool, true, false, not, Option, none, some, List, [], ◌∷◌, ◌++◌, String, if◌then◌else◌, ◌==◌,
  nat_eq, truthy, or_else, map,
}
use gonitor.Request.{Reply, got, failed, Failure}

-- The counts of the answer, `none` for one that is not there
pub record Counts : Type 0 where
  pub tasks : Option ℕ
  pub enabled_tasks : Option ℕ
  pub dependency_tasks : Option ℕ
  pub timeout_tasks : Option ℕ
  pub nodes : Option ℕ
  pub online_nodes : Option ℕ
  pub users : Option ℕ
  pub running_task_groups : Option ℕ

pub record SettingsData : Type 0 where
  pub counts : Option Counts
  pub version : String
  pub build_time : String
  pub git_commit : String
  pub component : String
  pub go_version : String
  pub database_driver : Option String
  pub http_server : Option (String × ℕ)
  pub script_folder : Option String
  pub script_log_folder : Option String
  pub features : Option (List (String × Bool))

-- The hooks of `SystemSettings`
pub record SettingsState : Type 0 where
  pub loading : Bool
  pub error : String
  pub settings : Option SettingsData

unfoldable pub first_settings : SettingsState
first_settings = record { loading = true; error = ""; settings = none }

-- The continuation of the request to `/system/settings`
unfoldable pub settings_loaded : Reply SettingsData → SettingsState → SettingsState
settings_loaded (failed err) s = record s {
  error = or_else err.message "Load settings failed";
  loading = false;
}
settings_loaded (got body) s =
    if not (body.code == 0)
    then record s { error = or_else body.message "Load settings failed"; loading = false }
    else record s { settings = body.content; loading = false }

-- `settings.counts?.x ?? 0`
abbrev pub or_0 : Option ℕ → ℕ
or_0 none = 0
or_0 (some n) = n

abbrev pub count : (Counts → Option ℕ) → Option Counts → ℕ
count field none = 0
count field (some c) = or_0 (field c)

unfoldable pub metric_items : SettingsData → List (String × ℕ)
metric_items d =
    ("任务总数", count (λ c. c.tasks) d.counts)
    ∷ ("启用任务", count (λ c. c.enabled_tasks) d.counts)
    ∷ ("依赖任务", count (λ c. c.dependency_tasks) d.counts)
    ∷ ("超时保护任务", count (λ c. c.timeout_tasks) d.counts)
    ∷ ("节点数", count (λ c. c.nodes) d.counts)
    ∷ ("在线节点", count (λ c. c.online_nodes) d.counts)
    ∷ ("用户数", count (λ c. c.users) d.counts)
    ∷ ("调度内存组数", count (λ c. c.running_task_groups) d.counts)
    ∷ []

-- A line of a list; the second text is `none` for undefined
pub data Secondary : Type 0 where
  text : Option String → Secondary
  address : String → ℕ → Secondary

-- The template `${settings.http_server?.host}:${settings.http_server?.port}`
abbrev pub address_of : Option (String × ℕ) → Secondary
address_of none = Secondary.text (some "undefined:undefined")
address_of (some (host, port)) = Secondary.address host port

unfoldable pub run_items : SettingsData → List (String × Secondary)
run_items d =
    ("版本", Secondary.text (some d.version))
    ∷ ("构建时间", Secondary.text (some d.build_time))
    ∷ ("提交", Secondary.text (some d.git_commit))
    ∷ ("组件", Secondary.text (some d.component))
    ∷ ("Go 版本", Secondary.text (some d.go_version))
    ∷ ("数据库驱动", Secondary.text d.database_driver)
    ∷ ("HTTP 监听", address_of d.http_server)
    ∷ []

unfoldable pub script_items : SettingsData → List (String × Secondary)
script_items d =
    ("脚本目录", Secondary.text d.script_folder)
    ∷ ("日志目录", Secondary.text d.script_log_folder)
    ∷ ("健康检查", Secondary.text (some "/healthz /readyz"))
    ∷ ("Prometheus 指标", Secondary.text (some "/metrics (Token 鉴权)"))
    ∷ ("任务导出", Secondary.text (some "/task/export"))
    ∷ ("任务导入", Secondary.text (some "/task/import"))
    ∷ []

-- A chip of a feature, with its colour and its variant
abbrev pub feature_chip : String × Bool → String × String × String
feature_chip (key, enabled) =
    if enabled then (key, "primary", "filled") else (key, "default", "outlined")

abbrev pub or_none : Option (List (String × Bool)) → List (String × Bool)
or_none none = []
or_none (some features) = features

unfoldable pub feature_chips : SettingsData → List (String × String × String)
feature_chips d = map feature_chip (or_none d.features)

-- What the page shows
pub data SettingsView : Type 0 where
  progress : SettingsView
  alert_error alert_info : String → SettingsView
  page :
      List (String × ℕ)
      → List (String × Secondary)
      → List (String × Secondary)
      → List (String × String × String)
      → SettingsView

abbrev pub view_of : Option SettingsData → SettingsView
unfolding metric_items run_items script_items feature_chips
view_of none = SettingsView.alert_info "暂无系统设置信息"
view_of (some d) =
    SettingsView.page (metric_items d) (run_items d) (script_items d) (feature_chips d)

unfoldable pub settings_view : SettingsState → SettingsView
unfolding view_of
settings_view s =
    if s.loading
    then SettingsView.progress
    else if truthy s.error
    then SettingsView.alert_error s.error
    else view_of s.settings
