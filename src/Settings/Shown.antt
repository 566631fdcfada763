-- ===== src/Settings/Shown.antt =====
-- What the page of the settings shows after its request
-- (web/client/src/screen/systemSettings/SystemSettings.js).
use gonitor.Prelude.{
  Bool, true, false, not, none, String, if◌then◌else◌, truthy, or_else, ◌==◌, nat_eq, ◌≡◌, refl, ap,
}
use gonitor.Request.{Reply, got, failed}
use gonitor.Settings.{
  SettingsData, SettingsView, first_settings, settings_loaded, settings_view, view_of,
}

truthy-or_else : (s t : String) → truthy t ≡ true → truthy (or_else s t) ≡ true
truthy-or_else String.[] t h = h
truthy-or_else (String.◌∷◌ c s) t h = refl

-- What an answer asks to be shown
abbrev pub expected : Reply SettingsData → SettingsView
unfolding view_of
expected (failed err) = SettingsView.alert_error (or_else err.message "Load settings failed")
expected (got body) =
    if body.code == 0
    then view_of body.content
    else SettingsView.alert_error (or_else body.message "Load settings failed")

view-alert :
    (message : String)
    → (if truthy (or_else message "Load settings failed")
        then SettingsView.alert_error (or_else message "Load settings failed")
        else view_of none)
      ≡ SettingsView.alert_error (or_else message "Load settings failed")
view-alert message =
    ap
      (λ b.
        if b
        then SettingsView.alert_error (or_else message "Load settings failed")
        else view_of none)
      (truthy-or_else message "Load settings failed" refl)

-- Whatever the answer, the page leaves its progress circle: on a failed request and on an error
-- code it shows an alert with the message, or with a default where the message is blank, on a
-- success with data it shows the settings, and on a success without data a notice.
pub settings_view-loaded :
    (r : Reply SettingsData) → settings_view (settings_loaded r first_settings) ≡ expected r
unfolding settings_view settings_loaded first_settings expected
settings_view-loaded (failed err) = view-alert err.message
settings_view-loaded (got body) = by_code (body.code == 0)
  where
    by_code :
        (b : Bool)
        → settings_view (
            if not b
            then record first_settings {
              error = or_else body.message "Load settings failed";
              loading = false;
            }
            else record first_settings { settings = body.content; loading = false })
          ≡ (if b
              then view_of body.content
              else SettingsView.alert_error (or_else body.message "Load settings failed"))
    by_code true = refl
    by_code false = view-alert body.message
