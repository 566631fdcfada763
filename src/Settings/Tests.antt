-- ===== src/Settings/Tests.antt =====
-- The page of the settings on a concrete failure, at which the theorem holds.
use gonitor.Prelude.{◌≡◌}
use gonitor.Request.{failed, Failure}
use gonitor.Settings.{first_settings, settings_loaded, settings_view}
use gonitor.Settings.Shown.{expected, settings_view-loaded}

abbrev silent : Failure
silent = record { message = "" }

settings_view-loaded_example :
    settings_view (settings_loaded (failed silent) first_settings) ≡ expected (failed silent)
settings_view-loaded_example = settings_view-loaded (failed silent)
