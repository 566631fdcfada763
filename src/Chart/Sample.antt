-- ===== src/Chart/Sample.antt =====
-- The sample that charts start with: `getOption` (web/client/src/screen/dashboard/System.js and
-- web/client/src/screen/taskInfo/TaskInfo.js), and the chart of NetInfo.js beside System.js.
use gonitor.Prelude.{ℕ, Bool, false, Option, none, some, List, [], ◌∷◌, String, map}
use gonitor.Chart.{ChartOption}

-- `data`
unfoldable pub sample_data : List (String × ℕ)
sample_data =
    ("2000-06-05", 116)
    ∷ ("2000-06-06", 129)
    ∷ ("2000-06-07", 135)
    ∷ ("2000-06-08", 86)
    ∷ ("2000-06-09", 73)
    ∷ ("2000-06-10", 85)
    ∷ ("2000-06-11", 73)
    ∷ ("2000-06-12", 68)
    ∷ ("2000-06-13", 92)
    ∷ ("2000-06-14", 130)
    ∷ ("2000-06-15", 245)
    ∷ ("2000-06-16", 139)
    ∷ ("2000-06-17", 115)
    ∷ ("2000-06-18", 111)
    ∷ ("2000-06-19", 309)
    ∷ ("2000-06-20", 206)
    ∷ ("2000-06-21", 137)
    ∷ ("2000-06-22", 128)
    ∷ ("2000-06-23", 85)
    ∷ ("2000-06-24", 94)
    ∷ ("2000-06-25", 71)
    ∷ ("2000-06-26", 106)
    ∷ ("2000-06-27", 84)
    ∷ ("2000-06-28", 93)
    ∷ ("2000-06-29", 85)
    ∷ ("2000-06-30", 73)
    ∷ ("2000-07-01", 83)
    ∷ ("2000-07-02", 125)
    ∷ ("2000-07-03", 107)
    ∷ ("2000-07-04", 82)
    ∷ ("2000-07-05", 44)
    ∷ ("2000-07-06", 72)
    ∷ ("2000-07-07", 106)
    ∷ ("2000-07-08", 107)
    ∷ ("2000-07-09", 66)
    ∷ ("2000-07-10", 91)
    ∷ ("2000-07-11", 92)
    ∷ ("2000-07-12", 113)
    ∷ ("2000-07-13", 107)
    ∷ ("2000-07-14", 131)
    ∷ ("2000-07-15", 111)
    ∷ ("2000-07-16", 64)
    ∷ ("2000-07-17", 69)
    ∷ ("2000-07-18", 88)
    ∷ ("2000-07-19", 77)
    ∷ ("2000-07-20", 83)
    ∷ ("2000-07-21", 111)
    ∷ ("2000-07-22", 57)
    ∷ ("2000-07-23", 55)
    ∷ ("2000-07-24", 60)
    ∷ []

-- The text of a number of the sample is `text`
unfoldable pub get_option : {L : Type 0} → (ℕ → L) → ChartOption L
unfolding sample_data
get_option text = record {
  dates = map (λ item. item.0) sample_data;
  values = map (λ item. text item.1) sample_data;
}

-- The parts of the option that no effect changes
pub record LineStyle : Type 0 where
  pub trigger : String
  pub name : Option String
  pub type : String
  pub show_symbol : Bool

unfoldable pub dashboard_style : LineStyle
dashboard_style = record { trigger = "axis"; name = none; type = "line"; show_symbol = false }

unfoldable pub task_style : LineStyle
task_style = record {
  trigger = "axis";
  name = some "Beijing AQI";
  type = "line";
  show_symbol = false;
}

-- The box of the network: its title and its chart
unfoldable pub net_info : String × ChartOption ℕ × LineStyle
unfolding get_option dashboard_style
net_info = ("Network(coming soon)", get_option (λ n. n), dashboard_style)
