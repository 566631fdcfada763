-- ===== src/Dashboard/Gauges.antt =====
-- The gauges of the dashboard, `CircularProgressWithLabel`
-- (web/client/src/screen/dashboard/System.js). All gauges change and pass on the one object
-- `originOption` of the module, which is therefore the store of this model.
--
-- Each chart copies what it is given when it is given it. What the package of the charts makes of
-- the same object as a property is not modelled.
use gonitor.Prelude.{ℕ, Option, none, some, List, [], ◌∷◌, String, if◌then◌else◌, ltb, ◌==◌, nat_eq}
use gonitor.Prelude.Int.{ℤ, pos}
use gonitor.Request.{Piece}
use gonitor.Dashboard.{Percent, gauge}

-- `originOption`: `graphic.style` with its text, its `fill` and its `fontSize`; the width of the
-- ring; the values of the two parts, where `none` is no number, and the colours of both
pub record RingOption : Type 0 where
  pub text : List Piece
  pub text_align : String
  pub fill : String
  pub font_size : ℕ
  pub radius : String × String
  pub filled : Option ℤ
  pub filled_color : String
  pub left : Option ℤ
  pub left_color : String

unfoldable pub origin_option : RingOption
origin_option = record {
  text = Piece.text "0%" ∷ [];
  text_align = "center";
  fill = "#20a53a";
  font_size = 30;
  radius = ("80%", "90%");
  filled = some (pos 0);
  filled_color = "#20a53a";
  left = some (pos 100);
  left_color = "#f1f1f1";
}

-- The effect of a gauge on the object
unfoldable pub set_gauge : Percent → ℕ → RingOption → RingOption
unfolding gauge
set_gauge value size o =
    let g = gauge value in
    record o {
      text = g.label;
      fill = g.color;
      font_size = (if ltb 100 size then 30 else 15);
      filled = g.filled;
      left = g.left;
      filled_color = g.color;
    }

-- The object, and what the chart of each gauge was given last, the latest first
pub record Gauges : Type 0 where
  pub shared : RingOption
  pub given : List (ℕ × RingOption)

unfoldable pub first_gauges : Gauges
unfolding origin_option
first_gauges = record { shared = origin_option; given = [] }

-- The effect of a gauge, on its first rendering and when its value has changed
pub record GaugeEffect : Type 0 where
  pub gauge_id : ℕ
  pub value : Percent
  pub size : ℕ

unfoldable pub on_gauge_effect : GaugeEffect → Gauges → Gauges
unfolding set_gauge
on_gauge_effect e s =
    let new = set_gauge e.value e.size s.shared in
    record { shared = new; given = (e.gauge_id, new) ∷ s.given }

unfoldable pub run_gauges : List GaugeEffect → Gauges → Gauges
unfolding on_gauge_effect
run_gauges [] s = s
run_gauges (e ∷ es) s = run_gauges es (on_gauge_effect e s)

-- What the chart of a gauge shows
unfoldable pub chart_of : ℕ → List (ℕ × RingOption) → Option RingOption
chart_of g [] = none
chart_of g ((h, o) ∷ os) = if h == g then some o else chart_of g os
