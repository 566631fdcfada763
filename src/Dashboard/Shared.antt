-- ===== src/Dashboard/Shared.antt =====
-- The gauges do not disturb each other (web/client/src/screen/dashboard/System.js).
use gonitor.Prelude.{
  ℕ, Option, none, some, List, [], ◌∷◌, if◌then◌else◌, ◌==◌, nat_eq, ◌≡◌, refl, ap, ◌∙◌, arith,
}
use gonitor.Dashboard.{Percent}
use gonitor.Dashboard.Gauges.{
  RingOption, GaugeEffect, Gauges, origin_option, set_gauge, first_gauges, on_gauge_effect,
  run_gauges, chart_of,
}

-- What a gauge is to show after some effects, from what it shows before
abbrev pub last_of : ℕ → Option RingOption → List GaugeEffect → Option RingOption
last_of g old [] = old
last_of g old (e ∷ es) =
    last_of g (if e.gauge_id == g then some (set_gauge e.value e.size origin_option) else old) es

-- The object with the parts that no gauge changes
abbrev IsOrigin : RingOption → Type 0
IsOrigin o =
    (o.text_align ≡ origin_option.text_align)
    × (o.radius ≡ origin_option.radius)
    × (o.left_color ≡ origin_option.left_color)

set_gauge-IsOrigin :
    (v : Percent) (z : ℕ) (o : RingOption) → IsOrigin o → IsOrigin (set_gauge v z o)
unfolding set_gauge
set_gauge-IsOrigin v z o h = h

-- An effect sets all that another one may have changed
set_gauge-origin :
    (v : Percent) (z : ℕ) (o : RingOption)
    → IsOrigin o
    → set_gauge v z o ≡ set_gauge v z origin_option
unfolding set_gauge
set_gauge-origin v z o (a, r, c) = ground (arith, a, r, c)

chart_of-run_gauges_from :
    (g : ℕ) (es : List GaugeEffect) (s : Gauges)
    → IsOrigin s.shared
    → chart_of g (run_gauges es s).given ≡ last_of g (chart_of g s.given) es
unfolding run_gauges on_gauge_effect chart_of
chart_of-run_gauges_from g [] s h = refl
chart_of-run_gauges_from g (e ∷ es) s h =
    let own : set_gauge e.value e.size s.shared ≡ set_gauge e.value e.size origin_option =
      set_gauge-origin e.value e.size s.shared h in
    chart_of-run_gauges_from g es (on_gauge_effect e s)
      (set_gauge-IsOrigin e.value e.size s.shared h)
    ∙ ap (λ o. last_of g (if e.gauge_id == g then some o else chart_of g s.given) es) own

-- After any effects of any gauges, the chart of each gauge shows what its own last effect makes of
-- the object as it is at the start, with the value and the size of that effect, or nothing where
-- it had none, although all of them change the same object.
pub chart_of-run_gauges :
    (g : ℕ) (es : List GaugeEffect)
    → chart_of g (run_gauges es first_gauges).given ≡ last_of g none es
unfolding first_gauges chart_of
chart_of-run_gauges g es = chart_of-run_gauges_from g es first_gauges (refl, refl, refl)
