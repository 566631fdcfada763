-- ===== src/Dashboard/Tests.antt =====
-- The sizes of the dashboard on concrete numbers, at which the theorem holds.
use gonitor.Prelude.{ℕ, ◌≤◌, none, List, [], ◌∷◌, ◌≡◌, refl, arith}
use gonitor.Request.{Piece}
use gonitor.Nodes.Size.{magnitude, log_floor}
use gonitor.Dashboard.Gauges.{GaugeEffect, first_gauges, run_gauges, chart_of}
use gonitor.Dashboard.Shared.{last_of, chart_of-run_gauges}
use gonitor.Dashboard.{
  Percent, bytes_to_size, to_precision_3, precision_text, first_disk, used_percent, gauge,
}
use gonitor.Dashboard.Precision.{exponent_text, bytes_to_size-exponent}

bytes_to_size-exponent_example :
    (d : ℕ) × (d ≤ 2) × (bytes_to_size 1010 ≡ exponent_text (magnitude 1010) d)
unfolding magnitude log_floor
bytes_to_size-exponent_example = bytes_to_size-exponent 1010 (omega arith) (omega arith)

shown_thousand : bytes_to_size 1010 ≡ exponent_text 0 1
unfolding bytes_to_size to_precision_3 precision_text magnitude log_floor
shown_thousand = refl

first_gauge : (gauge (used_percent first_disk)).label ≡ Piece.text "NaN%" ∷ []
unfolding gauge used_percent first_disk
first_gauge = refl

abbrev effects : List GaugeEffect
effects =
    record { gauge_id = 0; value = Percent.ratio 0 1; size = 150 }
    ∷ record { gauge_id = 1; value = Percent.nan; size = 80 }
    ∷ record { gauge_id = 0; value = Percent.ratio 95 1; size = 150 }
    ∷ record { gauge_id = 1; value = Percent.ratio 40 1; size = 80 }
    ∷ []

chart_of-run_gauges_example :
    chart_of 0 (run_gauges effects first_gauges).given ≡ last_of 0 none effects
chart_of-run_gauges_example = chart_of-run_gauges 0 effects
