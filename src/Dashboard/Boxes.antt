-- ===== src/Dashboard/Boxes.antt =====
-- The boxes of the processor and of the memory (web/client/src/screen/dashboard/CpuInfo.js and
-- MemoryInfo.js): what differs between their charts, and what they list.
use gonitor.Prelude.{ℕ, Bool, Option, none, some, List, [], ◌∷◌, String, if◌then◌else◌}
use gonitor.Prelude.Int.{pos}
use gonitor.Request.{Reply, got, failed, Piece}
use gonitor.Hook.{Interval}
use gonitor.Chart.{Chart, mount_chart}
use gonitor.Chart.Sample.{get_option}
use gonitor.Chart.Box.{Boxed, BoxEvent, on_box_event}
use gonitor.Dashboard.{Percent, to_fixed_2, percent_text, bytes_to_size, Gauge, gauge}

-- `{...info, ...data}` for one field, `none` where the data does not have it
abbrev pub or_old : {A : Type 0} → Option A → A → A
or_old none old = old
or_old (some new) old = new

-- `setCpuInfo(res.data)` after an answer, whose code is not read; null would be an exception of the
-- next rendering, `none`
unfoldable pub set_answer : {V : Type 0} → Reply V → V → Option V
set_answer (failed err) value = some value
set_answer (got body) value = body.content

pub record CpuData : Type 0 where
  pub physical_cores_count : ℕ
  pub logical_cores_count : ℕ
  pub total_percent : Percent

unfoldable pub first_cpu : CpuData
first_cpu = record {
  physical_cores_count = 0;
  logical_cores_count = 0;
  total_percent = Percent.ratio 0 1;
}

pub record CpuUpdate : Type 0 where
  pub physical_cores_count : Option ℕ
  pub logical_cores_count : Option ℕ
  pub total_percent : Option Percent

unfoldable pub cpu_updated : CpuUpdate → CpuData → CpuData
cpu_updated u d = record {
  physical_cores_count = or_old u.physical_cores_count d.physical_cores_count;
  logical_cores_count = or_old u.logical_cores_count d.logical_cores_count;
  total_percent = or_old u.total_percent d.total_percent;
}

unfoldable pub cpu_box : Boxed CpuUpdate CpuData (List Piece)
unfolding cpu_updated set_answer to_fixed_2
cpu_box = record { merge = cpu_updated; load = set_answer; text = λ d. to_fixed_2 d.total_percent }

-- `CpuInfo` on its first rendering, and its subscription, its answer, its interval and its end
unfoldable pub mount_cpu : ℕ → List Interval → Chart CpuData (List Piece)
unfolding mount_chart get_option first_cpu
mount_cpu = mount_chart (get_option (λ n. Piece.num (pos n) ∷ [])) first_cpu

unfoldable pub on_cpu_event :
    BoxEvent CpuUpdate CpuData → Chart CpuData (List Piece) → Option (Chart CpuData (List Piece))
unfolding on_box_event cpu_box
on_cpu_event = on_box_event cpu_box

-- What a box shows beside its chart: its title, its gauge with the size of it, and its items
pub record BoxView : Type 0 where
  pub title : String
  pub gauge : Gauge
  pub size : ℕ
  pub items : List (String × List Piece)
  pub chart_height : ℕ

abbrev pub gauge_size : Bool → ℕ
gauge_size is_desktop = if is_desktop then 150 else 80

abbrev pub chart_height : Bool → ℕ
chart_height is_desktop = if is_desktop then 300 else 200

unfoldable pub cpu_view : Bool → CpuData → BoxView
unfolding percent_text gauge
cpu_view is_desktop d = record {
  title = "Cpu";
  gauge = gauge d.total_percent;
  size = gauge_size is_desktop;
  items =
      ("Physical Count", Piece.num (pos d.physical_cores_count) ∷ [])
      ∷ ("Logical Count", Piece.num (pos d.logical_cores_count) ∷ [])
      ∷ ("Cpu Percent", percent_text d.total_percent)
      ∷ [];
  chart_height = chart_height is_desktop;
}

pub record MemoryData : Type 0 where
  pub total : ℕ
  pub used : ℕ
  pub free : ℕ
  pub used_percent : Percent
  pub swap_total : ℕ
  pub swap_used : ℕ
  pub swap_free : ℕ
  pub swap_used_percent : Percent

unfoldable pub first_memory : MemoryData
first_memory = record {
  total = 0;
  used = 0;
  free = 0;
  used_percent = Percent.ratio 0 1;
  swap_total = 0;
  swap_used = 0;
  swap_free = 0;
  swap_used_percent = Percent.ratio 0 1;
}

pub record MemoryUpdate : Type 0 where
  pub total : Option ℕ
  pub used : Option ℕ
  pub free : Option ℕ
  pub used_percent : Option Percent
  pub swap_total : Option ℕ
  pub swap_used : Option ℕ
  pub swap_free : Option ℕ
  pub swap_used_percent : Option Percent

unfoldable pub memory_updated : MemoryUpdate → MemoryData → MemoryData
memory_updated u d = record {
  total = or_old u.total d.total;
  used = or_old u.used d.used;
  free = or_old u.free d.free;
  used_percent = or_old u.used_percent d.used_percent;
  swap_total = or_old u.swap_total d.swap_total;
  swap_used = or_old u.swap_used d.swap_used;
  swap_free = or_old u.swap_free d.swap_free;
  swap_used_percent = or_old u.swap_used_percent d.swap_used_percent;
}

unfoldable pub memory_box : Boxed MemoryUpdate MemoryData (List Piece)
unfolding memory_updated set_answer to_fixed_2
memory_box = record {
  merge = memory_updated;
  load = set_answer;
  text = λ d. to_fixed_2 d.used_percent;
}

-- `MemoryInfo` on its first rendering, and its events
unfoldable pub mount_memory : ℕ → List Interval → Chart MemoryData (List Piece)
unfolding mount_chart get_option first_memory
mount_memory = mount_chart (get_option (λ n. Piece.num (pos n) ∷ [])) first_memory

unfoldable pub on_memory_event :
    BoxEvent MemoryUpdate MemoryData
    → Chart MemoryData (List Piece)
    → Option (Chart MemoryData (List Piece))
unfolding on_box_event memory_box
on_memory_event = on_box_event memory_box

unfoldable pub memory_view : Bool → MemoryData → BoxView
unfolding percent_text bytes_to_size gauge
memory_view is_desktop d = record {
  title = "Memory";
  gauge = gauge d.used_percent;
  size = gauge_size is_desktop;
  items =
      ("Total", bytes_to_size d.total)
      ∷ ("Used", bytes_to_size d.used)
      ∷ ("Available", bytes_to_size d.free)
      ∷ ("Used Percent", percent_text d.used_percent)
      ∷ [];
  chart_height = chart_height is_desktop;
}
