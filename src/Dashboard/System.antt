-- ===== src/Dashboard/System.antt =====
-- The box of the system (web/client/src/screen/dashboard/System.js): the overview of the system,
-- read once, and the counts of the tasks, which a subscription updates.
use gonitor.Prelude.{ℕ, Option, none, some, List, [], ◌∷◌, String}
use gonitor.Prelude.Int.{pos}
use gonitor.Request.{Reply, Piece}
use gonitor.Dashboard.Boxes.{or_old, set_answer}

-- A value of the state that starts as a number or as a text
abbrev pub Field : Type 0
Field = Piece

pub record SystemData : Type 0 where
  pub boot_time : Field
  pub os : Field
  pub platform : Field
  pub kernel_version : Field
  pub kernel_arch : Field
  pub avg_stat : Field

pub record TaskOverview : Type 0 where
  pub task_count : ℕ
  pub task_enable_count : ℕ
  pub task_occupied_process_count : ℕ

pub record OverviewUpdate : Type 0 where
  pub task_count : Option ℕ
  pub task_enable_count : Option ℕ
  pub task_occupied_process_count : Option ℕ

pub record SystemBox : Type 0 where
  pub system_info : SystemData
  pub overview : TaskOverview

unfoldable pub first_system : SystemBox
first_system = record {
  system_info = record {
    boot_time = Piece.text "";
    os = Piece.text "";
    platform = Piece.text "";
    kernel_version = Piece.num (pos 0);
    kernel_arch = Piece.num (pos 0);
    avg_stat = Piece.num (pos 0);
  };
  overview = record { task_count = 0; task_enable_count = 0; task_occupied_process_count = 0 };
}

-- A new overview of the system, `none` for null
abbrev pub with_system : Option SystemData → SystemBox → Option SystemBox
with_system none s = none
with_system (some d) s = some (record s { system_info = d })

-- The answer to `/system/overview`
unfoldable pub system_loaded : Reply SystemData → SystemBox → Option SystemBox
unfolding set_answer
system_loaded reply s = with_system (set_answer reply s.system_info) s

-- The subscription
unfoldable pub overview_updated : OverviewUpdate → SystemBox → SystemBox
overview_updated u s = record s {
  overview = record {
    task_count = or_old u.task_count s.overview.task_count;
    task_enable_count = or_old u.task_enable_count s.overview.task_enable_count;
    task_occupied_process_count =
        or_old u.task_occupied_process_count s.overview.task_occupied_process_count;
  };
}

abbrev pub count_field : ℕ → Field
count_field n = Piece.num (pos n)

-- What the box lists, on the left and on the right
unfoldable pub system_items : SystemBox → List (String × Field) × List (String × Field)
system_items s = (
  ("OS", s.system_info.os)
      ∷ ("Platform", s.system_info.platform)
      ∷ ("Kernel", s.system_info.kernel_version)
      ∷ ("Kernel Arch", s.system_info.kernel_arch)
      ∷ ("Boot Time", s.system_info.boot_time)
      ∷ [],
  ("Task Count", count_field s.overview.task_count)
      ∷ ("Task Enable Count", count_field s.overview.task_enable_count)
      ∷ ("Task Process Count", count_field s.overview.task_occupied_process_count)
      ∷ [],
)
