-- ===== src/Dashboard/Users.antt =====
-- The table of users of the dashboard, which is not read from the server yet
-- (web/client/src/screen/dashboard/Users.js), and the boxes in their order (Dashboard.js beside it).
use gonitor.Prelude.{ℕ, ◌+◌, Option, none, some, List, [], ◌∷◌, String}

pub record LoginUser : Type 0 where
  pub id : ℕ
  pub user : String
  pub terminal : String
  pub host : String
  pub start : String

-- `userList`
unfoldable pub user_list : List LoginUser
user_list =
    record {
      id = 1;
      user = "root";
      terminal = "xshell";
      host = "20.1.3.23";
      start = "2019-03-16 15:00:00";
    }
    ∷ record {
      id = 2;
      user = "chy";
      terminal = "ftp";
      host = "20.1.3.23";
      start = "2019-03-16 15:00:00";
    }
    ∷ []

abbrev pub user_columns : List String
user_columns = "No." ∷ "User" ∷ "Terminal" ∷ "Host" ∷ "Started" ∷ []

pub record LoginUserRow : Type 0 where
  pub key : ℕ
  pub number : ℕ
  pub cells : List String

-- `userList.map`, from an index on
unfoldable pub user_rows : ℕ → List LoginUser → List LoginUserRow
user_rows idx [] = []
user_rows idx (u ∷ us) =
    record { key = u.id; number = idx + 1; cells = u.user ∷ u.terminal ∷ u.host ∷ u.start ∷ [] }
    ∷ user_rows (idx + 1) us

unfoldable pub users_table : String × List String × List LoginUserRow
unfolding user_list user_rows
users_table = ("Real Time Users(coming soon)", user_columns, user_rows 0 user_list)

-- The boxes with their widths of 12, where a second width is for screens from `md` on
pub data DashboardBox : Type 0 where
  system_info cpu_info memory_info disk_info net_info users : DashboardBox

unfoldable pub dashboard_boxes : List (DashboardBox × ℕ × Option ℕ)
dashboard_boxes =
    (DashboardBox.system_info, 12, none)
    ∷ (DashboardBox.cpu_info, 12, none)
    ∷ (DashboardBox.memory_info, 12, none)
    ∷ (DashboardBox.disk_info, 12, some 6)
    ∷ (DashboardBox.net_info, 12, some 6)
    ∷ (DashboardBox.users, 12, none)
    ∷ []
