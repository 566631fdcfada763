-- ===== src/Enum.antt =====
-- The enumerations of web/client/src/enum/task.js and web/client/src/enum/subsciption.js. A
-- `switch` compares with `===`; the argument is any string or number of the type compared with.
pub mod Laws
use gonitor.Prelude.{ℕ, String, if◌then◌else◌, ◌==◌, nat_eq, string_eq}

-- `SystemMonitorTypeEnum`
abbrev pub system_overview : ℕ
system_overview = 0

abbrev pub cpu_info : ℕ
cpu_info = 1

abbrev pub memory_info : ℕ
memory_info = 2

abbrev pub disk_info : ℕ
disk_info = 3

abbrev pub task_overview_info : ℕ
task_overview_info = 4

abbrev pub net_info : ℕ
net_info = 5

-- `ExecuteTypeEnum`
abbrev pub http : String
http = "http"

abbrev pub cmd : String
cmd = "cmd"

abbrev pub file : String
file = "file"

-- `ExecuteTypeEnum.getLanguage`
unfoldable pub execute_language : String → String
execute_language type =
    if type == http
    then "HTTP"
    else if type == cmd
    then "CMD"
    else if type == file
    then "FILE"
    else "UNKNOWN"

-- `ExecuteTypeEnum.getCommandLabel`
unfoldable pub command_label : String → String
command_label type =
    if type == http
    then "Http Url (only support GET method)"
    else if type == cmd
    then "Bash Command"
    else if type == file
    then "File Path (Fullpath)"
    else "This type not support"

-- `StrategyEnum`
abbrev pub parallel : ℕ
parallel = 0

abbrev pub skip : ℕ
skip = 1

abbrev pub delay : ℕ
delay = 2

-- `StrategyEnum.getLanguage`
unfoldable pub strategy_language : ℕ → String
strategy_language type =
    if type == parallel
    then "Parallel"
    else if type == skip
    then "Skip"
    else if type == delay
    then "Delay"
    else "UNKNOWN"

-- `PriorityEnum`
abbrev pub low : ℕ
low = 0

abbrev pub medium : ℕ
medium = 1

abbrev pub high : ℕ
high = 2

abbrev pub critical : ℕ
critical = 3

-- `PriorityEnum.getLabel`
unfoldable pub priority_label : ℕ → String
priority_label priority =
    if priority == low
    then "Low"
    else if priority == medium
    then "Medium"
    else if priority == high
    then "High"
    else if priority == critical
    then "Critical"
    else "Unknown"

-- `PriorityEnum.getColor`
unfoldable pub priority_color : ℕ → String
priority_color priority =
    if priority == low
    then "default"
    else if priority == medium
    then "info"
    else if priority == high
    then "warning"
    else if priority == critical
    then "error"
    else "default"
