-- ===== src/TaskForm/Help.antt =====
-- The help of three fields of the form of a task (web/client/src/screen/taskList/fields/
-- ScheduleField.js, AssertField.js and ResultHandlerField.js). Marks of code within a paragraph
-- are left out.
use gonitor.Prelude.{List, [], ◌∷◌, String}

-- A part of a help; a sample has its language and its lines
pub data HelpPart : Type 0 where
  heading paragraph item : String → HelpPart
  sample : String → List String → HelpPart

unfoldable pub schedule_help : List HelpPart
schedule_help =
    HelpPart.heading "时间格式"
    ∷ HelpPart.paragraph "与Linux 中crontab命令相似，cron库支持用 5 个空格分隔的域来表示时间。这 5 个域含义依次为："
    ∷ HelpPart.item "Minutes：分钟，取值范围[0-59]，支持特殊字符* / , -；"
    ∷ HelpPart.item "Hours：小时，取值范围[0-23]，支持特殊字符* / , -；"
    ∷ HelpPart.item "Day of month：每月的第几天，取值范围[1-31]，支持特殊字符* / , - ?；"
    ∷ HelpPart.item "Month：月，取值范围[1-12]或者使用月份名字缩写[JAN-DEC]，支持特殊字符* / , -；"
    ∷ HelpPart.item "Day of week：周历，取值范围[0-6]或名字缩写[JUN-SAT]，支持特殊字符* / , - ?。"
    ∷ HelpPart.paragraph "注意，月份和周历名称都是不区分大小写的，也就是说SUN/Sun/sun表示同样的含义（都是周日）。"
    ∷ HelpPart.paragraph "特殊字符含义如下:"
    ∷ HelpPart.item "*：使用*的域可以匹配任何值，例如将月份域（第 4 个）设置为*，表示每个月；"
    ∷ HelpPart.item
        "/：用来指定范围的步长，例如将小时域（第 2 个）设置为3-59/15表示第 3 分钟触发，以后每隔 15 分钟触发一次，因此第 2 次触发为第 18 分钟，第 3 次为 33 分钟。。。直到分钟大于 59；"
    ∷ HelpPart.item ",：用来列举一些离散的值和多个范围，例如将周历的域（第 5 个）设置为MON,WED,FRI表示周一、三和五；"
    ∷ HelpPart.item "-：用来表示范围，例如将小时的域（第 1 个）设置为9-17表示上午 9 点到下午 17 点（包括 9 和 17）；"
    ∷ HelpPart.item "?：只能用在月历和周历的域中，用来代替*，表示每月/周的任意一天。"
    ∷ HelpPart.paragraph "了解规则之后，我们可以定义任意时间："
    ∷ HelpPart.item "30 * * * *：分钟域为 30，其他域都是*表示任意。每小时的 30 分触发；"
    ∷ HelpPart.item
        "30 3-6,20-23 * * *：分钟域为 30，小时域的3-6,20-23表示 3 点到 6 点和 20 点到 23 点。3,4,5,6,20,21,22,23 时的 30 分触发；"
    ∷ HelpPart.item "0 0 1 1 *：1（第 4 个） 月 1（第 3 个） 号的 0（第 2 个） 时 0（第 1 个） 分触发。"
    ∷ HelpPart.paragraph "预定义时间规则"
    ∷ HelpPart.paragraph "为了方便使用，预定义了一些时间规则："
    ∷ HelpPart.item "@yearly：也可以写作@annually，表示每年第一天的 0 点。等价于0 0 1 1 *；"
    ∷ HelpPart.item "@monthly：表示每月第一天的 0 点。等价于0 0 1 * *；"
    ∷ HelpPart.item "@weekly：表示每周第一天的 0 点，注意第一天为周日，即周六结束，周日开始的那个 0 点。等价于0 0 * * 0；"
    ∷ HelpPart.item "@daily：也可以写作@midnight，表示每天 0 点。等价于0 0 * * *；"
    ∷ HelpPart.item "@hourly：表示每小时的开始。等价于0 * * * *。"
    ∷ HelpPart.paragraph "固定时间间隔"
    ∷ HelpPart.paragraph "支持固定时间间隔，格式为: @every <duration>"
    ∷ HelpPart.paragraph "含义为每隔duration触发一次。<duration>例如1h30m10s。 @every 1s @every 1m10s"
    ∷ []

unfoldable pub assert_help : List HelpPart
assert_help =
    HelpPart.paragraph "Assert is a function that will be executed after the task is finished."
    ∷ HelpPart.paragraph "为空则不执行"
    ∷ HelpPart.paragraph "方法中必须包含一个main方法，作为主方法，供给系统调用。"
    ∷ HelpPart.paragraph "传入的参数为：output - type string 执行任务之后返回的字符串，无论是json还是html等 全部原样传入"
    ∷ HelpPart.paragraph "返回结果为布尔类型, 返回true系统任务结束， 并记录状态为成功， 返回false会根据执行情况判断是否需要重试"
    ∷ HelpPart.paragraph "其他功能性方法自行添加，比如："
    ∷ HelpPart.sample "javascript" (
        "" ∷ "function main(output) {" ∷ "    let random = getRandomInt(0,1)"
        ∷ "    if(random === 1){" ∷ "        return true;" ∷ "    }" ∷ "    return false;" ∷ "}"
        ∷ "function getRandomInt(min, max) {" ∷ "    min = Math.ceil(min);"
        ∷ "    max = Math.floor(max);"
        ∷ "    return Math.floor(Math.random() * (max - min + 1)) + min; //不含最大值，含最小值" ∷ "}" ∷ ""
        ∷ [])
    ∷ []

unfoldable pub result_handler_help : List HelpPart
result_handler_help =
    HelpPart.paragraph
      "Result Handler is a function that will be executed after the task is finished."
    ∷ HelpPart.paragraph "为空则不执行"
    ∷ HelpPart.paragraph "方法中必须包含一个main方法，作为主方法，供给系统调用。"
    ∷ HelpPart.paragraph
        "传入的参数1为：result - type bool 执行结果，例如执行命令失败，断言失败等这里都是false，之前前面的步骤全部成功才会为true"
    ∷ HelpPart.paragraph "传入的参数2为：info - type array 执行信息，这个说不清楚 很多数据"
    ∷ HelpPart.sample "json" (
        "" ∷ "{" ∷ "    id: \"1\", //log id" ∷ "    exec_time: \"2020-01-01 00:00:00\", //执行时间"
        ∷ "    running_time: 1, //运行耗费时间" ∷ "    result_list：[" ∷ "        {"
        ∷ "            command: \"curl -L www.baidu.com\", //执行命令"
        ∷ "            command_start_status: true, //执行命令开始状态"
        ∷ "            command_start_error: \"\", //执行命令开始错误"
        ∷ "            command_exec_status: true, //执行命令执行状态"
        ∷ "            command_exec_error: \"\", //执行命令执行错误"
        ∷ "            assert_result: true, //断言结果" ∷ "            task_result: true, //任务结果"
        ∷ "        }" ∷ "    ], //执行结果列表" ∷ "    task_info:{" ∷ "        id: \"1\", //任务id"
        ∷ "        name: \"test\", //任务名称" ∷ "        exec_type: \"http\", //执行类型"
        ∷ "        command: \"www.baidu.com\", //执行命令" ∷ "        exec_strategy: \"\", //执行策略"
        ∷ "    }" ∷ "}" ∷ "                        " ∷ [])
    ∷ HelpPart.paragraph "返回结果为一个对象 需要包含2个key"
    ∷ HelpPart.paragraph "Key1：push bool类型 是否需要推送，这里会推送到配置好的微信企业上面 "
    ∷ HelpPart.paragraph "Key2：content string类型 推送的内容，不需要推送这里就直接传空字符串就好了 "
    ∷ HelpPart.sample "javascript" (
        "" ∷ "function main(result, info) {" ∷ "  let content2 = \"\""
        ∷ "  for(let key  in info['result_list'] ){" ∷ "    resultItem = info['result_list'][key]"
        ∷ "        content2 += `" ∷ "最终命令: ${resultItem['command']}"
        ∷ "开始状态: ${resultItem['command_start_status']}"
        ∷ "开始错误: ${resultItem['command_start_error']}"
        ∷ "执行状态: ${resultItem['command_exec_status']}" ∷ "执行错误: ${resultItem['command_exec_error']}"
        ∷ "断言结果: ${resultItem['assert_result']}" ∷ "任务结果: ${resultItem['task_result']}" ∷ "`"
        ∷ "  }" ∷ "  const content = `任务:${info['task_info']['name']}"
        ∷ "命令: ${info['task_info']['command']}" ∷ "执行时间: ${info['exec_time']}" ∷ "详细记录: ${content2}"
        ∷ "`" ∷ "  return {" ∷ "    push: true," ∷ "    content: content" ∷ "  }" ∷ "}" ∷ "" ∷ [])
    ∷ []
