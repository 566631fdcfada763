-- ===== src/Lib.antt =====
-- The web client of gonitor, a monitor and scheduler of tasks: a development about the code in
-- web/client/src.
--
-- The client talks to the server over one WebSocket and over HTTP. The class Socket
-- (web/client/src/common/socket/Socket.js) keeps the connection, its heartbeat, its queue of
-- messages and its reconnections; the subscriptions of the pages (Websocket.js beside it) send
-- through that queue and receive its updates. The pages ask the server by the class Request
-- (web/client/src/common/request/). The page of tasks shows a list, dialogs and a form.
--
-- - Prelude: names that all modules share, JavaScript arrays and objects, integers with -1.
-- - Socket: the state and the handlers of the class; Timers: a table of pending timers, with the
--   handles that clear them; Step: the events of the browser, the server and the client, one
--   function for each, and runs of them. An event that the browser cannot raise changes nothing.
-- - Subscription: `subscribed`, `openCb`, `messageCb` and the effect of `useSubscribe`. The object
--   `subscribed` is an association list in the order in which JavaScript goes through it.
-- - Request: a request through the interceptors and the methods of class Request.
-- - Enum, Js: the enumerations, and `parseInt`, `trim`, `split` and `join`.
-- - Pagination: the page bar (web/client/src/components/MyTablePagination.js).
-- - TaskForm: the form (web/client/src/screen/taskList/TaskInfoEditForm.js), its state, its
--   handlers as one function of an event, and what it shows; Editors and Help for its fields below
--   fields/.
-- - Tasks: the dialogs, the list, the deletion and the actions (TaskAdd.js, TaskEdit.js,
--   TaskList.js and TaskActionContainer.js beside it). A handler gives its effects in order; the
--   answer to its request is an argument of the function that models the continuation. Cards has
--   the two styles of the list, with the rows that React keeps, and Live the rows with their
--   subscriptions on the socket.
-- - Users: the list of users, its table, the form and the dialogs
--   (web/client/src/screen/userList/), in the manner of Tasks.
-- - Nodes: the list of nodes, its table and its dialogs (web/client/src/screen/nodeList/NodeList.js);
--   Pending takes the dialog for deploying as a state machine with its requests.
-- - Logs: the page of one task (web/client/src/screen/taskInfo/): the running logs with the rows
--   and timers that React keeps for them, Ended for the pages of the ended ones, and Info for the
--   task itself; Old is the list that TaskLog.js of screen/taskList once showed.
-- - Session: signing in and out, the menus and the routes (web/client/src/screen/login/Login.js,
--   web/client/src/screen/layout/ and web/client/src/App.js).
-- - Operations, Settings: the pages of the operations and of the system's settings
--   (web/client/src/screen/operationList/ and web/client/src/screen/systemSettings/).
-- - Dashboard: the boxes of the dashboard, their sizes and gauges
--   (web/client/src/screen/dashboard/).
-- - Hook: the hook `useInterval` over the table of the browser's intervals
--   (web/client/src/common/utils/hook.js).
-- - Chart: the chart of a value over the last minute, which CpuInfo.js, MemoryInfo.js and
--   TaskInfo.js write out alike, with the interval that extends it; Dashboard.Boxes and Logs.Page
--   say what differs. Dashboard.Gauges models the object that all gauges share.
-- - Popover, Layout: the popovers, and the frame of the pages (web/client/src/screen/layout/).
-- - Examples, and the modules Tests below the others: concrete inputs.
--
-- Fuel: the logarithm of a size (Nodes/Size.antt) divides at most as often as the size says, which
-- is enough as each division makes it smaller. The loop of `getRandomString` goes through a list
-- of draws and has no result where they run out. The recursion of `fireSend` goes through the
-- queue, and what a timer does later is a step of its own. Numbers are exact integers and
-- fractions: JavaScript's are for integers below 2 ^ 53, and its rounded logarithm may differ just
-- below a power of 1024 that is larger than a disk.
--
-- Parameters: the browser's WebSocket and `JSON.stringify`, axios, `URLSearchParams`, the
-- callbacks of a socket, the draws of `Math.random`, the names of the handlers of rows, which are
-- such draws, the clock and the width of the screen, and the formatting of times by moment.
--
-- Not modelled: the server, in Go, the mobile application, in Dart, styles, the entry of the
-- client, and what the packages of the charts, the editors and the inputs make of what they are
-- given.
pub mod Prelude
pub mod Socket
pub mod Subscription
pub mod Enum
pub mod Request
pub mod Js
pub mod Pagination
pub mod TaskForm
pub mod Tasks
pub mod Examples
pub mod Users
pub mod Nodes
pub mod Logs
pub mod Session
pub mod Operations
pub mod Settings
pub mod Dashboard
pub mod Popover
pub mod Layout
pub mod Hook
pub mod Chart
