-- ===== src/Lib.antt =====
-- vanpilot: a development about the Python services that carry the program's state, the MCP server
-- that agents draw with, and the comparison of golden images.
--
-- The instance manager (instance_manager/src) runs pairs of an Android emulator and a desktop head
-- unit (DHU) for many users. A gRPC servicer checks a request, takes a slot of three ports, makes
-- a record, and lets the lifecycle start and stop the processes of the instance. The supervisor
-- (supervisor/src) collects events and bitmaps, which the Android app fetches by gRPC. Agents submit
-- and display bitmaps by the tools of the MCP server (mcp/src), whose events a bridge hands to the
-- supervisor. Screenshots are compared with golden images by goldens/golden_diff.py.
--
-- Where the parts are:
-- - Instances/Ports: port_allocator.py, the set of used slots (`allocate`, `release`). Ports/Laws
--   and Ports/Disjoint are about the slots and their port numbers.
-- - Instances/Names: the pattern for names of instance_manager_service.py.
-- - Instances/Store: instance_store.py, the records by name (`create`, `get`, `update`, `remove`,
--   `list_all`, `get_running`).
-- - Instances/Machine: the state of the process, that is the store, the ports, the handles of
--   emulator_lifecycle.py and the trace of what was done to the world. The world (processes, files,
--   pipes, clock) is a parameter `Env`, which answers each call by any function of the trace.
--   Machine/Frame has what each call leaves alone, and Machine/Loop the polling loop.
-- - Instances/Lifecycle: emulator_lifecycle.py, method by method: Create (`create`), Destroy
--   (`destroy`, `check_health`), Dhu (`restart_dhu`, `dhu_command`), Adb (`adb_shell`, `adb_push`,
--   `adb_pull`, snapshots, `install_apk`), Wait (boot, head unit and screenshots), Gpu
--   (`_resolve_gpu_mode`), Paths. Lifecycle/Frame has what the methods leave alone, and Adb/Temp is
--   about temporary files.
-- - Instances/Service: instance_manager_service.py, handler by handler, Service/Device with those
--   that drive a running instance, Service/Rpc with the dispatch by method. Service/Checks is about
--   the checks, Service/Errors about status codes, Service/Claims about how the requests change the
--   claims on ports, and Service/Consistency and Service/Reach about the agreement of ports and
--   records. Service/Interleaving has CreateInstance and DestroyInstance operation by operation, on
--   threads that overlap.
-- - Instances/Video: video_capture.py. Video has the sessions' data and the capture loop, Sessions
--   the methods of `VideoCaptureManager`, Screenshot `_default_screenshot`, and Rpc the two handlers
--   of the servicer. Video/Frames is about how long the loop runs,
--   Video/Stopping about how stop ends.
-- - Instances/Dashboard: the routes of web_server.py, its screenshots and its list of instances.
-- - Instances/Background: a round of the refresh loop of server.py, and `shutdown_all_instances` of
--   cleanup.py. Instances/Logs: `read_recent` of log_collector.py and its filter.
-- - Supervisor/Events: event_store.py. Supervisor/Bitmaps: bitmap_cache_tracker.py, with `GetBitmap`
--   of sync_service.py in Bitmaps/Fetch. Supervisor/Bridge: `McpBridge` of mcp_bridge.py and the
--   other methods of sync_service.py. Supervisor/Watchdog: watchdog.py. Supervisor/Tailer:
--   log_tailer.py, on the values of Supervisor/Json. Supervisor/Injector: input_injector.py,
--   with Supervisor/Tmux: tmux_launcher.py.
--   Bitmaps/Refinement compares the tracker with two functions.
-- - Mcp/Handlers: mcp/src/handlers.py and the cache keys of png_util.py, tool by tool; Mcp/Poll is
--   its `_poll_for_confirmation`. Handlers/Laws is about one tool after the other, and
--   Handlers/Invariant and Handlers/Calls about any sequence of calls. Mcp/Wiring: the callback of
--   e2e/smoke_test_runner.py that connects the handlers to the bridge.
-- - Mcp/Server: mcp/src/server.py, the JSON-RPC dispatch and the loop of `main`, for any tool
--   handlers. Mcp/Calibrate: the detection of the markers and `compute_transform` of
--   mcp/src/calibrate.py, on a decoded image; Calibrate/Placed is about a displayed pattern.
-- - Goldens: goldens/golden_diff.py. Filter has the row filters of PNG, Png the reading and writing
--   of files, with `make_png` of mcp/src/png_util.py, Compare `compare_golden`, and Pane the
--   cropping and the masking. Png/Words is about four-byte words, Png/Rows about rows, Png/Length
--   about the number of pixels.
-- - Prelude and Exec are shared: numbers, lists, dicts, texts; results with exceptions, and state
--   that stays written when an exception is raised. Exec/Keeps has the rules for views of the state
--   that an action leaves alone.
--
-- How the code corresponds: a method that mutates objects is a function from the state to a result
-- and a state; `try` is `catch`, `finally` is `ensure`, `context.abort` an exception with the status
-- code. Messages of exceptions and log lines are not modelled. Times are whole milliseconds, those of
-- the video capture whole sixtieths of one; a quotient that Python has as a float is
-- rounded to a double as there (Prelude/Round), for quotients under 2 ^ 53. A lock makes each method of the store, the allocator, the tracker and the event
-- store one step. Requests are handled one after the other, but in Service/Interleaving, where each
-- of these steps is one step of a thread and the threads interleave in any order; there, requests
-- for one name do not overlap.
--
-- Fuel: the polling loops of the lifecycle run on fuel, `timeout / step + 2` rounds for a loop that
-- sleeps `step` ms a round, two more than the whole sleeps that fit before the deadline, so that a
-- clock that keeps up with the sleeps passes the deadline first (Machine/Clock, Lifecycle/Wait/Ends).
-- `_poll_for_confirmation` and `_wait_for_response` take one round for each sleep that fits into the
-- timeout, and one more. `read_chunks` takes as many rounds as the file has bytes, since each round
-- takes twelve bytes or more.
-- The capture loop takes a round for each frame of its rate and duration, and one more, and
-- `_default_screenshot` 31 for its three seconds of tenths.
-- A loop without fuel left raises an exception of its own, which no code of the program does. The
-- loop of `GetBitmap` runs over the list of its rounds.
--
-- Libraries are arguments: `zlib`, `json.loads`, `base64`, `hashlib`, the file system, tmux and the
-- clocks. What a theorem needs of them is among its hypotheses, such as `IsZlib`.
--
-- Not modelled: requests for one name that overlap; the HTML and the log stream of the web
-- dashboard and the command line client of the instance manager, `tail` of its log collector and
-- the search for orphaned emulators; the threads that repeat a poll of the log tailer or run an
-- injection; the app client of the supervisor; the tool schemas of the MCP server, and the
-- drawing of the calibration pattern by PIL; the scripts that capture golden images; the Android
-- app.
pub mod Exec
pub mod Goldens
pub mod Instances
pub mod Mcp
pub mod Supervisor
mod Prelude
