-- ===== src/Lib.antt =====
-- diff-graph, a system in which agents review pull requests and a quality service schedules benchmark runs
-- of them: the task queue, the agent loop with its budget, and the parser of diffs.
--
-- The parts, and where they are modelled:
--
-- - quality_api/queue.py, `TaskQueue` and `PlanStore`: Queue. A database (Queue/Rows) is the three
--   tables, SQLite's next ids and, optionally, the trace tables that another module creates. A method is a
--   function from its arguments, the clock's `now` and the database to its result and the database:
--   Queue/Enqueue (`enqueue`, `get`), Queue/Lease (`lease`, `heartbeat`, `set_task_trace_run_id`,
--   `cancel`, `force_release_all_leases`, `reap_stale_leases`), Queue/Finish (`finish`,
--   `_maybe_finish_plan`), Queue/Workers (`register_worker`, `worker_heartbeat`, `worker_set_state`,
--   `list_workers`), Queue/Plans (`PlanStore.create`, `get`, `cancel`), Queue/Anonymous
--   (`create_anonymous`), Queue/Listing (the two `list`, `count`, `progress`), Queue/Eta (`eta`). A method's
--   statements run under the queue's lock, so clients, workers and supervisors interleave whole calls:
--   Queue/Steps is the relation of one call, and of any number of them. Four methods take the lock more than once: `finish`
--   for the plan's completion, `PlanStore.create` and `create_anonymous` for each task, the supervisor's tick
--   for each method it calls; each is one step here, so a call of another thread in between is not seen.
-- - quality_api/pools.py, `PoolStore` and `WorkerSupervisor`: Pools. Pools.antt has the state of the host
--   and the store, Pools/Supervisor one tick (`_tick`, `_detect_sleep_wake`, `_reconcile`,
--   `_spawn_worker`), which calls the queue's methods.
-- - quality_api/discovery.py, `AutoPlanStore`: Planner. Planner.antt has the configurations, the ledger and what
--   comes from git and the bench's files, Planner/Cells `_create_plan`, Planner/Discover `discover` and `fire_on`,
--   Planner/Configs the changes of configurations, Planner/Settled the commits that a discovery leaves planned.
--   A plan's tasks go through the queue's `enqueue`.
-- - orchestra/budget.py with orchestra/types.py: Budget. Budget/State (`BudgetState`, its ratios),
--   Budget/Context (`PusherAction`, `StepContext`), the producers in Budget/Escalation (`RatioPusher`,
--   `RatioEscalationPusher` and its subclasses) and Budget/Reflect (`ReflectCadenceCounter`,
--   `FailedReflectGuard`, `ReflectCadencePusher`, `AsyncChildCallbackPusher`), the consumers in
--   Budget/Handlers (`ApplyActionsHandler`, `_narrow_to`, `TracingHandler`), and Budget/Tracker
--   (`BudgetTracker`). A handler object is a constructor of `Handler` with the object's fields; a phase of
--   the chain threads the step's context through the handlers and returns both.
-- - orchestra/agent.py, `Agent._run_react`: Agent. Agent.antt has the run's state and the world outside it,
--   Agent/Guards `_check_guard` and `_check_require_tool_guards`, Agent/Calls the loop over the tool calls of
--   a response, Agent/Loop a step, the loop over the steps and `_maybe_condense`, Agent/Conclusion `_force_done`
--   and the whole run. A run holds a tracker of Budget and passes its messages through Condense. Messages
--   has the messages.
-- - orchestra/agent.py, the children in the background: Children (the asynchronous part of `_run_spawn`,
--   `_drain_async_callbacks`, `_any_pusher_pending`, `_meta_agent_await`). A state is the agent's fields; the calls
--   of the parent and the two critical sections of each child's thread are steps in any order, Children/Once, and Children/Counted is what
--   each step does to the counts of an id. Children/Spawning is `_meta_agent_spawn` with what `_run_spawn` gives
--   to the child.
-- - orchestra/condensation.py: Condense, the four strategies.
-- - orchestra/sgr.py, `SGRTracker.record`: Sgr. Sgr/Questions has the dictionaries of questions, Sgr/Recording
--   the call, Sgr/Closing what its parts close.
-- - orchestra/merge.py: Merge, the union, the best confidence and the raw merge.
-- - diffgraph/diff_parser.py: Diff. Diff/Lines has the texts, Diff/Hunks the loop over a file's lines,
--   Diff/Files the sections and `parse_diff`, Diff/Lang `detect_lang` of diffgraph/lang.py.
-- - orchestra/tools/registry.py, `ToolRegistry`, with orchestra/tools/arg_repair.py: Tools. Tools.antt has the
--   tools, their registration and the formatting of a result, Tools/Chain the validation and the walk over the
--   repair handlers, Tools/Repair and Tools/Truncated the handlers, Tools/Dispatch `dispatch` with the
--   cache, Tools/Meta the two tools of orchestra/tools/meta.py, Tools/Schema the inference of schemas, YAML
--   and `_parse_tool_arguments`.
-- - orchestra/tool_mocks.py and orchestra/tool_mocks_semantic.py: Tools/Mocks (`ToolMocks`,
--   `render_mock_result`), Tools/Mocks/Fixture (`from_dict`) and Tools/Semantic (the judge that picks a fixture).
-- - orchestra/agent.py, `_handle_tool_call` and `_dispatch_tools`: Tools/Calls, which puts the mocks before the
--   registry; a run of Agent takes such a step's contents from its `World`.
-- - orchestra/agent.py, `_build_tool_names`: Tools/Names.
-- - Dict, Json and Text are Python's dictionaries, JSON values and operations on texts, for Tools.
-- - Table is rows of a table as a list, with the statements' UPDATE, DELETE and SELECT … LIMIT 1. Floats is an
--   interface of the float operations, with the laws of IEEE 754 that theorems take as a parameter, and
--   numbers in millionths as an instance that satisfies them. Base holds shared names and lemmas.
--
-- A tool's handler is a function of its arguments and of a state that all handlers share; jsonschema, json and ast
-- are the fields of `Libraries`. A tool is an object with an identity, under which its cached result is kept, so
-- that the clones of a registry share it. The regular expressions of the repairs are matched by hand, from left to
-- right; `sub` recurs on the length of the text, which is enough since each match takes a character.
--
-- The pools and the planner work on the queue's database. A call of the planner is one step. An agent and its
-- budget share no state with the queue, and the diff parser shares none with either.
--
-- Conventions. An instant is a number of microseconds, an absent column `none`, a raised exception
-- `none`; ties in an ORDER BY go by the order of the rows; a priority and a limit are natural numbers.
-- JSON columns that the code only stores are texts. SQLite's LIKE, the command of a scenario
-- (quality_api/scenarios_index.py reads YAML files for it), the catalogue of wordings, the filling of
-- a template and the import of custom handlers are parameters. The clock is read once in a call and
-- once in a phase. `decimal` and `sub_from` run on fuel; a number has at most as many digits as its value says.
-- The agent's loop recurs on the steps that its budget has left. What the model answers, the
-- tools' handlers do and a JSON text holds is given by the fields of `World`, step by step, for calls that return
-- (an exception that `_handle_tool_call` lets through is a result in Tools/Calls); the tool calls
-- that the source runs in parallel are answered in the order of the response. In the diff parser a text is
-- its list of code points and a digit is ASCII; the extension of a path is a parameter.
--
-- Not modelled: the schema bootstrap and its migrations, the live scores of plans and the rendering of
-- rows as JSON in quality_api/queue.py; the supervisors' asyncio loops; schedules; of an
-- agent the single-shot mode, the run of a synchronous child and its handoff, the texts of the messages
-- about children, the building of its first messages and tools, spans and the events that repeat a result;
-- feedback signals and the merging by a model; of diffgraph the providers and tools, clients of services;
-- tracing, the command lines, webhook, evolution, diffsearch and benchmarks.
pub mod Agent
pub mod Base
pub mod Budget
pub mod Children
pub mod Condense
pub mod Dict
pub mod Diff
pub mod Floats
pub mod Json
pub mod Merge
pub mod Messages
pub mod Planner
pub mod Pools
pub mod Queue
pub mod Sgr
pub mod Table
pub mod Text
pub mod Tools
