-- ===== src/Lib.antt =====
-- InferSwap: the scheduling, the recovery and the GPU admission of a gateway that swaps models.
--
-- The program lets several model projects share one GPU. An HTTP request names a model and waits
-- in the queue of the scheduler (internal/router/scheduler). If the model is not ready, the
-- scheduler closes the gates of the models that have to go, waits until their calls have ended,
-- has them unloaded, has the model loaded, and then grants the request. Before that it probes the
-- models whose state is not certain. The router (internal/router) is the one loop that calls the
-- scheduler's handlers: it decides which model goes and whether a load may start, by a ledger of
-- reserved bytes and a sample of the GPU (internal/resource). A client (internal/runtime) runs a
-- loop of its own for each model; it posts loads and unloads to the model's control endpoint.
--
-- Files, and the code that they model:
--   Common/*            numbers with 64-bit wrap-around, lists and maps, results, and what Go's strings
--                       package does to a text.
--   Wire                internal/runtime/runtime.go, recover.go: states, statuses, ClassifyRecovery,
--                       and validateStatus of parse.go.
--   Wire/Matrix         the recovery matrix against the validation.
--   Wire/Json, Parse    internal/runtime/parse.go: ParseStatus and ParseControlError.
--   Wire/Written        how internal/runtime/mock writes a status, against the parser.
--   Wire/Validated      what a parsed status is like.
--   Config/Types, Checks, Models, Load      internal/config/config.go: the raw file, its checks,
--                       toModel and resource, toConfig, Load, Index, Resolve.
--   Config/Sound, Names, Accepted, Resolved, Order, Reordered, Seconds
--         what an accepted configuration is like.
--   Resource/Admit      internal/resource/admit.go: Headroom, Fits, Fresh.
--   Resource/Fits, Overflow     what Fits computes, without and with an overflow.
--   Client/Types, Loop  internal/runtime/client.go: the state of a client, and `run` as a step for
--                       each case of its select.
--   Client/Ensure, Release      doEnsure, ensureFromStatus and waitReady; doStop.
--   Client/Calls        client.go: fetchStatus, postControl and postLoad with their errors,
--                       isEndpointDown and isTimeout, and the flag of runPrepare; EnsureReady, Stop
--                       and Reconcile up to the loop.
--   Client/Fetched      what a fetched status rests on, and how many prepare commands run.
--   Client/Inv, Answers, Evidence   what the loop keeps, whom it answers, what a result rests on.
--   Sched/Types         internal/router/scheduler/scheduler.go, errors.go, and the struct FIFO.
--   Sched/Load, Gates, Dispatch     fifo.go: counts, gates and drain, tryDispatch.
--   Sched/Handlers, Swaps       fifo.go: the On... handlers.
--   Sched/Probe, Notes  internal/router/scheduler/recover.go: the plan of a recovery, its probes,
--                       and the notes on them.
--   Sched/Step          the events of internal/router/base.go, and the states that they reach.
--   Sched/Changes, Works, Acts  each handler as a chain of few kinds of change.
--   Sched/Pass/*        the cases of one pass of tryDispatch, and its end.
--   Sched/Drain         the deadline of a drain.
--   Sched/Plan          the plan of a recovery.
--   Sched/Outcome       the end of an unload and of a load.
--   Sched/Inv/*         what every reachable state keeps, and the order of the queue.
--   Router/State, Budget        internal/router/base.go and budget.go: the state, Decide, admitLoad.
--   Router/Ledger       internal/router/recover.go: the ledger while a probe is applied.
--   Router/Loop         base.go and recover.go: observations, ends of unloads and loads, onRecover.
--   Router/Step         base.go: New, and the select of `run` as a step.
--   Router/Unload       base.go: waitIdle, sampleAfter and the goroutine of StartUnload.
--   Router/Leave        base.go: releaseOnShutdown, Shutdown, Remaining.
--   Router/Visit        base.go: ServeModel, trackedServe, prepareModel, Preload.
--   Router/Messages     base.go and recover.go: pollGPU, refreshStatus, StartLoad, BeginProbe, Remind,
--                       watchQueueTimeout, Reconcile.
--   Router/Unloaded, Proved, Cleared, Left, Visited, Probes     what their messages and results rest on.
--   Router/Inv/*        what every state of the router's loop keeps, and which events of the
--                       scheduler each of its events hands on.
--   Router/Decisions, Admission, Rollback, Applied, Observation     what these rest on and leave.
--   Web/Errors          internal/proxy/error.go and writeErr of internal/router/base.go.
--   Web/Infer           internal/server/server.go: handleInfer, limitBody, handleUnsupported.
--   Web/Forwarded       what a forwarded request is like.
--   Web/Listing, Listed internal/server/server.go and internal/router/diagnostics.go: handleModels on
--                       a snapshot of the diagnostics, and which models it lists.
--   Mock/State, Handlers, Control       internal/runtime/mock: the model project of the tests, one
--                       step at a time, and what a client reads of its status.
--   Mock/Closed, Kept, Honest   what its steps keep.
--   Mock/Served         doStop and doEnsure against a mock.
--   Examples/*          runs on concrete inputs.
--
-- A model id is a number, in the order of the ids as strings, and 0 is the empty string; a time is
-- a number of nanoseconds, and 0 is the zero time. uint64 counters wrap around, and bytes are int64
-- bit patterns; an int that counts (slots, the queue) does not reach its bound and is a plain number, as is
-- the count of active requests, which the parser of a status keeps from being negative.
-- A map is a total function, or a list of entries where the code ranges over it; an entry that is
-- deleted is told from a zero one where the code tells them apart. A handler takes its surroundings
-- (the states of the runtimes, the planner, the clock, how the channels of a request take a value)
-- as one record, which is any record in the theorems, and another one at each event. What the
-- scheduler does to its surroundings is a trace. A planner may answer anything.
--
-- tryDispatch calls itself in tail position only, after it has taken a request off the queue, so it
-- is a loop on fuel, one more than the length of the queue. doStop, fetchStatus and the load of a
-- client are arguments of the events of its loop; the rounds of waitReady are a list, which the
-- deadline cuts.
--
-- In the configuration and on the wire a model id is a text, as in the source; the router and the
-- scheduler only compare ids and sort them. A YAML document is what the library makes of it, and so
-- is a JSON value; a map that is ranged over is a list in the order of that range. The goroutines of
-- the router are functions of what they meet: a loop takes the answers of its rounds from a stream,
-- on fuel, and `still_waiting`, `still_looking`, `unfinished` and `nothing_yet` say that the fuel has
-- not sufficed; which case a select takes is an argument. The results about them say what holds
-- when they end, and for waitIdle when that is. A step of the mock is what it does while it holds
-- its lock.
--
-- Not modelled: the HTTP connections and the reverse proxy (an exchange is an argument), the JSON text of
-- the list of models, the extraction of a model from a body in internal/proxy/request.go, which
-- nothing calls, the process of a prepare command, NVML, logging, the planner of
-- internal/router/exclusive.go, and internal/testkit. They are input and output, they only call
-- libraries, or they serve the tests.
pub mod Common
pub mod Wire
pub mod Config
pub mod Resource
pub mod Client
pub mod Sched
pub mod Router
pub mod Web
pub mod Mock
mod Examples
