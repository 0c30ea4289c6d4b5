-- ===== src/Lib.antt =====
-- gomc-rest: a REST server in front of a Mitsubishi PLC. A handler checks an HTTP request and asks
-- `PLCQueue` for one operation; the operation waits as a job in `WorkQueue`, whose one worker runs
-- the jobs in turn on `PLCClient`, which holds the connection to the PLC and dials again when it is
-- lost. Metrics count what passes, on both sides of the queue.
--
-- Which file is about which part:
--   * Device models device.go: the device tables and `parseAddr`, a step of the function each:
--     `strip_nibbles`, `split_device`, `split_bit`, `parse_number`.
--   * Metrics models metrics.go: `push_ring` is the part of `recordLatency` under the lock.
--   * Failure models the error values of plc.go and queue.go, and `errors.As` and `errors.Is` on them.
--   * Plc models plc.go: `do_plc` is `do`, `do_reset` is `doReset`. The gomcprotocol package, the
--     network and the clock are the parameter `Net`: actions on a world, which may fail in any way.
--     Its errors are leaves: a connection error, a protocol error or another. Plc/Simulator is a
--     `Net` for the tests. The state events that the client logs are a part of its state; Plc/States
--     has their records, and Plc/Trace a reader of the log.
--   * Queue models queue.go. Queue/Work is `WorkQueue`: `submit` is the locked part of `Do`,
--     `work` a step of the goroutine `run`, and a list of events is an interleaving. Queue/Work/Caller
--     is `Do` and `Shutdown` as a whole, with the events that happen while they wait. Queue/Exec and
--     Queue/Ops are `PLCQueue`: an operation takes a `Turn`, which says what the work queue did with
--     its job and how long its caller waited; Queue/Work/Turns and Queue/Work/Calls say why a call of
--     `Do` is such a turn. Queue/Bits and Queue/Groups are the loops over bits, Queue/Labels the names
--     of the operations in the log, and Queue/Shared the client behind the concurrent queue.
--   * Word is the bit arithmetic on register words.
--   * Http models what the handlers of handler.go share: responses, `writePLCErr`, the guards, the
--     parameters, and what encoding/json makes of a body.
--   * Handler models handler.go: a handler is a plan, which holds its checks in their order, and a
--     run, which asks the queue for the planned operation. Handler/Read, Handler/Write,
--     Handler/Remote, Handler/RandomRead and Handler/RandomWrite are the handlers, and
--     Handler/Numbers the conversions between words and integers.
--     Handler/Info is the handlers that only report, with `listenAddrs`, and Handler/Trace the
--     query that the random handlers leave for the log.
--   * Auth models auth.go, and LogQuery the two functions of handler.go that cut what is logged of a
--     query.
--   * Config models config.go: `text_setting` and `bool_setting` are the flags with their variables
--     and defaults, Config/Parse the checks of `parseConfig` and `newConfiguredPLCClient`.
--   * Logging models logging.go: a log handler is a value with the methods of `slog.Handler`, of
--     which `tee` and `state_event` make others. `logRequests` is in Server.
--   * Server models main.go: `route_of` and `run_route` are the mux, `serve` is
--     `logRequests(recoverPanic(requireToken(mux, cfg.Token)))`, and Server/Main goes from the
--     arguments to the last `Close`. What surrounds the process is the record `Machine`.
--     Server/Logs is the logger of `main`, Server/Shutdown its end over Queue/Work, with
--     the lines that `main` logs there in Server/Shutdown/Lines, and Server/Keeping what the
--     handlers pass on from the operations.
--   * Common holds texts, integers, lists and results, and the parts of the packages flag, time and
--     strconv: Common/Flags, Common/Duration and Common/Decimal.
--
-- Bounds: texts are lists of bytes, and the conversions of case and space are those of ASCII.
-- Integers that the source holds in 64 bits are unbounded here where they only count; conversions to
-- 16 and 32 bits are written out. Loops recurse on their lists, except that of
-- `time.ParseDuration`, whose fuel is the length of the text: each round takes a byte at least; and
-- that of `strconv.Itoa`, whose fuel is the number and one more. The
-- float64 average of a sum and a count is a parameter, and so is the product that `ParseDuration`
-- takes of a fraction. A query is walked in the order of its list, where
-- the source walks a map in any order. An index out of range in a handler is the answer of
-- `recoverPanic`; in a job it is the error `crash`, where the process ends.
--
-- Not modelled: timestamps and durations in the log, the error of `ListenAndServe` that ends the
-- process, the usage text of the flags, signals, the HTTP server with its timeouts, and the
-- opening of the log file. The state events of the client, the lines of the operations and the lines of
-- the requests are kept apart; the log interleaves them. In Server/Main the requests come one after
-- the other; how jobs of several requests interleave is the subject of Queue/Work.
pub mod Common
pub mod Word
pub mod Device
pub mod Failure
pub mod Metrics
pub mod Plc
pub mod Queue
pub mod Http
pub mod Handler
pub mod Auth
pub mod Config
pub mod LogQuery
pub mod Logging
pub mod Server
