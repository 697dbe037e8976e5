-- ===== src/Lib.antt =====
-- Verification of encarno, a load generator.
--
-- The program's parts. The input (pkg/core/input.go) reads a payload file record by record and
-- feeds its items to workers. A worker (pkg/core/worker.go) waits for the time that the schedule
-- gives an item, puts the values of variables into it, lets its nib send it (pkg/http), extracts
-- values from the response, checks the item's assertions on it, and pushes a result into the
-- output (pkg/core/output.go). Labels, addresses and errors are kept as numbers of a string
-- index (pkg/core/strindex.go), whose file the readers of results and the input share. A
-- scenario (pkg/scenario) starts the workers, over what pkg/core/workload.go gives, and makes the
-- schedule from the levels of the load.
--
-- The files, and the code that they are about.
--   Core/StrIndex, with Lookup, Reload and Threads: pkg/core/strindex.go. `new_string_index` is
--     NewStringIndex, `get` is Get, `idx` is Idx, made of `idx_fast`, the attempt with no mutex,
--     and `idx_locked`, what runs under it; `append_file` is appendFile. Threads is the relation
--     of interleaved calls of Idx.
--   Core/Input, with Resolved and Variables: PayloadItem, ReplaceValues and ResolveStrings of
--     pkg/core/input.go. Core/Input/Decode, with Formats: decodeReplaces, decodeAsserts and
--     decodeExtracts. Core/Input/Reader, with Records, Entries, Rounds and Passes:
--     readPayloadRecord and the goroutine of NewInput.
--   Core/Output, with Binary, Texts, Checks and Writer: OutputItem and the three writers of
--     pkg/core/output.go. Binary reads a record the way taurus/encarno/__init__.py does.
--     Core/Output/Pipe, with Dressed, Choices, Growth and Rows: Output, NewOutput and Close;
--     `push_item` is Push and what `background` then does.
--   Core/Config and Main, with Starts and Labels: pkg/core/config.go and cmd/encarno/main.go.
--     `start` is Run up to the start of the controller.
--   Main/Shutdown, with Control, Written and Files: the end of the process, which is
--     handleSignals and Run of cmd/encarno/main.go with Interrupt of pkg/scenario/open.go and
--     closed.go, as a step relation.
--   Core/Dummy: DummyNib of pkg/core/nib.go.
--   Core/Status, with Reports: pkg/core/status.go. Core/Worker, with Iterations and Runs:
--     pkg/core/worker.go for one worker. Core/Worker/Sharing, with Single and Counters: the
--     steps of many workers and of the reports, each an access to the shared counters.
--   Core/Workload, with Staff: pkg/core/workload.go, and NewBasicWorker of pkg/core/worker.go.
--   Scenario/Open, with Schedules and Runs: pkg/scenario/open.go. Scenario/Closed, with Levels and
--     Runs: pkg/scenario/closed.go. `generate_schedule` is the goroutine of GenerateSchedule, and
--     `run` is Run, on the offsets with what it finds when each arrives.
--   Http/Headers, with Requests: getHostAndConnHeaderValues of pkg/http/nib.go.
--   Http/Nib, with Outcomes, Verdicts, Fields and Journeys: Punch, sendRequest and
--     readResponse of pkg/http/nib.go, and the worker that has this nib.
--   Http/Address, with Authorities: SplitHostPort and improveHost of pkg/http/conn.go.
--   Http/Dial, with Names and Targets: openConnection and tlsDialerForHost of
--     pkg/http/conn.go, and the whole of Get.
--   Http/Loop, with Steps, Invariant, Tallies and Streams: a connection of pkg/http/conn.go.
--     Steps is the relation of the steps of readLoop, Read, Close and Reset; Reset takes no
--     lock, so that it and the loop take a step for each assignment.
--   Http/Pool, with Channels and Sharing: the idle connections of ConnPool of pkg/http/conn.go.
--     `get_idle` is Get up to the dialing, and Sharing the relation of the steps that workers and
--     connections take.
--   Core/Regexp: the interface of Go's regexp, a parameter. Its instance Literal is for tests.
--   Base: what Go's language and library give: bytes and strings, maps, Cut, TrimSpace, Atoi and
--     Itoa, bufio.Scanner, little-endian numbers, and a result type for calls that may panic.
--
-- Numbers, bounds and fuel. Numbers are natural; a conversion to uint16, uint32 or int64 is
-- written as the remainder, and a counter of Status is the bit pattern of its int64. `feed` runs
-- on fuel, a unit for each record and each end of the file; `read_headers` on the length of the
-- payload, of which each round takes at least a byte; `trim_space` on the length of the text.
-- The open schedule runs on a unit of fuel for each offset, and the loops of the closed one on a
-- unit for each worker; what is enough is said in the results on them.
--
-- Parameters. The regexp package, the rounding of a duration, json.Unmarshal with the expression
-- that finds plen (`Decoder`), json.Marshal, rand.Intn, the clock, the float64 that Seconds
-- gives, the nib of a worker, and for the nib of HTTP the network: the dialing, the deadline,
-- the writing and the reading of a response, and for the dialing url.Parse and the list of
-- cipher suites. float64 is the record `Double`; the closed schedule relies on whole numbers
-- below 2^53 being exact. The order of a range over a map is the order of its association list,
-- which the theorems leave open.
--
-- Not modelled. Errors of the operating system while files are read and written; the data races
-- that Go's memory model leaves open on the maps of the index and on the cache of expressions: a
-- step of a thread is atomic. A response that was read is not the nil slice, on which Find does
-- not tell an empty match from none. The channels of the input and the output are the lists of
-- what goes through them, but where the end of the process is described. A pool has room for at
-- least one idle connection. Flags, YAML and the log are other parts of the program, which this
-- library does not describe. Durations of levels are not negative. The values and the results of
-- workers are described for each worker by itself, and the counters for all of them together. A
-- call that waits for ever does not return: where `Return` or the open scenario's send do, their
-- result is `blocked`. What the files hold is left open where the output is closed while its
-- goroutine has a result. Each iteration of a worker has a nib of its own, for what the network
-- then does.
pub mod Base
pub mod Core
pub mod Http
pub mod Main
pub mod Scenario
