-- ===== src/Lib.antt =====
-- A model of an Envoy control plane: a program that reads four yaml files, turns them into the
-- resources of the xDS protocol, publishes them as snapshots, and does so again whenever a file
-- changes or a signal asks for it.
--
-- The parts and their files:
-- - Config: cdsyaml.go, edsyaml.go, rdsyaml.go and ldsyaml.go, the structs of the files, with their
--   methods that build addresses and durations.
-- - Names and Xds: xds.go, the names of resources (`xdsName`) and the sources of configuration.
-- - Eds: eds.go, `endpointDiscoveryService`. Groups, Partition and Regions follow the instances
--   through the maps by region and by zone; Weights is about what an endpoint says; Options has the
--   options.
-- - Cds: cds.go, `clusterDiscoveryService`. Status is `statusesInt64Range`, Options and Defaults
--   are the options.
-- - Rds and Lds: rds.go and lds.go with version.go, `routeDiscoveryService` and
--   `listenerDiscoveryService`.
-- - Refs: how the four kinds of resource name one another. Targets is about the clusters of the
--   routes, Library about what the snapshot library documents, Same and Agreement about what a full
--   reload needs the files to agree on, TwoFiles about a change of two.
-- - Resource: resource.go, the store that `Snapshot` reads.
-- - Watch: watch.go, `WatchFile`. Load has the `load` methods, Loop has `Watch` and
--   `watchFileLoop`, World has what comes from outside; Loads says when a file loads. Steps reduces
--   each operation to updates and one attempt to publish; Outcome, Versions, Fresh, Isolation,
--   Reload, Operations, Branches, Change, Serving, Schedule, LoopEnd and Noticed build on it.
--   Threads lets the accesses of the two goroutines that share the object interleave; in it,
--   Scripts has the accesses of each operation and Sequential relates them to the operations,
--   Ledger and Kept carry what each version stands for to Content, and Settled is about what two
--   goroutines have published when both are done.
-- - Server: server.go and cli/server/server.go, the options, the start and the signals. Serve has
--   the gRPC servers with `Start` and `Stop`: Begun is what precedes its goroutines, Sound, Turns,
--   Received and Blocked are about their schedules. Lifecycle is `serverAction` as a whole, Files
--   and Start what it has loaded when it begins to serve.
-- - Cli: cmd/main.go, cli/server/cli.go and the flags of cli/server/server.go. Logger: logger.go.
-- - Als: als.go, the access log, and time.go, the zone of its times.
-- - Base and Decimal: helpers, and the decimal print and parse of Go's strconv. Samples and the
--   test modules hold concrete runs.
--
-- A method that changes its receiver is a function that returns the new record; one that may fail
-- returns a `Result` with it. `SetSnapshot` adds to the list `published` of the object, the last
-- one first. A text is its list of character codes. A `uint64` counter goes round at 2^64 and a
-- `uint32` sum at 2^32, as written out; a duration is an `int64`, an integer here.
--
-- Parameters, since their code is not in the repository: the constructors and constants of the
-- protocol (`Proto`), `NewSnapshot` and `Consistent` (`SnapshotApi`), `MarshalAny`, the yaml
-- decoder, the validator, `filepath.Abs`, `fsnotify.Chmod` and the files at each read (`Env`,
-- `Reads`), zones, the printing of times and durations and the buffer pool of the access log
-- (`AlsApi`). Go visits a map in an order of its own: `Order` is that order, another one at each
-- `range`, and `VisitsAll` says that it visits each entry once, as the language promises.
-- `Documented` says of `NewSnapshot`, `Consistent` and `MarshalAny` what their documentation does:
-- the resources of a snapshot, the names that must be listed in it, and that a packed message can
-- be read back. The library keeps resources by their names, so it says no more of a snapshot than
-- which names are in it, and the one route configuration and the one listener.
--
-- No definition takes fuel: loops are recursion on their list, the printing of a number is
-- recursion on the order of numbers. `watchFileLoop` and the signal loop are functions of the list
-- of what their `select` receives, so a theorem about them holds after any number of rounds.
--
-- The goroutines of `Start` take turns in any order, given as a list; a goroutine that sends while
-- nobody receives spends its turn waiting. What `Serve` comes to, an error, `nil` or nothing at
-- all, is a parameter, as are `net.Listen` by the listeners already open, and what the context of
-- the command line answers for a flag.
--
-- In Lifecycle the file loop is not run beside the signals; Threads has the two together.
--
-- Not modelled: the handlers of the gRPC services, which are library code; `Stop` while `Start`
-- still listens; the formatter that cmd/main.go gives to the log; and log lines, but those of
-- server.go and logger.go. An operation runs to its end before the next, but in Threads, where any
-- access may follow any other that leaves the hands free for it.
pub mod Base
pub mod Config
pub mod Decimal
pub mod Names
pub mod Eds
pub mod Xds
pub mod Rds
pub mod Cds
pub mod Lds
pub mod Refs
pub mod Resource
pub mod Watch
pub mod Samples
pub mod Server
pub mod Als
pub mod Cli
pub mod Logger
