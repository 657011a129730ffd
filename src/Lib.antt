-- ===== src/Lib.antt =====
-- The process manager of a small operating system's init, in Go: it runs commands as jobs, queues
-- and restarts them, collects what they say, and boots services in the order of their dependencies.
--
-- The parts, and the files that model them:
--   * base/stream: words of flags, levels and exit codes (message.go) in Stream/Meta; buffers of a
--     bounded size (buffer.go) in Stream/Buffer; the consumer that cuts what a process writes into
--     messages (input.go) in Stream/Consumer.
--   * base/pm: commands, results, errors and hooks in Pm/Command, Pm/Result, Pm/Failure, Pm/Hook.
--   * base/mgr/queue.go in Mgr/Queue: named queues. Push and Notify return the jobs that they send
--     on the channel. Mgr/Queue/Trace says what a run of calls means for one name.
--   * base/mgr/job.go in Mgr/Job: one run of a process as a loop over events (Mgr/Job/Run), the
--     decision to run again (Mgr/Job/Restart), signals (Mgr/Job/Signals); base/mgr/backoff.go in
--     Mgr/Backoff.
--   * base/mgr/pm.go: RunFactory and cleanUp on the table of jobs in Mgr/Manager; the threads and
--     their locks as a step relation in Mgr/Manager/Concurrent; RunSlice in Mgr/Slice, what its
--     services reach in Mgr/Slice/Reached, on the wait machine of base/mgr/waitmachine.go in
--     Mgr/WaitMachine; processArgs in Mgr/Arguments; handleStatsMessage in Mgr/Stats;
--     Kill and Shutdown in Mgr/Manager/Shutdown.
--   * base/settings: services, priorities and weights (startup.go, include.go) in Settings/Startup,
--     the merge of included files (include.go) in Settings/Include, the startup tree (tree.go) in
--     Settings/Tree, conditions (condition.go) in Settings/Condition.
--   * apps/plugins/socat/plugin: the sources of port forwards and their firewall rules (rule.go) in
--     Socat/Source; the table of forwards (socat.go) in Socat/Forwards; Reserve in Socat/Reserve;
--     Resolve (resolve.go) in Socat/Resolve.
--   * apps/plugins/aggregator/plugin: samples over periods and their history (stats.go) in
--     Aggregator; the states in the database (manager.go) in Aggregator/Keeper.
--   * apps/plugins/logger/plugin in Logger: the lists of log records in the database (streamer.go,
--     trunk.go, console.go), over the interface of apps/plugins/protocol/api.go;
--     the time that the lists of streams have left is in Logger/Streams.
--   * apps/plugins/nft: finding and dropping rules of the firewall (types.go, plugin/manager.go) in
--     Nft, and the text of tables (types.go) in Nft/Text.
--   * base/utils/cmdline.go in Utils/Kernel: the options of the kernel's command line; Format
--     and Expand of base/utils/utils.go in Utils/Format and Utils/Levels.
--   * apps/core0/plugin in Plugins: the table of plugins and how they are opened (manager.go), with
--     Plugins/Manage for loading and routing (manager.go, actions.go, api.go) and Plugins/Store for
--     the stores (store.go); apps/coreX/router.go in Plugins/Router.
--   * apps/redis-proxy in Proxy: the handler of a connection (proxy.go), and the check of tokens
--     (auth.go) in Proxy/Token.
--   * Prelude has the tests, lists, dictionaries, bits and integers that all share; Examples has the
--     theorems at concrete inputs.
--
-- How they interact: the tree of Settings gives slices of services to Mgr/Slice, whose services wait
-- for one another on Mgr/WaitMachine and run as jobs of Mgr/Manager; a job goes through Mgr/Queue to
-- the loop, Mgr/Job runs it, and its messages, which Stream/Consumer cuts out of its output, bear the
-- words of Stream/Meta. Logger keeps those messages, in lists and in a buffer of Stream/Buffer, and
-- the statistics among them go through Mgr/Stats to Aggregator. The arguments of a service go through
-- Mgr/Arguments, which reads conditions with Settings/Condition and fills in texts with Utils/Format.
-- Socat/Resolve looks for a forward in the table of Socat/Forwards.
--
-- Conventions: texts are lists of bytes. A map is an association list with one entry for each key.
-- A machine word is a natural number, and its wrap-around a remainder. A channel's sends are
-- outputs. What a `select` takes next, and what a clock shows, is an argument.
--
-- Fuel: Weight is recursive over the dependencies, and the tree gives it one call more than there
-- are services (Settings/Startup/Fuel). getOne has fuel for nested calls and rounds, which each
-- statement about it names.
-- Reserve has fuel for the ports up to 65536, where its loop ends. The consumer's loop over a buffer
-- has fuel for one turn per byte, since each turn takes at least one (Stream/Consumer/Fuel).
-- openRecursive has fuel for chains of plugins, which is enough above the rank of a plugin, where
-- plugins only require those of a lower rank (Plugins/Rank). processArgs has fuel for the depth of
-- its maps and for each condition. The other loops are structural.
--
-- Not modelled: system calls and processes, JSON and TOML, the log, the other plugins under apps,
-- which are containers, machines, disks and networks, and packages of others. The cache of reserved
-- ports and the database are interfaces with their laws, floats an interface of operations, and the
-- firewall's answer and the JSON of a record arguments, and so are what a shared object shows, what
-- the Open of a plugin does, the JWT library, redis and the host's network interfaces. Of the
-- logger, a full channel and the locks are not modelled; of the firewall, the parser of its JSON.
pub mod Prelude
pub mod Stream
pub mod Pm
pub mod Settings
pub mod Mgr
pub mod Socat
pub mod Aggregator
pub mod Logger
pub mod Nft
pub mod Utils
pub mod Plugins
pub mod Proxy
pub mod Examples
