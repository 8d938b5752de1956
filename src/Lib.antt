-- ===== src/Lib.antt =====
-- A model of em-xray, a daemon and command line around the xray proxy.
--
-- The daemon keeps one xray process running. A subscription gives a pool of nodes; a master is an
-- outbound that dials through a pool, and its connections must never leave the box by another way.
-- The parts and how they meet:
--   * core/xray holds the data: subscriptions, entries, inbounds. Xray.Tag (with Trim) is the tags of
--     ports.go, traffic.go and dialer.go; Xray.Slot is a resolved pool (dialer.go) with its picks;
--     Xray.Names is the names and targets of models.go; Xray.Ports is AssignInboundPorts
--     (ports.go); Xray.Settings is AutoTuning (settings.go).
--   * Xray.Dialer is ParseDialer and DialerGroupKey (dialer.go), with CanonicalDialer (Canonical), the
--     rename of a ref (Renamed) and DetectDialerCycle (Cycle, of which Cycle.Ends has the end of the
--     walk). Xray.Store is the queries and the write of store.go that a bulk change of dialers uses,
--     over the record Database, and Daemon.Dialers is EntryBulkDialer and validateDialerWith of
--     daemon/server_methods.go over it; the record KeepsEntries is what those tables promise.
--   * Xray.Subs is ParseStrategy (models.go) and recomputeActive (store.go), on the rows that its
--     queries return; Subs.Tables and Subs.Store are the writes of store.go on the nodes of a
--     subscription (a refresh, pins, disables) over the record NodeTables, with KeepsRows for what the
--     tables promise.
--   * Xray.Config is Generate (config.go): the tags of the listeners, the outbounds, the rules and the
--     balancers of the config of xray. What is read of the JSON of an outbound is an argument: its
--     protocol, and a dialerProxy of its own, which the config keeps. Config.Tunnels is about the
--     masters in it, Config.Closed about its references and Config.Accepts about its errors.
--   * daemon/xray.go resolves every master to a slot. Daemon.Pools has the loop (Resolve), the members
--     and the pins (Members), the strategy (Strategy) and the indices (Assign). The database is the
--     record SubStore of queries that can fail; the reading of JSON is a function `protocol_of`.
--   * daemon/nodepark.go takes dead nodes out of the pools. Daemon.Parker is nodeParker: `observe` is
--     one poll over the slots, and `release`, `unpark` and `without_parked` are its other operations.
--     Daemon.Uplink is the guard for an outage of the box's own uplink.
--   * daemon/nodehistory.go records a round of samples for each poll and pool. Daemon.History is record,
--     trim, poolStats and snapshot; History.Stats has the statistics.
--   * daemon/autostrategy.go judges a pool from that history. Daemon.Auto is the classifier, whose
--     verdict `pool_strategy` reads.
--   * daemon/nodepick.go ranks the members of a pool. Daemon.Picker is nodePicker: the scores that a
--     poll of the observatory leaves (Observed), the stable pick with its spare (Rank, Stable), the
--     agile pick (Agile) and the picks of the slots (Slots). A float64 is an element of a type with the
--     operations of the record Floats, of which no law is used. The views of the chain probes are an
--     argument.
--   * daemon/watchdog.go keeps the child alive. Daemon.Watchdog is a step relation on its state: the
--     calls, the parts of the supervise loop (the check for a stop, the spawn, the note that the child
--     runs, the sleep) and the child's exits in any order, with the backoff between starts.
--   * daemon/xray_live.go moves the running xray to a new config without a restart. Daemon.Live is
--     planLive and the calls of applyLiveLocked in their order. The xray process is a record with the
--     documented effect of each call (Live.Process), on which every call succeeds; a failed call ends
--     in a restart. Live.Plan, Live.Diff and Live.Masters are about the plan, Live.Order
--     about the order in it, Live.Converge about where the calls end, and Live.NoLeak about every
--     state on the way.
--   * Daemon.Health is the responsiveness monitor of daemon/xray.go, and Daemon.Caps is the byte caps of
--     daemon/traffic.go with activeUsers of daemon/xray.go. Daemon.Traffic is the sampler of
--     daemon/traffic.go.
-- Prelude has the shared types and lemmas; Tests has concrete runs.
--
-- Conventions. A Go map is an association list (Dict); Go leaves the order of a range over a map open,
-- and the model takes the order of the entries. Times are numbers of nanoseconds (Daemon.Clock); int
-- and int64 values that are never negative are ℕ, and others are ℤ; nothing that is modelled comes
-- near the bounds of 64 bits. Errors are Option.
-- Locks, log lines, messages and files are left out. Loops are by recursion on their list or on the
-- numbers left of their range (the 32 indices, the 100 ports). Two definitions have fuel: the printing
-- of a number in decimal has one more than the number, which has no more digits than that; the walk of
-- DetectDialerCycle takes it as an argument, and two more than the number of stored names is enough.
--
-- Not modelled: the chain probes of chainprobe.go, the closing of connections, the log of winners, the
-- reconcile that runs the parts one after the other, renames, the writes of the store that are not
-- named above, the JSON details of the config (the settings of a listener, mux), links, share links,
-- subscription fetches, the handlers of the control server other than EntryBulkDialer and the command
-- line; and what is I/O alone.
pub mod Prelude
pub mod Xray
pub mod Daemon
pub mod Tests
