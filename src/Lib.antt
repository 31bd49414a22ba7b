-- ===== src/Lib.antt =====
-- RouteHarbor keeps a home network on line over several upstream paths. A control loop probes the
-- paths and lets a selector choose one; a continuity session carries flows between the gateway and
-- a relay over every path at once, so that a change of path keeps the flows; a gateway transaction
-- extends the Wi-Fi of the house over a radio link, behind a watchdog that undoes what is not
-- confirmed. A coordinator on the gateway runs one such change on the gateway and on a coverage
-- node together, with a journal of its own. Coverage, Continuity and Selection are modelled apart
-- from one another: they meet only in the control loop and the helper, which are not modelled.
-- Coordinator uses the operations of Coverage and the plans of Node, and both its participants
-- are arbitrary. Registry keeps the nodes that the coordinator may ask, and asks it before one goes.
--
-- Coverage: internal/coverage. Coverage.antt has the data of model.go with ValidateOperation and
-- ValidatePlan, Coverage/Journal.antt the journal with the checks of `locked`, Coverage/World.antt
-- the world that a manager acts on, Coverage/Calls.antt what the methods are made of, and
-- Coverage/Manager.antt the methods of Manager in transaction.go under their own names (Rollback is
-- rollback_named, and Do is operate in
-- Coverage/Dispatch.antt). A method is an action: a function from a world to a world and a result or
-- error. A world holds the log of what happened (journals written, each call of Arm by whether it
-- reported success, the radio changed or restored), the outside state of any type, the clock, and how the next writes end. The
-- radio, the watchdog, the random source, the strict decoder and the digest are the fields of Env.
-- Times are nanoseconds and 0 is the zero time; whole seconds in a request are not negative.
-- Coverage/Runs.antt has every life of a transaction: requests, watchdog runs, restarts, arbitrary
-- changes outside, and a kill after any event. Coverage/Undoing.antt says when a rollback is owed and
-- when it is done.
--
-- Effects: the world of a process that keeps one journal file and calls other parts, its early returns,
-- and the rules for logs in which each event is due. internal/node/files.go is the file: writePrivate may
-- fail before the rename or after it. Coverage has a world of its own, with the radio in the log.
--
-- Node: internal/node/model.go. Node.antt has the data, CompatibleModes and ValidatePlan, and
-- Node/Addresses.antt what that uses of net/netip, for IPv4; other addresses are refused in both.
-- Texts are UTF-8, and the channel is a natural number. Node/Transactions.antt is the journal of
-- internal/node/transaction.go with the checks of `locked`, and Node/Transactions/Manager.antt the
-- methods of its Manager under their own names (Rollback is rollback_named), over any backend,
-- watchdog and clock. Node/Transactions/History.antt says what its log may hold, and
-- Node/Transactions/Runs.antt has every life of such a transaction.
--
-- Coordinator: internal/node/coverage_coordinator.go. Coordinator.antt has its data and the checks of
-- loadCoverage, Coordinator/World.antt the participants, the clock and the paired nodes as the fields
-- of Env, with decodeParticipant, matchingParticipant, injectNodeWiFi and validateCoverage.
-- Coordinator/Undo.antt is rollbackCoverage, Coordinator/Prepare.antt prepareCoverage,
-- Coordinator/Commit.antt applyCoverage and confirmCoverage, and Coordinator/Service.antt
-- operateCoverage, planCoverage, recoverCoverage and checkCoverageUnpair. An entry is changed in memory
-- as the code changes it, and an error carries the entry that is shown beside it. A participant may
-- answer anything or nothing, and time may move with every call. A map is an association list;
-- recoverCoverage meets its entries in the order of the list, which is any order. A whole number of
-- seconds in a request is not negative. Coordinator/History.antt says what the log may hold, and
-- Coordinator/Runs.antt has every life of the service: requests, recovery runs, arbitrary changes
-- outside, and a kill after any event.
--
-- Registry: the paired nodes of internal/node/service.go. Registry.antt has the data, the checks of
-- NewService and Pair and validFingerprint of identity.go; Registry/Service.antt has NewService, Pair,
-- Unpair, save and request, in a world whose outside is memory and the world of the coordinator:
-- Unpair calls checkCoverageUnpair there. net/url, net/netip, the answers of nodes and whether a text is
-- within the limits of StrictDecode are fields of Env; a request body is one that decodes. Where several
-- records have the address and fingerprint of a request, the first of the list is returned.
-- Registry/Runs.antt has every life of the service.
--
-- Continuity: internal/continuity. Continuity/Wire.antt is wire.go: a reader is the list of bytes to
-- come, a write gives the bytes, and encoding/json is a pair of functions. writeAll runs over any
-- writer; its rounds are counted from the length of the bytes, which is enough since a round that
-- goes on takes a byte. Continuity/Window.antt is datagramWindow of peer.go, 64 words of 64 bits;
-- the clearing loop counts its rounds, the distance between the old and new highest number. Numbers
-- near 2 ^ 64 do not wrap in the model of the window. Continuity/Limits.antt is Limits of types.go.
--
-- One TCP flow of peer.go is two records. Continuity/Receiver.antt has its receiving side, with the
-- cases frameData and frameFIN of `handle`, `receiveWindow` and the part of `writeEndpoint` that hands
-- segments on; Continuity/Sender.antt its sending side, with `readEndpoint`, frameACK, frameOpened,
-- frameFINACK and the segments that `tick` may send. The collecting loop has fuel for each stored
-- segment, which is enough since a round takes one out. Sizes and offsets are natural numbers, below
-- 2 ^ 64 by the checks of the code. The share of the budget that all streams use is a number that
-- the other streams change within its limit. Continuity/Datagrams.antt is frameUDP, where the answer
-- of `reserve` is an argument; Continuity/Link.antt puts both sides together over carriers that lose,
-- repeat and delay; Continuity/Paths.antt is `selectPath` and frameSelect. What the flow's
-- run is made of, the steps in any order, is the data type Run beside each of them.
--
-- Selection: internal/selection/selector.go with the types of internal/model/model.go. Selection.antt
-- has the data and safePolicy, Selection/Settings.antt Configure, SetTargets and SetHistoryLimit,
-- Selection/Cycles.antt and Selection/Health.antt Observe and the state of a source, and
-- Selection/Choice.antt Evaluate. Selection/Choice/Streaks.antt has the calls of Evaluate that the
-- confirmations of a candidate stand for. float64 is an
-- interface of operations (Floats) with no laws, so that what is proved holds for every arithmetic.
-- A map is an association list, and the sorted names take away the order. A duration is an `int64`:
-- the difference of two times stops at its ends, and a product with a second wraps around. The
-- counters of cycles are natural numbers. json.Marshal of the targets is a function on them.
--
-- Not modelled: carriers with their queues and timers, and so when a frame is sent; the opening and
-- closing of flows; the mutexes, since every method holds its lock from start to end; deep copies, since
-- values are not shared; the fields that nothing modelled reads (names, settings, status codes of
-- results); the texts that errors and decisions carry beyond their kind; and the components
-- that the other directories of internal hold.
mod Prelude
pub mod Continuity
mod Effects
pub mod Node
pub mod Coordinator
mod Registry
pub mod Coverage
pub mod Selection
