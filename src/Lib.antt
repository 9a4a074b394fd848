-- ===== src/Lib.antt =====
-- Aloqa: the server of a chat and conferencing platform, in Go. Requests reach HTTP and WebSocket
-- handlers, which call services over PostgreSQL, Redis and NATS; a hub in each process delivers events to
-- the WebSocket clients, and a selective forwarding unit carries the media of calls. This library models
-- the parts that decide who may do what and who receives what, and proves what they promise:
--
--   * Common: Boolean tests on numbers, the conditional, equality as a class, lists, Go maps, Go's
--     `int`, and the parts of `strings` and `sort` that the program calls.
--   * Cerrors (internal/pkg/cerrors): application errors and error chains. A Go function that returns a
--     value and an error returns a `Result`; `errors.As` is `as_app_error`.
--   * Pagination (internal/pkg/pagination): the parameters of a page, and cursors (Cursor) over the URL
--     encoding of base64 (Base64), where a text is the list of its bytes.
--   * Domain (internal/domain/entity): the records and enumerations that the checks read.
--   * Security.Rbac (internal/security/rbac): permissions (Parse, Normal), role definitions and `Merge`
--     (Roles, Merging), and `PermissionChecker` (Checker, Granted).
--   * Security.Guests (internal/security/guestaccess): what the active grants of a guest reach.
--   * Security.Collab (internal/security/collabaccess): channels and calls that workspaces share.
--   * Security.Access (internal/security/accesspolicy): `WorkspaceAccess` (Access, Workspace),
--     `Channel` (Access, Decisions, Admission), and `ListChannels` (Listing, Truncation) with
--     `ListByWorkspace` of internal/repository/postgres/channel.go.
--   * Collaboration (internal/service/collaboration, internal/domain/entity/workspace_collaboration.go,
--     internal/repository/postgres/workspace_collaboration.go): the policy of a connection between
--     workspaces (Policy), the table with its keys (Store), the service (Service), and what it promises
--     (Sharing, Lifecycle, Agreement).
--   * Hub (internal/platform/ws/hub.go): the clients and rooms (State), each critical section as a
--     function on them (Operations, Messages), runs as steps in any order (Runs), and what a run keeps
--     (Invariant, Membership, Sending, Slow, Closing, Delivery).
--   * Reliability (internal/platform/reliability/policy.go): the delays in int64 (Duration, Backoff),
--     the retry loop (Policy, Retry), and the delay of `Supervise`.
--   * Sfu (internal/media/sfu/adaptive.go and internal/media/sfu/simulcast.go): a simulcast track with
--     its layers, subscribers and sinks (Simulcast, Closing), the order of the layers (Quality,
--     Layers), the estimate of a stream (Adaptive), the decision before hysteresis (Rating, Raw), what
--     a client is told (Signals), `Decide` with hysteresis (Decide, Hysteresis), and the controller's
--     runs (Streams) with what they remember of a stream (History).
--   * Placement (internal/service/mediaops/service.go): the media node that a call is placed on, with
--     its filters (Nodes, Picking) and what the choice promises (Selection).
--   * Calls (internal/service/call, internal/domain/entity/call.go, internal/repository/postgres/call.go,
--     internal/repository/postgres/breakout_room.go): the entities (Types), the tables with their
--     statements (Store, Participants, Rooms), how an operation is put together (Actions), who has access
--     and what is announced (Service, Targets), how many take part (Capacity), `StartCall` (Starting),
--     `JoinCall` (Joining), the waiting room and `UpdateMedia` (Hosting), what hosts do to participants
--     and settings (Controls), `LeaveCall`, `EndCall` and the reads (Leaving), and breakout rooms
--     (Breakout). Rows, Kept, Found, Keeping, Writes and RowWrites say what one statement does to the
--     tables; Keepers, Guarded and Moderation what an operation keeps; Runs, Closing, Ending, Departure,
--     Entering, Newcomers, Muting, Sharing, Alike and Blind what the service promises.
--   * Examples (and Runs of Security and Sfu) apply a component's theorems to concrete data and run its
--     definitions.
--
-- How the parts interact: `Channel` asks the guest checker and the collaboration checker, which are fields
-- of its record; the collaboration checker asks the service's `CanShareChannel` and `CanShareCall` over the
-- table of connections; the service asks `Require` of the permission checker, or `Has` where none is set.
--
-- How Go is read. A UUID is a number and `uuid.Nil` is 0. A text type with named constants is a data type
-- with a constructor for each constant and one for every other text, or the text itself (permissions,
-- quality layers, device classes). A time is a number; the clock, new ids, the context and the sleep are
-- arguments. A repository whose code is not modelled is a field of a record, a function that may return an
-- error; a pointer that may be nil is an `Option`. A Go map is an association list, and no theorem
-- depends on the order of its keys. `int` is unbounded, but an int64 duration wraps around where it is
-- doubled, and the count of drops is kept as the 32 bits of its int32. The float64 of the adaptive
-- controller and of a load score is an abstract type with the operations that are used, so that no
-- theorem rests on rounding. The CRC-32 that spreads calls over nodes is an argument, a number.
--
-- The hub is a state with explicit effects: a closed channel, a closed connection, and a call of the
-- subscription store are appended to a list. A step is one critical section, so steps of concurrent calls
-- interleave in any order; the sends of a broadcast and the eviction of the slow clients that it found
-- are two steps. `BroadcastToRoom` and `SendToUser` hold a read lock, under which two of them may
-- overlap: a single send of such a loop is a step too, so that the sends of several loops interleave. A
-- send and its count of drops are one step. That a client id is used once is what `IsFresh` asks of a
-- registration. The reader of a client's channel is the step `takes`.
--
-- The call service is an action on the database, with the rows of `realtime_events` that a transaction
-- enqueues as a table, and the events that are published and the calls of the forwarding unit as logs
-- beside the tables. Any statement may be refused: the database says so by a function of the statement
-- and the id of the row it is for, which a run may change between two operations. What an operation wrote
-- before an error stays written, unless `WithinTx` rolls it back, which may also fail to begin or to
-- commit. An operation is one step, so two operations of the call service do not interleave. Other
-- services add participants by `AddParticipantIfCapacity` or `AddParticipant`, which is a step of a run.
--
-- Fuel: only the paging loop of `ListChannels` runs on fuel, one unit for a page. A call to view returns in
-- its first page, so fuel 1 is enough there. Every other loop is a recursion on the list or the number of
-- rounds that it goes through; the loop of `DoValue` is one on the attempts that are left.
--
-- Not modelled: the handlers and the middleware, the other services and repositories, rooms and peers of
-- the forwarding unit, the rest of the media service, configuration, and the frontend. Of the modelled
-- files: the worker that publishes the rows of `realtime_events`, `ListConnections`, foreign keys, the JSON
-- of a policy and of a call's settings (which come back as they were written), the order in which calls and
-- participants are listed (the row that was added last comes first), `SetQuality` and `ForwardSignal`, the
-- tokens, descriptions, candidates and quality reports of internal/service/call/media.go, what `CloseRoom`
-- does where no forwarding unit is set, decoding of a delivered event, the forwarding of packets,
-- goroutines and panics. Two calls of `ApproveConnection` are not interleaved: each reads and writes the
-- table in one step.
pub mod Common
pub mod Cerrors
pub mod Pagination
pub mod Domain
pub mod Security
pub mod Collaboration
pub mod Hub
pub mod Reliability
pub mod Sfu
pub mod Placement
pub mod Calls
