-- ===== src/Lib.antt =====
-- A daemon keeps a document of terminal components for an agent. The agent sends operations over a session; the
-- engine applies each to the document, reconciles the interaction state (focus, inputs, selections, key
-- bindings) with the result, and queues events for the agent; a renderer acknowledges the frames it has shown.
--
-- Protocol (protocol/*.go): the types of messages, the limits and their defaults, `ValidateOperation`,
--   `ValidateHello`, and the schema of each component's properties (protocol/props.go) in Protocol/Props.
-- Document (document/*.go): `validateInvariants` in Document/Invariants; `Apply` and the operations in
--   Document/Reducer; the abstract view, a tree under `root`, in Document/Tree.
-- Runtime (runtime/*.go): the event broker in Runtime/Events; the state with its local changes in Runtime/State;
--   the walks over the tree in Runtime/Tree; table selections in Runtime/Selection; `Reconcile` in
--   Runtime/Reconcile.
-- Engine (engine/engine.go): the methods that change state in Engine/Core.
-- Session (session/session.go): negotiation and the sequence of mutations in Session/Core.
-- Daemon (daemon/agent.go): the handling of an envelope in Daemon/Agent.
-- Daemon clients (daemon/lease.go, publication.go, interactions.go, server.go): the lease in Daemon/Lease, the
--   acknowledgement of a frame in Daemon/Publication, the connections and their steps in Daemon/Clients.
-- Ipc (ipc/protocol.go, ipc/limits.go): messages and their validation in Ipc/Messages, the budget in Ipc/Budget.
-- Wire (wire/ndjson.go, ipc/codec.go, wire/json.go): the readers in Wire/Slices, the search for duplicate keys
--   in Wire/Keys, the decoding of a record in Wire/Decode.
-- Terminal (adapter/bubbletea): the sanitizer in Terminal/Sanitize, the layout of tables in Terminal/Table,
--   and what keys do in Terminal/Keys.
-- Layout (layout/flex.go, layout/layout.go): the metrics of a box in Layout/Box, the widths of a row's children in
--   Layout/Row.
-- Tests: a small JSON decoder and runs of the code at concrete values.
--
-- A method that holds the mutex for its whole body is one step, and a history is a list of calls. State is
-- passed and returned; where the source works on a clone, the model works on a new value. Go maps are
-- association lists, whose order stands for one of the orders in which Go may range; the keys of a Go map are
-- distinct, which a theorem that needs it assumes. Signed Go integers are `ℤ`; counters of type `uint64` wrap.
-- Strings are texts with their length in bytes; where the code looks at the bytes (the readers, the sanitizer)
-- they are lists of bytes, and where it looks at the code points (an input's keys), lists of those. Sums and
-- products of the widths of a table wrap around as an `int` of 64 bits does; a row whose numbers would wrap has
-- no result in the model.
--
-- `encoding/json` and `bytes.TrimSpace` are the parameter `Json`, a decoder for each target type; the decoding of
-- an envelope's payload and the encoding of the answer are the parameter `Codec`. What the action
-- registry makes of a key binding is an argument of `handle_key`. In Wire/Decode the decoders are a record of their
-- own, and a record's tokens are given; `bufio` is what its `ReadSlice` returned; UTF-8 decoding is
-- written out. Lip Gloss's display width and the printing of a client's number are parameters.
--
-- A connection of the daemon is the place where its goroutine waits: for the first record, after the acquisition
-- of the lease, after `setActiveConn`, after the answer, and for each turn of its loop. A step gives the result
-- of its read and whether its writes succeeded, so that any order of reads, writes, failures and connections is
-- a sequence of steps. Between the two calls of the engine that acknowledge a frame, others may do anything to
-- the engine.
--
-- Recursions over the tree have no bound in the source. `walk` takes the levels left, `MaxDepth + 1 - depth`, and
-- refuses where the source refuses. Every other recursion takes fuel and ends in `diverges` if that runs
-- out; `fuel_of` gives two more than the levels that a tree within the limits can have: one is for the empty parent
-- of the root. A write to a nil map is the outcome `panics`.
--
-- The loops of the sanitizer and of the narrowing of columns take as fuel the length of the text and the sum of the
-- widths, of which each turn takes some; in a row, the spare width, of which each pass grants some. `parseValue`
-- takes twice the number of tokens and one.
--
-- Not modelled: the texts and paths of errors; the action registry (runtime/actions.go); `DrainEvents` and
-- `WaitEvents`; the client's side of ipc, sockets, pipes and processes (ipc, transport, external); the rendering
-- (the rest of adapter/bubbletea); the commands (cmd).
pub mod Base
pub mod Names
pub mod Maps
pub mod Protocol
pub mod Document
pub mod Runtime
pub mod Engine
pub mod Session
pub mod Daemon
pub mod Ipc
pub mod Layout
pub mod Terminal
pub mod Wire
mod Tests
