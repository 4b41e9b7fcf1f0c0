-- ===== src/Lib.antt =====
-- A verification library of the parts of SICA that decide what a model sees and what an agent may do.
--
-- The program is a desktop agent. A backend (crates/backend) keeps one append-only event log for each
-- session, derives the chat history from it, runs turns of an agent (crates/agents) over a language
-- model (crates/llm), and lets a person steer, queue, rewind and set goals; a protocol crate
-- (crates/protocol) carries the shared types and a core crate (crates/sica-core) the log itself.
--
-- Which file models which part:
--   Prelude, Prelude/*      shared helpers: texts as lists of scalar values with their UTF-8 width, lists
--                           with native numbers, decimal printing, ℤ, `trim`.
--   Retain, Retain/*        crates/sica-core/src/retain.rs: windows of a text cut at character boundaries.
--   Protocol, Message, Log  the types of crates/protocol/src/lib.rs, and of message.rs and event.rs in
--                           crates/sica-core/src.
--   Log/Surface, /*         `derive_surface` of event.rs: a fold over the log that appends, replaces spans
--                           and rewinds. One clause of `derive_kind` for each arm of its match.
--   Log/Migrate             the module `migrate` of event.rs: the generations of a log file.
--   Budget/Tokens, /Chat    llm/src/tokenize.rs and the chat messages of llm/src/client.rs.
--   Budget/Meter            agents/src/meter.rs: the token meter anchored on the provider's own count.
--   Budget/Trim, /Report    agents/src/context.rs: `trim_to_budget`.
--   Budget/Compact, /*      agents/src/compact.rs: pruning and the split point of a compaction.
--   Goal, Goal/Laws         agents/src/goal.rs: a session's objective, with compare-and-set changes.
--   Goal/Control, /*        the goal's part of backend/src/chat.rs: the control calls, the `/goal` command
--                           and what the end of a turn does. `Op` has one constructor for each entry point
--                           and `run_ops` is a sequence of them, each taken whole. The source reads a goal and puts
--                           it back under separate locks: what comes between the two is not modelled. The hub's
--                           one counter of goals is a number of the session, which no theorem relies on.
--   Inbox, Inbox/*          backend/src/inbox.rs: what waits to enter a session's loop. `push` is its two halves,
--                           as the id is minted before the lock is taken; `Op` of Inbox/Sessions has both.
--   Jobs, Jobs/*            agents/src/jobs.rs: the window on a background job's output, its spill file, and
--                           the registry of jobs. Each critical section of the registry is a function; the
--                           disk's answer to a write and the decoding of bytes are arguments.
--   Guard, Guard/*          agents/src/guard.rs: the reminder of repeated calls, over histories of calls and resets.
--                           JSON values are a parameter, with the escape of NUL in what is written of them.
--   Retry, Retry/*          llm/src/retry.rs: the back-off, and what the text of an error says.
--   Broker, Broker/*        agents/src/broker.rs: approvals. `ask_approval` is its pieces `ask`, `wake` and
--                           `forget`, and a history is any list of them and of answers, the newest first.
--   Ledger, Ledger/*        ledger.rs of the incident daemon's crate: the failures that a session has raised, on the
--                           ledger that `update` has loaded. `LedgerOp` of Ledger/Entries is what a session does
--                           to it, in any order; the ledger's file exists, as a failure was recorded.
--   Stream, Stream/*        llm/src/streaming.rs: the splitter of reasoning, whose loop has the length of its text as
--                           fuel, and the events of a stream (the loop of `chat_stream` of llm/src/client.rs).
--   Turn, Turn/*            agents/src/turn.rs: what a turn gathers from the chunks of its stream.
--   Call, Call/*            agents/src/parse_tool_call.rs: the call in a reply. Byte positions in the source are
--                           the text from there on; `JsonOps` of Call/Fence is what it uses of serde_json. Every
--                           loop on fuel takes a character at least off its text, whose length is the fuel.
--   Runner, Runner/*        agents/src/runner.rs: the loop of a delegated conversation, with the model and the tools
--                           as arguments. Its fuel is three more than its hops, which is shown to be enough.
--   Project, Project/*      sica-core/src/project.rs: the projections, folds over a session's log.
--   Invariants, Invariants/* backend/src/invariants.rs: the four checks of a session's history, of the log
--                           and of the ledger.
--   Verdict, Verdict/*      backend/src/verdict.rs and the part of the end of a turn in backend/src/chat.rs that
--                           uses it; the model's verdict is an argument.
--   Tests, Tests/*          each theorem at a concrete input.
--
-- How the code is modelled:
--   - A text is the list of its Unicode scalar values and `len` is its number of UTF-8 bytes. A slice at
--     an index that is no boundary is a panic, which is `none` of an `Option`.
--   - A `u32` or `u64` is a number with its wrap-around written out where the code adds to it without a
--     check; the theorems state the bound that they need.
--   - A loop that consumes a list or counts down is structural. `drop_oldest` runs on the number of
--     messages as its fuel, which suffices as each step removes one.
--   - `serde_json` is a parameter: an interface of rows for the migration (`JsonRows`), a printer for the
--     tool result blocks. The `f32` share of a compaction's tail is a parameter, too.
--   - A `HashMap` is a function from its keys; the hub's maps of goals, whose operations touch one session's
--     key only, are the record of one session (`GoalControl`).
--
-- What is not modelled: the frontend, the IPC and process glue, the HTTP client, the skills that touch the
-- file system or a network, and prompt texts. They are I/O, or data for a person to read.
pub mod Prelude
pub mod Retain
pub mod Protocol
pub mod Message
pub mod Log
pub mod Budget
pub mod Goal
pub mod Inbox
pub mod Jobs
pub mod Guard
pub mod Retry
pub mod Broker
pub mod Ledger
pub mod Stream
pub mod Turn
pub mod Call
pub mod Runner
pub mod Project
pub mod Invariants
pub mod Verdict
pub mod Tests
