-- ===== src/Lib.antt =====
-- A verification library for shakespeare, a framework of actors for Rust.
--
-- The program has two halves. The runtime (src/core, src/sendable.rs) has the values by which
-- actors exchange messages: envelopes, return paths, exit handles and the context of a running
-- actor. The macros (shakespeare-macro) read an actor's module, a role's trait or a performance's
-- impl block, and generate the rest: payload enums for each role, the shell's methods, dispatch
-- methods, and the function `start` with the event loop. The generated code calls the runtime, and
-- the loop calls the dispatch methods that the macros have generated. Beside them stand an
-- example, a chat room of a server and its clients, and xtask, which expands the tests and reports
-- their coverage.
--
-- The files, and the code that each of them models:
--
-- Prelude: shared names, Boolean tests, case splits and results.
-- Futures: futures as the polls of src/core see them. A future is what it answers to its next
--   polls: pending some times and then a value, or pending for ever.
-- Core/Context: src/core/context.rs. Of the `Arc` only the count of strong references is kept.
-- Core/Outcome: `Outcome` and `ExitHandle` of src/core/actor.rs.
-- Core/Caster: `ReturnCaster` of src/core/returnval.rs; Core/Caster/Await has its awaiting.
-- Core/Role: `Role`, `Accepts` and `Emits` of src/core/role.rs, the types of messages, and the
--   record Runtime with what the code calls of tokio.
-- Core/Channel: the traits of channels in src/core/role.rs, their implementation in src/tokio.rs, and
--   the record Mpsc with what that calls of tokio.
-- Core/ReturnVal: the rest of src/core/returnval.rs, where a function with effects takes a world
--   and gives the next one. An `unwrap` that fails is `none`.
-- Core/Shown: the Debug output and the comparisons of src/core.
-- Sendable: src/sendable.rs. The tasks that it spawns are values that can be run.
-- EventLoop: the loop of `start` in shakespeare-macro/src/outputs/actor/spawning_function.rs, as a
--   state and a step function on the events of the loop and of its environment. A sequence of
--   events is one interleaving of the loop's own steps with pushes, clones and drops of handles
--   and the passing of time; the choice between ready branches is a choice of events. The
--   preconditions of `select!` are evaluated one by one, so that steps of the environment can come
--   between them. Behind the loop a hook runs, and the receivers live until it has ended. A handler
--   that panics keeps what it has made of the state.
-- EventLoop/Channels: the same loop as it calls its channels, over any Channel; its child modules are
--   proofs that set it beside the loop over queues.
-- EventLoop/Handles: the loop together with those who hold the actor's shell, by a handle, an envelope
--   or a task (ActorHandles in src/core/actor.rs, src/core/returnval.rs, src/sendable.rs, and
--   shakespeare-macro/src/outputs/actor/self_getter.rs).
-- EventLoop/TaskResult: the hooks, and the exit handle of the task.
-- EventLoop/Invariant, Exit, Ends, RunsOut, Serial, Messages, ExitValue and Races: proofs about the
--   loop.
-- Macro/Syntax: the parts of Rust's syntax that the macros read.
-- Macro/Naming: shakespeare-macro/src/data/role_name.rs.
-- Macro/Signatures: shakespeare-macro/src/data/signature_ext.rs.
-- Macro/Handlers: shakespeare-macro/src/data/handler_functions.rs.
-- Macro/Declarations: shakespeare-macro/src/declarations/performance.rs and role.rs.
-- Macro/ActorDecl: shakespeare-macro/src/declarations/actor.rs and data/data_item.rs.
-- Macro/Grouping: what the code takes from the grouping map of itertools.
-- Macro/RoleOutput: shakespeare-macro/src/outputs/role and interfacerewriter.rs.
-- Macro/Performance: shakespeare-macro/src/outputs/performance.
-- Macro/ActorOutput: shakespeare-macro/src/outputs/actor, and the entry points of lib.rs.
-- Macro/ActorOutput/Wiring: which channel the generated accessors and branches use, when `start` has
--   made the channels and filled the shell; the event loop's queues stand for these channels.
-- Macro/Typing: Rust's typing rules for what is generated for a role and its performances.
-- Macro/Entry: the functions of shakespeare-macro/src/lib.rs behind the macros, and the `ToTokens`
--   of their outputs, as the order of the parts.
-- Answers: the event loop with the dispatch methods that are generated for it in the place of the
--   parameter, over an author's methods.
-- Chat: the server of examples/chat.rs; Chat/Client and Chat/Trim: its client, as an actor of
--   EventLoop; Chat/Network and Chat/Network/Room: the room of the server and such clients, each
--   of which handles the lines of its socket and the server's messages one after the other. What it
--   relays of its lines is kept, and is not brought to the server.
-- Chat/Startup: `main` of examples/chat.rs, after it has bound its port.
-- Expander: xtask/src/expander.rs, with Expander/Files for the loop over the files.
-- Expander/Build: xtask/build.rs, which copies the macros' sources for the expansion; Expander/Lines
--   and Expander/Strip: the lines of a file, and what becomes of each.
-- Effects: the steps of the tools in xtask, which may fail. Coverage: `coverage` of
--   xtask/src/main.rs. Xtask: `main` there.
-- Tests: concrete runs.
--
-- Numbers are natural numbers; the counter of client numbers wraps at 2 ^ 64. Where the code
-- subtracts, the subtraction of 1 from 0 is a panic. Fuel is the number of polls in
-- Core/Caster/Await, with a stated bound, and the depth of the calls between `broadcast` and
-- `remove_client` in Chat: each such call removes a user, so fuel for one more than the users is
-- enough, and the methods are given that.
--
-- Parameters stand for code that is not in the repository: tokio's channels and tasks (Runtime, Mpsc),
-- the case conversions of convert_case and what is an identifier or an expression to quote and syn
-- (Casing), the grouping map of itertools (GroupingMap), the attribute parser of structmeta (parse_args), syn's parsers and printers, the file system,
-- rustfmt and the other programs that are run (Host, Tree, Shell), and the codec of a socket (Codec). In
-- EventLoop what a performance does to the actor's state is the parameter Actor, and in Chat what
-- a client answers the server is the parameter Net, which Chat/Network/Room fills with the
-- clients' event loops.
--
-- Not modelled: the types for which impl blocks are printed (data/data_name.rs, data/actor_name.rs); the
-- printing of each part of an output to tokens, with the parsing of what `fallible_quote!` quotes but
-- for two places where it can fail, the expression of a sending method's message and the name of a
-- role's trait; `format_ident!` on the names made for roles and renamed handlers, which are taken to be
-- identifiers (that it panics on a variant's name is modelled); the derived Debug output; of xtask the walk over
-- directories, whose entries are given, what is printed, and the reading of the command line; of the chat room the
-- formatting of lines to text (their parts are kept), and the binding of its port; the tests. In
-- Macro/Typing a path is a type by its name, and lifetimes and the bounds on `Send` are left aside.
mod Prelude
pub mod Futures
pub mod Core
pub mod Sendable
pub mod EventLoop
pub mod Macro
pub mod Answers
pub mod Xtask
mod Tests
pub mod Chat
pub mod Expander
pub mod Effects
pub mod Coverage
