-- ===== src/Lib.antt =====
-- Loommux: a daemon that keeps IPython kernels for MCP sessions, and what its core promises.
--
-- A session works in a main kernel and holds a lease on it; a main kernel may have child kernels,
-- which it anchors. The daemon's resource manager opens kernels, admits operations to them, renames
-- and recycles them, and sweeps: it releases the leases that have expired and retires the kernels
-- that nothing anchors. Each kernel has a session, which numbers its cells and gives out their
-- output; below it, a kernel session turns the messages of the kernel into the record of the cell
-- that runs. The output is normalized and kept in logs by line; results are made of it with images.
--
-- The parts, and the files of the repository that they model:
--   Terminal      src/loommux/execution/terminal.py: the parser that removes terminal controls;
--                 Documents is output as programs write it.
--   Logs          src/loommux/execution/logs.py: the retained text, its queue, the reading of line
--                 ranges, the search, and the five projections of a cell's output.
--   Execution     src/loommux/execution/record.py, events.py and src/loommux/notice.py: one cell, its
--                 output, its displays and errors, its notices and its end.
--   Kernel        src/loommux/kernel/session.py: from Jupyter messages to the record of a cell, with
--                 interrupts, replies and exits.
--   Session       src/loommux/session.py: the executions of a session by number; Calls are status,
--                 interrupts, starts and replacements, Waiting the waiting loop, Notices the hand-out
--                 of all notices, Follow the following of output, Reach the states that calls lead to.
--   Delivery      src/loommux/mcp/result.py: the blocks of a result, the limits on images, the GIF
--                 parser; Surfaces and Environment are the texts of src/loommux/mcp/presentation.py.
--   Policy        src/loommux/resource/policy.py: lease policies by generation.
--   Connections   src/loommux/resource/connections.py: which sessions hold a stream open; Presence is
--                 src/loommux/mcp/stream_presence.py.
--   Model         src/loommux/resource/model.py: kernels, leases, requests, registry keys.
--   Liveness      src/loommux/resource/liveness.py: whether a lease still holds its kernel.
--   Manager       src/loommux/resource/manager.py: the registry. State is the manager and its
--                 invariant, Names the free names, Claims the tasks and the choice of a kernel,
--                 Admit the operations, Paths what a path names, Sweep the sweeper, Rename and
--                 Recycle the programs' requests, Reach the states that sections in any order lead to.
--   Control       src/loommux/mcp/control.py: the routes of the control plane over the registry and
--                 the policies, their codes and effects.
--   Configuration Identity is src/loommux/identity.py and the environment of kernel/launch.py;
--                 Settings is src/loommux/resource/settings.py; Files is src/loommux/config.py and
--                 workspace_resolver.py.
--   Header        src/loommux/cell_header.py and kernel_extension.py: the header line of a cell.
--   Client        src/loommux/daemon.py: the client's origin, names, paths and waits.
--   Prelude       shared lists, dictionaries, results, strings and numbers; Examples, tests of the
--                 theorems.
--
-- The manager runs on one event loop and changes its registry only in sections under one lock, with
-- no await inside that another call could use. Each such section is one function from state to
-- state, so calls that run concurrently are sequences of sections in some order. Kernel objects are
-- shared: they stand in a heap, and a comparison with `is` compares references. A kernel session is
-- likewise one function for each section under its lock, with the calls that it makes outside as
-- effects. Times are whole ticks of the clock that the code reads, durations whole numbers of ticks;
-- what is compared in the code as `now - t >= d` is compared as `t + d <= now`. A character is its
-- code point, a byte its number; a text has no lone surrogates. A dictionary is an association list in
-- the order of insertion.
-- Python's exceptions are values of a result type; their messages are constructors.
--
-- Loops on fuel: the search for a free name has one round more than there are names in use or
-- reserved, each of which stops one round at most. The loops of the GIF parser have one round for
-- each byte and one, since each round passes a byte at least. A wait has a round for each tick of its
-- timeout and one, since a round lasts a tick at least. The loop over the notices of all cells has as
-- many rounds as the next number, and no cell has a number from that one on.
--
-- A log of output is its text, the queue of chunks that wait to be joined, and its counts.
-- `int`, `splitlines` and the other string methods are written out, `int` on ASCII input. Arguments
-- are: the matcher of a search, which `re` or `str.count` makes; the tokenizer; the Base64 decoder;
-- what shlex and argparse make of the arguments of a header; what the file system says of a path and
-- what running a config.py binds; how Python prints a float or dumps JSON.
--
-- Not modelled: the kernel processes and their channels (src/loommux/kernel/runtime.py), the
-- protocol glue of MCP (the other files of src/loommux/mcp), the HTTP requests of the client and
-- its displays, the forwarding of a cell, the command line, the running of startup files, and
-- the wording of the errors that are raised. The ids of new kernels come from `uuid4`: they are
-- arguments, of which the theorems that need it say that they are in no use, hold no colon and
-- are given to no other kernel later. What other sections do while a request of the control
-- plane waits is an argument of its routes. The state of a kernel's session that the manager
-- reads (whether its kernel runs, its current execution, how many cells it has run) is a field
-- of the kernel that may change between any two sections.
pub mod Prelude
pub mod Terminal
pub mod Policy
pub mod Connections
pub mod Model
pub mod Liveness
pub mod Logs
pub mod Execution
pub mod Session
pub mod Configuration
pub mod Header
pub mod Kernel
pub mod Delivery
pub mod Manager
pub mod Control
pub mod Client
pub mod Examples
