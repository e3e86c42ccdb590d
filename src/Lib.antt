-- ===== src/Lib.antt =====
-- Lunatik-ng runs Lua code inside the Linux kernel. A context owns a Lua state, a lock and a
-- workqueue of its own; bindings are kernel modules that add functions to a state; code is handed to
-- a context in a work item, and a worker runs it and keeps its result; a system call does all this
-- for a process and copies the result to it. The engine is Lua 5.1 with integral numbers.
--
-- Runtime models lib/lunatik/lunatik.c and include/linux/lunatik.h:
--   * Runtime: the blocks on the kernel's heap (`struct lunatik_result`, `lunatik_context`,
--     `lunatik_work`, `loadcode_data`, list nodes), and the lock of a context;
--   * Runtime.Result: `lunatik_result_get`, `lunatik_result_free`, with Result.Ownership (what they
--     allocate and free) and Result.Contents (what a result holds);
--   * Runtime.Lifetime: `lunatik_context_create` and `lunatik_context_destroy`, with Lifetime.Release,
--     Lifetime.Session (a whole life, with the bindings loaded in between), and Lifetime.Default (the
--     default context, `lunatik_init` and `lunatik_exit`);
--   * Runtime.Bindings: the registry, `lunatik_bindings_register`, `lunatik_bindings_unregister` and
--     `lunatik_bindings_load`, with Bindings.Load (a round) and Bindings.Load.Loop (the registry);
--     Bindings.Modules: the kernel modules of lib/lunatik/bindings that come and go, with
--     Modules.Registered (what the registry then has), Steps, Reached and Held (bindings that a
--     context uses);
--   * Runtime.Loadcode: works and their handlers; Loadcode.Submit: the calls that submit code,
--     `lunatik_loadcode_sync` and `lunatik_loadcode` split where they wait, with Submit.Ready, Freed
--     and Races for the orders in which the caller and the worker go on; Loadcode.Execute: the run;
--     Loadcode.Turn, Progress and Released: the worker's turn on a request, and several callers of one
--     context behind each other; Loadcode.Interleaving: any order of callers and worker as a step
--     relation, with Interleaving.Invariant, Calls, Runs and Resumes (its steps), Keeps (they keep the
--     invariant), Safe and Drained (what follows); Loadcode.Wanted: a run with a wanted result, which
--     Result.Blocks follows through the heap.
-- Syscall models `copy_lunatik_result_to_user` of lib/lunatik/lunatik_syscall.c; Syscall.Memory the
-- memory of the process; Syscall.Bounds shows where it is written. Syscall.Call models `sys_lua` and
-- `sys_lua_async_cleanup`, split at the wait of the synchronous form; Call.Steps has what its parts
-- allocate and release, Call.Prepare its way to a context with bindings, Call.Worker and Call.Async
-- the asynchronous form up to the end of the run, Call.Resume and Call.Sync the synchronous form up
-- to its return, Call.Rejects and Call.Lost its error paths.
-- Zio models the input streams of lib/lunatik/lzio.c; Zio.Stream compares them with the bytes that
-- they stand for.
-- Chunk models precompiled functions: Chunk.Dump those of lib/lunatik/ldump.c, Chunk.Load those of
-- lib/lunatik/lundump.c over a stream of Zio, Chunk.Reads, Reads.Vectors and Chunk.Constants the
-- loads of their parts, Chunk.RoundTrip and Chunk.Unstripped the agreement of the two,
-- Chunk.Writer the calls of the writer and Chunk.Header the rejection of other input.
-- Chunk.Opcodes has the instructions of lib/lunatik/lopcodes.h and lopcodes.c, Opcodes.Fields and
-- Opcodes.Create the macros that change and build them, and Chunk.Verify with
-- Verify.Symbexec the verifier of bytecode of lib/lunatik/ldebug.c, which a load applies to each
-- function; Verify.Bounds, Verify.Effects and Verify.Rounds follow its reads.
-- Buffer models the buffer objects of lib/lunatik/bindings/buffer.c, with Buffer.Access; Crypto the
-- functions of lib/lunatik/bindings/crypto.c, with Crypto.Outcomes; Printk `print` of
-- lib/lunatik/bindings/printk.c, with Printk.Order. Limits models sizes that the engine computes in
-- lib/lunatik/lobject.c, lmem.c and ltable.c, with Limits.Bounds, Limits.Tables and Limits.Logarithm.
-- Table models the tables of lib/lunatik/ltable.c: nodes, main positions and the searches `luaH_getnum`,
-- `luaH_getstr` and `luaH_get`; Table.Length: `luaH_getn`, with Length.Boundary (what it finds);
-- Table.Rehash: the counts of `rehash`, with Rehash.Counts (their sums), Slices (each of
-- them) and Sizes (what follows); Table.Insert: `newkey`, with Insert.Chains
-- (chains and the invariant of the hash part), Insert.Moved, Insert.Keeps and Insert.Finds (its
-- branches) and Insert.Lookup (a search behind it). Strings models the table of all strings of
-- lib/lunatik/lstring.c, with Strings.Chains and Strings.Interned (its invariant). The modules
-- Examples have runs at concrete inputs.
-- Kernel has the kernel as these files use it, Base what all of them share.
--
-- Stateful code is a computation `M` on a `Kernel`: its heap, the address of the next block, the
-- module references, the pending works of each workqueue, and a count of the workqueues, which nothing
-- destroys. `none` is a fault: a read, a write or a free of a block that is not allocated, or a context
-- that is locked twice. Each kmalloc takes its outcome from a list of
-- Booleans that a theorem ranges over, so that all ways to run out of memory are covered; addresses
-- are not used again, which is what shows a use after free. Where the code waits, it is split, and a
-- theorem composes the halves with the worker's steps in the order that it is about. The relation
-- `Reach` of Loadcode.Interleaving has all orders: any number of synchronous callers start, the worker
-- takes and runs requests, and callers go on when their semaphore is raised. What happens between two
-- waits is one step there, allocations succeed, and no signal arrives; Submit.Races has the runs with
-- a signal, and the one in which a caller goes on inside of the handler of its request. The relation
-- `Reach` of Bindings.Modules has all orders in which modules are loaded and unloaded, with allocations
-- that fail, and with whatever the rest of the kernel does that leaves the registry's nodes alone.
--
-- Bounds: `luaz_read` and its loop run on fuel, the number of bytes that are wanted; each round
-- copies one at least. The depth of functions is bounded as in the code: `room` is LUAI_MAXCCALLS
-- less the calls that are open. The doubling of `unbound_search` has 32 rounds and its halving 32,
-- since the indices stop at MAX_INT, and the linear search has 2 ^ 31; `luaO_log2` has 4 rounds,
-- one for each byte of a word. A search of a chain, and that for the node in front of another, run
-- on the number of nodes, which a chain without cycles does not exceed. The verifier's loop runs
-- on the number of instructions, since each round goes forward; that of `luao_int2fb` on the size,
-- which each round lowers; the hash of a string has no more rounds than bytes. Machine integers are
-- given by their words or bounded in the hypotheses; the system call's size arithmetic wraps at 2 ^ 64.
--
-- Outside of the model: the Lua engine proper (its compiler, its virtual machine, its garbage
-- collector and its API), of which Runtime takes what it calls as the record `Engine`; messages;
-- the assembly of setjmp; the running out of memory in the engine during a load, which unwinds like
-- the other errors, and when a string is interned; the move of a table's entries by `resize`, of
-- whose tables Table has the searches and the insertions; the collector's part in the table of
-- strings, of which Strings has that a dead string is given out again and that the table keeps its
-- size during a sweep; the registration functions of lib/lunatik/bindings and the metatable of a
-- buffer, which are calls of the engine.
pub mod Base
pub mod Kernel
pub mod Runtime
pub mod Syscall
pub mod Zio
pub mod Chunk
pub mod Buffer
pub mod Limits
pub mod Table
pub mod Strings
pub mod Crypto
pub mod Printk
