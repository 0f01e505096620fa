-- ===== src/Lib.antt =====
-- Verification library of lumbre, the PHP extension that traces a request as spans and hands them
-- to a daemon through shared memory.
--
-- The program's parts. The hooks of php_lumbre.c start a span (lumbre_span.c) for each
-- intercepted call, fill in its payload, and finish it after the call. A finish packs the span as
-- a msgpack map (lumbre_msgpack.c) into the request's buffer and writes the buffer as one message
-- to the ring (lumbre_ringbuf.c) that the worker shares with the daemon. The daemon is another
-- program; it reads the messages in order and stores its position in the ring's header.
--
-- The files.
--   Common: shared names, Boolean tests on the native numbers, list lemmas, the widths of the
--     machine integers. A C function that returns 0 or -1 returns `ok` or `error`. A pointer is
--     `none` (NULL) or the object's bytes.
--   Bits: the laws of `|` and `&` behind the rounding to a power of two, the ring's mask and the
--     tags.
--   Memory: a region as a function from addresses to bytes, `memcpy` to and from it, and integers
--     as little-endian bytes. Addresses behind a region are kept apart, so that a write out of
--     bounds is visible.
--   Ring: lumbre_ringbuf.c. `RingBuf` is lumbre_ringbuf_t with the mapping it points to; `write`
--     is lumbre_ringbuf_write, `write_seen` the same with the position that the relaxed load of
--     `read_pos` returns as an argument; `reset`, `init`, `destroy` and `next_power_of_2` are the
--     functions of those names. Ring/Write holds the invariant and the outcomes of a write,
--     Ring/Frames and Ring/Refine the queue of messages that the ring stands for, Ring/Bounds the
--     addresses written, Ring/Lifecycle, Ring/Start, Ring/Resources and Ring/Handle the opening
--     and closing, Ring/Decimal the numbers in the file's name, Ring/Reader the consumer
--     (read_msg_at of tests/test_ringbuf.c), Ring/Drain its reading loop (test_spsc_simulation
--     there), Ring/Contents that the bytes determine the queue, Ring/Channel both sides in any
--     interleaving, Ring/Empty what an empty ring accepts, Ring/Layout the header's bytes in the
--     file, Ring/Stored what they hold, and Ring/Mapping a reader that knows only the file.
--   Msgpack: lumbre_msgpack.c, a function for each of its functions. Msgpack/Format describes the
--     msgpack bytes of a value, Msgpack/Decode reads them, Msgpack/Emit, Msgpack/Strings and
--     Msgpack/Sequence relate the packers to the format, Msgpack/RoundTrip to the reader.
--   Span: lumbre_span.h and lumbre_span.c. Span/Setters, Span/Mkey, Span/Encode and Span/Finish
--     are the code; Span/Fields says which pairs a span's message holds, Span/Encoding and
--     Span/Message that the code writes them, Span/Reader reads them, Span/Deliver what a finish
--     adds to the ring; Span/Log, Span/Queue and Span/Complete are about a sequence of finishes.
--   Whitelist: lumbre_whitelist.c. Whitelist/Entries is the static table; `init`, `match`,
--     `build_key` and `fnv1a` are the functions of those names; Whitelist/Rows is a plain search
--     of that table, Whitelist/Built the table of the init, and Whitelist/Search and
--     Whitelist/Match compare the probing with the plain search of the static table.
--   Hooks: the globals of php_lumbre.h and the hooks lumbre_execute_internal and
--     lumbre_execute_ex of php_lumbre.c. Hooks/Calls runs a tree of calls through the hooks,
--     Hooks/Nesting says what a call, also one that changes settings, and Hooks/Fixed what a call
--     that changes none leaves unchanged (with Hooks/Kept), Hooks/Listed which calls are traced,
--     Hooks/Wellformed that the spans are well-formed. Hooks/Tree tells from a tree of calls
--     alone what it is to report, Hooks/Traced and Hooks/Report compare it with what the hooks
--     write, Hooks/Urls on what is reported for a URL, Hooks/Reported that these reports are
--     well-formed, Hooks/Forest, Hooks/Ids, Hooks/Short and Hooks/Closed are about the ids and
--     parents of the reports.
--   Request: RINIT, RSHUTDOWN and the globals' part of MSHUTDOWN of php_lumbre.c, with the trace
--     id header (lumbre_hex_to_bin) and the trigger header. Request/Hex is about the conversion
--     of the trace id, Request/Root about the root span, Request/Started, Request/Trace and
--     Request/Shape about a whole request.
--   Ini: lumbre_OnUpdateMode (Ini, Ini/Mode) and the INI entries (Ini/Entries) of php_lumbre.c.
--   Worker: GINIT, MINIT, MSHUTDOWN and lumbre_worker_id of php_lumbre.c. Worker/Lifetime is a
--     worker's life as a relation of steps, Worker/Owned what it gives back, Worker/Configured
--     its mode and its whitelist, Worker/Pool, Worker/Numbered and Worker/Threads the
--     interleavings of threads. Worker/Info is the information page (MINFO) as the engine's
--     printing calls, Worker/Entry the module entry and what the end of the process leaves.
--   Pipeline: all parts together, a worker and the daemon behind its ring, as a relation of
--     steps: request starts, calls, request ends, changes of settings, and reads.
--     Pipeline/Chosen, Pipeline/Stage, Pipeline/Opening, Pipeline/Flow and Pipeline/Reports keep
--     the invariant, Pipeline/Delivery and Pipeline/Drained say what the daemon gets,
--     Pipeline/Accounts what becomes of each span.
--
-- Bounds. Integers are natural numbers with the wrap of their C type written out (`% 2 ^ w`),
-- differences as `(a + 2 ^ w - b) % 2 ^ w`. The theorems on the ring ask for a capacity of 4 to
-- 2^31, a power of two, as an init with a size of 3 to 2^31 gives it, and for positions that are
-- two capacities away from 2^64 at least (`IsFresh`), or three for a sequence of writes
-- (`HasHeadroom`); those on the packer for a buffer below 2^63 bytes (`IsFine`), where the code's
-- has 16384. A payload is as long as its length says; what lies behind an object is read as 0.
-- Decimal numbers have at most twenty digits, enough for 64 bits. Memory is sequential: the
-- release store of `write_pos` is one step of Ring/Channel, and an outdated `read_pos` is any
-- earlier one; in Pipeline the daemon reads between the worker's calls. The probing of the
-- whitelist has 64 turns of fuel, one for each slot. The ring's file ends with the data region;
-- what a writer puts behind it is not in the file. A script's `ini_set` is a step inside a tree
-- of calls; the tree of reports is told for calls without one. A well-formed span (`IsSpan`) has
-- fields within their C types and strings that are NULL only with length 0.
--
-- Arguments of the definitions: the clock's readings, the random source, the answers of `open`,
-- `ftruncate` and `mmap`, the Zend engine's view of a call (`Frame`), the original handlers, and
-- what RINIT asks of the engine and the server (`Env`).
--
-- Not modelled: the installation macros behind the module entry, which are data for the engine;
-- the build files; the tests, except the reading function and the reading loop of the ring tests.
-- The engine's own INI handlers, the registration of the entries, the printing of the information
-- page and the execution of PHP code are arguments or listed calls.
pub mod Common
pub mod Bits
pub mod Memory
pub mod Ring
pub mod Msgpack
pub mod Span
pub mod Whitelist
pub mod Hooks
pub mod Request
pub mod Ini
pub mod Worker
pub mod Pipeline
