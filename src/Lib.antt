-- ===== src/Lib.antt =====
-- The synthetic memcached client of this repository: a server that speaks the text protocol of
-- memcached, answers every key with one fixed value, and is driven by libevent. A connection holds its
-- input buffer, its vectored output and the state of its own state machine; an event on its socket
-- makes `drive_machine` take steps until the connection has to wait.
--
-- The parts, and the files that model them:
--
--   Base         shared notation: lists, byte buffers and maps as functions on the native ℕ, integers,
--                texts, and `Run`, the result of code that may fault (an access out of bounds or to freed
--                memory, signed overflow, a failed assertion, or fuel that runs out)
--   Fsm          src/fsm.h: the states of a connection (`enum conn_states`)
--   World        what comes to a connection from outside: the answers of the allocator, of libevent, of `read`,
--                `sendmsg` and `accept`, of the pipes and of the random numbers, as endless sequences; and
--                what connections and threads share: the connections by address, the free list, the map
--                of the statistics with its entries, and the workers
--   System       what comes from outside when the server starts: the answers of name lookup and of the
--                calls on sockets; and the descriptors that are open
--   Conn         src/connections.h and src/connections.c: `conn` as a record. The fields of the input
--                buffer, of the vectored output and of the calls to backends are records of their own,
--                and the functions that use no other field take these. Conn/Event has `conn_set_state`
--                and `conn_update_event`, Conn/Close has `conn_close` and the reference counts of
--                src/locking.h, Conn/New has `conn_init` and `conn_new`, with the free list in
--                Conn/New/Freelist, and Conn/Iov has `conn_add_msghdr`, `conn_ensure_iov_space` and
--                `conn_add_iov`, with their proofs in Conn/Iov/
--                and, in Conn/Iov/Sums, with sums of `int` that may overflow
--   Items        src/items.c and src/items.h
--   Utils        src/utils.c: `safe_strtol`
--   Protocol     src/protocol.c: `tokenize_command` and `parse_command`
--   Commands     src/commands.c: the commands `get`, `set` and its kin, and `stats`
--   Server       src/server.c: `transmit` (Server/Transmit), `read_network` (Server/Read),
--                `error_response` (Server/Response), `read_command` and `process_command`
--                (Server/Command), each case of `drive_machine` (Server/States), and its loop
--                (Server/Machine). Server/Event has `event_handler` on the connections in memory, with the
--                lines from backends going to `memcached_response`
--   Memcache     src/memcache_conn.c: `memcache_get`, `memcached_response`, and the queue of the calls
--                in flight of a backend connection, with `conn_ensure_rpc_space` of src/connections.c.
--                Memcache/Connect has `memcache_connect`, Memcache/Outcomes what it may come to, and
--                Memcache/Connects and Memcache/Port its proofs
--   Stats        src/stats.c: the hash map of the statistics. Stats/Buckets says what it stands for;
--                Stats/Draws, Stats/Enters and Stats/Users are about `stat_test_data`
--   Queue        src/threads.c: the queue of new connections that a worker is given. Queue/Chain says
--                what it stands for
--   Threads      src/threads.c: `dispatch_conn_new`, and the handler of the pipe of a worker.
--                Threads/Start has `thread_init`, `setup_thread` and `create_worker`, with proofs in
--                Threads/Init and the files it uses; Threads/Registered has the wait for the workers
--   Startup      src/server.c: `new_socket` and `server_socket` (Startup/Sockets), and `main` from the
--                settings to its event loop (Startup/Main)
--   Settings     src/settings.c: `settings_init` and `settings_parse`
--   Samples, Examples   concrete connections, and theorems applied to them
--
-- They interact so: the server starts by setting up its workers, each with its connections to the
-- backends, entering its test data, and listening. From then on a connection in `conn_listening`
-- accepts a socket and dispatches it; the queue and the pipe take it to a worker, whose handler
-- opens a connection with `conn_new`. It counts in the entry of its client and goes into the memory
-- of connections, where `on_event` finds it from then on. Lines from a client go to the commands,
-- and lines from a backend to Memcache, which hands the answer to the client connection that waits
-- for it. `conn_close` puts the connection on the free list, from which `conn_new` takes it.
--
-- Shared structures are linked by address, as in the source, and a theorem on one says what it stands
-- for: the items of a queue oldest first (`IsQueue`), the entries of a bucket with their clients
-- (`IsMap`), the calls in flight of a backend (`HasCalls`). What is freed is none at its address, so
-- that using it is a fault.
--
-- The wait of the main thread for the workers that register themselves is a step relation, whose steps
-- come in any order and are the stretches of code under `init_lock`, with the wakeups of
-- `pthread_cond_wait`, spurious ones too.
--
-- A pointer into a buffer is a region and an offset; a `Memory` in the theorems gives every region
-- its bytes. The array `iov` and the array that a header points into carry a number, which changes when
-- `realloc` moves the array, so that a stale `msg_iov` is a fault and not a silent success. A limit
-- of the system, IOV_MAX, is the argument `iov_max`.
--
-- An `int` is a number without bounds, but where its overflow is a fault, as it is for the size of the
-- input buffer, the lengths of values, the counts of connections, and the sums in Conn/Iov/Sums. The
-- code that calls `conn_add_iov` uses the one without bounds, which is the same where no sum overflows.
--
-- Fuel: `conn_add_iov` takes three rounds, which are enough, since only the first header is limited in
-- size; `read_network` takes six, since a round that goes on has filled the buffer, and the buffer
-- is doubled at most four times. Both are proved to be enough. The loop over the keys of a command and
-- the turns of the state machine take their fuel as an argument, and running out of it is a fault;
-- the first ends within one more round than there are keys, where memory is to be had. So does the
-- search in a bucket of the map, where more than the number of entries is enough.
--
-- Not modelled: the event loop of libevent, which calls the handlers; the handler of SIGINT, which
-- ends the process; the options that are set on a listening socket, whose failure is only printed;
-- the generators of gsl and the system calls that stand behind World and System. Nothing printed is
-- modelled. Two handlers do not run at the same time: what threads share is used under locks, and
-- the operations under one lock are one step, but for the map of the statistics, which the code uses
-- without its lock and which is taken here as if it were locked. There are no floats: `double` and
-- `atof` are parameters of Settings, and the sizes and delays that are drawn come from the world.
pub mod Base
pub mod Fsm
pub mod Queue
pub mod World
pub mod System
pub mod Conn
pub mod Stats
pub mod Threads
pub mod Memcache
pub mod Settings
pub mod Items
pub mod Utils
pub mod Protocol
pub mod Server
pub mod Startup
pub mod Commands
pub mod Samples
pub mod Examples
