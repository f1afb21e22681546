-- ===== src/Conn/New.antt =====
-- src/connections.c: `conn_init` and `conn_new`, which takes a connection off the free list or
-- allocates one.
pub mod Freelist
pub mod Opens
pub mod Counts
pub mod Reopens
pub mod Ready
pub mod OpensNext
pub mod Lists
use synthetic_client.Base.{
  ℕ, zero, suc, ◌+◌, Bool, true, false, ◌&&◌, ◌||◌, leb, if◌then◌else◌, Option, none, some, [], Run,
  ok, fault, dangling, overflow, ◌>>=◌,
}
use synthetic_client.Base.Int.{ℤ, pos}
use synthetic_client.Fsm.{ConnStates, conn_min_state}
use synthetic_client.World.{World, after_alloc, after_address, after_event, store_conn}
use synthetic_client.Conn.{
  Conn, ConnType, EvFlags, ev_none, text, data_buffer_size, iov_list_initial, msg_list_initial,
  item_list_initial, memcache_rpc_queue,
}
use synthetic_client.Conn.Close.{conn_add_to_freelist, store_stats}
use synthetic_client.Stats.{get_client_stats, entry}
use synthetic_client.Utils.{int_max}

-- That `calloc` fails is only reported, and the list is null from then on: the fault, which the first
-- connection that is put on it would be, is taken at once here.
unfoldable pub conn_init : World → Run World
conn_init w =
    if w.allocs 0
    then ok (record (after_alloc w) {
      freelist = record { freeconns = λ _. 0; freetotal = 200; freecurr = 0 };
    })
    else fault dangling

-- With `freecurr` connections on the list.
abbrev pub last_freed : World → ℕ → Option ℕ × World
last_freed w zero = (none, w)
last_freed w (suc n) =
    (some (w.freelist.freeconns n), record w { freelist = record (w.freelist) { freecurr = n } })

unfoldable pub conn_from_freelist : World → Option ℕ × World
conn_from_freelist w = last_freed w w.freelist.freecurr

-- What `calloc` and the initial sizes give. Nothing is read from the new arrays before it is
-- written.
unfoldable pub blank : ℕ → ℕ → Bool → World → Conn
blank self read_buffer_size rpc_null w = record {
  self = self;
  type = ConnType.client_conn;
  next = none;
  client_id = pos 0;
  sfd = 0;
  event = none;
  ev_flags = ev_none;
  old_ev_flags = ev_none;
  thread = none;
  state = conn_min_state;
  after_write = conn_min_state;
  after_timeout = conn_min_state;
  cmd = pos 0;
  timeout = 0;
  input = record { rsize = read_buffer_size; rbuf = w.fresh_bytes; rcurr = 0; rbytes = 0 };
  wsize = data_buffer_size;
  wbuf = λ i. w.fresh_bytes (read_buffer_size + i);
  wcurr = 0;
  wbytes = 0;
  sbytes = pos 0;
  output = record {
    msglist = λ _. record { block = 0; msg_iov = 0; msg_iovlen = 0 };
    msgsize = msg_list_initial;
    msgused = 0;
    msgcurr = 0;
    msgbytes = 0;
    iov = λ _. record { iov_base = record { region = text []; offset = 0 }; iov_len = 0 };
    iov_block = 0;
    iovsize = iov_list_initial;
    iovused = 0;
  };
  isize = item_list_initial;
  icurr = 0;
  ileft = 0;
  rpcwaiting = pos 0;
  rpcs = record {
    rpc = λ _. 0;
    rpc_null = rpc_null;
    rpcsize = memcache_rpc_queue;
    rpcused = 0;
    rpcdone = 0;
  };
  stats = none;
  mem_blob = none;
  mem_free_delay = pos 0;
}

-- The six arrays are all asked for; that `rpc` is there is not checked. `conn_free` gives back what
-- was allocated.
unfoldable pub allocated : ℕ → World → Option Conn × World
unfolding blank
allocated read_buffer_size w =
    if w.allocs 0
    then (let v = after_alloc (after_address w) in
        let u =
          after_alloc (after_alloc (after_alloc (after_alloc (after_alloc (after_alloc v))))) in
        if v.allocs 0 && (v.allocs 1 && (v.allocs 2 && (v.allocs 3 && v.allocs 4)))
        then (
          some (blank (w.addresses 0) read_buffer_size (if v.allocs 5 then false else true) w),
          u,
        )
        else (none, u))
    else (none, after_alloc w)

-- A closed connection off the free list, with its buffers, or a new one.
unfoldable pub taken : ℕ → Option ℕ × World → Run (Option Conn × World)
unfolding allocated
taken read_buffer_size (none, w) = ok (allocated read_buffer_size w)
taken read_buffer_size (some p, w) = elim (w.conns p) [
  | none ↦ fault dangling
  | some d ↦ ok (some d, w)
]

unfoldable pub obtained : ℕ → World → Run (Option Conn × World)
unfolding conn_from_freelist taken
obtained read_buffer_size w = taken read_buffer_size (conn_from_freelist w)

unfoldable pub set_up : Conn → ConnType → ℤ → ℕ → ConnStates → EvFlags → ℕ → Conn
set_up c type client_id sfd init_state event_flags stats = record c {
  client_id = client_id;
  type = type;
  sfd = sfd;
  state = init_state;
  after_write = init_state;
  input = record (c.input) { rbytes = 0; rcurr = 0 };
  wbytes = 0;
  wcurr = 0;
  output = record (c.output) { iovused = 0; msgcurr = 0; msgused = 0 };
  ileft = 0;
  icurr = 0;
  rpcs = record (c.rpcs) { rpcused = 0; rpcdone = 0 };
  rpcwaiting = pos 0;
  stats = some stats;
  event = none;
  ev_flags = event_flags;
}

unfoldable pub count_connection : ℕ → World → Run World
count_connection p w = entry w p >>= λ s.
    if leb int_max s.total_connections || leb int_max s.live_connections
    then fault overflow
    else ok (
        store_stats w p (record s {
          total_connections = s.total_connections + 1;
          live_connections = s.live_connections + 1;
        }))

-- `event_add`, and what follows where it fails.
unfoldable pub listen : Conn → EvFlags → World → Option ℕ × World
listen c event_flags w =
    let v = after_event w in
    if w.events 0
    then (some c.self, store_conn v c.self (some (record c { event = some (event_flags, none) })))
    else (let (listed, u) = conn_add_to_freelist c.self v in
        (none, store_conn u c.self (if listed then some c else none)))

-- What is done with the connection that is there, if one is.
unfoldable pub opened :
    ℕ → ConnType → ℤ → ℕ → ConnStates → EvFlags → Option Conn → World → Run (Option ℕ × World)
unfolding set_up count_connection listen
opened fuel type client_id sfd init_state event_flags none w = ok (none, w)
opened fuel type client_id sfd init_state event_flags (some d) w =
    get_client_stats fuel client_id w >>= λ (p, v). count_connection p v >>= λ u.
    ok (listen (set_up d type client_id sfd init_state event_flags p) event_flags u)

-- The address of the connection, null on failure.
unfoldable pub conn_new :
    ℕ → ConnType → ℤ → ℕ → ConnStates → EvFlags → ℕ → World → Run (Option ℕ × World)
unfolding obtained opened
conn_new fuel type client_id sfd init_state event_flags read_buffer_size w =
    obtained read_buffer_size w >>= λ (c, v).
    opened fuel type client_id sfd init_state event_flags c v
