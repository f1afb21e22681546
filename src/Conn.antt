-- ===== src/Conn.antt =====
-- src/connections.h: the connection, and the constants that size its buffers.
-- A heap array is a function from its offsets with its allocated size beside it; a pointer into one
-- of the connection's own arrays is an offset. The array `iov` is also pointed into from `msglist`,
-- so it has the number of its allocation, `iov_block`, and such a pointer remembers that number.
pub mod Event
pub mod Close
pub mod New
pub mod Iov
use synthetic_client.Base.{ℕ, Bool, List, Option}
use synthetic_client.Base.Int.{ℤ}
use synthetic_client.Fsm.{ConnStates}

abbrev pub data_buffer_size : ℕ
data_buffer_size = 2048

abbrev pub iov_list_initial : ℕ
iov_list_initial = 400

abbrev pub msg_list_initial : ℕ
msg_list_initial = 10

abbrev pub item_list_initial : ℕ
item_list_initial = 200

abbrev pub max_payload_size : ℕ
max_payload_size = 1400

abbrev pub memcache_rpc_queue : ℕ
memcache_rpc_queue = 2048

pub data ConnType : Type 0 where
  client_conn memcached_conn : ConnType

-- The flag sets that the code passes to libevent: 0, `EV_READ | EV_PERSIST` and
-- `EV_WRITE | EV_PERSIST`.
pub data EvFlags : Type 0 where
  ev_none ev_read ev_write : EvFlags

-- What a `char *` of an iovec points into: the connection's own `wbuf`, the data of the one item,
-- or a string constant.
pub data Region : Type 0 where
  own_wbuf item_data : Region
  text : List ℕ → Region

pub record Ptr : Type 0 where
  pub region : Region
  pub offset : ℕ

pub record Iovec : Type 0 where
  pub iov_base : Ptr
  pub iov_len : ℕ

-- `msg_iov` points at an element of the allocation `block` of the array `iov`.
pub record Msghdr : Type 0 where
  pub block : ℕ
  pub msg_iov : ℕ
  pub msg_iovlen : ℕ

-- The fields for reading: `rbytes` unparsed bytes from the offset `rcurr` of `rbuf`.
pub record Input : Type 0 where
  pub rsize : ℕ
  pub rbuf : ℕ → ℕ
  pub rcurr : ℕ
  pub rbytes : ℕ

-- The fields for vectored output.
pub record Output : Type 0 where
  pub msglist : ℕ → Msghdr
  pub msgsize : ℕ
  pub msgused : ℕ
  pub msgcurr : ℕ
  pub msgbytes : ℕ
  pub iov : ℕ → Iovec
  pub iov_block : ℕ
  pub iovsize : ℕ
  pub iovused : ℕ

-- The fields of a backend connection for its queue of waiting client connections, by address.
-- The array may be null: its allocation is not checked.
pub record Rpcs : Type 0 where
  pub rpc : ℕ → ℕ
  pub rpc_null : Bool
  pub rpcsize : ℕ
  pub rpcused : ℕ
  pub rpcdone : ℕ

pub record Conn : Type 0 where
  -- the address of the connection
  pub self : ℕ
  pub type : ConnType
  -- links the listening sockets
  pub next : Option ℕ
  pub client_id : ℤ
  pub sfd : ℕ
  -- what libevent has registered for `event`: the flags and the timeout
  pub event : Option (EvFlags × Option ℕ)
  pub ev_flags : EvFlags
  pub old_ev_flags : EvFlags
  -- the worker that manages the connection
  pub thread : Option ℕ
  pub state : ConnStates
  pub after_write : ConnStates
  pub after_timeout : ConnStates
  pub cmd : ℤ
  pub timeout : ℕ
  pub input : Input
  pub open input use *
  pub wsize : ℕ
  pub wbuf : ℕ → ℕ
  pub wcurr : ℕ
  pub wbytes : ℕ
  pub sbytes : ℤ
  pub output : Output
  pub open output use *
  -- every slot of `ilist` in use holds the one item, so only the counts are kept
  pub isize : ℕ
  pub icurr : ℕ
  pub ileft : ℕ
  pub rpcwaiting : ℤ
  pub rpcs : Rpcs
  pub open rpcs use *
  -- the address of the client's statistics, null once the connection is closed
  pub stats : Option ℕ
  -- the size of the block, if there is one
  pub mem_blob : Option ℕ
  pub mem_free_delay : ℤ
