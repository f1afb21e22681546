-- ===== src/Samples.antt =====
-- Concrete connections and surroundings for the tests.
use synthetic_client.Base.{ℕ, ◌+◌, true, false, none, some, List, take, fill, codes}
use synthetic_client.Base.Int.{pos, negsuc}
use synthetic_client.Fsm.{conn_waiting, conn_new_cmd}
use synthetic_client.Queue.{conn_queue_new}
use synthetic_client.World.{World, received, sent, accept_failed, ClientStats}
use synthetic_client.Conn.{
  Conn, Input, Output, Ptr, text, client_conn, ev_read, data_buffer_size, iov_list_initial,
  msg_list_initial, item_list_initial, memcache_rpc_queue,
}

abbrev pub hello : List ℕ
hello = codes "hello"

abbrev pub hello_ptr : Ptr
hello_ptr = record { region = text hello; offset = 0 }

-- An output with one header and nothing else.
abbrev pub started : Output
started = record {
  msglist = λ _. record { block = 0; msg_iov = 0; msg_iovlen = 0 };
  msgsize = msg_list_initial;
  msgused = 1;
  msgcurr = 0;
  msgbytes = 0;
  iov = λ _. record { iov_base = hello_ptr; iov_len = 0 };
  iov_block = 0;
  iovsize = iov_list_initial;
  iovused = 0;
}

-- The same with five bytes.
abbrev pub greeting : Output
greeting = record started {
  msglist = λ _. record { block = 0; msg_iov = 0; msg_iovlen = 1 };
  msgbytes = 5;
  iov = λ _. record { iov_base = hello_ptr; iov_len = 5 };
  iovused = 1;
}

abbrev pub request : List ℕ
request = codes "get a b c"

-- Two unparsed bytes in a buffer of eight.
abbrev pub small_input : Input
small_input = record { rsize = 8; rbuf = fill (λ _. 0) 0 (codes "xget"); rcurr = 1; rbytes = 3 }

abbrev pub sample_stats : ClientStats
sample_stats = record {
  refcnt = 2;
  next = none;
  client_id = pos 7;
  total_connections = 1;
  live_connections = 1;
  requests = 0;
}

-- Memory and libevent never fail, `read` has bytes for every request, and `sendmsg` takes three.
abbrev pub surroundings : World
surroundings = record {
  allocs = λ _. true;
  events = λ _. true;
  reads = λ i n. received (take n request);
  sends = λ _. sent 3;
  sizes = λ _. pos 100;
  delays = λ _. none;
  accepts = λ _. accept_failed;
  client_stats = λ _. some sample_stats;
  freelist = record { freeconns = λ _. 0; freetotal = 200; freecurr = 0 };
  conns = λ _. none;
  addresses = λ i. 100 + i;
  fresh_bytes = λ _. 0;
  statistics = record { map_size = 1000; map = λ _. none };
  rands = λ _. 7;
  workers = record {
    threads = 2;
    last_thread = negsuc 0;
    nodes = λ _. none;
    queues = λ _. conn_queue_new;
    pipes = λ _. 0;
  };
  notifies = λ _. true;
}

abbrev pub sample_conn : Conn
sample_conn = record {
  self = 1;
  type = client_conn;
  next = none;
  client_id = pos 7;
  sfd = 5;
  event = some (ev_read, none);
  ev_flags = ev_read;
  old_ev_flags = ev_read;
  thread = some 0;
  state = conn_waiting;
  after_write = conn_new_cmd;
  after_timeout = conn_new_cmd;
  cmd = negsuc 0;
  timeout = 0;
  input = small_input;
  wsize = data_buffer_size;
  wbuf = λ _. 0;
  wcurr = 0;
  wbytes = 0;
  sbytes = pos 0;
  output = greeting;
  isize = item_list_initial;
  icurr = 0;
  ileft = 0;
  rpcwaiting = pos 0;
  rpcs = record {
    rpc = λ _. 0;
    rpc_null = false;
    rpcsize = memcache_rpc_queue;
    rpcused = 0;
    rpcdone = 0;
  };
  stats = some 0;
  mem_blob = none;
  mem_free_delay = pos 0;
}
