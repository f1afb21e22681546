-- ===== src/Threads.antt =====
-- src/threads.c: the workers are started, and a new connection goes to them in turn, through the
-- queue and the pipe of the worker, which then sets the connection up.
pub mod Serves
pub mod Turns
pub mod Handles
pub mod Start
pub mod Affinity
pub mod Entries
pub mod Joins
pub mod Later
pub mod Reaches
pub mod Prepares
pub mod Sets
pub mod Creates
pub mod Init
pub mod Registered
use synthetic_client.Base.{
  ℕ, zero, suc, ◌+◌, ◌%◌, Bool, true, false, if◌then◌else◌, Option, none, some, update, Run, ok,
  fault, dangling, zero_divisor, ◌==◌, indeterminate, ◌>>=◌,
}
use synthetic_client.Base.Int.{ℤ, pos, negsuc}
use synthetic_client.Fsm.{ConnStates}
use synthetic_client.World.{
  World, Workers, after_alloc, after_address, after_rand, after_notify, store_conn,
}
use synthetic_client.Conn.{Conn, EvFlags, client_conn}
use synthetic_client.Conn.New.{conn_new}
use synthetic_client.Queue.{
  Nodes, NewConn, ConnQueue, load, conn_queue_push, conn_queue_pop, new_conn_free,
}

-- `last_thread + 1`, from -1 on
abbrev pub successor : ℤ → ℕ
successor (pos n) = n + 1
successor (negsuc n) = 0

unfoldable pub next_thread : Workers → ℕ
next_thread t = successor t.last_thread % t.threads

-- The byte that wakes the worker. That it cannot be written is only reported.
unfoldable pub notify : ℕ → World → World
notify i w =
    let t = w.workers in
    let v = after_notify w in
    if w.notifies 0
    then record v { workers = record t { pipes = update t.pipes i (t.pipes i + 1) } }
    else v

-- `cqi_new` is not checked.
unfoldable pub dispatch_conn_new : ℕ → ConnStates → EvFlags → ℕ → World → Run World
unfolding notify
dispatch_conn_new sfd init_state event_flags read_buffer_size w =
    if w.workers.threads == 0
    then fault zero_divisor
    else if w.allocs 0
    then (let t = w.workers in
        let i = next_thread t in
        let p = w.addresses 0 in
        let new_conn : NewConn = record {
          client_id = pos (w.rands 0);
          sfd = sfd;
          init_state = init_state;
          event_flags = event_flags;
          next = none;
          read_buffer_size = read_buffer_size;
        } in
        conn_queue_push (update t.nodes p (some new_conn)) (t.queues i) p >>= λ (nodes, cq). ok (
          notify i (record (after_rand (after_address (after_alloc w))) {
            workers = record t {
              last_thread = pos i;
              nodes = nodes;
              queues = update t.queues i cq;
            };
          })))
    else fault dangling

-- `c->thread = me`
unfoldable pub assign : ℕ → Option ℕ → World → Run World
assign i none w = ok w
assign i (some p) w = elim (w.conns p) [
  | none ↦ fault dangling
  | some c ↦ ok (store_conn w p (some (record c { thread = some i })))
]

abbrev pub store_queue : World → ℕ → ConnQueue → World
store_queue w i cq = record w {
  workers = record (w.workers) { queues = update w.workers.queues i cq };
}

abbrev pub free_item : ℕ → World → World
free_item p w = record w {
  workers = record (w.workers) { nodes = new_conn_free w.workers.nodes p };
}

-- The item is set up as a connection and freed; where that fails, its socket is closed.
unfoldable pub open_popped : ℕ → ℕ → ℕ → World → Run World
unfolding assign
open_popped fuel i p w = load w.workers.nodes p >>= λ n.
    conn_new fuel client_conn n.client_id n.sfd n.init_state n.event_flags n.read_buffer_size w
    >>= λ (c, v). assign i c v >>= λ u. ok (free_item p u)

-- What follows the read of a byte from the pipe.
unfoldable pub after_notified : ℕ → ℕ → World → Run World
unfolding open_popped
after_notified fuel i w = conn_queue_pop w.workers.nodes (w.workers.queues i) >>= λ (new_conn, cq).
    elim new_conn [
      | none ↦ ok (store_queue w i cq)
      | some p ↦ open_popped fuel i p (store_queue w i cq)
    ]

-- The byte is `'c'`, as is every byte that is written. Without one the tested byte is
-- indeterminate.
unfoldable pub thread_new_conn_handler : ℕ → ℕ → World → Run World
unfolding after_notified
thread_new_conn_handler fuel i w = elim (w.workers.pipes i) [
  | zero ↦ fault indeterminate
  | suc n ↦
      after_notified fuel i
        (record w { workers = record (w.workers) { pipes = update w.workers.pipes i n } })
]
