-- ===== src/World.antt =====
-- What a connection is given from outside: the answers of the allocator, of libevent, of the
-- sockets and of the random numbers, each an endless sequence from which a call takes the next one,
-- and the memory that it shares with others. A theorem over all worlds is a theorem over every
-- behaviour of these.
use synthetic_client.Base.{ℕ, suc, Bool, List, Option, update}
use synthetic_client.Base.Int.{ℤ}
use synthetic_client.Conn.{Conn}
use synthetic_client.Queue.{Nodes, ConnQueue}

-- `read`, asked for some number of bytes: `res > 0` with the bytes, 0, -1 with EAGAIN or
-- EWOULDBLOCK, -1 with another error
pub data ReadOutcome : Type 0 where
  received : List ℕ → ReadOutcome
  end_of_stream would_block read_failed : ReadOutcome

-- `sendmsg`: the result if it is not -1, -1 with EAGAIN or EWOULDBLOCK, -1 with another error
pub data SendOutcome : Type 0 where
  sent : ℕ → SendOutcome
  send_blocked send_failed : SendOutcome

-- `accept` and the `fcntl` calls behind it: a descriptor, one that cannot be made non-blocking, or
-- none
pub data AcceptOutcome : Type 0 where
  accepted unusable : ℕ → AcceptOutcome
  accept_failed : AcceptOutcome

-- src/connections.c: the free list, with the addresses of closed connections.
pub record Freelist : Type 0 where
  pub freeconns : ℕ → ℕ
  pub freetotal : ℕ
  pub freecurr : ℕ

-- src/stats.h: what is counted for a client. `next` links the entries of a bucket; the lock is left
-- out, since every update below is made by one step.
pub record ClientStats : Type 0 where
  pub refcnt : ℕ
  pub next : Option ℕ
  pub client_id : ℤ
  pub total_connections : ℕ
  pub live_connections : ℕ
  pub requests : ℕ

-- src/stats.h: the hash map of the statistics, with the first entry of each bucket. Its lock and
-- its counts are set up and not used.
pub record Statistics : Type 0 where
  pub map_size : ℕ
  pub map : ℕ → Option ℕ

-- src/threads.c, src/threads.h: the workers by number, `config.threads` of them, each with its
-- queue and the bytes that are waiting in its pipe; the items of the queues; and the worker that
-- was given a connection last, -1 before the first.
pub record Workers : Type 0 where
  pub threads : ℕ
  pub last_thread : ℤ
  pub nodes : Nodes
  pub queues : ℕ → ConnQueue
  pub pipes : ℕ → ℕ

-- `sizes` and `delays` are what the normal distributions of the settings come to: the number of
-- bytes as a `long`, and the number of requests to wait, none where the draw is below the cutoff.
-- `client_stats` is the memory of the statistics, by address; what is freed is none there. `conns`
-- are the connections by address, none where nothing is allocated; the one that a handler works on
-- is passed beside the world, and stored when the handler is done. `addresses` are those of the
-- structures that are allocated, and `fresh_bytes` is what new buffers hold. `notifies` tells
-- whether a write to the pipe of a worker succeeds.
pub record World : Type 0 where
  pub allocs : ℕ → Bool
  pub events : ℕ → Bool
  pub reads : ℕ → ℕ → ReadOutcome
  pub sends : ℕ → SendOutcome
  pub sizes : ℕ → ℤ
  pub delays : ℕ → Option ℤ
  pub accepts : ℕ → AcceptOutcome
  pub client_stats : ℕ → Option ClientStats
  pub freelist : Freelist
  pub conns : ℕ → Option Conn
  pub addresses : ℕ → ℕ
  pub fresh_bytes : ℕ → ℕ
  pub statistics : Statistics
  pub rands : ℕ → ℕ
  pub workers : Workers
  pub notifies : ℕ → Bool

abbrev pub rest {ℓ} : {A : Type ℓ} → (ℕ → A) → ℕ → A
rest s n = s (suc n)

abbrev pub after_alloc : World → World
after_alloc w = record w { allocs = rest w.allocs }

abbrev pub after_event : World → World
after_event w = record w { events = rest w.events }

abbrev pub after_read : World → World
after_read w = record w { reads = rest w.reads }

abbrev pub after_send : World → World
after_send w = record w { sends = rest w.sends }

abbrev pub after_size : World → World
after_size w = record w { sizes = rest w.sizes }

abbrev pub after_delay : World → World
after_delay w = record w { delays = rest w.delays }

abbrev pub after_address : World → World
after_address w = record w { addresses = rest w.addresses }

abbrev pub after_rand : World → World
after_rand w = record w { rands = rest w.rands }

abbrev pub after_notify : World → World
after_notify w = record w { notifies = rest w.notifies }

abbrev pub store_conn : World → ℕ → Option Conn → World
store_conn w p c = record w { conns = update w.conns p c }
