-- ===== src/Queue.antt =====
-- src/threads.c: the queue in which the listening thread leaves new connections for a worker. It is
-- linked through `next`, and used under its lock, so that each operation is one step.
pub mod Chain
use synthetic_client.Base.{ℕ, Option, none, some, update, Run, ok, fault, dangling, ◌>>=◌}
use synthetic_client.Base.Int.{ℤ}
use synthetic_client.Fsm.{ConnStates}
use synthetic_client.Conn.{EvFlags}

-- An item of the queue.
pub record NewConn : Type 0 where
  pub client_id : ℤ
  pub sfd : ℕ
  pub init_state : ConnStates
  pub event_flags : EvFlags
  pub next : Option ℕ
  pub read_buffer_size : ℕ

pub record ConnQueue : Type 0 where
  pub head : Option ℕ
  pub tail : Option ℕ

-- The items by address; what is not allocated is none.
abbrev pub Nodes : Type 0
Nodes = ℕ → Option NewConn

unfoldable pub conn_queue_new : ConnQueue
conn_queue_new = record { head = none; tail = none }

unfoldable pub load : Nodes → ℕ → Run NewConn
load nodes p = elim (nodes p) [ none ↦ fault dangling | some n ↦ ok n ]

-- `p->next = q`
unfoldable pub set_next : ℕ → Option ℕ → Nodes → Run Nodes
unfolding load
set_next p q nodes = load nodes p >>= λ n. ok (update nodes p (some (record n { next = q })))

unfoldable pub conn_queue_push : Nodes → ConnQueue → ℕ → Run (Nodes × ConnQueue)
unfolding set_next
conn_queue_push nodes cq new_conn = set_next new_conn none nodes >>= λ fresh. elim cq.tail [
  | none ↦ ok (fresh, record { head = some new_conn; tail = some new_conn })
  | some last ↦ set_next last (some new_conn) fresh >>= λ linked.
      ok (linked, record cq { tail = some new_conn })
]

-- The `if` behind the new head.
unfoldable pub popped : ConnQueue → Option ℕ → ConnQueue
popped cq none = record cq { head = none; tail = none }
popped cq (some p) = record cq { head = some p }

-- None if no item is there; it does not wait for one.
unfoldable pub conn_queue_pop : Nodes → ConnQueue → Run (Option ℕ × ConnQueue)
unfolding load popped
conn_queue_pop nodes cq = elim cq.head [
  | none ↦ ok (none, cq)
  | some p ↦ load nodes p >>= λ n. ok (some p, popped cq n.next)
]

unfoldable pub new_conn_free : Nodes → ℕ → Nodes
new_conn_free nodes p = update nodes p none
