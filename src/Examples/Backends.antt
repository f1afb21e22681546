-- ===== src/Examples/Backends.antt =====
-- The theorems on backends at concrete inputs that meet their hypotheses.
use synthetic_client.Base.{
  length, ◌⊎◌, ◌<◌, ◌/◌, ℕ, ◌+◌, ◌≡◌, refl, sym, ap, ◌∙◌, true, false, Bool, none, some, List, [],
  ◌∷◌, ◌++◌, codes, bytes, update, inl, inr, Bool-cases, ◌==◌, if◌then◌else◌, get_or, ok, Returns,
  arith,
}
use synthetic_client.Base.Int.{pos, ◌+ℤ◌}
use synthetic_client.Fsm.{conn_mwrite, conn_new_cmd, conn_swallow}
use synthetic_client.World.{World}
use synthetic_client.Conn.{Conn, Rpcs, Output, memcached_conn, ev_write}
use synthetic_client.Conn.Iov.Payload.{written}
use synthetic_client.Conn.Event.{conn_set_state, conn_update_event, conn_update_event_t}
use synthetic_client.Protocol.{Token}
use synthetic_client.Commands.{value_length}
use synthetic_client.Commands.Replies.{server_memory}
use synthetic_client.Utils.{safe_strtol}
use synthetic_client.Memcache.{
  memcache_get, queue_rpc, enqueue, client, store_client, conn_ensure_rpc_space,
  process_hit_response,
}
use synthetic_client.Memcache.Calls.{IsBackend}
use synthetic_client.Memcache.Asks.{Queues}
use synthetic_client.Memcache.Get.{memcache_get-Queues, request_line}
use synthetic_client.Memcache.Session.{Gives, process_hit_response-Gives, idle, asks, Session-order}
use synthetic_client.Memcache.{backend}
use synthetic_client.Memcache.Lines.{backend-end}
use synthetic_client.Memcache.Compaction.{calls, conn_ensure_rpc_space-loses}
use synthetic_client.Samples.{started, surroundings, sample_conn}
use synthetic_client.Examples.{started-IsBuilt, once}

-- A backend without calls in flight, and one client.
abbrev backend_conn : Conn
backend_conn = record sample_conn { self = 2; type = memcached_conn; output = started }

abbrev one_client : World
one_client = record surroundings { conns = update (λ _. none) 1 (some sample_conn) }

only_client : (q : ℕ) (c d : Conn) → update (λ _. none) 1 (some d) q ≡ some c → (q ≡ 1) × (d ≡ c)
only_client q c d e = elim (Bool-cases (1 == q)) [
  | inl same ↦ (
    ground arith,
    let both : some d ≡ some c = ap (λ (b : Bool). if b then some d else none) (sym same) ∙ e in cc,
  )
  | inr other ↦
      let no : none ≡ some c = ap (λ (b : Bool). if b then some d else none) (sym other) ∙ e in cc
]

one_client-IsBackend : IsBackend (λ _. 0) backend_conn one_client []
unfolding bytes
one_client-IsBackend = record {
  calls = record { present = refl; order = omega arith; within = omega arith; calls = refl };
  clients = tt;
  waiting = λ q c ne e. ap (λ (d : Conn). d.rpcwaiting) (sym (only_client q c sample_conn e).1);
}

memcache_get-Queues_example :
    Returns (memcache_get once backend_conn 1 (codes "a") one_client) (λ r.
      (o : Output) × Queues (λ _. 0) o 1 [] one_client r
      × (written (server_memory (λ _. 0) (λ _. 0)) r.1.output
          ≡ written (server_memory (λ _. 0) (λ _. 0)) started ++ request_line (codes "a")))
memcache_get-Queues_example =
    memcache_get-Queues (λ _. 0) (λ _. 0) once (λ _. 0) backend_conn 1 sample_conn [] (codes "a")
      one_client refl started-IsBuilt (omega arith) (λ i. refl) one_client-IsBackend
      (inl (omega arith)) (λ e. omega (arith, e)) refl

-- The client has one call in flight.
abbrev waiting_client : Conn
waiting_client = record sample_conn { rpcwaiting = pos 1 }

abbrev busy_backend : Conn
busy_backend = record backend_conn {
  rpcs = record (backend_conn.rpcs) { rpc = update (λ _. 0) 0 1; rpcused = 1 };
}

abbrev one_call : World
one_call = record surroundings { conns = update (λ _. none) 1 (some waiting_client) }

one_call-IsBackend : IsBackend (λ _. 0) busy_backend one_call (1 ∷ [])
unfolding bytes
one_call-IsBackend = record {
  calls = record { present = refl; order = omega arith; within = omega arith; calls = refl };
  clients = (((λ e. omega (arith, e)), waiting_client, refl), tt);
  waiting = λ q c ne e.
      let (at, here) = only_client q c waiting_client e in
      ap (λ (d : Conn). d.rpcwaiting) (sym here) ∙ rw at refl;
}

backend-end_example :
    Returns
      (backend busy_backend (codes "END") one_call)
      (λ r. Gives (λ _. 0) 1 waiting_client [] one_call r × (r.0.state ≡ conn_new_cmd))
backend-end_example =
    backend-end (λ _. 0) busy_backend 1 waiting_client [] one_call one_call-IsBackend refl

abbrev hit_tokens : List Token
hit_tokens =
    record { value = some (codes "VALUE"); length = 5 }
    ∷ record { value = some (codes "a"); length = 1 }
    ∷ record { value = some (codes "0"); length = 1 }
    ∷ record { value = some (codes "5"); length = 1 }
    ∷ []

five : value_length (record { value = some (codes "5"); length = 1 }) ≡ ok (some (pos 5))
unfolding safe_strtol
five = refl

process_hit_response-Gives_example :
    Returns (process_hit_response busy_backend hit_tokens one_call) (λ r.
      Gives (λ _. 0) 1 waiting_client [] one_call r
      × (r.0.state ≡ conn_swallow)
      × (r.0.sbytes ≡ pos (5 + 7)))
process_hit_response-Gives_example =
    process_hit_response-Gives (λ _. 0) busy_backend 1 waiting_client [] one_call hit_tokens _ 5
      one_call-IsBackend refl refl five (omega arith)

abbrev after_call : Bool × Conn × World
after_call = (
  true,
  record busy_backend { state = conn_mwrite; event = some (ev_write, none); ev_flags = ev_write },
  record one_client { events = λ i. true; conns = update one_client.conns 1 (some waiting_client) },
)

asked_once : queue_rpc backend_conn 1 one_client ≡ ok after_call
unfolding queue_rpc enqueue client store_client conn_ensure_rpc_space conn_set_state
    conn_update_event conn_update_event_t ◌+ℤ◌
asked_once = refl

Session-order_example :
    (ps : List ℕ) × (1 ∷ [] ≡ [] ++ ps) × IsBackend (λ _. 0) after_call.1 after_call.2 ps
Session-order_example =
    Session-order (λ _. 0) after_call.1 after_call.2 (1 ∷ []) []
      (asks backend_conn one_client [] [] 1 sample_conn after_call
        (idle backend_conn one_client one_client-IsBackend) (inl (omega arith))
        (λ e. omega (arith, e)) refl asked_once)

-- A queue of four elements, of which two are in flight.
abbrev full_queue : Rpcs
full_queue = record {
  rpc = λ i. get_or (10 ∷ 20 ∷ 30 ∷ 40 ∷ []) i 0;
  rpc_null = false;
  rpcsize = 4;
  rpcused = 4;
  rpcdone = 2;
}

conn_ensure_rpc_space-loses_example :
    (length (calls (conn_ensure_rpc_space full_queue surroundings).1) ≡ 2)
    × (((1 < 2 / 8)
          × (get_or (calls (conn_ensure_rpc_space full_queue surroundings).1) 1 0
              ≡ get_or (calls full_queue) 1 0))
        ⊎ (1 ≡ 2 / 8)
        ⊎ ((2 / 8 < 1)
            × (get_or (calls (conn_ensure_rpc_space full_queue surroundings).1) 1 0 ≡ 20)))
conn_ensure_rpc_space-loses_example =
    conn_ensure_rpc_space-loses full_queue surroundings 1 (omega arith) (omega arith) (omega arith)
