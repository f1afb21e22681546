-- ===== src/Memcache.antt =====
-- src/memcache_conn.c: the connection to a backend, with the client connections that wait for its
-- answers in the order in which they asked, and how it is opened; and `conn_ensure_rpc_space` of
-- src/connections.c.
pub mod Calls
pub mod Clients
pub mod Asks
pub mod Get
pub mod Answers
pub mod Session
pub mod Lines
pub mod Compaction
pub mod Connect
pub mod Port
pub mod Outcomes
pub mod Connects
use synthetic_client.Base.{
  ℕ, ◌+◌, ◌-◌, ◌*◌, ◌/◌, ◌%◌, ◌^◌, Bool, true, false, ◌&&◌, ltb, leb, ◌==◌, if◌then◌else◌, Option,
  none, some, List, update, length, min, codes, Run, ok, fault, out_of_bounds, dangling, overflow,
  assertion, exited, ◌>>=◌,
}
use synthetic_client.Base.Int.{ℤ, pos, ◌+ℤ◌, ◌-ℤ◌, ltb_ℤ, is_zero}
use synthetic_client.Fsm.{conn_new_cmd, conn_mwrite, conn_swallow, conn_rpc_done, conn_closing}
use synthetic_client.World.{World, after_alloc, store_conn}
use synthetic_client.Conn.{ConnType, Conn, client_conn, memcached_conn, Output, Rpcs, ev_write}
use synthetic_client.Conn.Event.{conn_set_state, conn_update_event}
use synthetic_client.Conn.Iov.{conn_add_iov}
use synthetic_client.Utils.{int_max}
use synthetic_client.Protocol.{Token, max_tokens, key_max_length}
use synthetic_client.Protocol.Tokenize.{tokenize_command}
use synthetic_client.Protocol.Parse.{is_command}
use synthetic_client.Commands.{Config, constant, then_add, token_at, value_length}
use synthetic_client.Server.Response.{error_response}

-- `memmove` of `n` bytes to the start of an array of 8-byte pointers, from element `done` on. Of
-- the last element that it reaches it may move only the low bytes.
unfoldable pub moved : (ℕ → ℕ) → ℕ → ℕ → ℕ → ℕ
moved rpc done n i =
    if ltb i (n / 8)
    then rpc (done + i)
    else if i == n / 8
    then rpc (done + i) % 2 ^ (8 * (n % 8)) + rpc i / 2 ^ (8 * (n % 8)) * 2 ^ (8 * (n % 8))
    else rpc i

-- The number of elements is passed where a number of bytes is meant, as in the source.
unfoldable pub compacted : Rpcs → Rpcs
unfolding moved
compacted q =
    let used = q.rpcused - q.rpcdone in
    record q { rpc = moved q.rpc q.rpcdone used; rpcused = used; rpcdone = 0 }

unfoldable pub conn_ensure_rpc_space : Rpcs → World → Bool × Rpcs × World
unfolding compacted
conn_ensure_rpc_space q w =
    if leb q.rpcsize q.rpcused
    then (if q.rpcdone == 0
        then (if w.allocs 0
            then (true, record q { rpc_null = false; rpcsize = q.rpcsize * 2 }, after_alloc w)
            else (false, q, after_alloc w))
        else (true, compacted q, w))
    else (true, q, w)

-- `mc->rpc[mc->rpcused] = c`
unfoldable pub enqueue : Rpcs → ℕ → Run Rpcs
enqueue q c =
    if q.rpc_null
    then fault dangling
    else if ltb q.rpcused q.rpcsize
    then ok (record q { rpc = update q.rpc q.rpcused c; rpcused = q.rpcused + 1 })
    else fault out_of_bounds

-- The client connection at an address, which may be the one that is being worked on.
unfoldable pub client : Conn → ℕ → World → Run Conn
client mc p w =
    if p == mc.self then ok mc else elim (w.conns p) [ none ↦ fault dangling | some c ↦ ok c ]

unfoldable pub store_client : Conn → ℕ → Conn → World → Conn × World
store_client mc p c w = if p == mc.self then (c, w) else (mc, store_conn w p (some c))

-- The bytes of the request; the key is cut at the longest length.
unfoldable pub add_request : ℕ → List ℕ → Output → World → Run (Bool × Output × World)
unfolding then_add
add_request iov_max key o w = then_add iov_max (constant (codes "\r\n")) 2 (
    then_add iov_max (constant key) (min key_max_length (length key))
      (conn_add_iov iov_max o (constant (codes "get ")) 4 w))

abbrev pub no_rpc_memory : List ℕ
no_rpc_memory = codes "SERVER_ERROR out of memory performing backend rpc"

-- Out of memory: the client is told, if the server is verbose.
unfoldable pub refuse_rpc : Config → Conn → ℕ → World → Run (Bool × Conn × World)
unfolding client store_client
refuse_rpc config mc p w =
    if ltb 0 config.verbose
    then (client mc p w >>= λ c. error_response c no_rpc_memory w >>= λ (d, v).
        let (e, u) = store_client mc p d v in ok (false, e, u))
    else ok (false, mc, w)

-- The client waits for one answer more, and the backend is to be written to. Whether there was
-- space in the queue is not looked at.
unfoldable pub queue_rpc : Conn → ℕ → World → Run (Bool × Conn × World)
unfolding conn_ensure_rpc_space enqueue client store_client
queue_rpc mc p w =
    let (space, q, v) = conn_ensure_rpc_space mc.rpcs w in
    enqueue q p >>= λ r.
    let d = record mc { rpcs = r } in
    client d p v >>= λ c.
    let (e, u) = store_client d p (record c { rpcwaiting = c.rpcwaiting +ℤ pos 1 }) v in
    let (updated, f, x) = conn_update_event (conn_set_state e conn_mwrite) ev_write u in
    ok (if updated then (true, f, x) else (false, conn_set_state f conn_closing, x))

-- What follows the request, whose bytes were added or not; the assertion stands in
-- `conn_ensure_rpc_space`.
unfoldable pub after_request :
    ConnType → Bool → Config → Conn → ℕ → World → Run (Bool × Conn × World)
unfolding refuse_rpc queue_rpc
after_request memcached_conn true config mc p w = queue_rpc mc p w
after_request client_conn true config mc p w = fault assertion
after_request type false config mc p w = refuse_rpc config mc p w

unfoldable pub memcache_get : Config → Conn → ℕ → List ℕ → World → Run (Bool × Conn × World)
unfolding add_request after_request
memcache_get config mc p key w = add_request config.iov_max key mc.output w >>= λ r.
    after_request mc.type r.0 config (record mc { output = r.1 }) p r.2

-- With no answer left to wait for, the client is to respond.
unfoldable pub woken : Conn → World → Conn × World
woken c w =
    let (updated, d, v) = conn_update_event c ev_write w in
    (conn_set_state d (if updated then conn_rpc_done else conn_closing), v)

-- One answer less to wait for.
unfoldable pub answered : Conn → World → Conn × World
unfolding woken
answered c w =
    let d = record c { rpcwaiting = c.rpcwaiting -ℤ pos 1 } in
    if is_zero d.rpcwaiting then woken d w else (d, w)

-- The answer is for the client that is first in the queue.
unfoldable pub answer_first : Conn → World → Run (Conn × World)
unfolding client store_client answered
answer_first mc w =
    let p = mc.rpc mc.rpcdone in
    let d = record mc { rpcs = record (mc.rpcs) { rpcdone = mc.rpcdone + 1 } } in
    client d p w >>= λ c. let (e, v) = answered c w in ok (store_client d p e v)

-- The element is read behind the used part too, where no call is in flight.
unfoldable pub dequeue : Conn → World → Run (Conn × World)
unfolding answer_first
dequeue mc w =
    if mc.rpc_null
    then fault dangling
    else if ltb mc.rpcdone mc.rpcsize
    then answer_first mc w
    else fault out_of_bounds

-- The value, its line end and "END\r\n" are to be swallowed. A length that does not parse ends the
-- process.
unfoldable pub swallow_value : Option ℤ → Conn → World → Run (Conn × World)
swallow_value none mc w = fault exited
swallow_value (some vlen) mc w =
    if ltb_ℤ (pos int_max) (vlen +ℤ pos 7)
    then fault overflow
    else ok (conn_set_state (record mc { sbytes = vlen +ℤ pos 7 }) conn_swallow, w)

unfoldable pub process_hit_response : Conn → List Token → World → Run (Conn × World)
unfolding dequeue swallow_value
process_hit_response mc tokens w = dequeue mc w >>= λ (d, v).
    token_at tokens 3 >>= λ t. value_length t >>= λ vlen. swallow_value vlen d v

unfoldable pub process_miss_response : Conn → World → Run (Conn × World)
unfolding dequeue
process_miss_response mc w = dequeue mc w >>= λ (d, v). ok (conn_set_state d conn_new_cmd, v)

-- False for a response that is not known.
unfoldable pub memcached_response : Conn → List ℕ → World → Run (Bool × Conn × World)
unfolding process_hit_response process_miss_response
memcached_response mc response w =
    let tokens = tokenize_command response max_tokens in
    if leb 5 (length tokens) && is_command tokens (codes "VALUE")
    then (process_hit_response mc tokens w >>= λ (d, v). ok (true, d, v))
    else if leb 2 (length tokens) && is_command tokens (codes "END")
    then (process_miss_response mc w >>= λ (d, v). ok (true, d, v))
    else ok (false, mc, w)

-- What `process_command` does with a line from a backend: an unknown response ends the process.
unfoldable pub backend : Conn → List ℕ → World → Run (Conn × World)
unfolding memcached_response
backend mc response w =
    memcached_response mc response w >>= λ (known, d, v). if known then ok (d, v) else fault exited
