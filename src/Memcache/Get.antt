-- ===== src/Memcache/Get.antt =====
-- `memcache_get` sends a request to the backend and enters the call.
use synthetic_client.Base.{
  ℕ, zero, suc, ◌+◌, ◌≡◌, ◌≢◌, ◌≤◌, ◌<◌, ◌⊎◌, inl, inr, refl, sym, ap, ◌∙◌, subst, Bool, true,
  false, if◌then◌else◌, Option, some, List, [], ◌∷◌, ◌++◌, append_assoc, bytes, codes, take, length,
  length-append, min, get_or, ok, Run, Returns, IfOk, IfOk->>=, arith,
}
use synthetic_client.World.{World}
use synthetic_client.Conn.{Conn, Output, Rpcs, Ptr, memcached_conn}
use synthetic_client.Conn.Iov.{conn_add_iov}
use synthetic_client.Conn.Iov.Plenty.{Plenty, conn_add_iov-Plenty}
use synthetic_client.Conn.Iov.Frame.{conn_add_iov-After}
use synthetic_client.Conn.Iov.Tiled.{IsBuilt}
use synthetic_client.Conn.Iov.Payload.{written, span}
use synthetic_client.Protocol.{key_max_length}
use synthetic_client.Commands.{Config, constant, then_add}
use synthetic_client.Commands.Replies.{
  server_memory, Extends, conn_add_iov-Extends, then_add-Extends,
}
use synthetic_client.Commands.Hits.{Returns-IfOk, Succeeds, then_add-Succeeds}
use synthetic_client.Memcache.{add_request, after_request, memcache_get}
use synthetic_client.Memcache.Calls.{IsBackend, HasSlot, same-IsBackend}
use synthetic_client.Memcache.Asks.{Queues, queue_rpc-Queues}

-- The bytes of a text from where `front` ends.
bytes-get_or :
    (front s : List ℕ) (n : ℕ)
    → n ≤ length s
    → bytes (λ i. get_or (front ++ s) i 0) (length front) n ≡ take n s
unfolding bytes
bytes-get_or front s zero h = refl
bytes-get_or front [] (suc n) h = absurd (omega arith)
bytes-get_or front (x ∷ s) (suc n) h =
    let next = bytes-get_or (front ++ x ∷ []) s n (omega arith) in
    let here : get_or (front ++ x ∷ s) (length front) 0 ≡ x = at front in
    let place : length (front ++ x ∷ []) ≡ length front + 1 = length-append front (x ∷ []) in
    ap (λ y. y ∷ bytes (λ i. get_or (front ++ x ∷ s) i 0) (length front + 1) n) here
    ∙ ap (λ xs. x ∷ xs)
        (ap (λ o. bytes (λ i. get_or (front ++ x ∷ s) i 0) o n) (sym place)
          ∙ ap (λ (l : List ℕ). bytes (λ i. get_or l i 0) (length (front ++ x ∷ [])) n)
              (sym (append_assoc front (x ∷ []) s))
          ∙ next)
  where
    at : (f : List ℕ) → get_or (f ++ x ∷ s) (length f) 0 ≡ x
    at [] = refl
    at (y ∷ f) = at f

-- "get ", the key up to its longest length, and the end of the line.
abbrev pub request_line : List ℕ → List ℕ
request_line key = codes "get " ++ (take key_max_length key ++ codes "\r\n")

take-min : (n : ℕ) (s : List ℕ) → take (min n (length s)) s ≡ take n s
take-min zero s = let none : min 0 (length s) ≡ 0 = omega arith in ap (λ k. take k s) none
take-min (suc n) [] = let none : min (suc n) 0 ≡ 0 = omega arith in ap (λ k. take k []) none
take-min (suc n) (x ∷ s) =
    let step : min (suc n) (suc (length s)) ≡ suc (min n (length s)) = omega arith in
    ap (λ k. take k (x ∷ s)) step ∙ ap (λ xs. x ∷ xs) (take-min n s)

-- What has nothing to do with memory.
abbrev Kept : World → World → Type 0
Kept w v = (v.conns ≡ w.conns) × (v.events ≡ w.events)

then_add-Kept :
    (iov_max : ℕ) (w : World) (p : Ptr) (n : ℕ) (before : Run (Bool × Output × World))
    → IfOk (λ r. Kept w r.2) before
    → IfOk (λ r. Kept w r.2) (then_add iov_max p n before)
unfolding then_add
then_add-Kept iov_max w p n before h =
    IfOk->>= (λ r. Kept w r.2) before _ λ r run. step r.0 r (subst (IfOk (λ r. Kept w r.2)) run h)
  where
    step :
        (b : Bool) (r : Bool × Output × World)
        → Kept w r.2
        → IfOk (λ r. Kept w r.2) (if b then conn_add_iov iov_max r.1 p n r.2 else ok r)
    step true r k = conn_add_iov-After (Kept w) (λ _ k. k) iov_max r.1 p n r.2 k
    step false r k = k

add_request-Kept :
    (iov_max : ℕ) (key : List ℕ) (o : Output) (w : World)
    → IfOk (λ r. Kept w r.2) (add_request iov_max key o w)
unfolding add_request
add_request-Kept iov_max key o w = then_add-Kept iov_max w _ _ _ (
    then_add-Kept iov_max w _ _ _
      (conn_add_iov-After (Kept w) (λ _ k. k) iov_max o (constant (codes "get ")) 4 w (refl, refl)))

-- The request follows what the output stood for.
add_request_lem :
    (buffer content : ℕ → ℕ) (iov_max : ℕ) (key : List ℕ) (o : Output) (w : World)
    → IsBuilt o
    → 1 ≤ o.msgused
    → Plenty w
    → Returns (add_request iov_max key o w) (λ r.
      (Extends (server_memory buffer content) o (request_line key) r × Succeeds r) × Kept w r.2)
unfolding add_request bytes
add_request_lem buffer content iov_max key o w b u m =
    let mem = server_memory buffer content in
    let n = min key_max_length (length key) in
    let first = conn_add_iov-Extends mem iov_max o (constant (codes "get ")) 4 w b u in
    let second = then_add-Extends mem iov_max o _ (constant key) n _ first in
    let third = then_add-Extends mem iov_max o _ (constant (codes "\r\n")) 2 _ second in
    let sent : span mem (constant key) n ≡ take key_max_length key =
      bytes-get_or [] key n (omega arith) ∙ take-min key_max_length key in
    let whole : ((codes "get " ++ span mem (constant key) n) ++ codes "\r\n") ≡ request_line key =
      ap (λ t. (codes "get " ++ t) ++ codes "\r\n") sent
      ∙ append_assoc (codes "get ") (take key_max_length key) (codes "\r\n") in
    let extends =
      subst (λ t. Returns (add_request iov_max key o w) (Extends mem o t)) whole third in
    Returns-IfOk _ (λ r. Kept w r.2) _
      (Returns-IfOk _ Succeeds _ extends (
        then_add-Succeeds iov_max _ 2 _
          (then_add-Succeeds iov_max _ n _ (conn_add_iov-Plenty iov_max o _ 4 w m))))
      (add_request-Kept iov_max key o w)

-- There is room for a call, or the queue, of which nothing is answered, may grow.
abbrev pub MayGrow : Rpcs → Type 0
MayGrow q = (q.rpcused < q.rpcsize) ⊎ ((q.rpcsize ≡ q.rpcused) × (q.rpcdone ≡ 0) × (0 < q.rpcsize))

slot : (q : Rpcs) (w : World) → MayGrow q → Plenty w → HasSlot q w
slot q w (inl room) m = inl room
slot q w (inr (full, start, size)) m = inr (full, start, size, m 0)

-- With memory, on an output that is being put together, `memcache_get` returns: what the backend is
-- to send is followed by the request, with the key cut at its longest length, the call is behind
-- those in flight, and the client waits for one answer more.
pub memcache_get-Queues :
    (buffer content : ℕ → ℕ) (config : Config) (elsewhere : ℕ → ℕ) (mc : Conn) (p : ℕ) (c : Conn)
    (ps key : List ℕ) (w : World)
    → mc.type ≡ memcached_conn
    → IsBuilt mc.output
    → 1 ≤ mc.msgused
    → Plenty w
    → IsBackend elsewhere mc w ps
    → MayGrow mc.rpcs
    → p ≢ mc.self
    → w.conns p ≡ some c
    → Returns (memcache_get config mc p key w) (λ r.
      (o : Output) × Queues elsewhere o p ps w r
      × (written (server_memory buffer content) r.1.output
          ≡ written (server_memory buffer content) mc.output ++ request_line key))
unfolding memcache_get after_request
memcache_get-Queues buffer content config elsewhere mc p c ps key w type b u m back room ne stored =
    let mem = server_memory buffer content in
    let (r, run, ((x, (done, more)), (conns, events))) =
      add_request_lem buffer content config.iov_max key mc.output w b u m in
    let d = record mc { output = r.1 } in
    let same = same-IsBackend elsewhere mc d w r.2 ps refl refl conns back in
    let here : r.2.conns p ≡ some c = ap (λ (f : ℕ → Option Conn). f p) conns ∙ stored in
    let (q, run', y) =
      queue_rpc-Queues elsewhere d p c ps r.2 same (slot mc.rpcs r.2 room more) ne here in
    (
      q,
      rw (memcache_get, run)
          (ap (λ t. after_request t r.0 config d p r.2) type
            ∙ ap (λ b. after_request memcached_conn b config d p r.2) done
            ∙ run'),
      (
        r.1,
        record {
          backend = y.backend;
          output = y.output;
          success = y.success;
          failure = y.failure;
          surely = λ all. y.surely (λ i. ap (λ (f : ℕ → Bool). f i) events ∙ all i);
        },
        ap (written mem) y.output ∙ x.whole done,
      ),
    )
