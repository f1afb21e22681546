-- ===== src/Memcache/Session.antt =====
-- A backend connection over time: calls and answers in any order.
use synthetic_client.Base.{
  ℕ, ◌+◌, ◌≡◌, ◌≢◌, ◌≤◌, ◌<◌, refl, sym, ap, ◌∙◌, subst, Bool, false, ltb, Bool-cases, inl, inr,
  Option, none, some, List, [], ◌∷◌, ◌++◌, append_assoc, bytes, ok, ok-injective, IfOk, IfOk->>=,
  ◌-◌, zero, suc, Run, Returns, arith,
}
use synthetic_client.Base.Int.{ℤ, pos, ◌+ℤ◌, ltb_ℤ}
use synthetic_client.Fsm.{conn_new_cmd, conn_swallow}
use synthetic_client.Utils.{int_max}
use synthetic_client.World.{World}
use synthetic_client.Conn.{Conn, Rpcs}
use synthetic_client.Conn.Event.{conn_set_state}
use synthetic_client.Protocol.{Token}
use synthetic_client.Commands.{token_at, value_length}
use synthetic_client.Memcache.{
  queue_rpc, dequeue, swallow_value, process_hit_response, process_miss_response,
}
use synthetic_client.Memcache.Calls.{HasCalls, count, IsBackend, HasSlot, same-IsBackend}
use synthetic_client.Memcache.Asks.{Queues, queue_rpc-Queues}
use synthetic_client.Memcache.Clients.{add_pos}
use synthetic_client.Memcache.Answers.{IsAnswered, Dequeues, dequeue-Dequeues}

-- What an answer achieves: `p` asked first, and is the only client that changes.
pub record Gives (elsewhere : ℕ → ℕ) (p : ℕ) (c : Conn) (ps : List ℕ) (w : World) (r : Conn × World)
    : Type 0 where
  pub backend : IsBackend elsewhere r.0 r.1 ps
  pub client : Conn
  pub stored : r.1.conns p ≡ some client
  pub answered : IsAnswered (elsewhere p + count p ps) c w client
  pub others : (q : ℕ) → q ≢ p → r.1.conns q ≡ w.conns q

-- The backend goes on after the answer with another state.
goes_on :
    (elsewhere : ℕ → ℕ) (p : ℕ) (c : Conn) (ps : List ℕ) (mc : Conn) (w : World) (r : Conn × World)
    (d : Conn)
    → d.rpcs ≡ r.0.rpcs
    → d.self ≡ r.0.self
    → Dequeues elsewhere p c ps mc w r
    → Gives elsewhere p c ps w (d, r.1)
goes_on elsewhere p c ps mc w r d rpcs self x = record {
  backend = same-IsBackend elsewhere r.0 d r.1 r.1 ps rpcs self refl x.backend;
  client = x.client;
  stored = x.stored;
  answered = x.answered;
  others = x.others;
}

-- "END" answers the client that asked first, and the backend waits for the next response.
pub process_miss_response-Gives :
    (elsewhere : ℕ → ℕ) (mc : Conn) (p : ℕ) (c : Conn) (ps : List ℕ) (w : World)
    → IsBackend elsewhere mc w (p ∷ ps)
    → w.conns p ≡ some c
    → Returns
        (process_miss_response mc w)
        (λ r. Gives elsewhere p c ps w r × (r.0.state ≡ conn_new_cmd))
unfolding process_miss_response conn_set_state
process_miss_response-Gives elsewhere mc p c ps w b stored =
    let (r, run, x) = dequeue-Dequeues elsewhere mc p c ps w b stored in
    let d = record (r.0) { state = conn_new_cmd } in
    (
      (d, r.1),
      rw (process_miss_response, run) refl,
      (goes_on elsewhere p c ps mc w r d refl refl x, refl),
    )

swallow_value_lem :
    (n : ℕ) (d : Conn) (v : World)
    → n + 7 ≤ int_max
    → swallow_value (some (pos n)) d v
      ≡ ok (record d { sbytes = pos (n + 7); state = conn_swallow }, v)
unfolding swallow_value conn_set_state
swallow_value_lem n d v h =
    let small : ltb (int_max + 0) (n + 7 + 0) ≡ false = ground arith in rw (add_pos n 7, small) refl

-- "VALUE", with a length that parses as `n`, not negative and 7 less than the greatest `int` at most,
-- answers the client that asked first; the value, its
-- line end and "END\r\n", 7 bytes more, are to be swallowed.
pub process_hit_response-Gives :
    (elsewhere : ℕ → ℕ) (mc : Conn) (p : ℕ) (c : Conn) (ps : List ℕ) (w : World)
    (tokens : List Token) (t : Token) (n : ℕ)
    → IsBackend elsewhere mc w (p ∷ ps)
    → w.conns p ≡ some c
    → token_at tokens 3 ≡ ok t
    → value_length t ≡ ok (some (pos n))
    → n + 7 ≤ int_max
    → Returns
        (process_hit_response mc tokens w)
        (λ r. Gives elsewhere p c ps w r × (r.0.state ≡ conn_swallow) × (r.0.sbytes ≡ pos (n + 7)))
unfolding process_hit_response
process_hit_response-Gives elsewhere mc p c ps w tokens t n b stored at length small =
    let (r, run, x) = dequeue-Dequeues elsewhere mc p c ps w b stored in
    let d = record (r.0) { sbytes = pos (n + 7); state = conn_swallow } in
    (
      (d, r.1),
      rw (process_hit_response, run, at, length) (swallow_value_lem n r.0 r.1 small),
      (goes_on elsewhere p c ps mc w r d refl refl x, refl, refl),
    )

-- What a backend has been through: which clients asked, in order, and to which of them answers
-- went. In between it may do what leaves its queue and the clients alone.
pub data Session (elsewhere : ℕ → ℕ) : Conn → World → List ℕ → List ℕ → Type 0 where
  idle : (mc : Conn) (w : World) → IsBackend elsewhere mc w [] → Session elsewhere mc w [] []
  asks :
      (mc : Conn) (w : World) (asked given : List ℕ) (p : ℕ) (c : Conn) (r : Bool × Conn × World)
      → Session elsewhere mc w asked given
      → HasSlot mc.rpcs w
      → p ≢ mc.self
      → w.conns p ≡ some c
      → queue_rpc mc p w ≡ ok r
      → Session elsewhere r.1 r.2 (asked ++ p ∷ []) given
  misses :
      (mc : Conn) (w : World) (asked given : List ℕ) (r : Conn × World)
      → Session elsewhere mc w asked given
      → mc.rpcdone < mc.rpcused
      → process_miss_response mc w ≡ ok r
      → Session elsewhere r.0 r.1 asked (given ++ mc.rpc mc.rpcdone ∷ [])
  hits :
      (mc : Conn) (w : World) (asked given : List ℕ) (tokens : List Token) (r : Conn × World)
      → Session elsewhere mc w asked given
      → mc.rpcdone < mc.rpcused
      → process_hit_response mc tokens w ≡ ok r
      → Session elsewhere r.0 r.1 asked (given ++ mc.rpc mc.rpcdone ∷ [])
  passes :
      (mc d : Conn) (w v : World) (asked given : List ℕ)
      → Session elsewhere mc w asked given
      → d.rpcs ≡ mc.rpcs
      → d.self ≡ mc.self
      → v.conns ≡ w.conns
      → Session elsewhere d v asked given

-- What holds of some result of a run holds of its result.
Returns-at : {A : Type 0} (Q : A → Type 0) (m : Run A) (a : A) → Returns m Q → m ≡ ok a → Q a
Returns-at Q m a (b, run, q) e = subst Q (ok-injective (sym run ∙ e)) q

-- Where a call is in flight, the first one is the one that an answer is for.
first_call :
    (q : Rpcs) (ps : List ℕ)
    → HasCalls q ps
    → q.rpcdone < q.rpcused
    → (qs : List ℕ) × (ps ≡ q.rpc q.rpcdone ∷ qs)
unfolding bytes
first_call q ps h some_call = at (q.rpcused - q.rpcdone) refl
  where
    at : (n : ℕ) → q.rpcused - q.rpcdone ≡ n → (qs : List ℕ) × (ps ≡ q.rpc q.rpcdone ∷ qs)
    at zero e = absurd (omega (arith, e, some_call))
    at (suc n) e = (bytes q.rpc (q.rpcdone + 1) n, sym h.calls ∙ ap (bytes q.rpc q.rpcdone) e)

-- The queue after an answer was taken off it, as the backend goes on.
swallow_value-IsBackend :
    (elsewhere : ℕ → ℕ) (vlen : Option ℤ) (d : Conn) (v : World) (ps : List ℕ)
    → IsBackend elsewhere d v ps
    → IfOk (λ r. IsBackend elsewhere r.0 r.1 ps) (swallow_value vlen d v)
unfolding swallow_value conn_set_state
swallow_value-IsBackend elsewhere none d v ps b = tt
swallow_value-IsBackend elsewhere (some n) d v ps b =
    elim (Bool-cases (ltb_ℤ (pos int_max) (n +ℤ pos 7))) [
      | inl over ↦ rw over tt
      | inr within ↦ rw within (same-IsBackend elsewhere d _ v v ps refl refl refl b)
    ]

hit-IsBackend :
    (elsewhere : ℕ → ℕ) (mc : Conn) (p : ℕ) (c : Conn) (ps : List ℕ) (w : World)
    (tokens : List Token)
    → IsBackend elsewhere mc w (p ∷ ps)
    → w.conns p ≡ some c
    → IfOk (λ r. IsBackend elsewhere r.0 r.1 ps) (process_hit_response mc tokens w)
unfolding process_hit_response
hit-IsBackend elsewhere mc p c ps w tokens b stored =
    let P : Conn × World → Type 0 = λ r. IsBackend elsewhere r.0 r.1 ps in
    IfOk->>= P (dequeue mc w) _ λ r run.
      let x =
        Returns-at (Dequeues elsewhere p c ps mc w) _ r
          (dequeue-Dequeues elsewhere mc p c ps w b stored) run in
      IfOk->>= P (token_at tokens 3) _ λ t _.
        IfOk->>= P (value_length t) _
          λ vlen _. swallow_value-IsBackend elsewhere vlen r.0 r.1 ps x.backend

miss-IsBackend :
    (elsewhere : ℕ → ℕ) (mc : Conn) (p : ℕ) (c : Conn) (ps : List ℕ) (w : World)
    → IsBackend elsewhere mc w (p ∷ ps)
    → w.conns p ≡ some c
    → IfOk (λ r. IsBackend elsewhere r.0 r.1 ps) (process_miss_response mc w)
miss-IsBackend elsewhere mc p c ps w b stored =
    let (r, run, (x, _)) = process_miss_response-Gives elsewhere mc p c ps w b stored in
    subst (IfOk (λ r. IsBackend elsewhere r.0 r.1 ps)) (sym run) x.backend

-- One answer more: the calls in flight are those behind the first one.
one_given :
    (elsewhere : ℕ → ℕ) (mc : Conn) (w : World) (asked given : List ℕ) (m : Run (Conn × World))
    (r : Conn × World)
    → ((p : ℕ) (c : Conn) (ps : List ℕ)
        → IsBackend elsewhere mc w (p ∷ ps)
        → w.conns p ≡ some c
        → IfOk (λ r. IsBackend elsewhere r.0 r.1 ps) m)
    → mc.rpcdone < mc.rpcused
    → m ≡ ok r
    → (ps : List ℕ) × (asked ≡ given ++ ps) × IsBackend elsewhere mc w ps
    → (ps : List ℕ) × (asked ≡ (given ++ mc.rpc mc.rpcdone ∷ []) ++ ps)
      × IsBackend elsewhere r.0 r.1 ps
one_given elsewhere mc w asked given m r after some_call run (ps, order, b) =
    let p = mc.rpc mc.rpcdone in
    let (qs, eq) = first_call mc.rpcs ps b.calls some_call in
    let b' : IsBackend elsewhere mc w (p ∷ qs) = subst (IsBackend elsewhere mc w) eq b in
    let ((_, c, stored), _) = b'.clients in
    (
      qs,
      order ∙ ap (λ xs. given ++ xs) eq ∙ sym (append_assoc given (p ∷ []) qs),
      subst (IfOk (λ r. IsBackend elsewhere r.0 r.1 qs)) run (after p c qs b' stored),
    )

-- Over calls, each of which finds a slot in the queue, and answers, these go to the clients in the
-- order in which they asked: those that asked are those that were given an answer and then those
-- whose calls are in flight. Each client waits for as many answers as it has calls in flight.
pub Session-order :
    (elsewhere : ℕ → ℕ) (mc : Conn) (w : World) (asked given : List ℕ)
    → Session elsewhere mc w asked given
    → (ps : List ℕ) × (asked ≡ given ++ ps) × IsBackend elsewhere mc w ps
Session-order elsewhere mc w asked given (idle _ _ b) = ([], refl, b)
Session-order elsewhere _ _ _ _ (asks mc w asked given p c r s slot ne stored run) =
    let (ps, order, b) = Session-order elsewhere mc w asked given s in
    let q =
      Returns-at (Queues elsewhere mc.output p ps w) _ r
        (queue_rpc-Queues elsewhere mc p c ps w b slot ne stored) run in
    (ps ++ p ∷ [], ap (λ xs. xs ++ p ∷ []) order ∙ append_assoc given ps (p ∷ []), q.backend)
Session-order elsewhere _ _ _ _ (misses mc w asked given r s some_call run) =
    one_given elsewhere mc w asked given _ r (λ p c ps. miss-IsBackend elsewhere mc p c ps w)
      some_call run (Session-order elsewhere mc w asked given s)
Session-order elsewhere _ _ _ _ (hits mc w asked given tokens r s some_call run) =
    one_given elsewhere mc w asked given _ r (λ p c ps. hit-IsBackend elsewhere mc p c ps w tokens)
      some_call run (Session-order elsewhere mc w asked given s)
Session-order elsewhere _ _ _ _ (passes mc d w v asked given s rpcs self conns) =
    let (ps, order, b) = Session-order elsewhere mc w asked given s in
    (ps, order, same-IsBackend elsewhere mc d w v ps rpcs self conns b)
