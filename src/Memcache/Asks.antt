-- ===== src/Memcache/Asks.antt =====
-- A call of a client is entered behind those in flight.
use synthetic_client.Base.{
  ℕ, ◌+◌, ◌≡◌, ◌≢◌, refl, sym, ap, ◌∙◌, subst, inl, inr, Bool, true, false, ◌==◌, if◌then◌else◌,
  Bool-cases, Option, some, List, [], ◌∷◌, ◌++◌, update, Returns, arith,
}
use synthetic_client.Base.Int.{pos, ◌+ℤ◌}
use synthetic_client.Fsm.{conn_mwrite, conn_closing}
use synthetic_client.World.{World, store_conn}
use synthetic_client.Conn.{Conn, Output, ev_write}
use synthetic_client.Conn.Event.{conn_set_state, conn_update_event}
use synthetic_client.Memcache.{conn_ensure_rpc_space, queue_rpc}
use synthetic_client.Memcache.Calls.{
  count, count-append, AreStored, IsBackend, same-IsBackend, HasSlot, conn_ensure_rpc_space-Ensures,
  enqueue-HasCalls,
}
use synthetic_client.Memcache.Clients.{
  conn_update_event-Updates, client_lem, store_client_lem, update-AreStored, AreStored-append,
  recount, add_pos,
}

-- What a call that is entered leads to: the backend is to be written to.
pub record Queues (elsewhere : ℕ → ℕ) (o : Output) (p : ℕ) (ps : List ℕ) (w : World)
    (r : Bool × Conn × World) : Type 0 where
  pub backend : IsBackend elsewhere r.1 r.2 (ps ++ p ∷ [])
  pub output : r.1.output ≡ o
  pub success : r.0 ≡ true → (r.1.state ≡ conn_mwrite) × (r.1.ev_flags ≡ ev_write)
  pub failure : r.0 ≡ false → r.1.state ≡ conn_closing
  pub surely : ((i : ℕ) → w.events i ≡ true) → r.0 ≡ true

-- The end of `memcache_get`, once the call is in the queue.
enter :
    (elsewhere : ℕ → ℕ) (p : ℕ) (ps : List ℕ) (w u : World) (d : Conn)
    → IsBackend elsewhere d u (ps ++ p ∷ [])
    → u.events ≡ w.events
    → let (updated, f, x) = conn_update_event (conn_set_state d conn_mwrite) ev_write u in
      Queues elsewhere d.output p ps w
        (if updated then (true, f, x) else (false, conn_set_state f conn_closing, x))
unfolding conn_set_state
enter elsewhere p ps w u d b events =
    let c = record d { state = conn_mwrite } in
    let r = conn_update_event c ev_write u in
    let v = conn_update_event-Updates c ev_write u in
    let kept : (f : Conn)
        → f.rpcs ≡ r.1.rpcs
        → f.self ≡ r.1.self
        → IsBackend elsewhere f r.2 (ps ++ p ∷ []) =
      λ f rpcs self.
        same-IsBackend elsewhere d f u r.2 (ps ++ p ∷ []) (rpcs ∙ v.rpcs) (self ∙ v.self) v.conns
          b in
    elim (Bool-cases r.0) [
      | inl updated ↦ rw updated (record {
        backend = kept r.1 refl refl;
        output = v.output;
        success = λ _. (v.state, v.success updated);
        failure = λ e. cc;
        surely = λ _. refl;
      })
      | inr failed ↦ rw failed (record {
        backend = kept (record (r.1) { state = conn_closing }) refl refl;
        output = v.output;
        success = λ e. cc;
        failure = λ _. refl;
        surely = λ all. sym failed ∙ v.surely (λ i. ap (λ (f : ℕ → Bool). f i) events ∙ all i);
      })
    ]

count-others : (q p : ℕ) (ps : List ℕ) → q ≢ p → count q (ps ++ p ∷ []) ≡ count q ps
count-others q p ps ne =
    let other : (p == q) ≡ false = ground arith in
    let none_more : count q (p ∷ []) ≡ 0 = rw other refl in
    omega (arith, count-append q ps (p ∷ []), none_more)

count-last : (p : ℕ) (ps : List ℕ) → count p (ps ++ p ∷ []) ≡ count p ps + 1
count-last p ps =
    let same : (p == p) ≡ true = ground arith in
    let one_more : count p (p ∷ []) ≡ 1 = rw same refl in
    omega (arith, count-append p ps (p ∷ []), one_more)

-- Where there is a slot, a call of a stored client is entered behind those in flight, and the
-- client waits for one answer more.
pub queue_rpc-Queues :
    (elsewhere : ℕ → ℕ) (mc : Conn) (p : ℕ) (c : Conn) (ps : List ℕ) (w : World)
    → IsBackend elsewhere mc w ps
    → HasSlot mc.rpcs w
    → p ≢ mc.self
    → w.conns p ≡ some c
    → Returns (queue_rpc mc p w) (Queues elsewhere mc.output p ps w)
unfolding queue_rpc
queue_rpc-Queues elsewhere mc p c ps w b slot ne stored =
    let s = conn_ensure_rpc_space mc.rpcs w in
    let e = conn_ensure_rpc_space-Ensures mc.rpcs ps w b.calls slot in
    let (r, run, held) = enqueue-HasCalls s.1 ps p e.held e.room in
    let d = record mc { rpcs = r } in
    let here : s.2.conns p ≡ some c = ap (λ (m : ℕ → Option Conn). m p) e.conns ∙ stored in
    let c' = record c { rpcwaiting = c.rpcwaiting +ℤ pos 1 } in
    let u = store_conn s.2 p (some c') in
    let waits : c'.rpcwaiting ≡ pos (elsewhere p + count p (ps ++ p ∷ [])) =
      ap (λ n. n +ℤ pos 1) (b.waiting p c ne stored)
      ∙ add_pos _ 1
      ∙ ap pos (omega (arith, count-last p ps)) in
    let entered : IsBackend elsewhere d u (ps ++ p ∷ []) = record {
      calls = held;
      clients =
          subst (λ m. AreStored mc.self (update m p (some c')) (ps ++ p ∷ [])) (sym e.conns)
            (update-AreStored mc.self w.conns p c' (ps ++ p ∷ [])
              (AreStored-append mc.self w.conns ps p c b.clients ne stored));
      waiting =
          subst
            (λ m.
              (q : ℕ) (x : Conn)
              → q ≢ mc.self
              → update m p (some c') q ≡ some x
              → x.rpcwaiting ≡ pos (elsewhere q + count q (ps ++ p ∷ [])))
            (sym e.conns)
            (recount elsewhere mc.self w.conns p c' ps (ps ++ p ∷ []) b.waiting waits
              (λ q other. count-others q p ps other));
    } in
    (
      _,
      rw (queue_rpc, run, client_lem d p c s.2 ne here, store_client_lem d p c' s.2 ne) refl,
      enter elsewhere p ps w u d entered e.events,
    )
