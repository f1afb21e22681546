-- ===== src/Memcache/Answers.antt =====
-- An answer is for the client that asked first.
use synthetic_client.Base.{
  ℕ, zero, suc, ◌+◌, ◌-◌, ◌≡◌, ◌≢◌, ◌<◌, ◌⊎◌, refl, sym, ap, ◌∙◌, subst, inl, inr, Bool, true,
  false, ltb, ◌==◌, if◌then◌else◌, Bool-cases, Option, some, List, [], ◌∷◌, bytes, update, fault,
  dangling, out_of_bounds, Returns, arith,
}
use synthetic_client.Base.Int.{pos, ◌-ℤ◌, is_zero}
use synthetic_client.Fsm.{conn_rpc_done, conn_closing}
use synthetic_client.World.{World, store_conn}
use synthetic_client.Conn.{Conn, Rpcs, ev_write}
use synthetic_client.Conn.Event.{conn_set_state, conn_update_event}
use synthetic_client.Memcache.{woken, answered, answer_first, dequeue}
use synthetic_client.Memcache.Calls.{HasCalls, count, AreStored, IsBackend}
use synthetic_client.Memcache.Clients.{
  conn_update_event-Updates, client_lem, store_client_lem, update-AreStored, recount, one_less,
}

-- How a client is left by an answer, with so many answers still to come.
pub record IsAnswered (left : ℕ) (c : Conn) (w : World) (c' : Conn) : Type 0 where
  pub waits : 0 < left → c' ≡ record c { rpcwaiting = pos left }
  pub wakes :
      left ≡ 0 → ((c'.state ≡ conn_rpc_done) × (c'.ev_flags ≡ ev_write)) ⊎ (c'.state ≡ conn_closing)
  pub surely : left ≡ 0 → ((i : ℕ) → w.events i ≡ true) → c'.state ≡ conn_rpc_done

-- What taking an answer off the queue achieves: `p` asked first.
pub record Dequeues (elsewhere : ℕ → ℕ) (p : ℕ) (c : Conn) (ps : List ℕ) (mc : Conn) (w : World)
    (r : Conn × World) : Type 0 where
  pub backend : IsBackend elsewhere r.0 r.1 ps
  pub same : r.0 ≡ record mc { rpcs = record (mc.rpcs) { rpcdone = mc.rpcdone + 1 } }
  pub client : Conn
  pub stored : r.1.conns p ≡ some client
  pub answered : IsAnswered (elsewhere p + count p ps) c w client
  pub others : (q : ℕ) → q ≢ p → r.1.conns q ≡ w.conns q

-- What becomes of the client itself.
record Answers (left : ℕ) (c : Conn) (w : World) (r : Conn × World) : Type 0 where
  rpcwaiting : r.0.rpcwaiting ≡ pos left
  conns : r.1.conns ≡ w.conns
  answer : IsAnswered left c w r.0

answered-Answers :
    (left : ℕ) (c : Conn) (w : World)
    → c.rpcwaiting ≡ pos (left + 1)
    → Answers left c w (answered c w)
unfolding answered woken conn_set_state
answered-Answers zero c w e =
    let d = record c { rpcwaiting = pos 0 } in
    let one : c.rpcwaiting -ℤ pos 1 ≡ pos 0 = ap (λ n. n -ℤ pos 1) e ∙ one_less 0 in
    let r = conn_update_event d ev_write w in
    let v = conn_update_event-Updates d ev_write w in
    subst
      (λ n.
        Answers 0 c w
          (let d = record c { rpcwaiting = n } in if is_zero n then woken d w else (d, w)))
      (sym one)
      (elim (Bool-cases r.0) [
        | inl updated ↦ rw updated (record {
          rpcwaiting = v.rpcwaiting;
          conns = v.conns;
          answer = record {
            waits = λ h. absurd (omega (arith, h));
            wakes = λ _. inl (refl, v.success updated);
            surely = λ _ _. refl;
          };
        })
        | inr failed ↦ rw failed (record {
          rpcwaiting = v.rpcwaiting;
          conns = v.conns;
          answer = record {
            waits = λ h. absurd (omega (arith, h));
            wakes = λ _. inr refl;
            surely = λ _ all. absurd (let no : false ≡ true = sym failed ∙ v.surely all in cc);
          };
        })
      ])
answered-Answers (suc n) c w e =
    let one : c.rpcwaiting -ℤ pos 1 ≡ pos (suc n) = ap (λ n. n -ℤ pos 1) e ∙ one_less (suc n) in
    subst
      (λ m.
        Answers (suc n) c w
          (let d = record c { rpcwaiting = m } in if is_zero m then woken d w else (d, w)))
      (sym one)
      (record {
        rpcwaiting = refl;
        conns = refl;
        answer = record {
          waits = λ _. refl;
          wakes = λ h. absurd (omega (arith, h));
          surely = λ h _. absurd (omega (arith, h));
        };
      })

-- The queue without its first call.
dequeued-HasCalls :
    (q : Rpcs) (p : ℕ) (ps : List ℕ)
    → HasCalls q (p ∷ ps)
    → (q.rpcdone < q.rpcused)
      × (q.rpc q.rpcdone ≡ p)
      × HasCalls (record q { rpcdone = q.rpcdone + 1 }) ps
unfolding bytes
dequeued-HasCalls q p ps h = at (q.rpcused - q.rpcdone) refl
  where
    at :
        (n : ℕ)
        → q.rpcused - q.rpcdone ≡ n
        → (q.rpcdone < q.rpcused)
          × (q.rpc q.rpcdone ≡ p)
          × HasCalls (record q { rpcdone = q.rpcdone + 1 }) ps
    at zero e = let no : [] ≡ p ∷ ps = ap (bytes q.rpc q.rpcdone) (sym e) ∙ h.calls in cc
    at (suc n) e =
        let cons : q.rpc q.rpcdone ∷ bytes q.rpc (q.rpcdone + 1) n ≡ p ∷ ps =
          ap (bytes q.rpc q.rpcdone) (sym e) ∙ h.calls in
        let fewer : q.rpcused - (q.rpcdone + 1) ≡ n = omega (arith, e) in
        (
          omega (arith, e),
          cc,
          record {
            present = h.present;
            order = omega (arith, e);
            within = h.within;
            calls = ap (bytes q.rpc (q.rpcdone + 1)) fewer ∙ cc;
          },
        )

-- An answer is for the client that asked first. It waits for one answer less, and is to respond if
-- that was the last one.
pub dequeue-Dequeues :
    (elsewhere : ℕ → ℕ) (mc : Conn) (p : ℕ) (c : Conn) (ps : List ℕ) (w : World)
    → IsBackend elsewhere mc w (p ∷ ps)
    → w.conns p ≡ some c
    → Returns (dequeue mc w) (Dequeues elsewhere p c ps mc w)
unfolding dequeue answer_first
dequeue-Dequeues elsewhere mc p c ps w b stored =
    let (some_call, is_p, held) = dequeued-HasCalls mc.rpcs p ps b.calls in
    let ((ne, _, _), clients) = b.clients in
    let d = record mc { rpcs = record (mc.rpcs) { rpcdone = mc.rpcdone + 1 } } in
    let inside : ltb mc.rpcdone mc.rpcsize ≡ true = ground (arith, b.calls.within, some_call) in
    let same : (p == p) ≡ true = ground arith in
    let waited : c.rpcwaiting ≡ pos (elsewhere p + count p ps + 1) =
      b.waiting p c ne stored ∙ ap pos (rw same (omega arith)) in
    let r = answered c w in
    let a = answered-Answers (elsewhere p + count p ps) c w waited in
    let old : IsBackend elsewhere d (store_conn r.1 p (some r.0)) ps = record {
      calls = held;
      clients =
          subst (λ m. AreStored mc.self (update m p (some r.0)) ps) (sym a.conns)
            (update-AreStored mc.self w.conns p r.0 ps clients);
      waiting =
          subst
            (λ m.
              (q : ℕ) (x : Conn)
              → q ≢ mc.self
              → update m p (some r.0) q ≡ some x
              → x.rpcwaiting ≡ pos (elsewhere q + count q ps))
            (sym a.conns)
            (recount elsewhere mc.self w.conns p r.0 (p ∷ ps) ps b.waiting a.rpcwaiting
              (λ q other. let away : (p == q) ≡ false = ground arith in rw away refl));
    } in
    (
      (d, store_conn r.1 p (some r.0)),
      ap
            (λ (b : Bool).
              if b
              then fault dangling
              else if ltb mc.rpcdone mc.rpcsize
              then answer_first mc w
              else fault out_of_bounds)
            b.calls.present
          ∙ ap (λ (b : Bool). if b then answer_first mc w else fault out_of_bounds) inside
          ∙ rw (answer_first, is_p, client_lem d p c w ne stored, store_client_lem d p r.0 r.1 ne)
              refl,
      record {
        backend = old;
        same = refl;
        client = r.0;
        stored = ground arith;
        answered = a.answer;
        others = λ q other. ground (arith, ap (λ (m : ℕ → Option Conn). m q) a.conns);
      },
    )
