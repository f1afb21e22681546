-- ===== src/Memcache/Calls.antt =====
-- The calls in flight of a backend connection, oldest first, and what waits for them.
use synthetic_client.Base.{
  ℕ, ◌+◌, ◌-◌, ◌≡◌, ◌≢◌, ◌≤◌, ◌<◌, ◌⊎◌, refl, sym, ap, ◌∙◌, subst, inl, inr, Bool, true, false, leb,
  ltb, ◌==◌, if◌then◌else◌, Bool-cases, Option, some, List, [], ◌∷◌, ◌++◌, bytes, bytes-add,
  bytes_congr, update, update_other, Returns, arith,
}
use synthetic_client.Base.Int.{pos}
use synthetic_client.World.{World}
use synthetic_client.Conn.{Conn, Rpcs}
use synthetic_client.Memcache.{conn_ensure_rpc_space, enqueue}

-- The queue holds these calls, each the address of the client connection that waits for it.
pub record HasCalls (q : Rpcs) (ps : List ℕ) : Type 0 where
  pub present : q.rpc_null ≡ false
  pub order : q.rpcdone ≤ q.rpcused
  pub within : q.rpcused ≤ q.rpcsize
  pub calls : bytes q.rpc q.rpcdone (q.rpcused - q.rpcdone) ≡ ps

-- How many calls of a client are in flight.
abbrev pub count : ℕ → List ℕ → ℕ
count p [] = 0
count p (q ∷ qs) = let rest = count p qs in if q == p then rest + 1 else rest

pub count-append : (p : ℕ) (xs ys : List ℕ) → count p (xs ++ ys) ≡ count p xs + count p ys
count-append p [] ys = omega arith
count-append p (x ∷ xs) ys = elim (Bool-cases (x == p)) [
  | inl same ↦ rw same (omega (arith, count-append p xs ys))
  | inr other ↦ rw other (count-append p xs ys)
]

-- Each client is stored, and is not the backend itself.
abbrev pub AreStored : ℕ → (ℕ → Option Conn) → List ℕ → Type 0
AreStored self conns [] = Unit {0}
AreStored self conns (p ∷ ps) =
    ((p ≢ self) × (c : Conn) × (conns p ≡ some c)) × AreStored self conns ps

-- The backend connection has these calls in flight, and each client waits for its calls here and
-- for so many that are elsewhere.
pub record IsBackend (elsewhere : ℕ → ℕ) (mc : Conn) (w : World) (ps : List ℕ) : Type 0 where
  pub calls : HasCalls mc.rpcs ps
  pub clients : AreStored mc.self w.conns ps
  pub waiting :
      (p : ℕ) (c : Conn)
      → p ≢ mc.self
      → w.conns p ≡ some c
      → c.rpcwaiting ≡ pos (elsewhere p + count p ps)

-- There is room for a call, or the queue, of which nothing is answered, can grow.
abbrev pub HasSlot : Rpcs → World → Type 0
HasSlot q w =
    (q.rpcused < q.rpcsize)
    ⊎ ((q.rpcsize ≡ q.rpcused) × (q.rpcdone ≡ 0) × (0 < q.rpcsize) × (w.allocs 0 ≡ true))

-- The queue before a call is entered.
pub record Ensures (q : Rpcs) (ps : List ℕ) (w : World) (r : Bool × Rpcs × World) : Type 0 where
  pub success : r.0 ≡ true
  pub held : HasCalls r.1 ps
  pub room : r.1.rpcused < r.1.rpcsize
  pub conns : r.2.conns ≡ w.conns
  pub events : r.2.events ≡ w.events

pub conn_ensure_rpc_space-Ensures :
    (q : Rpcs) (ps : List ℕ) (w : World)
    → HasCalls q ps
    → HasSlot q w
    → Ensures q ps w (conn_ensure_rpc_space q w)
unfolding conn_ensure_rpc_space
conn_ensure_rpc_space-Ensures q ps w h (inl room) =
    let free : leb q.rpcsize q.rpcused ≡ false = ground arith in
    rw free (record { success = refl; held = h; room = room; conns = refl; events = refl })
conn_ensure_rpc_space-Ensures q ps w h (inr (full, none_done, size, memory)) =
    let full' : leb q.rpcsize q.rpcused ≡ true = ground arith in
    let start : (q.rpcdone == 0) ≡ true = ground arith in
    rw (full', start, memory)
      (record {
        success = refl;
        held = record {
          present = refl;
          order = h.order;
          within = omega (arith, full, size);
          calls = h.calls;
        };
        room = omega (arith, full, size);
        conns = refl;
        events = refl;
      })

pub enqueue-HasCalls :
    (q : Rpcs) (ps : List ℕ) (p : ℕ)
    → HasCalls q ps
    → q.rpcused < q.rpcsize
    → Returns (enqueue q p) (λ r. HasCalls r (ps ++ p ∷ []))
unfolding enqueue bytes
enqueue-HasCalls q ps p h room =
    let f = q.rpc in
    let n = q.rpcused - q.rpcdone in
    let g = update f q.rpcused p in
    let free : ltb q.rpcused q.rpcsize ≡ true = ground arith in
    let used : q.rpcdone + n ≡ q.rpcused = omega (arith, h.order) in
    let more : q.rpcused + 1 - q.rpcdone ≡ n + 1 = omega (arith, h.order) in
    let old : bytes g q.rpcdone n ≡ ps =
      bytes_congr g f q.rpcdone n
        (λ i _ l. update_other f q.rpcused i p (omega (arith, h.order, l)))
      ∙ h.calls in
    let new : bytes g (q.rpcdone + n) 1 ≡ p ∷ [] = ap (λ i. bytes g i 1) used ∙ ground arith in
    (
      record q { rpc = g; rpcused = q.rpcused + 1 },
      rw (h.present, free) refl,
      record {
        present = h.present;
        order = omega (arith, h.order);
        within = omega (arith, room);
        calls =
            ap (bytes g q.rpcdone) more
            ∙ bytes-add g q.rpcdone n 1
            ∙ ap (λ xs. xs ++ bytes g (q.rpcdone + n) 1) old
            ∙ ap (λ xs. ps ++ xs) new;
      },
    )

-- What the backend and the world otherwise are does not matter.
pub same-IsBackend :
    (elsewhere : ℕ → ℕ) (mc d : Conn) (w v : World) (ps : List ℕ)
    → d.rpcs ≡ mc.rpcs
    → d.self ≡ mc.self
    → v.conns ≡ w.conns
    → IsBackend elsewhere mc w ps
    → IsBackend elsewhere d v ps
same-IsBackend elsewhere mc d w v ps rpcs self conns b = record {
  calls = subst (λ q. HasCalls q ps) (sym rpcs) b.calls;
  clients =
      subst (λ a. AreStored a v.conns ps) (sym self)
        (subst (λ m. AreStored mc.self m ps) (sym conns) b.clients);
  waiting = λ p c ne stored.
      b.waiting p c (λ e. ne (e ∙ sym self))
        (ap (λ (m : ℕ → Option Conn). m p) (sym conns) ∙ stored);
}
