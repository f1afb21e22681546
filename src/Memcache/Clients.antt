-- ===== src/Memcache/Clients.antt =====
-- The clients of a backend, and how they are stored again.
use synthetic_client.Base.{
  ℕ, ◌+◌, ◌≡◌, ◌≢◌, refl, sym, ap, ◌∙◌, inl, inr, Bool, true, false, leb, ◌==◌, if◌then◌else◌,
  ==_iff, Bool-cases, Option, some, List, [], ◌∷◌, ◌++◌, update, ok, arith,
}
use synthetic_client.Base.Int.{pos, ◌+ℤ◌, ◌-ℤ◌}
use synthetic_client.World.{World, store_conn}
use synthetic_client.Conn.{Conn, EvFlags}
use synthetic_client.Conn.Event.{conn_update_event, conn_update_event_t, same_flags}
use synthetic_client.Memcache.{client, store_client}
use synthetic_client.Memcache.Calls.{count, AreStored}

-- What a change of the events of a connection leaves.
pub record Updates (c : Conn) (f : EvFlags) (w : World) (r : Bool × Conn × World) : Type 0 where
  pub rpcs : r.1.rpcs ≡ c.rpcs
  pub self : r.1.self ≡ c.self
  pub output : r.1.output ≡ c.output
  pub rpcwaiting : r.1.rpcwaiting ≡ c.rpcwaiting
  pub state : r.1.state ≡ c.state
  pub conns : r.2.conns ≡ w.conns
  pub success : r.0 ≡ true → r.1.ev_flags ≡ f
  pub surely : ((i : ℕ) → w.events i ≡ true) → r.0 ≡ true

same_flags-eq : (f g : EvFlags) → same_flags f g ≡ true → f ≡ g
same_flags-eq f g h = ground arith

pub conn_update_event-Updates :
    (c : Conn) (f : EvFlags) (w : World) → Updates c f w (conn_update_event c f w)
unfolding conn_update_event conn_update_event_t
conn_update_event-Updates c f w = elim (Bool-cases (same_flags c.ev_flags f)) [
  | inl same ↦ rw same (record {
    rpcs = refl;
    self = refl;
    output = refl;
    rpcwaiting = refl;
    state = refl;
    conns = refl;
    success = λ _. same_flags-eq c.ev_flags f same;
    surely = λ _. refl;
  })
  | inr other ↦ elim (Bool-cases (w.events 0)) [
    | inr failed ↦
        rw (other, failed)
          (record {
            rpcs = refl;
            self = refl;
            output = refl;
            rpcwaiting = refl;
            state = refl;
            conns = refl;
            success = λ e. cc;
            surely = λ all. sym failed ∙ all 0;
          })
    | inl deleted ↦ elim (Bool-cases (w.events 1)) [
      | inl added ↦
          rw (other, deleted, added)
            (record {
              rpcs = refl;
              self = refl;
              output = refl;
              rpcwaiting = refl;
              state = refl;
              conns = refl;
              success = λ _. refl;
              surely = λ _. refl;
            })
      | inr refused ↦
          rw (other, deleted, refused)
            (record {
              rpcs = refl;
              self = refl;
              output = refl;
              rpcwaiting = refl;
              state = refl;
              conns = refl;
              success = λ e. cc;
              surely = λ all. sym refused ∙ all 1;
            })
    ]
  ]
]

pub client_lem :
    (mc : Conn) (p : ℕ) (c : Conn) (w : World)
    → p ≢ mc.self
    → w.conns p ≡ some c
    → client mc p w ≡ ok c
unfolding client
client_lem mc p c w ne stored =
    let other : (p == mc.self) ≡ false = ground arith in rw (other, stored) refl

pub store_client_lem :
    (mc : Conn) (p : ℕ) (c : Conn) (w : World)
    → p ≢ mc.self
    → store_client mc p c w ≡ (mc, store_conn w p (some c))
unfolding store_client
store_client_lem mc p c w ne = let other : (p == mc.self) ≡ false = ground arith in rw other refl

-- A client that is stored again is stored, as are the others.
pub update-AreStored :
    (self : ℕ) (conns : ℕ → Option Conn) (p : ℕ) (c : Conn) (ps : List ℕ)
    → AreStored self conns ps
    → AreStored self (update conns p (some c)) ps
update-AreStored self conns p c [] s = tt
update-AreStored self conns p c (q ∷ ps) ((ne, d, stored), s) = (
  elim (Bool-cases (p == q)) [
    | inl same ↦ (ne, c, rw same refl)
    | inr other ↦ (ne, d, rw other stored)
  ],
  update-AreStored self conns p c ps s,
)

pub AreStored-append :
    (self : ℕ) (conns : ℕ → Option Conn) (ps : List ℕ) (p : ℕ) (c : Conn)
    → AreStored self conns ps
    → p ≢ self
    → conns p ≡ some c
    → AreStored self conns (ps ++ p ∷ [])
AreStored-append self conns [] p c s ne stored = ((ne, c, stored), tt)
AreStored-append self conns (q ∷ ps) p c (h, s) ne stored =
    (h, AreStored-append self conns ps p c s ne stored)

-- The counts of the clients, when one is stored again with `k` calls and the others keep theirs.
pub recount :
    (elsewhere : ℕ → ℕ) (self : ℕ) (conns : ℕ → Option Conn) (p : ℕ) (c : Conn) (ps qs : List ℕ)
    → ((q : ℕ) (d : Conn)
        → q ≢ self
        → conns q ≡ some d
        → d.rpcwaiting ≡ pos (elsewhere q + count q ps))
    → c.rpcwaiting ≡ pos (elsewhere p + count p qs)
    → ((q : ℕ) → q ≢ p → count q qs ≡ count q ps)
    → (q : ℕ) (d : Conn) → q ≢ self
    → update conns p (some c) q ≡ some d
    → d.rpcwaiting ≡ pos (elsewhere q + count q qs)
recount elsewhere self conns p c ps qs waiting here others q d ne e = elim (Bool-cases (p == q)) [
  | inl same ↦
      let both : some c ≡ some d =
        ap (λ (b : Bool). if b then some c else conns q) (sym same) ∙ e in
      let eq : c ≡ d = cc in
      ap (λ (x : Conn). x.rpcwaiting) (sym eq)
      ∙ here
      ∙ ap (λ n. pos (elsewhere n + count n qs)) ((==_iff p q).0 same)
  | inr other ↦
      let old : conns q ≡ some d =
        ap (λ (b : Bool). if b then some c else conns q) (sym other) ∙ e in
      waiting q d ne old ∙ ap (λ n. pos (elsewhere q + n)) (sym (others q (ground arith)))
]

pub add_pos : (m n : ℕ) → pos m +ℤ pos n ≡ pos (m + n)
unfolding ◌+ℤ◌
add_pos m n =
    let enough : leb (0 + 0) (m + n) ≡ true = ground arith in rw enough (ap pos (omega arith))

pub one_less : (n : ℕ) → pos (n + 1) -ℤ pos 1 ≡ pos n
unfolding ◌-ℤ◌
one_less n =
    let enough : leb (0 + 1) (n + 1 + 0) ≡ true = ground arith in rw enough (ap pos (omega arith))
