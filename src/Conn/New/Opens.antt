-- ===== src/Conn/New/Opens.antt =====
-- `conn_new` opens a connection and counts it for its client.
use synthetic_client.Base.{
  ℕ, suc, ◌+◌, ◌≡◌, ◌≢◌, ◌≤◌, ◌<◌, refl, ap, ◌∙◌, inl, inr, Bool, true, false, leb, Bool-cases,
  Option, none, some, ok, IfOk, IfOk->>=, arith,
}
use synthetic_client.Base.Int.{ℤ, pos}
use synthetic_client.Fsm.{ConnStates}
use synthetic_client.Utils.{int_max}
use synthetic_client.World.{World, ClientStats, after_event}
use synthetic_client.Conn.{Conn, ConnType, EvFlags}
use synthetic_client.Conn.Close.{store_stats}
use synthetic_client.Conn.New.{count_connection, listen}
use synthetic_client.Conn.New.Freelist.{
  IsFreelist, store-IsFreelist, conn_add_to_freelist_lem, listed-IsFreelist,
}
use synthetic_client.Stats.{bucket, entry, search_from, new_entry, found_or_new, get_client_stats}
use synthetic_client.Stats.Buckets.{entry_lem}

-- What the statistics have nothing to do with.
pub record Keeps (w v : World) : Type 0 where
  pub conns : v.conns ≡ w.conns
  pub freelist : v.freelist ≡ w.freelist
  pub events : v.events ≡ w.events
  pub workers : v.workers ≡ w.workers

pub get_client_stats-Keeps :
    (fuel : ℕ) (id : ℤ) (w : World) → IfOk (λ r. Keeps w r.1) (get_client_stats fuel id w)
unfolding get_client_stats found_or_new new_entry
get_client_stats-Keeps fuel id w =
    IfOk->>= (λ r. Keeps w r.1) (bucket _ id) _
      λ k _.
        IfOk->>= (λ r. Keeps w r.1) (search_from fuel id w none (w.statistics.map k)) _
          λ r _. found k r.1
  where
    found : (k : ℕ) (o : Option ℕ) → IfOk (λ r. Keeps w r.1) (found_or_new k id w o)
    found k none = elim (Bool-cases (w.allocs 0)) [
      | inl memory ↦
          rw memory (record { conns = refl; freelist = refl; events = refl; workers = refl })
      | inr full ↦ rw full tt
    ]
    found k (some p) =
        IfOk->>= (λ r. Keeps w r.1) (entry w p) _
          λ s _. record { conns = refl; freelist = refl; events = refl; workers = refl }

-- An open connection as it is set up.
pub record IsOpened (type : ConnType) (id : ℤ) (sfd : ℕ) (state : ConnStates) (flags : EvFlags)
    (p : ℕ) (c : Conn) : Type 0 where
  pub address : c.self ≡ p
  pub kind : (c.type ≡ type) × (c.client_id ≡ id) × (c.sfd ≡ sfd)
  pub states : (c.state ≡ state) × (c.after_write ≡ state)
  pub registered : (c.event ≡ some (flags, none)) × (c.ev_flags ≡ flags)
  pub no_input : (c.rcurr ≡ 0) × (c.rbytes ≡ 0) × (1 ≤ c.rsize)
  pub no_output : (c.wbytes ≡ 0) × (c.msgused ≡ 0) × (c.msgcurr ≡ 0) × (c.iovused ≡ 0)
  pub no_items : (c.icurr ≡ 0) × (c.ileft ≡ 0)
  pub no_calls : (c.rpcwaiting ≡ pos 0) × (c.rpcused ≡ 0) × (c.rpcdone ≡ 0)

-- The entry with one connection more.
abbrev pub counted : ClientStats → ClientStats
counted s = record s {
  total_connections = s.total_connections + 1;
  live_connections = s.live_connections + 1;
}

abbrev pub HasSpace : ClientStats → Type 0
HasSpace s = (s.total_connections < int_max) × (s.live_connections < int_max)

pub count_connection_lem :
    (p : ℕ) (s : ClientStats) (w : World)
    → w.client_stats p ≡ some s
    → HasSpace s
    → count_connection p w ≡ ok (store_stats w p (counted s))
unfolding count_connection
count_connection_lem p s w stored (total, live) =
    let t : leb int_max s.total_connections ≡ false = ground arith in
    let l : leb int_max s.live_connections ≡ false = ground arith in
    rw (entry_lem w p s stored, t, l) refl

-- How adding the connection to libevent ends, from world `w`, for the connection `c` at `p`.
pub record Listens (p : ℕ) (c : Conn) (flags : EvFlags) (w : World) (r : Option ℕ × World)
    : Type 0 where
  pub success :
      w.events 0 ≡ true
      → (r.0 ≡ some p)
        × (r.1.conns p ≡ some (record c { event = some (flags, none) }))
        × ((i : ℕ) → i < r.1.freelist.freecurr → r.1.freelist.freeconns i ≢ p)
  pub failure :
      w.events 0 ≡ false
      → (r.0 ≡ none) × (n : ℕ) × (r.1.freelist.freecurr ≡ suc n) × (r.1.freelist.freeconns n ≡ p)
  pub freelist : IsFreelist r.1.freelist r.1.conns
  pub others : (a : ℕ) → a ≢ p → r.1.conns a ≡ w.conns a
  pub workers : r.1.workers ≡ w.workers

pub listen-Listens :
    (c : Conn) (flags : EvFlags) (w : World)
    → 1 ≤ c.rsize
    → IsFreelist w.freelist w.conns
    → w.freelist.freecurr < w.freelist.freetotal
    → ((i : ℕ) → i < w.freelist.freecurr → w.freelist.freeconns i ≢ c.self)
    → Listens c.self c flags w (listen c flags w)
unfolding listen
listen-Listens c flags w size f room away = elim (Bool-cases (w.events 0)) [
  | inl added ↦ rw added (record {
    success = λ _. (refl, ground arith, away);
    failure = λ e. cc;
    freelist =
        store-IsFreelist w.freelist w.conns c.self (record c { event = some (flags, none) }) f refl
          size;
    others = λ a ne. ground arith;
    workers = refl;
  })
  | inr failed ↦
      rw (failed, conn_add_to_freelist_lem c.self (after_event w) room)
        (record {
          success = λ e. cc;
          failure = λ _. (refl, w.freelist.freecurr, omega arith, ground arith);
          freelist =
              listed-IsFreelist w.freelist _ c.self
                (store-IsFreelist w.freelist w.conns c.self c f refl size) room
                (record { conn = c; stored = ground arith; address = refl; some_size = size }) away;
          others = λ a ne. ground arith;
          workers = refl;
        })
]

-- The same from a world that differs in what has nothing to do with it.
pub earlier-Listens :
    (p : ℕ) (c : Conn) (flags : EvFlags) (w x : World) (r : Option ℕ × World)
    → x.events ≡ w.events
    → x.conns ≡ w.conns
    → x.workers ≡ w.workers
    → Listens p c flags x r
    → Listens p c flags w r
earlier-Listens p c flags w x r events conns workers l = record {
  success = λ h. l.success (ap (λ (f : ℕ → Bool). f 0) events ∙ h);
  failure = λ h. l.failure (ap (λ (f : ℕ → Bool). f 0) events ∙ h);
  freelist = l.freelist;
  others = λ a ne. l.others a ne ∙ ap (λ (f : ℕ → Option Conn). f a) conns;
  workers = l.workers ∙ workers;
}

pub listen_lem :
    (c : Conn) (flags : EvFlags) (w : World)
    → w.freelist.freecurr < w.freelist.freetotal
    → let v = (listen c flags w).1 in
      (v.client_stats ≡ w.client_stats) × (v.statistics ≡ w.statistics)
unfolding listen
listen_lem c flags w room = elim (Bool-cases (w.events 0)) [
  | inl added ↦ rw added (refl, refl)
  | inr failed ↦ rw (failed, conn_add_to_freelist_lem c.self (after_event w) room) (refl, refl)
]
