-- ===== src/Conn/Close.antt =====
-- src/connections.c: `conn_close`, with the free list that it returns the connection to, and
-- src/locking.h: the reference count of the statistics, an `unsigned short`.
use synthetic_client.Base.{
  ℕ, ◌+◌, ◌-◌, ◌*◌, ◌%◌, ◌^◌, Bool, true, false, ltb, ◌==◌, if◌then◌else◌, none, some, update, Run,
  ok, fault, dangling, ◌>>=◌,
}
use synthetic_client.World.{World, ClientStats, Freelist, after_alloc, after_event, store_conn}
use synthetic_client.Conn.{Conn}

-- What `c->stats` points at.
unfoldable pub stats_of : Conn → World → Run (ℕ × ClientStats)
stats_of c w = elim c.stats [
  | none ↦ fault dangling
  | some p ↦ elim (w.client_stats p) [ none ↦ fault dangling | some s ↦ ok (p, s) ]
]

abbrev pub store_stats : World → ℕ → ClientStats → World
store_stats w p s = record w { client_stats = update w.client_stats p (some s) }

abbrev pub refcount_incr : ℕ → ℕ
refcount_incr n = (n + 1) % 2 ^ 16

abbrev pub refcount_decr : ℕ → ℕ
refcount_decr n = (n + 2 ^ 16 - 1) % 2 ^ 16

-- `realloc` doubles the list when it is full; without memory nothing is stored.
unfoldable pub conn_add_to_freelist : ℕ → World → Bool × World
conn_add_to_freelist c w =
    if ltb l.freecurr l.freetotal
    then (true, record w { freelist = put l })
    else if w.allocs 0
    then (
      true,
      record (after_alloc w) { freelist = put (record l { freetotal = l.freetotal * 2 }) },
    )
    else (false, after_alloc w)
  where
    l : Freelist
    l = w.freelist

    put : Freelist → Freelist
    put m = record m { freeconns = update m.freeconns m.freecurr c; freecurr = m.freecurr + 1 }

-- The last reference frees the statistics.
unfoldable pub drop_stats : ℕ → ClientStats → World → World
drop_stats p s w =
    if refcount_decr s.refcnt == 0
    then record w { client_stats = update w.client_stats p none }
    else store_stats w p (record s { refcnt = refcount_decr s.refcnt })

-- The connection is then on the free list, or freed. The result of `event_del` is not looked at.
unfoldable pub conn_close : Conn → World → Run (Conn × World)
unfolding drop_stats conn_add_to_freelist stats_of
conn_close c w = stats_of c w >>= λ (p, s).
    let (listed, v) = conn_add_to_freelist c.self (drop_stats p s (after_event w)) in
    let d = record c { event = none; stats = none; mem_blob = none } in
    ok (d, store_conn v c.self (if listed then some d else none))
