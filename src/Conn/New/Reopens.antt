-- ===== src/Conn/New/Reopens.antt =====
-- A connection that is closed is the one that is opened next.
use synthetic_client.Base.{
  ℕ, zero, suc, ◌-◌, ◌^◌, ◌≡◌, ◌≢◌, ◌≤◌, ◌<◌, refl, sym, ap, ◌∙◌, subst, inl, inr, Bool, true,
  false, ◌==◌, if◌then◌else◌, ==_iff, Bool-cases, none, some, Option, update, length, ok, Returns,
  ◌>>=◌, arith,
}
use synthetic_client.Base.Int.{ℤ}
use synthetic_client.Fsm.{ConnStates}
use synthetic_client.World.{World, ClientStats, Statistics, Freelist, after_event, store_conn}
use synthetic_client.Conn.{Conn, ConnType, EvFlags}
use synthetic_client.Conn.Close.{conn_close, drop_stats, stats_of, refcount_decr, store_stats}
use synthetic_client.Conn.Iov.Plenty.{Plenty}
use synthetic_client.Conn.New.{conn_new}
use synthetic_client.Conn.New.Freelist.{
  IsStored, IsFreelist, next_conn, listed, store-IsFreelist, listed-IsFreelist,
}
use synthetic_client.Conn.New.Opens.{HasSpace, IsOpened}
use synthetic_client.Conn.New.Counts.{CanOpen, conn_new-Opens, same-IsMap}
use synthetic_client.Stats.{bucket}
use synthetic_client.Stats.Buckets.{Cells, IsMap, touch-IsMap}
use synthetic_client.Conn.New.Lists.{lists}

-- A connection that is open: it has its reference to the statistics, besides that of the map, and
-- is not on the free list.
pub record IsOpen (c : Conn) (w : World) : Type 0 where
  pub slot : ℕ
  pub stats : c.stats ≡ some slot
  pub value : ClientStats
  pub stored : w.client_stats slot ≡ some value
  pub shared : (2 ≤ value.refcnt) × (value.refcnt < 2 ^ 16)
  pub some_size : 1 ≤ c.rsize
  pub away : (i : ℕ) → i < w.freelist.freecurr → w.freelist.freeconns i ≢ c.self

-- What closing a connection leaves behind.
pub record Closes (c : Conn) (cells : ℕ → Cells) (w : World) (o : IsOpen c w) (r : Conn × World)
    : Type 0 where
  pub map : IsMap r.1 cells
  pub released :
      r.1.client_stats
      ≡ update w.client_stats o.slot (some (record (o.value) { refcnt = o.value.refcnt - 1 }))
  pub size : r.1.statistics ≡ w.statistics
  pub freelist : IsFreelist r.1.freelist r.1.conns
  pub next : next_conn r.1 ≡ c.self
  pub closed : r.0.stats ≡ none
  pub memory : Plenty r.1
  pub addresses : r.1.addresses ≡ w.addresses
  pub events : (i : ℕ) → r.1.events i ≡ w.events (suc i)

drop_shared :
    (p : ℕ) (s : ClientStats) (w : World)
    → 2 ≤ s.refcnt
    → s.refcnt < 2 ^ 16
    → drop_stats p s w ≡ store_stats w p (record s { refcnt = s.refcnt - 1 })
unfolding drop_stats
drop_shared p s w two small =
    let less : refcount_decr s.refcnt ≡ s.refcnt - 1 = omega (arith, two, small) in
    let some : (refcount_decr s.refcnt == 0) ≡ false = ground (arith, less, two) in
    rw (some, less) refl

next_lem : (w : World) (n : ℕ) → w.freelist.freecurr ≡ suc n → next_conn w ≡ w.freelist.freeconns n
next_lem w n e =
    ap (λ (k : ℕ). elim k as (λ _. ℕ) [ zero ↦ w.addresses 0 | suc n ↦ w.freelist.freeconns n ]) e

stats_of_lem : (c : Conn) (w : World) (o : IsOpen c w) → stats_of c w ≡ ok (o.slot, o.value)
unfolding stats_of
stats_of_lem c w o = rw (o.stats, stats_of, o.stored) refl

same-IsFreelist :
    (l m : Freelist) (conns : ℕ → Option Conn)
    → l.freecurr ≡ m.freecurr
    → l.freeconns ≡ m.freeconns
    → l.freecurr < l.freetotal
    → IsFreelist m conns
    → IsFreelist l conns
same-IsFreelist l m conns curr same room f = record {
  room = omega (arith, room);
  some_room = omega (arith, room);
  closed = λ i h.
      subst (λ (g : ℕ → ℕ). IsStored conns (g i)) (sym same) (f.closed i (omega (arith, h, curr)));
  distinct = λ i j h k e.
      f.distinct i j (omega (arith, h, curr)) (omega (arith, k, curr))
        (ap (λ (g : ℕ → ℕ). g i) (sym same) ∙ e ∙ ap (λ (g : ℕ → ℕ). g j) same);
}

-- Closing an open connection, with memory to be had, gives up its reference to the statistics of
-- its client and puts it on the free list, to be opened next; the list and the map stay well
-- formed.
pub conn_close-Closes :
    (c : Conn) (cells : ℕ → Cells) (w : World) (o : IsOpen c w)
    → IsMap w cells
    → IsFreelist w.freelist w.conns
    → Plenty w
    → Returns (conn_close c w) (Closes c cells w o)
unfolding conn_close
conn_close-Closes c cells w o m f memory =
    let s = record (o.value) { refcnt = o.value.refcnt - 1 } in
    let u = store_stats (after_event w) o.slot s in
    let (l, x) = lists c.self u f.room f.some_room memory in
    let (stats, map, conns, addresses, events) = x.same in
    let d = record c { event = none; stats = none; mem_blob = none } in
    let before : IsMap u cells =
      touch-IsMap (after_event w) cells o.slot o.value s o.stored refl refl
        (record { heads = m.heads; linked = m.linked; keyed = m.keyed; distinct = m.distinct }) in
    let list : IsFreelist l x.after.conns =
      subst (IsFreelist l) (sym conns)
        (same-IsFreelist l w.freelist w.conns x.curr x.conns x.room f) in
    let away : (i : ℕ) → i < l.freecurr → l.freeconns i ≢ c.self =
      λ i h e. o.away i (omega (arith, h, x.curr)) (ap (λ (g : ℕ → ℕ). g i) (sym x.conns) ∙ e) in
    let v = store_conn (record (x.after) { freelist = listed l c.self }) c.self (some d) in
    (
      (d, v),
      rw
          (
            conn_close,
            stats_of_lem c w o,
            drop_shared o.slot o.value (after_event w) o.shared.0 o.shared.1,
            x.run,
          )
          refl,
      record {
        map = same-IsMap u v cells stats map before;
        released = stats;
        size = map;
        freelist =
            listed-IsFreelist l (update x.after.conns c.self (some d)) c.self
              (store-IsFreelist l x.after.conns c.self d list refl o.some_size) x.room
              (record { conn = d; stored = ground arith; address = refl; some_size = o.some_size })
              away;
        next = next_lem v l.freecurr (omega arith) ∙ ground arith;
        closed = refl;
        memory = x.memory;
        addresses = addresses;
        events = λ i. ap (λ (g : ℕ → Bool). g i) events;
      },
    )

-- After closing, a connection can be opened as before.
Closes-CanOpen :
    (id : ℤ) (c : Conn) (cells : ℕ → Cells) (k : ℕ) (w : World) (o : IsOpen c w) (r : Conn × World)
    → CanOpen id cells k w
    → Closes c cells w o r
    → CanOpen id cells k r.1
Closes-CanOpen id c cells k w o r can x = record {
  map = x.map;
  key = ap (λ (t : Statistics). bucket t.map_size id) x.size ∙ can.key;
  memory = x.memory;
  unused = λ i.
      ap (λ (f : ℕ → Option ClientStats). f (r.1.addresses i)) x.released
      ∙ ap (λ (a : ℕ → ℕ). after (a i)) x.addresses
      ∙ unused (w.addresses i) (can.unused i);
  space = λ p s e. space p s (ap (λ (f : ℕ → Option ClientStats). f p) (sym x.released) ∙ e);
  freelist = x.freelist;
}
  where
    after : ℕ → Option ClientStats
    after = update w.client_stats o.slot (some (record (o.value) { refcnt = o.value.refcnt - 1 }))

    unused : (p : ℕ) → w.client_stats p ≡ none → after p ≡ none
    unused p e = elim (Bool-cases (o.slot == p)) [
      | inl same ↦
          let both : none ≡ some o.value =
            sym e ∙ ap w.client_stats (sym ((==_iff o.slot p).0 same)) ∙ o.stored in
          cc
      | inr other ↦ rw other e
    ]

    space : (p : ℕ) (s : ClientStats) → after p ≡ some s → HasSpace s
    space p s e = elim (Bool-cases (o.slot == p)) [
      | inl same ↦
          let t = record (o.value) { refcnt = o.value.refcnt - 1 } in
          let both : some t ≡ some s =
            ap (λ (b : Bool). if b then some t else w.client_stats p) (sym same) ∙ e in
          let eq : t ≡ s = cc in
          let kept : HasSpace t = can.space o.slot o.value o.stored in subst HasSpace eq kept
      | inr other ↦ can.space p s (
          ap
            (λ (b : Bool).
              if b
              then some (record (o.value) { refcnt = o.value.refcnt - 1 })
              else w.client_stats p)
            (sym other)
          ∙ e)
    ]

-- A connection that is closed is the one that is opened next, if libevent takes it: at the same
-- address, set up as is asked for the new socket, whatever the old one left in it.
pub conn_new-conn_close :
    (fuel : ℕ) (type : ConnType) (id : ℤ) (sfd : ℕ) (state : ConnStates) (flags : EvFlags)
    (read_buffer_size : ℕ) (c : Conn) (cells : ℕ → Cells) (k : ℕ) (w : World)
    → IsOpen c w
    → CanOpen id cells k w
    → length (cells k) < fuel
    → 0 < read_buffer_size
    → w.events 1 ≡ true
    → Returns
        (conn_close c w >>= λ r. conn_new fuel type id sfd state flags read_buffer_size r.1)
        (λ r.
          (r.0 ≡ some c.self)
          × (d : Conn) × (r.1.conns c.self ≡ some d)
          × IsOpened type id sfd state flags c.self d)
conn_new-conn_close fuel type id sfd state flags read_buffer_size c cells k w o can enough size
      added =
    let (r, run, x) = conn_close-Closes c cells w o can.map can.freelist can.memory in
    let (q, run', y) =
      conn_new-Opens fuel type id sfd state flags read_buffer_size cells k r.1 enough size
        (Closes-CanOpen id c cells k w o r can x) in
    let (at, stored, _) = y.listens.success (x.events 0 ∙ added) in
    (
      q,
      rw run run',
      (
        at ∙ ap some x.next,
        record (y.conn) { event = some (flags, none) },
        ap q.1.conns (sym x.next) ∙ stored,
        subst
            (λ p.
              IsOpened type id sfd state flags p (record (y.conn) { event = some (flags, none) }))
            x.next y.opened,
      ),
    )
