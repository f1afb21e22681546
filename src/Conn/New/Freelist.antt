-- ===== src/Conn/New/Freelist.antt =====
-- The free list, and the connection that `conn_new` takes off it or allocates.
use synthetic_client.Base.{
  ℕ, zero, suc, ◌+◌, ◌≡◌, ◌≢◌, ◌≤◌, ◌<◌, refl, ap, ◌∙◌, inl, inr, true, false, ltb, ◌==◌, ==_iff,
  Bool-cases, Option, some, update, update-distinct, ok, Returns, arith,
}
use synthetic_client.World.{World, Freelist, after_alloc, after_address}
use synthetic_client.Conn.{Conn}
use synthetic_client.Conn.Close.{conn_add_to_freelist}
use synthetic_client.Conn.Iov.Plenty.{Plenty}
use synthetic_client.Conn.New.{blank, last_freed, conn_from_freelist, allocated, taken, obtained}

-- A connection is stored at its own address, with room for input.
pub record IsStored (conns : ℕ → Option Conn) (p : ℕ) : Type 0 where
  pub conn : Conn
  pub stored : conns p ≡ some conn
  pub address : conn.self ≡ p
  pub some_size : 1 ≤ conn.rsize

-- The list has room, and its connections are stored and all different.
pub record IsFreelist (l : Freelist) (conns : ℕ → Option Conn) : Type 0 where
  pub room : l.freecurr ≤ l.freetotal
  pub some_room : 0 < l.freetotal
  pub closed : (i : ℕ) → i < l.freecurr → IsStored conns (l.freeconns i)
  pub distinct : (i j : ℕ) → i < l.freecurr → j < l.freecurr → l.freeconns i ≡ l.freeconns j → i ≡ j

-- The connection that is taken: the one that was closed last, or a new one.
abbrev pub next_conn : World → ℕ
next_conn w = elim w.freelist.freecurr [ zero ↦ w.addresses 0 | suc n ↦ w.freelist.freeconns n ]

-- What obtaining a connection achieves.
pub record Obtains (w : World) (r : Option Conn × World) : Type 0 where
  pub conn : Conn
  pub here : r.0 ≡ some conn
  pub address : conn.self ≡ next_conn w
  pub some_size : 1 ≤ conn.rsize
  pub freelist : IsFreelist r.1.freelist r.1.conns
  pub room : r.1.freelist.freecurr < r.1.freelist.freetotal
  pub away : (i : ℕ) → i < r.1.freelist.freecurr → r.1.freelist.freeconns i ≢ next_conn w
  pub memory : Plenty r.1
  pub addresses : (i : ℕ) → (j : ℕ) × (r.1.addresses i ≡ w.addresses j)
  pub conns : r.1.conns ≡ w.conns
  pub client_stats : r.1.client_stats ≡ w.client_stats
  pub statistics : r.1.statistics ≡ w.statistics
  pub events : r.1.events ≡ w.events
  pub workers : r.1.workers ≡ w.workers

-- The world after one allocation of a connection and six of its arrays.
abbrev pub after_allocated : World → World
after_allocated w =
    let u = after_alloc (after_address w) in
    after_alloc (after_alloc (after_alloc (after_alloc (after_alloc (after_alloc u)))))

pub allocated_lem :
    (read_buffer_size : ℕ) (w : World)
    → Plenty w
    → allocated read_buffer_size w
      ≡ (some (blank (w.addresses 0) read_buffer_size false w), after_allocated w)
unfolding allocated
allocated_lem read_buffer_size w m = rw (m 0, m 1, m 2, m 3, m 4, m 5, m 6) refl

pub fresh-Obtains :
    (read_buffer_size : ℕ) (w : World)
    → Plenty w
    → 0 < read_buffer_size
    → w.freelist.freecurr ≡ 0
    → IsFreelist w.freelist w.conns
    → Obtains w (some (blank (w.addresses 0) read_buffer_size false w), after_allocated w)
unfolding blank
fresh-Obtains read_buffer_size w m size empty l = record {
  conn = blank (w.addresses 0) read_buffer_size false w;
  here = refl;
  address = rw empty refl;
  some_size = size;
  freelist = l;
  room = omega (arith, empty, l.some_room);
  away = λ i h. absurd (omega (arith, h, empty));
  memory = λ i. m (suc (suc (suc (suc (suc (suc (suc i)))))));
  addresses = λ i. (suc i, refl);
  conns = refl;
  client_stats = refl;
  statistics = refl;
  events = refl;
  workers = refl;
}

recycled-Obtains :
    (w : World) (n : ℕ)
    → Plenty w
    → w.freelist.freecurr ≡ suc n
    → (l : IsFreelist w.freelist w.conns) → (s : IsStored w.conns (w.freelist.freeconns n))
    → Obtains w (some s.conn, record w { freelist = record (w.freelist) { freecurr = n } })
recycled-Obtains w n m some_left l s = record {
  conn = s.conn;
  here = refl;
  address = rw some_left s.address;
  some_size = s.some_size;
  freelist = record {
    room = omega (arith, some_left, l.room);
    some_room = l.some_room;
    closed = λ i h. l.closed i (omega (arith, h, some_left));
    distinct =
        λ i j h k e. l.distinct i j (omega (arith, h, some_left)) (omega (arith, k, some_left)) e;
  };
  room = omega (arith, some_left, l.room);
  away = λ i h. rw some_left (λ e.
      let eq : i ≡ n = l.distinct i n (omega (arith, h, some_left)) (omega (arith, some_left)) e in
      omega (arith, eq, h));
  memory = m;
  addresses = λ i. (i, refl);
  conns = refl;
  client_stats = refl;
  statistics = refl;
  events = refl;
  workers = refl;
}

-- With memory for a new connection, one is obtained, and is not on the list.
pub obtained-Obtains :
    (read_buffer_size : ℕ) (w : World)
    → Plenty w
    → 0 < read_buffer_size
    → IsFreelist w.freelist w.conns
    → Returns (obtained read_buffer_size w) (Obtains w)
unfolding obtained taken conn_from_freelist
obtained-Obtains read_buffer_size w m size l = at_count w.freelist.freecurr refl
  where
    at_count : (n : ℕ) → w.freelist.freecurr ≡ n → Returns (obtained read_buffer_size w) (Obtains w)
    at_count zero empty = (
      _,
      ap (λ r. taken read_buffer_size r) (ap (last_freed w) empty)
          ∙ ap ok (allocated_lem read_buffer_size w m),
      fresh-Obtains read_buffer_size w m size empty l,
    )
    at_count (suc n) left =
        let s = l.closed n (omega (arith, left)) in
        (
          _,
          ap (λ r. taken read_buffer_size r) (ap (last_freed w) left) ∙ rw (taken, s.stored) refl,
          recycled-Obtains w n m left l s,
        )

pub store-IsFreelist :
    (l : Freelist) (conns : ℕ → Option Conn) (p : ℕ) (c : Conn)
    → IsFreelist l conns
    → c.self ≡ p
    → 1 ≤ c.rsize
    → IsFreelist l (update conns p (some c))
store-IsFreelist l conns p c f at size = record {
  room = f.room;
  some_room = f.some_room;
  closed = λ i h. elim (Bool-cases (p == l.freeconns i)) [
    | inl same ↦ record {
      conn = c;
      stored = rw same refl;
      address = at ∙ (==_iff p (l.freeconns i)).0 same;
      some_size = size;
    }
    | inr other ↦
        let s = f.closed i h in
        record {
          conn = s.conn;
          stored = rw other s.stored;
          address = s.address;
          some_size = s.some_size;
        }
  ];
  distinct = f.distinct;
}

-- The list with one connection more.
abbrev pub listed : Freelist → ℕ → Freelist
listed l p = record l { freeconns = update l.freeconns l.freecurr p; freecurr = l.freecurr + 1 }

pub conn_add_to_freelist_lem :
    (p : ℕ) (w : World)
    → w.freelist.freecurr < w.freelist.freetotal
    → conn_add_to_freelist p w ≡ (true, record w { freelist = listed w.freelist p })
unfolding conn_add_to_freelist
conn_add_to_freelist_lem p w h =
    let room : ltb w.freelist.freecurr w.freelist.freetotal ≡ true = ground arith in rw room refl

-- A closed connection that is not on the list.
pub listed-IsFreelist :
    (l : Freelist) (conns : ℕ → Option Conn) (p : ℕ)
    → IsFreelist l conns
    → l.freecurr < l.freetotal
    → IsStored conns p
    → ((i : ℕ) → i < l.freecurr → l.freeconns i ≢ p)
    → IsFreelist (listed l p) conns
listed-IsFreelist l conns p f h s away = record {
  room = omega arith;
  some_room = f.some_room;
  closed = λ i k. elim (Bool-cases (l.freecurr == i)) [
    | inl same ↦ rw same s
    | inr other ↦ rw other (f.closed i (ground arith))
  ];
  distinct = update-distinct l.freeconns l.freecurr p f.distinct away;
}
