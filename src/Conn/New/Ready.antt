-- ===== src/Conn/New/Ready.antt =====
-- Connections may be opened again and again, while none has been closed yet.
use synthetic_client.Base.{
  ℕ, suc, ◌+◌, ◌≡◌, ◌≢◌, ◌≤◌, refl, Bool, true, Option, none, some, length, ok, arith,
}
use synthetic_client.Base.Int.{ℤ}
use synthetic_client.Fsm.{ConnStates}
use synthetic_client.Utils.{int_max}
use synthetic_client.World.{World, Workers, ClientStats, rest}
use synthetic_client.Conn.{Conn, ConnType, EvFlags}
use synthetic_client.Conn.Iov.Plenty.{Plenty}
use synthetic_client.Conn.New.Opens.{IsOpened}
use synthetic_client.Conn.New.Counts.{same-IsMap}
use synthetic_client.Stats.{bucket}
use synthetic_client.Stats.Buckets.{Cells, IsMap}

-- Each entry may be counted `n` times more.
abbrev pub HasRoom : ℕ → World → Type 0
HasRoom n w =
    (p : ℕ) (s : ClientStats)
    → w.client_stats p ≡ some s
    → (s.total_connections + n ≤ int_max) × (s.live_connections + n ≤ int_max)

-- Connections may be opened for the client, whose bucket is `k`, on this fuel, `n` of them: the map
-- is well formed, memory is to be had at addresses that are unused and all different, the counts
-- may grow, and the free list is empty.
pub record IsReady (id : ℤ) (k fuel n : ℕ) (w : World) : Type 0 where
  pub cells : ℕ → Cells
  pub map : IsMap w cells
  pub key : bucket w.statistics.map_size id ≡ ok k
  pub enough : (j : ℕ) → length (cells j) + n ≤ fuel
  pub memory : Plenty w
  pub distinct : (i j : ℕ) → i ≢ j → w.addresses i ≢ w.addresses j
  pub unused : (i : ℕ) → w.client_stats (w.addresses i) ≡ none
  pub some_room : n ≤ int_max
  pub room : HasRoom n w
  pub empty : w.freelist.freecurr ≡ 0

-- What opening a connection at the first address achieves, where libevent takes it.
pub record OpensNext (type : ConnType) (id : ℤ) (sfd : ℕ) (state : ConnStates) (flags : EvFlags)
    (k fuel n : ℕ) (w : World) (r : Option ℕ × World) : Type 0 where
  pub address : r.0 ≡ some (w.addresses 0)
  pub conn : Conn
  pub stored : r.1.conns (w.addresses 0) ≡ some conn
  pub opened : IsOpened type id sfd state flags (w.addresses 0) conn
  pub others : (a : ℕ) → a ≢ w.addresses 0 → r.1.conns a ≡ w.conns a
  pub ready : IsReady id k fuel n r.1
  pub drawn : ℕ
  pub addresses : (i : ℕ) → r.1.addresses i ≡ w.addresses (suc (drawn + i))
  pub events : r.1.events ≡ rest w.events
  pub workers : r.1.workers ≡ w.workers

pub HasRoom-le : (m n : ℕ) (w : World) → m ≤ n → HasRoom n w → HasRoom m w
HasRoom-le m n w le h p s e =
    let (total, live) = h p s e in (omega (arith, total), omega (arith, live))

-- Fewer connections may be opened too.
pub IsReady-le :
    (id : ℤ) (k fuel m n : ℕ) (w : World) → m ≤ n → IsReady id k fuel n w → IsReady id k fuel m w
IsReady-le id k fuel m n w le h = record {
  cells = h.cells;
  map = h.map;
  key = h.key;
  enough = λ j. omega (arith, le, h.enough j);
  memory = h.memory;
  distinct = h.distinct;
  unused = h.unused;
  some_room = omega (arith, le, h.some_room);
  room = HasRoom-le m n w le h.room;
  empty = h.empty;
}

-- The connections, the workers and libevent do not matter.
pub other-IsReady :
    (id : ℤ) (k fuel n : ℕ) (w : World) (a e : ℕ → Bool) (c : ℕ → Option Conn) (t : Workers)
    → ((i : ℕ) → a i ≡ true)
    → IsReady id k fuel n w
    → IsReady id k fuel n (record w { allocs = a; events = e; conns = c; workers = t })
other-IsReady id k fuel n w a e c t plenty h = record {
  cells = h.cells;
  map =
      same-IsMap w (record w { allocs = a; events = e; conns = c; workers = t }) h.cells refl refl
        h.map;
  key = h.key;
  enough = h.enough;
  memory = plenty;
  distinct = h.distinct;
  unused = h.unused;
  some_room = h.some_room;
  room = h.room;
  empty = h.empty;
}
