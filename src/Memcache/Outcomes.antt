-- ===== src/Memcache/Outcomes.antt =====
-- What `memcache_connect` may come to, by the answers of name lookup and of the calls on its socket.
use synthetic_client.Base.{
  ℕ, ◌≡◌, ◌≢◌, Bool, false, ◌||◌, ◌==◌, if◌then◌else◌, Option, none, some, List,
}
use synthetic_client.Base.Int.{pos}
use synthetic_client.Fsm.{conn_new_cmd}
use synthetic_client.World.{World}
use synthetic_client.Conn.{Conn, memcached_conn, ev_read}
use synthetic_client.Conn.New.Opens.{IsOpened}
use synthetic_client.Conn.New.Ready.{IsReady}
use synthetic_client.System.{System, SocketOutcome, opened}
use synthetic_client.Memcache.Connect.{host_and_port}

-- What comes of the lookup and of the calls on the socket.
pub data Outcome : Type 0 where
  unresolved no_descriptor : Outcome
  refused blocking established : ℕ → Outcome

abbrev pub socket_outcome : SocketOutcome → (connects nonblocks : Bool) → Outcome
socket_outcome (opened sfd) connects nonblocks =
    if connects then (if nonblocks then established sfd else blocking sfd) else refused sfd
socket_outcome _ connects nonblocks = no_descriptor

abbrev pub lookup_outcome : Option (List ℕ) → SocketOutcome → (connects nonblocks : Bool) → Outcome
lookup_outcome none answer connects nonblocks = unresolved
lookup_outcome (some ai) answer connects nonblocks = socket_outcome answer connects nonblocks

abbrev pub looked_up : List ℕ → System → Option (List ℕ)
looked_up host s = let (name, port) = host_and_port host in s.lookups 0 (some name) port

abbrev pub outcome : List ℕ → System → Outcome
outcome host s =
    lookup_outcome (looked_up host s) (s.sockets 0 s.open_fds) (s.connects 0) (s.nonblocks 0)

-- The descriptor that is left open: also where the socket could not be connected.
abbrev pub left_open : Outcome → ℕ → Bool
left_open (established sfd) d = sfd == d
left_open (refused sfd) d = sfd == d
left_open _ d = false

-- The connection to a backend.
pub record IsBackend (sfd p : ℕ) (conns : ℕ → Option Conn) : Type 0 where
  pub conn : Conn
  pub stored : conns p ≡ some conn
  pub opened : IsOpened memcached_conn (pos 0) sfd conn_new_cmd ev_read p conn

-- Only an established connection is returned, at the address that comes first.
abbrev pub Gives : Outcome → World → Option ℕ → System → Type 0
Gives (established sfd) w mc t =
    (mc ≡ some (w.addresses 0))
    × IsBackend sfd (w.addresses 0) t.world.conns
    × ((i : ℕ) → t.world.addresses i ≢ w.addresses 0)
Gives _ w mc t = (mc ≡ none) × (t.world.conns ≡ w.conns)

-- `socket` gives no descriptor that is open.
abbrev pub AreFresh : (ℕ → (ℕ → Bool) → SocketOutcome) → Type 0
AreFresh sockets =
    (i : ℕ) (held : ℕ → Bool) (sfd : ℕ) → sockets i held ≡ opened sfd → held sfd ≡ false

-- What a call comes to, from a world, the descriptors that were open before, and the answers of
-- `socket`; `lookups` are the answers of name lookup behind it, and `listener` the first of the
-- listening connections.
pub record Connects (o : Outcome) (k fuel n : ℕ) (w : World) (before : ℕ → Bool)
    (sockets : ℕ → (ℕ → Bool) → SocketOutcome)
    (lookups : ℕ → Option (List ℕ) → List ℕ → Option (List ℕ)) (listener : Option ℕ) (mc : Option ℕ)
    (t : System) : Type 0 where
  pub gives : Gives o w mc t
  pub fds : (d : ℕ) → t.open_fds d ≡ (left_open o d || before d)
  pub ready : IsReady (pos 0) k fuel n t.world
  pub others : (a : ℕ) → a ≢ w.addresses 0 → t.world.conns a ≡ w.conns a
  pub addresses : (i : ℕ) → (j : ℕ) × (t.world.addresses i ≡ w.addresses j)
  pub events : (i : ℕ) → (j : ℕ) × (t.world.events i ≡ w.events j)
  pub sockets_left : (i : ℕ) → (j : ℕ) × (t.sockets i ≡ sockets j)
  pub lookups_left : t.lookups ≡ lookups
  pub listen_conn : t.listen_conn ≡ listener
  pub workers : t.world.workers ≡ w.workers
