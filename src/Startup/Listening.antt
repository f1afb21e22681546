-- ===== src/Startup/Listening.antt =====
-- The listening connections, and the descriptors that the start of the server holds open.
use synthetic_client.Base.{
  ℕ, suc, ◌≡◌, ◌≢◌, sym, ◌∙◌, Bool, true, false, ◌||◌, ◌==◌, Option, none, some, List, [], ◌∷◌,
  arith,
}
use synthetic_client.Base.Int.{ℤ, pos}
use synthetic_client.Fsm.{ConnStates, conn_listening}
use synthetic_client.World.{World}
use synthetic_client.Conn.{Conn, ConnType, EvFlags, client_conn, ev_read}
use synthetic_client.Conn.New.Opens.{IsOpened}
use synthetic_client.Conn.New.Ready.{IsReady, IsReady-le}
use synthetic_client.System.{System, SocketOutcome, opened, out_of_descriptors}

-- The addresses of the listening connections with their sockets, the last one first.
abbrev pub Listeners : Type 0
Listeners = List (ℕ × ℕ)

abbrev pub first : Listeners → Option ℕ
first [] = none
first ((p, sfd) ∷ ls) = some p

-- A connection that listens on a socket, linked to the next one.
pub record IsListener (conns : ℕ → Option Conn) (p sfd : ℕ) (next : Option ℕ) : Type 0 where
  pub conn : Conn
  pub stored : conns p ≡ some conn
  pub opened : IsOpened client_conn (pos 0) sfd conn_listening ev_read p conn
  pub linked : conn.next ≡ next

abbrev pub AreLinked : (ℕ → Option Conn) → Listeners → Type 0
AreLinked conns [] = Unit {0}
AreLinked conns ((p, sfd) ∷ ls) = IsListener conns p sfd (first ls) × AreLinked conns ls

-- The addresses that come next are those of none of them.
abbrev pub AreAway : (ℕ → ℕ) → Listeners → Type 0
AreAway addresses [] = Unit {0}
AreAway addresses ((p, sfd) ∷ ls) = ((i : ℕ) → addresses i ≢ p) × AreAway addresses ls

-- Whether one of them listens on the socket.
abbrev pub among : ℕ → Listeners → Bool
among d [] = false
among d ((p, sfd) ∷ ls) = (sfd == d) || among d ls

-- `socket` gives no descriptor that is open, and does not run out of them.
pub record IsFair (sockets : ℕ → (ℕ → Bool) → SocketOutcome) : Type 0 where
  pub closed : (i : ℕ) (held : ℕ → Bool) (sfd : ℕ) → sockets i held ≡ opened sfd → held sfd ≡ false
  pub plenty : (i : ℕ) (held : ℕ → Bool) → sockets i held ≢ out_of_descriptors

-- The listening connections are linked from `listen_conn`, and of the descriptors that were not
-- open `before` exactly their sockets are; `n` connections more may be opened.
pub record Listening (before : ℕ → Bool) (ls : Listeners) (k fuel n : ℕ) (w : World)
    (sockets : ℕ → (ℕ → Bool) → SocketOutcome) (open_fds : ℕ → Bool) (listen_conn : Option ℕ)
    : Type 0 where
  pub head : listen_conn ≡ first ls
  pub linked : AreLinked w.conns ls
  pub away : AreAway w.addresses ls
  pub fds : (d : ℕ) → open_fds d ≡ (among d ls || before d)
  pub ready : IsReady (pos 0) k fuel n w
  pub events : (i : ℕ) → w.events i ≡ true
  pub fair : IsFair sockets

abbrev pub Listens : (ℕ → Bool) → Listeners → ℕ → ℕ → ℕ → System → Type 0
Listens before ls k fuel n s =
    Listening before ls k fuel n s.world s.sockets s.open_fds s.listen_conn

pub Listens-less :
    (before : ℕ → Bool) (ls : Listeners) (k fuel n : ℕ) (s : System)
    → Listens before ls k fuel (suc n) s
    → Listens before ls k fuel n s
Listens-less before ls k fuel n s h = record {
  head = h.head;
  linked = h.linked;
  away = h.away;
  fds = h.fds;
  ready = IsReady-le (pos 0) k fuel n (suc n) s.world (omega arith) h.ready;
  events = h.events;
  fair = h.fair;
}

pub IsOpened-next :
    (type : ConnType) (id : ℤ) (sfd : ℕ) (state : ConnStates) (flags : EvFlags) (p : ℕ) (c : Conn)
    (next : Option ℕ)
    → IsOpened type id sfd state flags p c
    → IsOpened type id sfd state flags p (record c { next = next })
IsOpened-next type id sfd state flags p c next o = record {
  address = o.address;
  kind = o.kind;
  states = o.states;
  registered = o.registered;
  no_input = o.no_input;
  no_output = o.no_output;
  no_items = o.no_items;
  no_calls = o.no_calls;
}

-- What changes at another address.
pub AreLinked-frame :
    (f g : ℕ → Option Conn) (p : ℕ) (ls : Listeners)
    → ((a : ℕ) → a ≢ p → g a ≡ f a)
    → AreAway (λ _. p) ls
    → AreLinked f ls
    → AreLinked g ls
AreLinked-frame f g p [] same away l = tt
AreLinked-frame f g p ((q, sfd) ∷ ls) same (ne, away) (l, more) = (
  record {
    conn = l.conn;
    stored = same q (λ e. ne 0 (sym e)) ∙ l.stored;
    opened = l.opened;
    linked = l.linked;
  },
  AreLinked-frame f g p ls same away more,
)

pub AreAway-later :
    (a b : ℕ → ℕ) (ls : Listeners) → ((i : ℕ) → (j : ℕ) × (b i ≡ a j)) → AreAway a ls → AreAway b ls
AreAway-later a b [] from h = tt
AreAway-later a b ((p, sfd) ∷ ls) from (ne, h) =
    (λ i e. let (j, at) = from i in ne j (sym at ∙ e), AreAway-later a b ls from h)
