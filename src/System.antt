-- ===== src/System.antt =====
-- What the start of the server is given from outside besides the world: the answers of name lookup
-- and of the socket calls, each an endless sequence from which a call takes the next one, and the
-- descriptors that it has open.
use synthetic_client.Base.{
  ℕ, ◌≡◌, refl, sym, ap, ◌∙◌, inl, inr, Bool, true, false, ◌||◌, ◌==◌, ==_iff, Bool-cases, List,
  Option, update,
}
use synthetic_client.World.{World, rest}

-- `socket`: a descriptor, -1 with EMFILE, -1 with another error
pub data SocketOutcome : Type 0 where
  opened : ℕ → SocketOutcome
  out_of_descriptors no_socket : SocketOutcome

-- `bind`: 0, -1 with EADDRINUSE, -1 with another error
pub data BindOutcome : Type 0 where
  bound in_use bind_failed : BindOutcome

-- `lookups` answers `getaddrinfo` for a name, or none for the machine's own addresses, and a port:
-- the addresses, or none on an error. An address is a number. What `socket` answers depends on the
-- descriptors that are open. `nonblocks` tells whether the two `fcntl` calls succeed, and `connects`
-- and `listens` whether those calls do. `open_fds` are the descriptors opened and not closed here,
-- and `listen_conn` is the first of the listening connections.
pub record System : Type 0 where
  pub world : World
  pub lookups : ℕ → Option (List ℕ) → List ℕ → Option (List ℕ)
  pub sockets : ℕ → (ℕ → Bool) → SocketOutcome
  pub nonblocks : ℕ → Bool
  pub binds : ℕ → BindOutcome
  pub listens : ℕ → Bool
  pub connects : ℕ → Bool
  pub open_fds : ℕ → Bool
  pub listen_conn : Option ℕ

abbrev pub after_lookup : System → System
after_lookup s = record s { lookups = rest s.lookups }

abbrev pub after_socket : System → System
after_socket s = record s { sockets = rest s.sockets }

abbrev pub after_nonblock : System → System
after_nonblock s = record s { nonblocks = rest s.nonblocks }

abbrev pub after_bind : System → System
after_bind s = record s { binds = rest s.binds }

abbrev pub after_listen : System → System
after_listen s = record s { listens = rest s.listens }

abbrev pub after_connect : System → System
after_connect s = record s { connects = rest s.connects }

abbrev pub open_fd : ℕ → System → System
open_fd sfd s = record s { open_fds = update s.open_fds sfd true }

-- `close`
abbrev pub close_fd : ℕ → System → System
close_fd sfd s = record s { open_fds = update s.open_fds sfd false }

abbrev pub with_world : System → World → System
with_world s w = record s { world = w }

-- The descriptors with one more that is open.
pub open_fd_lem : (f : ℕ → Bool) (sfd d : ℕ) → update f sfd true d ≡ ((sfd == d) || f d)
open_fd_lem f sfd d = elim (Bool-cases (sfd == d)) [
  | inl same ↦ rw same refl
  | inr other ↦ rw other refl
]

-- A descriptor that is opened and closed again.
pub close_fd_lem :
    (f : ℕ → Bool) (sfd d : ℕ) → f sfd ≡ false → update (update f sfd true) sfd false d ≡ f d
close_fd_lem f sfd d free = elim (Bool-cases (sfd == d)) [
  | inl same ↦ rw same (sym free ∙ ap f ((==_iff sfd d).0 same))
  | inr other ↦ rw other refl
]
