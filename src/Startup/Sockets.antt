-- ===== src/Startup/Sockets.antt =====
-- src/server.c: `new_socket` and `server_socket`, which listens on the addresses of the machine.
use synthetic_client.Base.{
  ℕ, zero, suc, ◌+◌, ◌/◌, ◌%◌, Bool, true, ltb, ◌==◌, if◌then◌else◌, Option, none, some, List, [],
  ◌∷◌, ◌++◌, Run, ok, fault, dangling, exited, ◌>>=◌,
}
use synthetic_client.Base.Int.{ℤ, pos, negsuc}
use synthetic_client.Fsm.{conn_listening}
use synthetic_client.World.{World, store_conn}
use synthetic_client.Conn.{client_conn, ev_read}
use synthetic_client.Conn.New.{conn_new}
use synthetic_client.System.{
  System, SocketOutcome, opened, out_of_descriptors, no_socket, BindOutcome, bound, in_use,
  bind_failed, after_lookup, after_socket, after_nonblock, after_bind, after_listen, open_fd,
  close_fd,
}

-- What `new_socket` returns: a descriptor, or -1, with EMFILE or another error.
pub data NewSocket : Type 0 where
  usable : ℕ → NewSocket
  exhausted unusable : NewSocket

unfoldable pub set_nonblocking : ℕ → System → NewSocket × System
set_nonblocking sfd s =
    if s.nonblocks 0
    then (usable sfd, after_nonblock s)
    else (unusable, close_fd sfd (after_nonblock s))

unfoldable pub after_socket_call : SocketOutcome → System → NewSocket × System
unfolding set_nonblocking
after_socket_call (opened sfd) s = set_nonblocking sfd (open_fd sfd s)
after_socket_call out_of_descriptors s = (exhausted, s)
after_socket_call no_socket s = (unusable, s)

unfoldable pub new_socket : System → NewSocket × System
unfolding after_socket_call
new_socket s = after_socket_call (s.sockets 0 s.open_fds) (after_socket s)

-- How the loop over the addresses goes on behind one: with the next one, after a listening socket or
-- without; or `server_socket` returns 1.
pub data Attempt : Type 0 where
  listening skipped given_up : System → Attempt

-- `c->next = listen_conn; listen_conn = c`, for the connection at `p`. Without one the process ends.
unfoldable pub link_listener : Option ℕ → World → System → Run Attempt
link_listener none w s = fault exited
link_listener (some p) w s = elim (w.conns p) [
  | none ↦ fault dangling
  | some c ↦ ok (
      listening (record s {
        world = store_conn w p (some (record c { next = s.listen_conn }));
        listen_conn = some p;
      }))
]

-- `listen`, and the connection of the socket.
unfoldable pub listen_on : ℕ → ℕ → System → Run Attempt
unfolding link_listener
listen_on fuel sfd s =
    if s.listens 0
    then (conn_new fuel client_conn (pos 0) sfd conn_listening ev_read 1 s.world >>= λ (c, w).
        link_listener c w (after_listen s))
    else ok (given_up (close_fd sfd (after_listen s)))

unfoldable pub after_bind_call : ℕ → ℕ → BindOutcome → System → Run Attempt
unfolding listen_on
after_bind_call fuel sfd bound s = listen_on fuel sfd s
after_bind_call fuel sfd in_use s = ok (skipped (close_fd sfd s))
after_bind_call fuel sfd bind_failed s = ok (given_up (close_fd sfd s))

-- That an option of the socket cannot be set is only reported. Without descriptors the process ends.
unfoldable pub after_new_socket : ℕ → NewSocket × System → Run Attempt
unfolding after_bind_call
after_new_socket fuel (usable sfd, s) = after_bind_call fuel sfd (s.binds 0) (after_bind s)
after_new_socket fuel (exhausted, s) = fault exited
after_new_socket fuel (unusable, s) = ok (skipped s)

-- The body of the loop.
unfoldable pub try_address : ℕ → System → Run Attempt
unfolding new_socket after_new_socket
try_address fuel s = after_new_socket fuel (new_socket s)

-- What follows the body, with the number of successes before it: the result is 0, that is false,
-- if there is any success in the end.
abbrev pub proceed : (ℕ → System → Run (Bool × System)) → ℕ → Attempt → Run (Bool × System)
proceed next success (listening s) = next (success + 1) s
proceed next success (skipped s) = next success s
proceed next success (given_up s) = ok (true, s)

-- The loop over the addresses.
unfoldable pub listen_all : ℕ → List ℕ → ℕ → System → Run (Bool × System)
unfolding try_address
listen_all fuel [] success s = ok (success == 0, s)
listen_all fuel (a ∷ ai) success s = try_address fuel s >>= proceed (listen_all fuel ai) success

-- `"%d"`: the digits of a number, of which there are no more than the fuel.
unfoldable pub digits : ℕ → ℕ → List ℕ
digits zero n = []
digits (suc fuel) n =
    let front = digits fuel (n / 10) in
    if ltb n 10 then (b'0' + n) ∷ [] else front ++ (b'0' + n % 10) ∷ []

unfoldable pub decimal : ℤ → List ℕ
unfolding digits
decimal (pos n) = digits 10 n
decimal (negsuc n) = b'-' ∷ digits 10 (n + 1)

-- Port -1 is any port.
unfoldable pub port_text : ℤ → List ℕ
unfolding decimal
port_text (negsuc zero) = decimal (pos 0)
port_text port = decimal port

unfoldable pub after_lookup_call : ℕ → Option (List ℕ) → System → Run (Bool × System)
unfolding listen_all
after_lookup_call fuel none s = ok (true, s)
after_lookup_call fuel (some ai) s = listen_all fuel ai 0 s

-- False, that is 0, if at least one socket listens and no address was given up.
unfoldable pub server_socket : ℕ → ℤ → System → Run (Bool × System)
unfolding after_lookup_call
server_socket fuel port s =
    after_lookup_call fuel (s.lookups 0 none (port_text port)) (after_lookup s)
