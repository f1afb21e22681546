-- ===== src/Memcache/Connect.antt =====
-- src/memcache_conn.c: `memcache_connect` opens the connection to a backend.
use synthetic_client.Base.{
  ℕ, suc, ◌==◌, if◌then◌else◌, Option, none, some, List, [], ◌∷◌, length, take, drop, codes, Run,
  ok, fault, dangling, ◌>>=◌,
}
use synthetic_client.Base.Int.{pos}
use synthetic_client.Fsm.{conn_new_cmd}
use synthetic_client.Conn.{memcached_conn, ev_read, data_buffer_size}
use synthetic_client.Conn.New.{conn_new}
use synthetic_client.Server.Command.{find_byte}
use synthetic_client.System.{
  System, SocketOutcome, opened, out_of_descriptors, no_socket, after_lookup, after_socket,
  after_nonblock, after_connect, open_fd, close_fd, with_world,
}

abbrev pub memcache_port : List ℕ
memcache_port = codes "11211"

-- With the place of the first colon, if there is one.
unfoldable pub cut_at : List ℕ → Option ℕ → List ℕ × List ℕ
cut_at host none = (host, memcache_port)
cut_at host (some port) =
    if port == length host then (host, memcache_port) else (take port host, drop (suc port) host)

-- What is left of the text, which is also the name that is looked up, and the port.
unfoldable pub host_and_port : List ℕ → List ℕ × List ℕ
unfolding cut_at
host_and_port host = cut_at host (find_byte b':' host)

-- The socket is connected and made non-blocking. It is not closed if it cannot be connected.
unfoldable pub connect_socket : ℕ → ℕ → System → Run (Option ℕ × System)
connect_socket fuel sfd s =
    if s.connects 0
    then (let t = after_connect s in
        if t.nonblocks 0
        then (conn_new fuel memcached_conn (pos 0) sfd conn_new_cmd ev_read data_buffer_size t.world
            >>= λ (mc, w). ok (mc, with_world (after_nonblock t) w))
        else ok (none, close_fd sfd (after_nonblock t)))
    else ok (none, after_connect s)

unfoldable pub with_socket : ℕ → SocketOutcome → System → Run (Option ℕ × System)
unfolding connect_socket
with_socket fuel (opened sfd) s = connect_socket fuel sfd (open_fd sfd s)
with_socket fuel out_of_descriptors s = ok (none, s)
with_socket fuel no_socket s = ok (none, s)

-- Only the first address is tried.
unfoldable pub with_addresses : ℕ → Option (List ℕ) → System → Run (Option ℕ × System)
unfolding with_socket
with_addresses fuel none s = ok (none, s)
with_addresses fuel (some []) s = fault dangling
with_addresses fuel (some (a ∷ ai)) s = with_socket fuel (s.sockets 0 s.open_fds) (after_socket s)

-- The connection, null on failure, and what is left of the text of the host.
unfoldable pub memcache_connect : ℕ → List ℕ → System → Run (Option ℕ × List ℕ × System)
unfolding host_and_port with_addresses
memcache_connect fuel host s =
    let (name, port) = host_and_port host in
    with_addresses fuel (s.lookups 0 (some name) port) (after_lookup s) >>= λ (mc, t).
    ok (mc, name, t)
