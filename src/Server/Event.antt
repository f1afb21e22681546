-- ===== src/Server/Event.antt =====
-- src/server.c: `event_handler` as libevent calls it, with the address of a connection.
use synthetic_client.Base.{ℕ, none, some, Run, ok, fault, dangling, ◌>>=◌}
use synthetic_client.World.{World, store_conn}
use synthetic_client.Conn.{Conn}
use synthetic_client.Commands.{Config}
use synthetic_client.Memcache.{backend}
use synthetic_client.Server.Machine.{event_handler}

-- Closing has stored the connection, or freed it.
unfoldable pub put_back : ℕ → Conn × World → World
put_back p (c, w) = elim c.stats [ none ↦ w | some s ↦ store_conn w p (some c) ]

-- The connection is worked on, lines from backends being answered by `memcached_response`.
unfoldable pub on_event : ℕ → ℕ → Config → ℕ → ℕ → World → Run World
unfolding put_back
on_event turns fuel config fd p w = elim (w.conns p) [
  | none ↦ fault dangling
  | some c ↦ event_handler backend fuel config turns fd c w >>= λ r. ok (put_back p r)
]
