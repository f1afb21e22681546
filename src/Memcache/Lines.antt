-- ===== src/Memcache/Lines.antt =====
-- Lines from a backend, and what they lead to.
use synthetic_client.Base.{ℕ, ◌≡◌, refl, some, List, ◌∷◌, codes, ok, true, Returns, ◌>>=◌}
use synthetic_client.Fsm.{conn_new_cmd}
use synthetic_client.World.{World}
use synthetic_client.Conn.{Conn}
use synthetic_client.Protocol.Tokenize.{tokenize_command}
use synthetic_client.Memcache.{process_miss_response, memcached_response, backend}
use synthetic_client.Memcache.Calls.{IsBackend}
use synthetic_client.Memcache.Session.{Gives, process_miss_response-Gives}

-- The line "END" is tokenized as one word and its end.
memcached_response-end :
    (mc : Conn) (w : World)
    → memcached_response mc (codes "END") w
      ≡ (process_miss_response mc w >>= λ (d, v). ok (true, d, v))
unfolding memcached_response tokenize_command
memcached_response-end mc w = refl

-- The line "END" from a backend is handled as a miss: it answers the client that asked first.
pub backend-end :
    (elsewhere : ℕ → ℕ) (mc : Conn) (p : ℕ) (c : Conn) (ps : List ℕ) (w : World)
    → IsBackend elsewhere mc w (p ∷ ps)
    → w.conns p ≡ some c
    → Returns
        (backend mc (codes "END") w)
        (λ r. Gives elsewhere p c ps w r × (r.0.state ≡ conn_new_cmd))
unfolding backend
backend-end elsewhere mc p c ps w b stored =
    let (r, run, x) = process_miss_response-Gives elsewhere mc p c ps w b stored in
    (r, rw (memcached_response-end mc w, run) refl, x)
