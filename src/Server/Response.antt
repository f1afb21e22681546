-- ===== src/Server/Response.antt =====
-- src/server.c: `error_response` answers with one line in place of any output so far.
pub mod Line
use synthetic_client.Base.{
  ℕ, ◌+◌, ltb, if◌then◌else◌, List, ◌++◌, length, fill, codes, crlf, Run, ok, fault, out_of_bounds,
  ◌>>=◌,
}
use synthetic_client.Fsm.{conn_new_cmd, conn_write}
use synthetic_client.World.{World}
use synthetic_client.Conn.{Conn, Output}
use synthetic_client.Conn.Event.{conn_set_state}
use synthetic_client.Conn.Iov.{conn_add_msghdr}

abbrev pub reset : Output → Output
reset o = record o { msgcurr = 0; msgused = 0; iovused = 0 }

abbrev pub too_long : List ℕ
too_long = codes "SERVER_ERROR output line too long"

abbrev pub fitting : ℕ → List ℕ → List ℕ
fitting wsize str = if ltb wsize (length str + 2) then too_long else str

pub responded : Conn → List ℕ → Conn
responded c str = record (conn_set_state c conn_write) {
  wbuf = fill c.wbuf 0 (str ++ crlf);
  wbytes = length str + 2;
  wcurr = 0;
  after_write = conn_new_cmd;
}

pub respond : Conn → List ℕ → World → Run (Conn × World)
unfolding responded
respond c str w =
    if ltb c.wsize (length str + 2) then fault out_of_bounds else ok (responded c str, w)

-- The result of `conn_add_msghdr` is not looked at, as in the source.
unfoldable pub error_response : Conn → List ℕ → World → Run (Conn × World)
error_response c str w = conn_add_msghdr (reset c.output) w >>= λ r.
    respond (record c { output = r.1 }) (fitting c.wsize str) r.2
