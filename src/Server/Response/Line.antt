-- ===== src/Server/Response/Line.antt =====
-- What `error_response` makes the connection send.
use synthetic_client.Base.{
  ℕ, ◌+◌, ◌≤◌, ◌≡◌, refl, subst, inl, inr, ltb, List, ◌++◌, length, length-append, bytes,
  bytes-fill, fill, crlf, Returns, Bool-cases, arith, le→ltb,
}
use synthetic_client.Fsm.{conn_new_cmd, conn_write}
use synthetic_client.World.{World}
use synthetic_client.Conn.{Conn, Output}
use synthetic_client.Conn.Event.{conn_set_state}
use synthetic_client.Conn.Iov.Tiled.{IsBuilt, HasRoom}
use synthetic_client.Conn.Iov.Adds.{conn_add_msghdr_lem}
use synthetic_client.Server.Response.{reset, fitting, respond, responded, error_response}

-- Output without anything in it, ready for a new header.
pub reset-Built : (o : Output) → HasRoom o → IsBuilt (reset o)
reset-Built o h = record {
  room = omega arith;
  tiled = λ i _ k. absurd (omega arith);
  starts = refl;
  limited = λ e. absurd (omega arith);
}

-- A line of response is waiting in `wbuf`, over an output that is empty but for one header.
pub record Responds (str : List ℕ) (c : Conn) (r : Conn × World) : Type 0 where
  pub built : IsBuilt r.0.output
  pub header : r.0.msgused ≡ 1
  pub empty : r.0.iovused ≡ 0
  pub unsent : r.0.msgcurr ≡ 0
  pub line : bytes r.0.wbuf r.0.wcurr r.0.wbytes ≡ str ++ crlf
  pub state : r.0.state ≡ conn_write
  pub next : r.0.after_write ≡ conn_new_cmd
  pub input : r.0.input ≡ c.input

fitting-le : (wsize : ℕ) (str : List ℕ) → 64 ≤ wsize → length (fitting wsize str) + 2 ≤ wsize
fitting-le wsize str h = elim (Bool-cases (ltb wsize (length str + 2))) [
  | inl long ↦ rw long (omega arith)
  | inr short ↦ rw short (ground arith)
]

respond_lem :
    (c : Conn) (str : List ℕ) (w : World)
    → length str + 2 ≤ c.wsize
    → IsBuilt c.output
    → c.msgused ≡ 1
    → c.iovused ≡ 0
    → c.msgcurr ≡ 0
    → Returns (respond c str w) (Responds str c)
unfolding respond conn_set_state responded
respond_lem c str w h b one zero first = (
  (responded c str, w),
  rw (le→ltb c.wsize (length str + 2) h),
  record {
    built = b;
    header = one;
    empty = zero;
    unsent = first;
    line =
        subst (λ n. bytes (fill c.wbuf 0 (str ++ crlf)) 0 n ≡ str ++ crlf) (length-append str crlf)
          (bytes-fill c.wbuf 0 (str ++ crlf));
    state = refl;
    next = refl;
    input = refl;
  },
)

-- With a write buffer of at least 64 bytes, `error_response` does not fault. The connection is left
-- to write the line, or the stock line where it does not fit, ended by CR LF, over an output that
-- is emptied; after it the next command is read. The input is untouched.
pub error_response-Responds :
    (c : Conn) (str : List ℕ) (w : World)
    → HasRoom c.output
    → 64 ≤ c.wsize
    → Returns (error_response c str w) (Responds (fitting c.wsize str) c)
unfolding error_response
error_response-Responds c str w room size =
    let (r, run, (k, added, refused)) =
      conn_add_msghdr_lem (λ _ _. 0) (reset c.output) w (reset-Built c.output room) in
    elim (Bool-cases r.0) [
      | inr failed ↦ absurd (omega (arith, (refused failed).1))
      | inl done ↦
          let d = record c { output = r.1 } in
          let (q, run', p) =
            respond_lem d (fitting c.wsize str) r.2 (fitting-le c.wsize str size) k.built
              (added done).0 k.places k.current in
          (
            q,
            rw run run',
            record {
              built = p.built;
              header = p.header;
              empty = p.empty;
              unsent = p.unsent;
              line = p.line;
              state = p.state;
              next = p.next;
              input = p.input;
            },
          )
    ]
