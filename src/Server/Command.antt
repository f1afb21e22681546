-- ===== src/Server/Command.antt =====
-- src/server.c: `read_command` takes a line off the input, and `process_command` has it answered.
pub mod Lines
use synthetic_client.Base.{
  ℕ, zero, suc, ◌+◌, ◌-◌, Bool, true, false, ◌&&◌, ◌||◌, not, ltb, ◌==◌, if◌then◌else◌, Option,
  none, some, List, [], ◌∷◌, bytes, codes, Run, ok, fault, out_of_bounds, assertion, ◌>>=◌,
}
use synthetic_client.Fsm.{conn_closing}
use synthetic_client.World.{World}
use synthetic_client.Conn.{Conn, ConnType, client_conn, memcached_conn, Input}
use synthetic_client.Conn.Event.{conn_set_state}
use synthetic_client.Conn.Iov.{conn_add_msghdr}
use synthetic_client.Commands.{Config}
use synthetic_client.Protocol.Parse.{parse_command}
use synthetic_client.Server.Response.{error_response, reset}

-- `memchr`: the place of the first such byte among `n` bytes.
unfoldable pub find_byte : ℕ → List ℕ → Option ℕ
find_byte b [] = none
find_byte b (c ∷ s) =
    let rest = find_byte b s in
    if c == b then some 0 else elim rest [ none ↦ none | some k ↦ some (k + 1) ]

-- The C string at the front of some bytes.
unfoldable pub until_nul : List ℕ → List ℕ
until_nul [] = []
until_nul (c ∷ s) = let rest = until_nul s in if c == 0 then [] else c ∷ rest

-- `while (*ptr == ' ') ++ptr;` over the `n` bytes up to the end of the buffer.
unfoldable pub leading_spaces : (ℕ → ℕ) → ℕ → ℕ → Run ℕ
leading_spaces f o zero = fault out_of_bounds
leading_spaces f o (suc n) = elim (f o == b' ') [
  | true ↦ leading_spaces f (o + 1) n >>= λ k. ok (k + 1)
  | false ↦ ok 0
]

-- `strncmp(ptr, s, n) == 0` for a text `s` of `n` bytes
unfoldable pub has_prefix : (ℕ → ℕ) → ℕ → List ℕ → Bool
has_prefix f o [] = true
has_prefix f o (c ∷ s) = (f o == c) && has_prefix f (o + 1) s

-- What the unparsed bytes begin with: no complete line, one that is too long not to be a `get`, or
-- a command and the number of bytes up to the end of its line.
pub data Line : Type 0 where
  incomplete too_long : Line
  complete : List ℕ → ℕ → Line

-- Without an end of line in more than 1024 bytes, this has to be a large multiget.
unfoldable pub no_line : Input → Run Line
unfolding leading_spaces has_prefix
no_line c =
    if ltb 1024 c.rbytes
    then (leading_spaces c.rbuf c.rcurr (c.rsize - c.rcurr) >>= λ k. ok (
        if ltb 100 k
          || (not (has_prefix c.rbuf (c.rcurr + k) (codes "get "))
              && not (has_prefix c.rbuf (c.rcurr + k) (codes "gets ")))
        then too_long
        else incomplete))
    else ok incomplete

-- A carriage return before the end of line belongs to it, unless it stands alone.
abbrev pub line_end : Input → ℕ → ℕ
line_end c el = if ltb 1 el && (c.rbuf (c.rcurr + el - 1) == 13) then el - 1 else el

unfoldable pub find_line : Input → Run Line
unfolding find_byte until_nul no_line
find_line c = elim (find_byte 10 (bytes c.rbuf c.rcurr c.rbytes)) [
  | none ↦ no_line c
  | some el ↦ ok (complete (until_nul (bytes c.rbuf c.rcurr (line_end c el))) (el + 1))
]

-- `!conn_add_msghdr(c) != 0` holds when it fails. The answer to a backend's line is an argument.
unfoldable pub process_command :
    (Conn → List ℕ → World → Run (Conn × World))
    → ℕ
    → Config
    → Conn
    → List ℕ
    → World
    → Run (Conn × World)
process_command backend fuel config c command w = conn_add_msghdr (reset c.output) w >>= λ r.
    let d = record c { output = r.1 } in
    if r.0
    then dispatch d.type d r.2
    else error_response d (codes "SERVER_ERROR out of memory preparing response") r.2
  where
    dispatch : ConnType → Conn → World → Run (Conn × World)
    dispatch client_conn c w = parse_command fuel config c command w >>= λ r.
        if r.0 then ok (r.1, r.2) else error_response r.1 (codes "ERROR") r.2
    dispatch memcached_conn c w = backend c command w

-- `rcurr` moves past the line. The NUL that is written over its ending is left out: what lies before
-- `rcurr` is looked at again only where a negative `sbytes` moves it back, and its content is then
-- that of the input here.
abbrev pub skip_line : Input → ℕ → Input
skip_line c n = record c { rcurr = c.rcurr + n; rbytes = c.rbytes - n }

-- False when more data is needed.
unfoldable pub read_command :
    (Conn → List ℕ → World → Run (Conn × World))
    → ℕ
    → Config
    → Conn
    → World
    → Run (Bool × Conn × World)
unfolding find_line process_command
read_command backend fuel config c w =
    if c.rbytes == 0 then fault assertion else find_line c.input >>= act
  where
    act : Line → Run (Bool × Conn × World)
    act incomplete = ok (false, c, w)
    act too_long = ok (true, conn_set_state c conn_closing, w)
    act (complete command n) = process_command backend fuel config c command w >>= λ r.
        ok (true, record (r.0) { input = skip_line r.0.input n }, r.1)
