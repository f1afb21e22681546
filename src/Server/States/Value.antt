-- ===== src/Server/States/Value.antt =====
-- src/server.c: the state `conn_read_value` throws the value away and then answers.
use synthetic_client.Base.{
  ℕ, zero, suc, ◌+◌, ◌-◌, ◌≤◌, ◌≡◌, refl, ap, ◌∙◌, true, min, List, drop, codes, ok, Run, Returns,
  ◌>>=◌, arith, ltb, if◌then◌else◌,
}
use synthetic_client.Base.Int.{ℤ, pos, is_zero}
use synthetic_client.World.{World}
use synthetic_client.Conn.{Conn}
use synthetic_client.Fsm.{conn_read_value}
use synthetic_client.Commands.{Config}
use synthetic_client.Server.Machine.{turn}
use synthetic_client.Conn.Iov.Tiled.{HasRoom}
use synthetic_client.Server.Read.Stream.{unparsed, HasBounds, WellBehaved}
use synthetic_client.Server.Response.{error_response, fitting}
use synthetic_client.Server.Response.Line.{Responds, error_response-Responds}
use synthetic_client.Server.States.{Turn, next, stop, on_swallow, on_read_value, swallow_input}
use synthetic_client.Server.States.Swallow.{Swallows, on_swallow-Swallows, drop-bytes, with_sbytes}

-- With `s` bytes of the value still to come: how a turn may end.
abbrev pub ReadsValue : ℕ → Conn → World → Turn → Type 0
ReadsValue zero c w (next n d v) = Responds (fitting c.wsize (codes "STORED")) c (d, v)
ReadsValue zero c w (stop d v) = ⊥
ReadsValue (suc s) c w t = Swallows (suc s) c w t

-- The state, by what `sbytes` is.
by_sbytes :
    (n : ℕ) (z : ℤ) (c : Conn) (w : World)
    → c.sbytes ≡ z
    → on_read_value n c w ≡ (
        if is_zero z
        then (error_response c (codes "STORED") w >>= λ r. ok (next n r.0 r.1))
        else on_swallow n c w)
unfolding on_read_value
by_sbytes n z c w e =
    ap
      (λ y.
        if is_zero y
        then (error_response c (codes "STORED") w >>= λ r. ok (next n r.0 r.1))
        else on_swallow n c w)
      e

-- A turn in `conn_read_value` does not fault. "STORED" is answered when no byte of the value is
-- still to come, and not before; until then bytes are thrown away as they are in `conn_swallow`.
pub on_read_value-ReadsValue :
    (n s : ℕ) (c : Conn) (w : World)
    → HasBounds c.input
    → c.sbytes ≡ pos s
    → WellBehaved w
    → HasRoom c.output
    → 64 ≤ c.wsize
    → Returns (on_read_value n c w) (ReadsValue s c w)
on_read_value-ReadsValue n zero c w b e v room size =
    let (r, run, p) = error_response-Responds c (codes "STORED") w room size in
    (next n r.0 r.1, by_sbytes n (pos 0) c w e ∙ rw run refl, p)
on_read_value-ReadsValue n (suc s) c w b e v room size =
    let (t, run, p) = on_swallow-Swallows n (suc s) c w b e v in
    (t, by_sbytes n (pos (suc s)) c w e ∙ run, p)

-- The value is stored: the client is answered, and the input goes on behind the value.
abbrev pub Stores : ℕ → Conn → Turn → Type 0
Stores s c (next n d v) =
    (unparsed d.input ≡ drop s (unparsed c.input))
    × ((e : Conn) × Responds (fitting c.wsize (codes "STORED")) e (d, v))
Stores s c (stop d v) = ⊥

module _ (backend : Conn → List ℕ → World → Run (Conn × World)) (fuel : ℕ) (config : Config) where
  -- The turn after a turn that goes on, in the state that this has left.
  abbrev pub again : Turn → Run Turn
  again (next n d v) = turn backend fuel config d.state n d v
  again (stop d v) = ok (stop d v)

  reads_value :
      (n : ℕ) (c : Conn) (w : World)
      → c.state ≡ conn_read_value
      → turn backend fuel config c.state n c w ≡ on_read_value n c w
  unfolding turn
  reads_value n c w e = ap (λ s. turn backend fuel config s n c w) e

  -- In `conn_read_value`, a value that is in the input buffer as a whole is stored within two turns of
  -- the state machine: the client is answered with "STORED", and the input goes on behind the value.
  pub on_read_value-Stores :
      (n s : ℕ) (c : Conn) (w : World)
      → c.state ≡ conn_read_value
      → c.sbytes ≡ pos (suc s)
      → suc s ≤ c.rbytes
      → HasRoom c.output
      → 64 ≤ c.wsize
      → Returns (turn backend fuel config c.state n c w >>= again) (Stores (suc s) c)
  unfolding swallow_input unparsed
  on_read_value-Stores n s c w state e whole room size =
      let some_bytes : ltb 0 c.rbytes ≡ true = ground (arith, whole) in
      let all : min c.rbytes (suc s) ≡ suc s = omega (arith, whole) in
      let left : suc s - suc s ≡ 0 = omega arith in
      let d = record c {
        sbytes = pos 0;
        input = record (c.input) { rcurr = c.rcurr + suc s; rbytes = c.rbytes - suc s };
      } in
      let first : on_read_value n c w ≡ ok (next n d w) =
        by_sbytes n (pos (suc s)) c w e
        ∙ with_sbytes n (pos (suc s)) c w e
        ∙ rw (some_bytes, all, left) refl in
      let (r, run, p) = error_response-Responds d (codes "STORED") w room size in
      (
        next n r.0 r.1,
        ap (λ r. r >>= again) (reads_value n c w state ∙ first)
            ∙ reads_value n d w state
            ∙ by_sbytes n (pos 0) d w refl
            ∙ rw run refl,
        (ap unparsed p.input ∙ drop-bytes c.rbuf c.rcurr c.rbytes (suc s) whole, (d, p)),
      )
