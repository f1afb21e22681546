-- ===== src/Server/Transmit.antt =====
-- src/server.c: `transmit` hands the next message header to `sendmsg` and drops what was accepted.
pub mod Consume
pub mod Wire
pub mod Send
use synthetic_client.Base.{
  ℕ, zero, suc, ◌+◌, ◌-◌, Bool, true, false, none, ◌&&◌, ltb, leb, ◌==◌, if◌then◌else◌, update, Run,
  ok, fault, out_of_bounds, dangling, ◌>>=◌,
}
use synthetic_client.Fsm.{conn_closing}
use synthetic_client.World.{World, SendOutcome, sent, send_blocked, send_failed, after_send}
use synthetic_client.Conn.{Conn, Output, Ptr, Iovec, Msghdr, ev_write}
use synthetic_client.Conn.Event.{conn_set_state, conn_update_event}
use synthetic_client.Conn.Iov.{ptr_add}

pub data WriteResult : Type 0 where
  transmit_complete transmit_incomplete transmit_soft_error transmit_hard_error : WriteResult

-- The header being transmitted.
abbrev pub current : Output → Msghdr
current c = c.msglist c.msgcurr

-- Leave the current header if it is finished.
unfoldable pub next_msg : Output → Output
next_msg c =
    if ltb c.msgcurr c.msgused && ((current c).msg_iovlen == 0)
    then record c { msgcurr = c.msgcurr + 1 }
    else c

-- The `while` loop: with `n` elements left from number `k`, drop those that `res` bytes cover.
-- The result is the rest of `res`, the first element left, and how many are left.
unfoldable pub consume : (ℕ → Iovec) → ℕ → ℕ → ℕ → ℕ × ℕ × ℕ
consume iov k zero res = (res, k, 0)
consume iov k (suc n) res =
    if leb (iov k).iov_len res
    then consume iov (k + 1) n (res - (iov k).iov_len)
    else (res, k, suc n)

-- `m->msg_iov` moves past the first `res` bytes of the element.
unfoldable pub advanced : Iovec → ℕ → Iovec
advanced v res = record { iov_base = ptr_add v.iov_base res; iov_len = v.iov_len - res }

unfoldable pub settle : Output → ℕ × ℕ × ℕ → Output
settle c (res, k, n) = record c {
  msglist = update c.msglist c.msgcurr (record (current c) { msg_iov = k; msg_iovlen = n });
  iov = if ltb 0 res then update c.iov k (advanced (c.iov k) res) else c.iov;
}

unfoldable pub take_sent : Output → ℕ → Output
take_sent c res = settle c (consume c.iov (current c).msg_iov (current c).msg_iovlen res)

hard_error : Conn → World → WriteResult × Conn × World
hard_error c w = (transmit_hard_error, conn_set_state c conn_closing, w)

-- What follows `sendmsg`; a result of 0 is an error.
unfoldable pub after_sendmsg : Conn → SendOutcome → World → WriteResult × Conn × World
unfolding hard_error
after_sendmsg c (sent n) w =
    if ltb 0 n
    then (transmit_incomplete, record c { output = take_sent c.output n }, w)
    else hard_error c w
after_sendmsg c send_failed w = hard_error c w
after_sendmsg c send_blocked w =
    let (updated, d, v) = conn_update_event c ev_write w in
    if updated then (transmit_soft_error, d, v) else hard_error d v

unfoldable pub transmit : Conn → World → Run (WriteResult × Conn × World)
transmit c w =
    let o = next_msg c.output in
    let d = record c { output = o } in
    if ltb o.msgcurr o.msgused
    then (if (current o).block == o.iov_block
        then ok (after_sendmsg d (w.sends 0) (after_send w))
        else fault dangling)
    else ok (transmit_complete, d, w)
