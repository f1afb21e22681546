-- ===== src/Server/States.antt =====
-- src/server.c: what `drive_machine` does in each state of a connection.
pub mod Swallow
pub mod Value
use synthetic_client.Base.{
  ℕ, zero, suc, ◌+◌, ◌-◌, Bool, true, false, ltb, leb, ◌==◌, if◌then◌else◌, Option, none, some,
  List, [], ◌∷◌, length, fill, min, codes, Run, ok, fault, out_of_bounds, ◌>>=◌,
}
use synthetic_client.Base.Int.{ℤ, pos, negsuc, is_zero}
use synthetic_client.Fsm.{
  ConnStates, conn_new_cmd, conn_waiting, conn_read, conn_parse_cmd, conn_write, conn_mwrite,
  conn_timeout_post, conn_closing,
}
use synthetic_client.World.{
  World, AcceptOutcome, accepted, unusable, accept_failed, ReadOutcome, received, end_of_stream,
  would_block, read_failed, rest, after_read,
}
use synthetic_client.Conn.{Conn, data_buffer_size, ev_none, ev_read, ev_write, Ptr, own_wbuf}
use synthetic_client.Threads.{dispatch_conn_new}
use synthetic_client.Conn.Event.{
  conn_set_state, conn_set_held_state, conn_update_event, conn_update_event_t,
}
use synthetic_client.Conn.Close.{conn_close}
use synthetic_client.Conn.Iov.{conn_add_iov}
use synthetic_client.Commands.{Config, finish_get_command}
use synthetic_client.Server.Transmit.{
  WriteResult, transmit_complete, transmit_incomplete, transmit_soft_error, transmit_hard_error,
  transmit,
}
use synthetic_client.Server.Read.{
  ReadResult, read_data_received, read_no_data_received, read_error, read_memory_error,
  read_network,
}
use synthetic_client.Server.Response.{error_response}
use synthetic_client.Server.Command.{read_command}

-- How a turn of the loop ends: it goes on, with the requests that are left, or it stops.
pub data Turn : Type 0 where
  next : ℕ → Conn → World → Turn
  stop : Conn → World → Turn

abbrev pub closing : ℕ → Conn → World → Turn
closing n c w = next n (conn_set_state c conn_closing) w

-- `if (!conn_update_event(c, flags)) { conn_set_state(c, conn_closing); break; }`
abbrev pub if_updated : Bool × Conn × World → ℕ → (Conn → World → Turn) → Turn
if_updated (true, c, w) n k = k c w
if_updated (false, c, w) n k = closing n c w

unfoldable pub after_accept : ℕ → Conn → AcceptOutcome → World → Run Turn
after_accept n c accept_failed w = ok (stop c w)
after_accept n c (unusable sfd) w = ok (next n c w)
after_accept n c (accepted sfd) w =
    dispatch_conn_new sfd conn_new_cmd ev_read data_buffer_size w >>= λ v. ok (stop c v)

unfoldable pub on_listening : ℕ → Conn → World → Run Turn
on_listening n c w = after_accept n c (w.accepts 0) (record w { accepts = rest w.accepts })

-- The block of an earlier request is freed, or is one request nearer to it.
unfoldable pub age_blob : Conn → Conn
age_blob c = aged c.mem_blob c.mem_free_delay
  where
    aged : Option ℕ → ℤ → Conn
    aged (some size) (pos zero) = record c { mem_blob = none }
    aged none (pos zero) = c
    aged blob (pos (suc n)) = record c { mem_free_delay = pos n }
    aged blob (negsuc n) = c

-- `conn_shrink` does nothing.
unfoldable pub reset_cmd_handler : Conn → Conn
reset_cmd_handler c =
    let d = record c { cmd = negsuc 0 } in
    if ltb 0 c.rbytes then conn_set_state d conn_parse_cmd else conn_set_state d conn_waiting

-- With no request left the connection waits its turn: for a write event if there is input left.
unfoldable pub on_new_cmd : ℕ → Conn → World → Turn
unfolding age_blob reset_cmd_handler
on_new_cmd (suc n) c w = next n (reset_cmd_handler (age_blob c)) w
on_new_cmd zero c w =
    let d = age_blob c in
    if_updated (conn_update_event d (if ltb 0 d.rbytes then ev_write else ev_read) w) 0 stop

unfoldable pub on_waiting : ℕ → Conn → World → Turn
on_waiting n c w =
    if_updated (conn_update_event c ev_read w) n λ d v. stop (conn_set_state d conn_read) v

unfoldable pub after_network : ℕ → Conn → ReadResult → World → Run Turn
after_network n c read_no_data_received w = ok (next n (conn_set_state c conn_waiting) w)
after_network n c read_data_received w = ok (next n (conn_set_state c conn_parse_cmd) w)
after_network n c read_error w = ok (closing n c w)
after_network n c read_memory_error w =
    error_response (record c { input = record (c.input) { rbytes = 0 } })
      (codes "SERVER_ERROR out of memory reading request") w
    >>= λ r. ok (next n (record (r.0) { after_write = conn_closing }) r.1)

unfoldable pub on_read : ℕ → Conn → World → Run Turn
on_read n c w = read_network c.input w >>= λ r. after_network n (record c { input = r.1 }) r.0 r.2

unfoldable pub on_parse_cmd :
    (Conn → List ℕ → World → Run (Conn × World)) → ℕ → Config → ℕ → Conn → World → Run Turn
on_parse_cmd backend fuel config n c w = read_command backend fuel config c w >>= λ r.
    ok (next n (if r.0 then r.1 else conn_set_state r.1 conn_waiting) r.2)

-- A negative number of bytes to swallow would move `rcurr` back.
unfoldable pub swallow_input : ℕ → ℤ → Conn → World → Run Turn
swallow_input n (pos sbytes) c w =
    let k = min c.rbytes sbytes in
    let i = record (c.input) { rcurr = c.rcurr + k; rbytes = c.rbytes - k } in
    ok (next n (record c { sbytes = pos (sbytes - k); input = i }) w)
swallow_input n (negsuc k) c w =
    let i = record (c.input) { rcurr = c.rcurr - (k + 1); rbytes = c.rbytes + (k + 1) } in
    if leb (k + 1) c.rcurr
    then ok (next n (record c { sbytes = pos 0; input = i }) w)
    else fault out_of_bounds

-- What follows `read` of at most `avail` bytes into the start of the buffer.
unfoldable pub after_swallow_read : ℕ → ℕ → ℕ → Conn → ReadOutcome → World → Run Turn
after_swallow_read n sbytes avail c (received []) w = ok (closing n c w)
after_swallow_read n sbytes avail c (received (b ∷ bs)) w =
    if ltb avail (length (b ∷ bs))
    then fault out_of_bounds
    else let i = record (c.input) { rbuf = fill c.rbuf 0 (b ∷ bs) } in
      ok (next n (record c { sbytes = pos (sbytes - length (b ∷ bs)); input = i }) w)
after_swallow_read n sbytes avail c end_of_stream w = ok (closing n c w)
after_swallow_read n sbytes avail c would_block w =
    ok (if_updated (conn_update_event c ev_read w) n stop)
after_swallow_read n sbytes avail c read_failed w = ok (closing n c w)

-- A negative count is past the end of the buffer for `read`.
unfoldable pub swallow_read : ℕ → ℤ → Conn → World → Run Turn
swallow_read n (pos sbytes) c w =
    let avail = min c.rsize sbytes in
    after_swallow_read n sbytes avail c (w.reads 0 avail) (after_read w)
swallow_read n (negsuc k) c w = fault out_of_bounds

unfoldable pub on_swallow : ℕ → Conn → World → Run Turn
on_swallow n c w =
    if is_zero c.sbytes
    then ok (next n (conn_set_state c conn_new_cmd) w)
    else if ltb 0 c.rbytes
    then swallow_input n c.sbytes c w
    else swallow_read n c.sbytes c w

unfoldable pub on_read_value : ℕ → Conn → World → Run Turn
on_read_value n c w =
    if is_zero c.sbytes
    then (error_response c (codes "STORED") w >>= λ r. ok (next n r.0 r.1))
    else on_swallow n c w

unfoldable pub on_rpc_wait : ℕ → Conn → World → Turn
on_rpc_wait n c w = if_updated (conn_update_event c ev_none w) n stop

unfoldable pub on_rpc_done : Config → ℕ → Conn → World → Run Turn
on_rpc_done config n c w = finish_get_command config c w >>= λ r. ok (next n r.0 r.1)

-- All items are released; `item_remove` does nothing.
abbrev pub release_items : Conn → Conn
release_items c = record c { icurr = c.icurr + c.ileft; ileft = 0 }

unfoldable pub written_out : ConnStates → Conn → Run Conn
written_out conn_mwrite c = ok (conn_set_state (release_items c) conn_new_cmd)
written_out conn_write c = conn_set_held_state c c.after_write
written_out _ c = ok (conn_set_state c conn_closing)

unfoldable pub after_transmit : ℕ → WriteResult × Conn × World → Run Turn
unfolding written_out
after_transmit n (transmit_complete, c, w) = written_out c.state c >>= λ d. ok (next n d w)
after_transmit n (transmit_incomplete, c, w) = ok (next n c w)
after_transmit n (transmit_hard_error, c, w) = ok (next n c w)
after_transmit n (transmit_soft_error, c, w) = ok (stop c w)

unfoldable pub on_mwrite : ℕ → Conn → World → Run Turn
on_mwrite n c w = transmit c w >>= after_transmit n

abbrev pub wbuf_ptr : Conn → Ptr
wbuf_ptr c = record { region = own_wbuf; offset = c.wcurr }

-- The response in `wbuf` becomes the output, if that is not done yet.
unfoldable pub on_write : Config → ℕ → Conn → World → Run Turn
on_write config n c w =
    if c.iovused == 0
    then (conn_add_iov config.iov_max c.output (wbuf_ptr c) c.wbytes w >>= λ r.
        let d = record c { output = r.1 } in
        if r.0 then on_mwrite n d r.2 else ok (closing n d r.2))
    else on_mwrite n c w

unfoldable pub on_timeout : Conn → World → Turn
on_timeout c w =
    let d = record c { old_ev_flags = c.ev_flags } in
    let (updated, e, v) = conn_update_event_t d ev_none (some d.timeout) w in
    stop (conn_set_state e (if updated then conn_timeout_post else conn_closing)) v

unfoldable pub on_timeout_post : ℕ → Conn → World → Run Turn
on_timeout_post n c w = conn_set_held_state c c.after_timeout >>= λ d.
    ok (if_updated (conn_update_event d d.old_ev_flags w) n (next n))

unfoldable pub on_closing : Conn → World → Run Turn
on_closing c w = conn_close c w >>= λ r. ok (stop r.0 r.1)
