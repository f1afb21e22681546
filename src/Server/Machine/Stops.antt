-- ===== src/Server/Machine/Stops.antt =====
-- Each state of the machine stops only where the connection may wait.
use synthetic_client.Base.{
  ℕ, zero, suc, ◌+◌, ◌≡◌, refl, sym, ap, ◌∙◌, subst, inl, inr, ltb, leb, ◌==◌, if◌then◌else◌, none,
  some, [], ◌∷◌, length, min, codes, IfOk, IfOk->>=, Bool-cases, arith,
}
use synthetic_client.Base.Int.{ℤ, pos, negsuc, is_zero}
use synthetic_client.Fsm.{
  ConnStates, conn_listening, conn_new_cmd, conn_read_value, conn_write, conn_closing,
}
use synthetic_client.World.{
  World, rest, ReadOutcome, SendOutcome, sent, send_blocked, send_failed, received, AcceptOutcome,
  accepted, unusable, accept_failed, end_of_stream, would_block, read_failed, after_send,
  after_read,
}
use synthetic_client.Conn.{Conn, ev_none, ev_read, ev_write}
use synthetic_client.Conn.Event.{conn_set_state, conn_update_event, conn_update_event_t}
use synthetic_client.Threads.{dispatch_conn_new}
use synthetic_client.Commands.{Config}
use synthetic_client.Conn.Iov.{conn_add_iov}
use synthetic_client.Server.Transmit.{
  transmit_complete, transmit_incomplete, transmit_hard_error, WriteResult, transmit_soft_error,
  next_msg, current, after_sendmsg, transmit,
}
use synthetic_client.Server.States.{
  on_listening, after_accept, on_new_cmd, on_waiting, on_read, on_read_value, on_swallow, on_write,
  on_mwrite, on_timeout, on_closing, after_transmit, written_out, age_blob, wbuf_ptr, swallow_input,
  swallow_read, after_swallow_read, after_network,
}
use synthetic_client.Server.Read.{
  ReadResult, read_data_received, read_no_data_received, read_error, read_memory_error,
  read_network,
}
use synthetic_client.Server.Response.{error_response}
use synthetic_client.Conn.Close.{conn_close, stats_of}
use synthetic_client.Server.Machine.Parked.{
  ParkedIn, IsParked, IsClosed, Stops, age_blob-state, update_fails, update_lem, if_updated-Stops,
  updated_in,
}

-- A blocked socket.
abbrev Soft : Conn → WriteResult × Conn × World → Type 0
Soft c r = r.0 ≡ transmit_soft_error → (r.1.ev_flags ≡ ev_write) × (r.1.state ≡ c.state)

after_sendmsg-Soft : (c : Conn) (s : SendOutcome) (w : World) → Soft c (after_sendmsg c s w)
unfolding after_sendmsg conn_update_event
after_sendmsg-Soft c (sent n) w = ground arith
after_sendmsg-Soft c send_failed w = ground arith
after_sendmsg-Soft c send_blocked w = ground (arith, update_lem c ev_write none w)

transmit-Soft : (c : Conn) (w : World) → IfOk (Soft c) (transmit c w)
unfolding transmit
transmit-Soft c w =
    let o = next_msg c.output in
    elim (Bool-cases (ltb o.msgcurr o.msgused)) [
      | inr finished ↦ rw finished (λ e. cc)
      | inl busy ↦ elim (Bool-cases ((current o).block == o.iov_block)) [
        | inl block ↦
            rw (busy, block)
              (after_sendmsg-Soft (record c { output = o }) (w.sends 0) (after_send w))
        | inr stale ↦ rw (busy, stale) tt
      ]
    ]

after_transmit-Stops :
    (s : ConnStates) (n : ℕ) (c : Conn) (r : WriteResult × Conn × World)
    → ((d : Conn) → d.ev_flags ≡ ev_write → ParkedIn s d)
    → c.state ≡ s
    → Soft c r
    → IfOk (Stops IsParked) (after_transmit n r)
unfolding after_transmit
after_transmit-Stops s n c (transmit_complete, d, w) h e soft =
    IfOk->>= (Stops IsParked) (written_out d.state d) _ λ r _. tt
after_transmit-Stops s n c (transmit_incomplete, d, w) h e soft = tt
after_transmit-Stops s n c (transmit_hard_error, d, w) h e soft = tt
after_transmit-Stops s n c (transmit_soft_error, d, w) h e soft =
    subst (λ t. ParkedIn t d) (sym ((soft refl).1 ∙ e)) (h d (soft refl).0)

pub on_mwrite-Stops :
    (s : ConnStates) (n : ℕ) (c : Conn) (w : World)
    → ((d : Conn) → d.ev_flags ≡ ev_write → ParkedIn s d)
    → c.state ≡ s
    → IfOk (Stops IsParked) (on_mwrite n c w)
unfolding on_mwrite
on_mwrite-Stops s n c w h e =
    IfOk->>= (Stops IsParked) (transmit c w) _
      λ r run. after_transmit-Stops s n c r h e (subst (IfOk (Soft c)) run (transmit-Soft c w))

pub on_write-Stops :
    (config : Config) (n : ℕ) (c : Conn) (w : World)
    → c.state ≡ conn_write
    → IfOk (Stops IsParked) (on_write config n c w)
unfolding on_write
on_write-Stops config n c w e = elim (Bool-cases (c.iovused == 0)) [
  | inr built ↦ rw built (on_mwrite-Stops conn_write n c w (λ d f. f) e)
  | inl empty ↦ rw empty (
      IfOk->>= (Stops IsParked) (conn_add_iov config.iov_max c.output (wbuf_ptr c) c.wbytes w) _
        λ r run. elim (Bool-cases r.0) [
          | inl added ↦
              rw added (on_mwrite-Stops conn_write n (record c { output = r.1 }) r.2 (λ d f. f) e)
          | inr failed ↦ rw failed tt
        ])
]

pub on_new_cmd-Stops :
    (n : ℕ) (c : Conn) (w : World) → c.state ≡ conn_new_cmd → Stops IsParked (on_new_cmd n c w)
unfolding on_new_cmd
on_new_cmd-Stops (suc n) c w e = tt
on_new_cmd-Stops zero c w e =
    updated_in conn_new_cmd (age_blob c) _ 0 w (age_blob-state c ∙ e)
      (λ d flags input. flags ∙ ap (λ i. if ltb 0 i.rbytes then ev_write else ev_read) (sym input))

-- The states that swallow input stop only when the socket is blocked.
pub swallow-Stops :
    (s : ConnStates) (n : ℕ) (c : Conn) (w : World)
    → ((d : Conn) → d.ev_flags ≡ ev_read → ParkedIn s d)
    → c.state ≡ s
    → IfOk (Stops IsParked) (on_swallow n c w)
unfolding on_swallow swallow_input after_swallow_read swallow_read
swallow-Stops s n c w h e = elim (Bool-cases (is_zero c.sbytes)) [
  | inl done ↦ rw done tt
  | inr more ↦ elim (Bool-cases (ltb 0 c.rbytes)) [
    | inl some_input ↦ rw (more, some_input) (input-Stops c.sbytes)
    | inr no_input ↦ rw (more, no_input) (read-Stops c.sbytes)
  ]
]
  where
    input-Stops : (k : ℤ) → IfOk (Stops IsParked) (swallow_input n k c w)
    input-Stops (pos k) = tt
    input-Stops (negsuc k) = elim (Bool-cases (leb (k + 1) c.rcurr)) [
      | inl inside ↦ rw inside tt
      | inr outside ↦ rw outside tt
    ]

    after-Stops :
        (k avail : ℕ) (out : ReadOutcome) (v : World)
        → IfOk (Stops IsParked) (after_swallow_read n k avail c out v)
    after-Stops k avail (received []) v = tt
    after-Stops k avail (received (b ∷ bs)) v = elim (Bool-cases (ltb avail (length (b ∷ bs)))) [
      | inl over ↦ rw over tt
      | inr within ↦ rw within tt
    ]
    after-Stops k avail end_of_stream v = tt
    after-Stops k avail would_block v = updated_in s c ev_read n v e (λ d f _. h d f)
    after-Stops k avail read_failed v = tt

    read-Stops : (k : ℤ) → IfOk (Stops IsParked) (swallow_read n k c w)
    read-Stops (pos k) = after-Stops k (min c.rsize k) (w.reads 0 (min c.rsize k)) (after_read w)
    read-Stops (negsuc k) = tt

pub on_read_value-Stops :
    (n : ℕ) (c : Conn) (w : World)
    → c.state ≡ conn_read_value
    → IfOk (Stops IsParked) (on_read_value n c w)
unfolding on_read_value
on_read_value-Stops n c w e = elim (Bool-cases (is_zero c.sbytes)) [
  | inl done ↦ rw done (IfOk->>= (Stops IsParked) (error_response c (codes "STORED") w) _ λ r _. tt)
  | inr more ↦ rw more (swallow-Stops conn_read_value n c w (λ d f. f) e)
]

pub on_read-Stops : (n : ℕ) (c : Conn) (w : World) → IfOk (Stops IsParked) (on_read n c w)
unfolding on_read after_network
on_read-Stops n c w =
    IfOk->>= (Stops IsParked) (read_network c.input w) _
      λ r _. network (record c { input = r.1 }) r.0 r.2
  where
    network :
        (d : Conn) (q : ReadResult) (v : World) → IfOk (Stops IsParked) (after_network n d q v)
    network d read_no_data_received v = tt
    network d read_data_received v = tt
    network d read_error v = tt
    network d read_memory_error v = IfOk->>= (Stops IsParked) (error_response _ _ v) _ λ r _. tt

pub on_listening-Stops :
    (n : ℕ) (c : Conn) (w : World)
    → c.state ≡ conn_listening
    → IfOk (Stops IsParked) (on_listening n c w)
unfolding on_listening after_accept
on_listening-Stops n c w e = after (w.accepts 0) (record w { accepts = rest w.accepts })
  where
    here : IsParked c
    here = subst (λ s. ParkedIn s c) (sym e) tt

    after : (a : AcceptOutcome) (v : World) → IfOk (Stops IsParked) (after_accept n c a v)
    after accept_failed v = here
    after (unusable sfd) v = tt
    after (accepted sfd) v = IfOk->>= (Stops IsParked) (dispatch_conn_new _ _ _ _ v) _ λ r _. here

pub on_waiting-Stops : (n : ℕ) (c : Conn) (w : World) → Stops IsParked (on_waiting n c w)
unfolding on_waiting conn_update_event conn_set_state
on_waiting-Stops n c w =
    if_updated-Stops IsParked (conn_update_event_t c ev_read none w) n _
      (λ done. (update_lem c ev_read none w).0 done)

pub on_timeout-Stops : (c : Conn) (w : World) → Stops IsParked (on_timeout c w)
unfolding on_timeout conn_set_state
on_timeout-Stops c w =
    let d = record c { old_ev_flags = c.ev_flags } in
    elim (Bool-cases (conn_update_event_t d ev_none (some d.timeout) w).0) [
      | inl done ↦ rw done ((update_lem d ev_none (some d.timeout) w).0 done)
      | inr failed ↦
          let (armed, kept) = update_fails d ev_none (some d.timeout) w failed in
          rw failed (inr (λ e. armed (sym kept ∙ e)))
    ]

close_state :
    (c : Conn) (w : World) → IfOk (λ r. (r.0.state ≡ c.state) × IsClosed r.0) (conn_close c w)
unfolding conn_close
close_state c w =
    IfOk->>= (λ r. (r.0.state ≡ c.state) × IsClosed r.0) (stats_of c w) _
      λ p _. (refl, (refl, refl, refl))

pub on_closing-Stops :
    (c : Conn) (w : World) → c.state ≡ conn_closing → IfOk (Stops IsParked) (on_closing c w)
unfolding on_closing
on_closing-Stops c w e = IfOk->>= (Stops IsParked) (conn_close c w) _ λ r run.
    let (same, closed) =
      subst (IfOk (λ r. (r.0.state ≡ c.state) × IsClosed r.0)) run (close_state c w) in
    subst (λ s. ParkedIn s r.0) (sym (same ∙ e)) (inl closed)
