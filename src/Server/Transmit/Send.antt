-- ===== src/Server/Transmit/Send.antt =====
-- `transmit` sends the bytes of the output in order, each once.
use synthetic_client.Base.{
  ◌≢◌, ℕ, zero, suc, ◌-◌, ◌≤◌, ◌<◌, ◌≡◌, refl, sym, ap, subst, ◌∙◌, inl, inr, false, ltb,
  if◌then◌else◌, bytes, length, take, List, [], ◌++◌, append_assoc, append-nil, Bool-cases, arith,
  ok, Returns, lt→ltb, ==_iff, ok-injective,
}
use synthetic_client.Fsm.{conn_closing}
use synthetic_client.World.{World, SendOutcome, sent, send_blocked, send_failed, after_send}
use synthetic_client.Conn.{Conn, Output}
use synthetic_client.Conn.Event.{conn_set_state, conn_update_event}
use synthetic_client.Conn.Iov.Tiled.{IsBuilt}
use synthetic_client.Conn.Iov.Payload.{Memory, payload, written}
use synthetic_client.Server.Transmit.{
  WriteResult, transmit_complete, transmit_incomplete, transmit_hard_error, current, next_msg,
  take_sent, after_sendmsg, transmit,
}
use synthetic_client.Server.Transmit.Wire.{
  IsSending, unsent, offered, next_msg-Sending, unsent-next_msg, take_sent_lem,
}

-- The bytes that the kernel takes.
abbrev pub accepted : SendOutcome → ℕ
accepted (sent n) = n
accepted send_blocked = 0
accepted send_failed = 0

abbrev pub on_wire : Memory → Conn → World → List ℕ
on_wire mem c w =
    let o = next_msg c.output in
    if ltb o.msgcurr o.msgused then take (accepted (w.sends 0)) (offered mem o) else []

-- `sendmsg` takes no more than it is offered.
abbrev pub Accepts : Memory → Conn → World → Type 0
Accepts mem c w = accepted (w.sends 0) ≤ length (offered mem (next_msg c.output))

pub record Transmits (mem : Memory) (c : Conn) (w : World) (r : WriteResult × Conn × World)
    : Type 0 where
  pub sending : IsSending r.1.output
  pub order : unsent mem c.output ≡ on_wire mem c w ++ unsent mem r.1.output
  pub complete : r.0 ≡ transmit_complete → unsent mem r.1.output ≡ []
  pub progress : r.0 ≡ transmit_incomplete → 0 < accepted (w.sends 0)
  pub broken : r.0 ≡ transmit_hard_error → r.1.state ≡ conn_closing

after_sendmsg-output :
    (c : Conn) (s : SendOutcome) (w : World)
    → (after_sendmsg c s w).1.output
      ≡ (if ltb 0 (accepted s) then take_sent c.output (accepted s) else c.output)
unfolding after_sendmsg conn_update_event conn_set_state
after_sendmsg-output c (sent n) w = ground arith
after_sendmsg-output c send_blocked w = ground arith
after_sendmsg-output c send_failed w = ground arith

after_sendmsg-result :
    (c : Conn) (s : SendOutcome) (w : World)
    → let r = after_sendmsg c s w in
      (r.0 ≢ transmit_complete)
      × (r.0 ≡ transmit_incomplete → 0 < accepted s)
      × (r.0 ≡ transmit_hard_error → r.1.state ≡ conn_closing)
unfolding after_sendmsg conn_update_event conn_set_state
after_sendmsg-result c (sent n) w = ground arith
after_sendmsg-result c send_blocked w = ground arith
after_sendmsg-result c send_failed w = ground arith

-- With no header left nothing is unsent.
unsent-done : (mem : Memory) (c : Output) → ltb c.msgcurr c.msgused ≡ false → unsent mem c ≡ []
unfolding unsent payload bytes
unsent-done mem c h = let none_left : c.iovused - c.iovused ≡ 0 = omega arith in rw h (rw none_left)

accept_lem :
    (mem : Memory) (c : Output) (n : ℕ)
    → IsSending c
    → c.msgcurr < c.msgused
    → n ≤ length (offered mem c)
    → let d = if ltb 0 n then take_sent c n else c in
      IsSending d × (unsent mem c ≡ take n (offered mem c) ++ unsent mem d)
accept_lem mem c zero t h fits = (t, refl)
accept_lem mem c (suc n) t h fits =
    rw (lt→ltb 0 (suc n) (omega arith)) (take_sent_lem mem c (suc n) t h fits)

-- One call of `transmit`, whatever the kernel answers within its contract, does not fault. The
-- bytes accepted and then those still unsent are the bytes that were unsent; nothing is unsent when
-- it reports completion, something was accepted when it reports more to come, and after a hard
-- error the connection is closing.
pub transmit-Transmits :
    (mem : Memory) (c : Conn) (w : World)
    → IsSending c.output
    → Accepts mem c w
    → Returns (transmit c w) (Transmits mem c w)
unfolding transmit
transmit-Transmits mem c w t fits =
    let o = next_msg c.output in
    let d = record c { output = o } in
    let t' = next_msg-Sending c.output t in
    let same = unsent-next_msg mem c.output t in
    elim (Bool-cases (ltb o.msgcurr o.msgused)) [
      | inr finished ↦ (
        (transmit_complete, d, w),
        rw finished,
        record {
          sending = t';
          order = rw finished (sym same);
          complete = λ _. unsent-done mem o finished;
          progress = λ e. cc;
          broken = λ e. cc;
        },
      )
      | inl busy ↦
          let more : o.msgcurr < o.msgused = ground arith in
          let r = after_sendmsg d (w.sends 0) (after_send w) in
          let (tiled, order) = accept_lem mem o (accepted (w.sends 0)) t' more fits in
          let out = after_sendmsg-output d (w.sends 0) (after_send w) in
          let (unfinished, moved, closed) = after_sendmsg-result d (w.sends 0) (after_send w) in
          let block : (current o).block ≡ o.iov_block = (t' o.msgcurr (omega arith) more).0 in
          (
            r,
            rw (busy, (==_iff (current o).block o.iov_block).1 block),
            record {
              sending = rw out tiled;
              order = rw (busy, out) (sym same ∙ order);
              complete = λ e. absurd (unfinished e);
              progress = moved;
              broken = closed;
            },
          )
    ]

-- Any number of calls, over which nothing else touches the output, with the bytes that they send.
pub data Sends (mem : Memory) (c : Output) : List ℕ → Output → Type 0 where
  nothing : Sends mem c [] c
  more :
      {s : List ℕ} {o : Output} (d : Conn) (w : World) (r : WriteResult × Conn × World)
      → Sends mem c s o
      → d.output ≡ o
      → Accepts mem d w
      → transmit d w ≡ ok r
      → Sends mem c (s ++ on_wire mem d w) r.1.output

Sends-order :
    (mem : Memory) (c : Output) {s : List ℕ} {o : Output}
    → Sends mem c s o
    → IsSending c
    → IsSending o × (unsent mem c ≡ s ++ unsent mem o)
Sends-order mem c nothing t = (t, refl)
Sends-order mem c (more {s = s} {o = o} d w r rest e fits run) t =
    let (t', order) = Sends-order mem c rest t in
    let (r', run', p) = transmit-Transmits mem d w (subst IsSending (sym e) t') fits in
    let same : r' ≡ r = ok-injective (sym run' ∙ run) in
    let step : unsent mem o ≡ on_wire mem d w ++ unsent mem r.1.output = rw (← e, ← same) p.order in
    (
      rw (← same) p.sending,
      order ∙ ap (◌++◌ s) step ∙ sym (append_assoc s (on_wire mem d w) (unsent mem r.1.output)),
    )

-- An output that was put together and of which nothing is sent is all unsent.
pub unsent-written :
    (mem : Memory) (c : Output) → IsBuilt c → c.msgcurr ≡ 0 → unsent mem c ≡ written mem c
unfolding unsent written
unsent-written mem c b e =
    let count : c.iovused - 0 ≡ c.iovused = omega arith in rw (e, b.starts, count)

-- Completion is reported only when nothing is left to send.
unsent-transmit_complete :
    (mem : Memory) (d : Conn) (v : World) (r : WriteResult × Conn × World)
    → IsSending d.output
    → transmit d v ≡ ok r
    → r.0 ≡ transmit_complete
    → unsent mem d.output ≡ []
unfolding transmit
unsent-transmit_complete mem d v r t run e =
    let o = next_msg d.output in
    elim (Bool-cases (ltb o.msgcurr o.msgused)) [
      | inr finished ↦ sym (unsent-next_msg mem d.output t) ∙ unsent-done mem o finished
      | inl busy ↦
          let block = (next_msg-Sending d.output t o.msgcurr (omega arith) (ground arith)).0 in
          let s = after_sendmsg (record d { output = o }) (v.sends 0) (after_send v) in
          let step : transmit d v ≡ ok s =
            rw (busy, (==_iff (current o).block o.iov_block).1 block) in
          let same : s ≡ r = ok-injective (sym step ∙ run) in
          absurd (
            (after_sendmsg-result (record d { output = o }) (v.sends 0) (after_send v)).0
              (ap (λ q. q.0) same ∙ e))
    ]

-- When `transmit` has reported completion on an output that was put together by `conn_add_msghdr`
-- and `conn_add_iov`, over any number of calls with any partial writes, blocked sockets in between
-- included, what went over the wire is exactly what the output stood for, in order.
pub response-sent :
    (mem : Memory) (c : Output) {s : List ℕ} {o : Output}
    → IsBuilt c
    → c.msgcurr ≡ 0
    → Sends mem c s o
    → (d e : Conn) (v w : World) → d.output ≡ o
    → transmit d v ≡ ok (transmit_complete, e, w)
    → s ≡ written mem c
response-sent mem c {s} {o} b zero_start sends d e v w same run =
    let start : IsSending c = λ i _ k. b.tiled i (omega arith) k in
    let (t, order) = Sends-order mem c sends start in
    let done : unsent mem o ≡ [] =
      subst (λ p. unsent mem p ≡ []) same
        (unsent-transmit_complete mem d v (transmit_complete, e, w) (subst IsSending (sym same) t)
          run refl) in
    sym (append-nil s) ∙ ap (◌++◌ s) (sym done) ∙ sym order ∙ unsent-written mem c b zero_start
