-- ===== src/Server/Transmit/Wire.antt =====
-- The bytes that are still to be sent, and what dropping some of them leaves.
use synthetic_client.Base.{
  ℕ, zero, suc, ◌+◌, ◌-◌, ◌≤◌, ◌<◌, ◌≡◌, refl, ap, ◌∙◌, inl, inr, ltb, ◌==◌, ◌&&◌, bytes,
  bytes_congr, bytes-add, length, take, drop, List, ◌++◌, append_assoc, Bool-cases, arith, lt→ltb,
}
use synthetic_client.Conn.{Output, Iovec}
use synthetic_client.Conn.Iov.Tiled.{IsTiled, next_start}
use synthetic_client.Conn.Iov.Payload.{Memory, payload, payload-append}
use synthetic_client.Server.Transmit.{current, next_msg, consume, settle, take_sent}
use synthetic_client.Server.Transmit.Consume.{Consumes, consume_lem, advanced_lem}

-- From the current header on the output is intact.
abbrev pub IsSending : Output → Type 0
IsSending c = IsTiled c c.msgcurr

-- The bytes that are still to be sent.
unfoldable pub unsent : Memory → Output → List ℕ
unsent mem c =
    payload mem (bytes c.iov (next_start c c.msgcurr) (c.iovused - next_start c c.msgcurr))

-- The bytes that `sendmsg` is offered.
unfoldable pub offered : Memory → Output → List ℕ
offered mem c = payload mem (bytes c.iov (current c).msg_iov (current c).msg_iovlen)

-- The headers begin within the used part of `iov`.
next_start-le :
    (c : Output) (from n i : ℕ)
    → IsTiled c from
    → from ≤ i
    → i + n ≡ c.msgused
    → next_start c i ≤ c.iovused
next_start-le c from zero i t l e = ground arith
next_start-le c from (suc n) i t l e =
    ground
      (arith, t i l (omega arith), next_start-le c from n (i + 1) t (omega arith) (omega arith))

-- Leaving a finished header loses no byte.
pub next_msg-Sending : (c : Output) → IsSending c → IsSending (next_msg c)
unfolding next_msg
next_msg-Sending c t =
    elim (Bool-cases (ltb c.msgcurr c.msgused && ((current c).msg_iovlen == 0))) [
      | inl done ↦ rw done (λ i l k. t i (omega arith) k)
      | inr busy ↦ rw busy t
    ]

pub unsent-next_msg :
    (mem : Memory) (c : Output) → IsSending c → unsent mem (next_msg c) ≡ unsent mem c
unfolding next_msg unsent
unsent-next_msg mem c t =
    elim (Bool-cases (ltb c.msgcurr c.msgused && ((current c).msg_iovlen == 0))) [
      | inl done ↦
          let same : next_start c (c.msgcurr + 1) ≡ next_start c c.msgcurr =
            ground (arith, t c.msgcurr (omega arith) (ground arith)) in
          rw (done, same)
      | inr busy ↦ rw busy
    ]

settle_iov :
    (mem : Memory) (c : Output) (r : ℕ × ℕ × ℕ)
    → (0 < r.0 → (0 < r.2) × (r.0 < (c.iov r.1).iov_len))
    → payload mem (bytes (settle c r).iov r.1 r.2) ≡ drop r.0 (payload mem (bytes c.iov r.1 r.2))
unfolding settle
settle_iov mem c (zero, k, n) h = refl
settle_iov mem c (suc res, k, zero) h = absurd (omega (arith, (h (omega arith)).0))
settle_iov mem c (suc res, k, suc n) h =
    rw (lt→ltb 0 (suc res) (omega arith)) (advanced_lem mem c.iov k n (suc res) (h (omega arith)).1)

-- A run of elements up to the end splits at the end of its first header.
payload-split :
    (mem : Memory) (iov : ℕ → Iovec) (k n e u : ℕ)
    → k + n ≡ e
    → e ≤ u
    → payload mem (bytes iov k (u - k))
      ≡ payload mem (bytes iov k n) ++ payload mem (bytes iov e (u - e))
payload-split mem iov k n e u ends inside =
    let count : u - k ≡ n + (u - e) = omega arith in
    rw (count, ← ends, bytes-add iov k n (u - (k + n)))
      (payload-append mem (bytes iov k n) (bytes iov (k + n) (u - (k + n))))

settle-Sending :
    (c : Output) (r : ℕ × ℕ × ℕ)
    → IsSending c
    → c.msgcurr < c.msgused
    → r.1 + r.2 ≡ (current c).msg_iov + (current c).msg_iovlen
    → IsSending (settle c r)
unfolding settle
settle-Sending c (rest, k, n) t h e i l m = ground (arith, t i l m)

settle_later :
    (c : Output) (r : ℕ × ℕ × ℕ) (i : ℕ) → (0 < r.0 → r.1 < i) → (settle c r).iov i ≡ c.iov i
unfolding settle
settle_later c (rest, k, n) i h = ground arith

settle_lem :
    (mem : Memory) (c : Output) (res : ℕ) (r : ℕ × ℕ × ℕ)
    → IsSending c
    → c.msgcurr < c.msgused
    → Consumes mem c.iov (current c).msg_iov (current c).msg_iovlen res r
    → unsent mem c ≡ take res (offered mem c) ++ unsent mem (settle c r)
unfolding offered unsent
settle_lem mem c res r t h q =
    let m = current c in
    let d = settle c r in
    let e = next_start c (c.msgcurr + 1) in
    let ends : m.msg_iov + m.msg_iovlen ≡ e = (t c.msgcurr (omega arith) h).1 in
    let inside : e ≤ c.iovused =
      next_start-le c c.msgcurr (c.msgused - (c.msgcurr + 1)) (c.msgcurr + 1) t (omega arith)
        (omega arith) in
    let start : next_start c c.msgcurr ≡ m.msg_iov = ground arith in
    let start' : next_start d d.msgcurr ≡ r.1 = unfold settle in ground arith in
    let used : d.iovused ≡ c.iovused = unfold settle in refl in
    let later : payload mem (bytes d.iov e (c.iovused - e))
        ≡ payload mem (bytes c.iov e (c.iovused - e)) =
      ap (payload mem) (
        bytes_congr d.iov c.iov e (c.iovused - e)
          (λ i l _. settle_later c r i (λ p. omega (arith, q.inside p, q.ends, ends)))) in
    let P = payload mem (bytes c.iov m.msg_iov m.msg_iovlen) in
    let Q = payload mem (bytes c.iov e (c.iovused - e)) in
    let before : unsent mem c ≡ P ++ Q =
      rw start (payload-split mem c.iov m.msg_iov m.msg_iovlen e c.iovused ends inside) in
    let after : unsent mem d ≡ drop r.0 (payload mem (bytes c.iov r.1 r.2)) ++ Q = rw (
      start',
      used,
      payload-split mem d.iov r.1 r.2 e c.iovused (q.ends ∙ ends) inside,
      settle_iov mem c r q.inside,
      later,
    ) in
    rw (before, after)
      (ap (λ s. s ++ Q) q.splits
        ∙ append_assoc (take res P) (drop r.0 (payload mem (bytes c.iov r.1 r.2))) Q)

-- What is accepted is the beginning of what is left, and the rest stays.
pub take_sent_lem :
    (mem : Memory) (c : Output) (res : ℕ)
    → IsSending c
    → c.msgcurr < c.msgused
    → res ≤ length (offered mem c)
    → IsSending (take_sent c res)
      × (unsent mem c ≡ take res (offered mem c) ++ unsent mem (take_sent c res))
unfolding take_sent offered
take_sent_lem mem c res t h fits =
    let m = current c in
    let r = consume c.iov m.msg_iov m.msg_iovlen res in
    let q = consume_lem mem c.iov m.msg_iov m.msg_iovlen res fits in
    (settle-Sending c r t h q.ends, settle_lem mem c res r t h q)
