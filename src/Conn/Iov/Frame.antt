-- ===== src/Conn/Iov/Frame.antt =====
-- `conn_add_iov` does nothing to the world but allocate.
use synthetic_client.Base.{
  ℕ, zero, suc, ◌+◌, inl, inr, Bool, ltb, leb, ◌==◌, ◌&&◌, ◌||◌, Bool-cases, subst, IfOk, IfOk->>=,
}
use synthetic_client.World.{World, after_alloc}
use synthetic_client.Conn.{Output, Ptr, max_payload_size}
use synthetic_client.Conn.Iov.{
  conn_add_msghdr, push_msghdr, conn_ensure_iov_space, last_msg, add_entry, Round, failed, placed,
  place, limit_to_mtu, fresh_msghdr, round, ptr_add, continue, add_loop, conn_add_iov,
}

-- What an allocation does not change.
module _ (P : World → Type 0) (kept : (w : World) → P w → P (after_alloc w)) where
  After : Bool × Output × World → Type 0
  After r = P r.2

  conn_add_msghdr-After : (c : Output) (w : World) → P w → IfOk After (conn_add_msghdr c w)
  unfolding conn_add_msghdr After
  conn_add_msghdr-After c w p = elim (Bool-cases (c.msgsize == c.msgused)) [
    | inl full ↦ elim (Bool-cases (w.allocs 0)) [
      | inl memory ↦ rw (full, memory) (IfOk->>= After (push_msghdr _) _ (λ d _. kept w p))
      | inr none ↦ rw (full, none) (kept w p)
    ]
    | inr free ↦ rw free (IfOk->>= After (push_msghdr c) _ (λ d _. p))
  ]

  conn_ensure_iov_space-After : (c : Output) (w : World) → P w → After (conn_ensure_iov_space c w)
  unfolding conn_ensure_iov_space After
  conn_ensure_iov_space-After c w p = elim (Bool-cases (leb c.iovsize c.iovused)) [
    | inl full ↦ elim (Bool-cases (w.allocs 0)) [
      | inl memory ↦ rw (full, memory) (kept w p)
      | inr none ↦ rw (full, none) (kept w p)
    ]
    | inr free ↦ rw free p
  ]

  AfterRound : Round → Type 0
  AfterRound (failed d v) = P v
  AfterRound (placed d v n leftover) = P v

  place-After :
      (limited : Bool) (c : Output) (buf : Ptr) (len : ℕ) (w : World)
      → P w
      → IfOk AfterRound (place limited c buf len w)
  unfolding place AfterRound
  place-After limited c buf len w p =
      elim (Bool-cases (limited && ltb max_payload_size (len + c.msgbytes))) [
        | inr within ↦ rw within (IfOk->>= AfterRound (add_entry c buf len) _ (λ d _. p))
        | inl over ↦ elim (Bool-cases (ltb max_payload_size c.msgbytes)) [
          | inl beyond ↦ rw (over, beyond) tt
          | inr below ↦ rw (over, below) (IfOk->>= AfterRound (add_entry c buf _) _ (λ d _. p))
        ]
      ]

  fresh_msghdr-After :
      (iov_max : ℕ) (c : Output) (w : World) → P w → IfOk After (fresh_msghdr iov_max c w)
  unfolding fresh_msghdr After
  fresh_msghdr-After iov_max c w p =
      elim (Bool-cases (
        ((last_msg c).msg_iovlen == iov_max)
        || (limit_to_mtu c && leb max_payload_size c.msgbytes))) [
          | inl full ↦ rw full (conn_add_msghdr-After c w p)
          | inr free ↦ rw free p
        ]

  round-After :
      (iov_max : ℕ) (c : Output) (buf : Ptr) (len : ℕ) (w : World)
      → P w
      → IfOk AfterRound (round iov_max c buf len w)
  unfolding round After AfterRound
  round-After iov_max c buf len w p = elim (Bool-cases (c.msgused == 0)) [
    | inl none ↦ rw none tt
    | inr some ↦ rw some (
        IfOk->>= AfterRound (fresh_msghdr iov_max c w) _ λ r run.
          let q = subst (IfOk After) run (fresh_msghdr-After iov_max c w p) in
          let s = conn_ensure_iov_space-After r.1 r.2 q in
          elim (Bool-cases (conn_ensure_iov_space r.1 r.2).0) [
            | inl room ↦ rw room (place-After (limit_to_mtu c) _ buf len _ s)
            | inr none ↦ rw none s
          ])
  ]

  add_loop-After :
      (fuel iov_max : ℕ) (c : Output) (buf : Ptr) (len : ℕ) (w : World)
      → P w
      → IfOk After (add_loop fuel iov_max c buf len w)
  unfolding add_loop continue After AfterRound
  add_loop-After zero iov_max c buf len w p = tt
  add_loop-After (suc fuel) iov_max c buf len w p =
      IfOk->>= After (round iov_max c buf len w) _ λ r run.
        go_on r (subst (IfOk AfterRound) run (round-After iov_max c buf len w p))
          (add_loop-After fuel iov_max)
    where
      go_on :
          (r : Round)
          → AfterRound r
          → ((d : Output) (b : Ptr) (n : ℕ) (v : World)
              → P v
              → IfOk After (add_loop fuel iov_max d b n v))
          → IfOk After (continue (add_loop fuel iov_max) buf r)
      go_on (failed d v) p again = p
      go_on (placed d v n leftover) p again = elim (Bool-cases (ltb 0 leftover)) [
        | inl more ↦ rw more (again d (ptr_add buf n) leftover v p)
        | inr done ↦ rw done p
      ]

  pub conn_add_iov-After :
      (iov_max : ℕ) (c : Output) (buf : Ptr) (len : ℕ) (w : World)
      → P w
      → IfOk (λ r. P r.2) (conn_add_iov iov_max c buf len w)
  unfolding conn_add_iov After
  conn_add_iov-After iov_max c buf len w p = add_loop-After 3 iov_max c buf len w p
