-- ===== src/Conn/Iov/Plenty.antt =====
-- With memory to be had, `conn_add_iov` succeeds.
use synthetic_client.Base.{
  ◌+◌, ℕ, zero, suc, ◌==◌, ◌||◌, ◌&&◌, ltb, leb, ◌≡◌, refl, inl, inr, true, Bool, IfOk, IfOk->>=,
  Bool-cases, subst,
}
use synthetic_client.World.{World}
use synthetic_client.Conn.{Output, Ptr, max_payload_size}
use synthetic_client.Conn.Iov.{
  conn_add_msghdr, conn_ensure_iov_space, push_msghdr, add_entry, Round, failed, placed, place,
  limit_to_mtu, last_msg, fresh_msghdr, round, ptr_add, continue, add_loop, conn_add_iov,
}

-- Every allocation succeeds.
abbrev pub Plenty : World → Type 0
Plenty w = (i : ℕ) → w.allocs i ≡ true

conn_add_msghdr-Plenty :
    (c : Output) (w : World) → Plenty w → IfOk (λ r. Plenty r.2) (conn_add_msghdr c w)
unfolding conn_add_msghdr
conn_add_msghdr-Plenty c w m = elim (Bool-cases (c.msgsize == c.msgused)) [
  | inl full ↦ rw (full, m 0) (IfOk->>= (λ r. Plenty r.2) (push_msghdr _) _ (λ d _ i. m (suc i)))
  | inr free ↦ rw free (IfOk->>= (λ r. Plenty r.2) (push_msghdr c) _ (λ d _. m))
]

conn_ensure_iov_space-Plenty :
    (c : Output) (w : World)
    → Plenty w
    → ((conn_ensure_iov_space c w).0 ≡ true) × Plenty (conn_ensure_iov_space c w).2
unfolding conn_ensure_iov_space
conn_ensure_iov_space-Plenty c w m = elim (Bool-cases (leb c.iovsize c.iovused)) [
  | inl full ↦ rw (full, m 0) (refl, λ i. m (suc i))
  | inr free ↦ rw free (refl, m)
]

abbrev PlentyAfter : Round → Type 0
PlentyAfter (failed d v) = ⊥
PlentyAfter (placed d v n leftover) = Plenty v

place-Plenty :
    (limited : Bool) (c : Output) (buf : Ptr) (len : ℕ) (w : World)
    → Plenty w
    → IfOk PlentyAfter (place limited c buf len w)
unfolding place
place-Plenty limited c buf len w m =
    elim (Bool-cases (limited && ltb max_payload_size (len + c.msgbytes))) [
      | inr within ↦ rw within (IfOk->>= PlentyAfter (add_entry c buf len) _ (λ d _. m))
      | inl over ↦ elim (Bool-cases (ltb max_payload_size c.msgbytes)) [
        | inl beyond ↦ rw (over, beyond) tt
        | inr below ↦ rw (over, below) (IfOk->>= PlentyAfter (add_entry c buf _) _ (λ d _. m))
      ]
    ]

fresh_msghdr-Plenty :
    (iov_max : ℕ) (c : Output) (w : World)
    → Plenty w
    → IfOk (λ r. Plenty r.2) (fresh_msghdr iov_max c w)
unfolding fresh_msghdr
fresh_msghdr-Plenty iov_max c w m =
    elim (Bool-cases (
      ((last_msg c).msg_iovlen == iov_max)
      || (limit_to_mtu c && leb max_payload_size c.msgbytes))) [
        | inl full ↦ rw full (conn_add_msghdr-Plenty c w m)
        | inr free ↦ rw free m
      ]

round-Plenty :
    (iov_max : ℕ) (c : Output) (buf : Ptr) (len : ℕ) (w : World)
    → Plenty w
    → IfOk PlentyAfter (round iov_max c buf len w)
unfolding round
round-Plenty iov_max c buf len w m = elim (Bool-cases (c.msgused == 0)) [
  | inl none ↦ rw none tt
  | inr some ↦ rw some (
      IfOk->>= PlentyAfter (fresh_msghdr iov_max c w) _ λ r run.
        let (room, more) =
          conn_ensure_iov_space-Plenty r.1 r.2
            (subst (IfOk (λ q. Plenty q.2)) run (fresh_msghdr-Plenty iov_max c w m)) in
        rw room (place-Plenty (limit_to_mtu c) _ buf len _ more))
]

add_loop-Plenty :
    (fuel iov_max : ℕ) (c : Output) (buf : Ptr) (len : ℕ) (w : World)
    → Plenty w
    → IfOk (λ r. (r.0 ≡ true) × Plenty r.2) (add_loop fuel iov_max c buf len w)
unfolding add_loop continue
add_loop-Plenty zero iov_max c buf len w m = tt
add_loop-Plenty (suc fuel) iov_max c buf len w m =
    IfOk->>= (λ r. (r.0 ≡ true) × Plenty r.2) (round iov_max c buf len w) _
      λ r run.
        after r (subst (IfOk PlentyAfter) run (round-Plenty iov_max c buf len w m))
          (add_loop-Plenty fuel iov_max)
  where
    after :
        (r : Round)
        → PlentyAfter r
        → ((d : Output) (p : Ptr) (n : ℕ) (v : World)
            → Plenty v
            → IfOk (λ q. (q.0 ≡ true) × Plenty q.2) (add_loop fuel iov_max d p n v))
        → IfOk (λ q. (q.0 ≡ true) × Plenty q.2) (continue (add_loop fuel iov_max) buf r)
    after (failed d v) bad again = absurd bad
    after (placed d v n leftover) m again = elim (Bool-cases (ltb 0 leftover)) [
      | inl more ↦ rw more (again d (ptr_add buf n) leftover v m)
      | inr done ↦ rw done (refl, m)
    ]

pub conn_add_iov-Plenty :
    (iov_max : ℕ) (c : Output) (buf : Ptr) (len : ℕ) (w : World)
    → Plenty w
    → IfOk (λ r. (r.0 ≡ true) × Plenty r.2) (conn_add_iov iov_max c buf len w)
unfolding conn_add_iov
conn_add_iov-Plenty iov_max c buf len w m = add_loop-Plenty 3 iov_max c buf len w m
