-- ===== src/Memcache/Compaction.antt =====
-- What `conn_ensure_rpc_space` does to the calls in flight when it makes room by moving them.
use synthetic_client.Base.{
  ℕ, zero, suc, ◌+◌, ◌-◌, ◌/◌, ◌≡◌, ◌≤◌, ◌<◌, refl, sym, ap, ◌∙◌, true, false, ltb, leb, ◌==◌, List,
  bytes, get_or, length, length-bytes, ==_iff, Bool-cases, inl, inr, ◌⊎◌, arith,
}
use synthetic_client.World.{World}
use synthetic_client.Conn.{Rpcs}
use synthetic_client.Memcache.{moved, compacted, conn_ensure_rpc_space}

-- The calls in flight, oldest first.
abbrev pub calls : Rpcs → List ℕ
calls q = bytes q.rpc q.rpcdone (q.rpcused - q.rpcdone)

get_or-bytes : (f : ℕ → ℕ) (o n i d : ℕ) → i < n → get_or (bytes f o n) i d ≡ f (o + i)
unfolding bytes
get_or-bytes f o zero i d h = absurd (omega (arith, h))
get_or-bytes f o (suc n) zero d h = ap f (omega arith)
get_or-bytes f o (suc n) (suc i) d h =
    get_or-bytes f (o + 1) n i d (omega (arith, h)) ∙ ap f (omega arith)

conn_ensure_rpc_space-compacts :
    (q : Rpcs) (w : World)
    → 0 < q.rpcdone
    → q.rpcsize ≤ q.rpcused
    → (conn_ensure_rpc_space q w).1 ≡ compacted q
unfolding conn_ensure_rpc_space
conn_ensure_rpc_space-compacts q w done full =
    let full' : leb q.rpcsize q.rpcused ≡ true = ground arith in
    let some_done : (q.rpcdone == 0) ≡ false = ground arith in rw (full', some_done) refl

-- Where a full queue with `n` calls in flight, and some that are done, is moved to make room, it still
-- counts `n` calls, but only those at its first `n / 8` places are the calls in flight. A later place
-- holds what it held before, instead of its call; the place between the two is left open here.
pub conn_ensure_rpc_space-loses :
    (q : Rpcs) (w : World) (i : ℕ)
    → 0 < q.rpcdone
    → q.rpcsize ≤ q.rpcused
    → i < q.rpcused - q.rpcdone
    → let n = q.rpcused - q.rpcdone in
      let after = calls (conn_ensure_rpc_space q w).1 in
      (length after ≡ n)
      × (((i < n / 8) × (get_or after i 0 ≡ get_or (calls q) i 0))
          ⊎ (i ≡ n / 8)
          ⊎ ((n / 8 < i) × (get_or after i 0 ≡ q.rpc i)))
unfolding compacted moved
conn_ensure_rpc_space-loses q w i done full below =
    let n = q.rpcused - q.rpcdone in
    let same : calls (conn_ensure_rpc_space q w).1 ≡ bytes (moved q.rpc q.rpcdone n) 0 (n - 0) =
      ap calls (conn_ensure_rpc_space-compacts q w done full) in
    let at = get_or-bytes (moved q.rpc q.rpcdone n) 0 (n - 0) i 0 (omega (arith, below)) in
    let call = get_or-bytes q.rpc q.rpcdone n i 0 below in
    let zero_left : 0 + i ≡ i = omega arith in
    let whole : length (calls (conn_ensure_rpc_space q w).1) ≡ n =
      ap length same ∙ length-bytes (moved q.rpc q.rpcdone n) 0 (n - 0) ∙ omega arith in
    (
      whole,
      elim (Bool-cases (ltb i (n / 8))) [
        | inl first ↦
            let kept : moved q.rpc q.rpcdone n (0 + i) ≡ q.rpc (q.rpcdone + i) =
              rw (zero_left, first) refl in
            inl (ground (arith, first), ap (λ l. get_or l i 0) same ∙ at ∙ kept ∙ sym call)
        | inr later ↦ elim (Bool-cases (i == n / 8)) [
          | inl between ↦ inr (inl ((==_iff i (n / 8)).0 between))
          | inr beyond ↦
              let stale : moved q.rpc q.rpcdone n (0 + i) ≡ q.rpc i =
                rw (zero_left, later, beyond) refl in
              inr (inr (ground (arith, later, beyond), ap (λ l. get_or l i 0) same ∙ at ∙ stale))
        ]
      ],
    )
