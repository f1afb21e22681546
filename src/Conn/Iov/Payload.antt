-- ===== src/Conn/Iov/Payload.antt =====
-- The bytes that the vectored output stands for, under a memory that gives each region its bytes.
use synthetic_client.Base.{
  ℕ, ◌+◌, ◌≡◌, refl, sym, ap, ◌∙◌, update, bytes, bytes-update_next, List, [], ◌∷◌, ◌++◌,
  append-nil, append_assoc,
}
use synthetic_client.Conn.{Output, Ptr, Region, Iovec}

abbrev pub Memory : Type 0
Memory = Region → ℕ → ℕ

-- `n` bytes from a pointer
abbrev pub span : Memory → Ptr → ℕ → List ℕ
span mem p n = bytes (mem p.region) p.offset n

unfoldable pub payload : Memory → List Iovec → List ℕ
payload mem [] = []
payload mem (v ∷ vs) = span mem v.iov_base v.iov_len ++ payload mem vs

pub payload-append :
    (mem : Memory) (vs ws : List Iovec) → payload mem (vs ++ ws) ≡ payload mem vs ++ payload mem ws
unfolding payload
payload-append mem [] ws = refl
payload-append mem (v ∷ vs) ws =
    ap (◌++◌ (span mem v.iov_base v.iov_len)) (payload-append mem vs ws)
    ∙ sym (append_assoc (span mem v.iov_base v.iov_len) (payload mem vs) (payload mem ws))

-- All that has been put into the output since it was reset.
unfoldable pub written : Memory → Output → List ℕ
written mem c = payload mem (bytes c.iov 0 c.iovused)

-- Writing the next free element appends what it stands for.
pub payload-update :
    (mem : Memory) (iov : ℕ → Iovec) (n : ℕ) (v : Iovec)
    → payload mem (bytes (update iov n v) 0 (n + 1))
      ≡ payload mem (bytes iov 0 n) ++ span mem v.iov_base v.iov_len
unfolding payload
payload-update mem iov n v =
    ap (payload mem) (bytes-update_next iov n v)
    ∙ payload-append mem (bytes iov 0 n) (v ∷ [])
    ∙ ap (◌++◌ (payload mem (bytes iov 0 n))) (append-nil (span mem v.iov_base v.iov_len))
