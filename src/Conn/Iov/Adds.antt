-- ===== src/Conn/Iov/Adds.antt =====
-- `conn_add_iov` appends a buffer to the output.
use synthetic_client.Base.{
  ℕ, ◌+◌, ◌-◌, ◌*◌, ◌≤◌, ◌<◌, ◌≡◌, refl, ap, ◌∙◌, inl, inr, true, false, ◌==◌, ◌++◌, ok, Returns,
  Bool-cases, arith,
}
use synthetic_client.World.{World, after_alloc}
use synthetic_client.Conn.{Output, Ptr, max_payload_size}
use synthetic_client.Conn.Iov.{
  pushed, grown, entered, last_msg, push_msghdr, conn_add_msghdr, conn_ensure_iov_space, add_entry,
}
use synthetic_client.Conn.Iov.Tiled.{IsBuilt, pushed-Built, grown-Built, entered-Built}
use synthetic_client.Conn.Iov.Payload.{Memory, span, written, payload-update}

-- The output stands for the same bytes, and is as well built.
pub record Keeps (mem : Memory) (c d : Output) : Type 0 where
  pub built : IsBuilt d
  pub same : written mem d ≡ written mem c
  pub places : d.iovused ≡ c.iovused
  pub used : c.msgused ≤ d.msgused
  pub current : d.msgcurr ≡ c.msgcurr

pub Keeps-refl : (mem : Memory) (c : Output) → IsBuilt c → Keeps mem c c
Keeps-refl mem c b = record {
  built = b;
  same = refl;
  places = refl;
  used = omega arith;
  current = refl;
}

pushed-Keeps :
    (mem : Memory) (c : Output) → IsBuilt c → c.msgused < c.msgsize → Keeps mem c (pushed c)
unfolding pushed written
pushed-Keeps mem c b h = record {
  built = pushed-Built c b h;
  same = refl;
  places = refl;
  used = omega arith;
  current = refl;
}

widened-Built : (c : Output) → IsBuilt c → IsBuilt (record c { msgsize = c.msgsize * 2 })
widened-Built c b = record {
  room = omega arith;
  tiled = b.tiled;
  starts = b.starts;
  limited = b.limited;
}

-- A header is added, or there is no memory and nothing changes.
pub conn_add_msghdr_lem :
    (mem : Memory) (c : Output) (w : World)
    → IsBuilt c
    → Returns (conn_add_msghdr c w) λ r.
      Keeps mem c r.1
      × (r.0 ≡ true → (r.1.msgused ≡ c.msgused + 1) × (r.1.msgbytes ≡ 0))
      × (r.0 ≡ false → (r.1 ≡ c) × (c.msgused ≡ c.msgsize))
unfolding conn_add_msghdr push_msghdr pushed written
conn_add_msghdr_lem mem c w b = elim (Bool-cases (c.msgsize == c.msgused)) [
  | inr free ↦
      let k = pushed-Keeps mem c b (ground arith) in
      ((true, pushed c, w), ground arith, (k, (λ _. (refl, refl)), (λ e. cc)))
  | inl full ↦
      let wide = record c { msgsize = c.msgsize * 2 } in
      let k = pushed-Keeps mem wide (widened-Built c b) (ground arith) in
      elim (Bool-cases (w.allocs 0)) [
        | inl more ↦ (
          (true, pushed wide, after_alloc w),
          ground arith,
          (
            record {
              built = k.built;
              same = k.same;
              places = k.places;
              used = k.used;
              current = k.current;
            },
            (λ _. (refl, refl)),
            (λ e. cc),
          ),
        )
        | inr none ↦ (
          (false, c, after_alloc w),
          ground arith,
          (Keeps-refl mem c b, (λ e. cc), (λ _. (refl, ground arith))),
        )
      ]
]

grown-Keeps : (mem : Memory) (c : Output) → IsBuilt c → Keeps mem c (grown c)
unfolding grown written
grown-Keeps mem c b = record {
  built = grown-Built c b;
  same = refl;
  places = refl;
  used = omega arith;
  current = refl;
}

pub conn_ensure_iov_space_lem :
    (mem : Memory) (c : Output) (w : World)
    → IsBuilt c
    → let r = conn_ensure_iov_space c w in
      Keeps mem c r.1
      × (r.1.msgused ≡ c.msgused)
      × (r.1.msgbytes ≡ c.msgbytes)
      × (r.0 ≡ true → r.1.iovused < r.1.iovsize)
unfolding conn_ensure_iov_space grown
conn_ensure_iov_space_lem mem c w b =
    ground (arith, Keeps-refl mem c b, grown-Keeps mem c b, b.room)

-- The last header ends where the used part of `iov` does.
last_end :
    (c : Output)
    → IsBuilt c
    → 1 ≤ c.msgused
    → (last_msg c).msg_iov + (last_msg c).msg_iovlen ≡ c.iovused
last_end c b h = ground (arith, b.tiled (c.msgused - 1) (omega arith) (omega arith))

entered_lem :
    (mem : Memory) (c : Output) (buf : Ptr) (len : ℕ)
    → IsBuilt c
    → 1 ≤ c.msgused
    → written mem (entered c buf len) ≡ written mem c ++ span mem buf len
unfolding entered written
entered_lem mem c buf len b h =
    rw (last_end c b h)
      (payload-update mem c.iov c.iovused (record { iov_base = buf; iov_len = len }))

-- What a round has achieved when it places `n` bytes.
pub record Places (mem : Memory) (c : Output) (buf : Ptr) (n : ℕ) (d : Output) : Type 0 where
  pub built : IsBuilt d
  pub appends : written mem d ≡ written mem c ++ span mem buf n
  pub used : 1 ≤ d.msgused
  pub current : d.msgcurr ≡ c.msgcurr

pub Keeps-Places :
    (mem : Memory) (c e d : Output) (buf : Ptr) (n : ℕ)
    → Keeps mem c e
    → Places mem e buf n d
    → Places mem c buf n d
Keeps-Places mem c e d buf n k p = record {
  built = p.built;
  appends = p.appends ∙ ap (λ s. s ++ span mem buf n) k.same;
  used = p.used;
  current = p.current ∙ k.current;
}

pub add_entry_lem :
    (mem : Memory) (c : Output) (buf : Ptr) (len : ℕ)
    → IsBuilt c
    → 1 ≤ c.msgused
    → c.iovused < c.iovsize
    → (c.msgused ≡ 1 → c.msgbytes + len ≤ max_payload_size)
    → (add_entry c buf len ≡ ok (entered c buf len)) × Places mem c buf len (entered c buf len)
unfolding add_entry
add_entry_lem mem c buf len b u s l = (
  ground (arith, last_end c b u, b.tiled (c.msgused - 1) (omega arith) (omega arith)),
  record {
    built = entered-Built c buf len b u s l;
    appends = entered_lem mem c buf len b u;
    used = unfold entered in u;
    current = unfold entered in refl;
  },
)
