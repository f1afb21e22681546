-- ===== src/Conn/Iov/Loop.antt =====
-- The loop of `conn_add_iov`: each round places a part of the buffer, and three rounds are enough.
use synthetic_client.Base.{
  ℕ, zero, suc, ◌+◌, ◌-◌, ◌≤◌, ◌<◌, ◌≡◌, refl, sym, ap, ◌∙◌, inl, inr, Bool, true, false, ltb, leb,
  ◌||◌, ◌&&◌, ◌==◌, if◌then◌else◌, bytes, bytes-add, ◌++◌, append_assoc, append-nil, Run, Returns,
  Bool-cases, arith, le→ltb,
}
use synthetic_client.World.{World}
use synthetic_client.Conn.{Output, Ptr, max_payload_size}
use synthetic_client.Conn.Iov.{
  entered, last_msg, conn_ensure_iov_space, Round, failed, placed, place, limit_to_mtu,
  fresh_msghdr, round, ptr_add, continue, add_loop, conn_add_iov,
}
use synthetic_client.Conn.Iov.Tiled.{IsBuilt}
use synthetic_client.Conn.Iov.Payload.{Memory, span, written}
use synthetic_client.Conn.Iov.Adds.{
  Keeps, Keeps-refl, conn_add_msghdr_lem, conn_ensure_iov_space_lem, Places, Keeps-Places,
  add_entry_lem,
}

-- A bound on the rounds that the loop still takes.
abbrev rounds : Output → ℕ
rounds c = if c.msgused == 1 then (if ltb c.msgbytes max_payload_size then 3 else 2) else 1

-- With the limit in force, the last header is the first one and not full, or a new one.
pub record IsFresh (mem : Memory) (c d : Output) : Type 0 where
  pub fewer : d.msgbytes ≤ c.msgbytes
  pub keeps : Keeps mem c d
  pub below : c.msgused ≡ 1 → d.msgbytes < max_payload_size
  pub first : d.msgused ≡ 1 → (c.msgused ≡ 1) × (d.msgbytes ≡ c.msgbytes)

pub fresh_msghdr_lem :
    (mem : Memory) (iov_max : ℕ) (c : Output) (w : World)
    → IsBuilt c
    → 1 ≤ c.msgused
    → Returns (fresh_msghdr iov_max c w) λ r. IsFresh mem c r.1
unfolding fresh_msghdr
fresh_msghdr_lem mem iov_max c w b u =
    let (r, run, (k, added, refused)) = conn_add_msghdr_lem mem c w b in
    elim (Bool-cases (
      ((last_msg c).msg_iovlen == iov_max)
      || (limit_to_mtu c && leb max_payload_size c.msgbytes))) [
        | inl full ↦ (
          r,
          rw (full) run,
          record {
            fewer = elim (Bool-cases r.0) [
              | inl more ↦ omega (arith, (added more).1)
              | inr none ↦
                  let same = ap (λ (o : Output). o.msgbytes) (refused none).0 in omega (arith, same)
            ];
            keeps = k;
            below = ground (arith, b.room);
            first = ground (arith, b.room);
          },
        )
        | inr free ↦ (
          (true, c, w),
          rw free,
          record {
            fewer = omega arith;
            keeps = Keeps-refl mem c b;
            below = ground arith;
            first = ground arith;
          },
        )
      ]

-- What a round leaves behind.
abbrev pub RoundEnds : Memory → Output → Ptr → ℕ → Round → Type 0
RoundEnds mem c buf len (failed d v) = Keeps mem c d
RoundEnds mem c buf len (placed d v n leftover) =
    Places mem c buf n d
    × (n + leftover ≡ len)
    × (0 < leftover → rounds d < rounds c)
    × (leftover + d.msgbytes ≤ len + c.msgbytes)

place_lem :
    (mem : Memory) (c e : Output) (buf : Ptr) (len : ℕ) (v : World)
    → IsFresh mem c e
    → e.iovused < e.iovsize
    → 1 ≤ e.msgused
    → Returns (place (limit_to_mtu c) e buf len v) (RoundEnds mem c buf len)
unfolding place entered
place_lem mem c e buf len v f s u =
    elim (Bool-cases (limit_to_mtu c && ltb max_payload_size (len + e.msgbytes))) [
      | inl over ↦
          let n = max_payload_size - e.msgbytes in
          let fits : e.msgbytes < max_payload_size = f.below (ground arith) in
          let more : max_payload_size < len + e.msgbytes = ground (arith, over) in
          let (run, p) = add_entry_lem mem e buf n f.keeps.built u s (λ _. omega arith) in
          (
            placed (entered e buf n) v n (len + e.msgbytes - max_payload_size),
            rw (over, le→ltb max_payload_size e.msgbytes (omega arith), run),
            (
              Keeps-Places mem c e _ buf n f.keeps p,
              ground arith,
              (λ _. ground (arith, f.first)),
              omega (arith, f.fewer, fits, more),
            ),
          )
      | inr within ↦
          let (run, p) =
            add_entry_lem mem e buf len f.keeps.built u s (λ h. ground (arith, f.first h)) in
          (
            placed (entered e buf len) v len 0,
            rw (within, run),
            (
              Keeps-Places mem c e _ buf len f.keeps p,
              omega arith,
              (λ h. absurd (omega arith)),
              omega (arith, f.fewer),
            ),
          )
    ]

pub round_lem :
    (mem : Memory) (iov_max : ℕ) (c : Output) (buf : Ptr) (len : ℕ) (w : World)
    → IsBuilt c
    → 1 ≤ c.msgused
    → Returns (round iov_max c buf len w) (RoundEnds mem c buf len)
unfolding round
round_lem mem iov_max c buf len w b u =
    let (r, run, f) = fresh_msghdr_lem mem iov_max c w b u in
    let (k, used, same_bytes, room) = conn_ensure_iov_space_lem mem r.1 r.2 f.keeps.built in
    let e = (conn_ensure_iov_space r.1 r.2).1 in
    let v = (conn_ensure_iov_space r.1 r.2).2 in
    let g : IsFresh mem c e = record {
      fewer = omega (arith, f.fewer, same_bytes);
      keeps = record {
        built = k.built;
        same = k.same ∙ f.keeps.same;
        places = k.places ∙ f.keeps.places;
        used = omega arith;
        current = k.current ∙ f.keeps.current;
      };
      below = λ h. omega (arith, f.below h);
      first = λ h. ground (arith, f.first, same_bytes, used);
    } in
    let start : (c.msgused == 0) ≡ false = ground arith in
    elim (Bool-cases (conn_ensure_iov_space r.1 r.2).0) [
      | inl more ↦
          let (d, stop, p) = place_lem mem c e buf len v g (room more) (omega arith) in
          (d, rw (start, run, more) stop, p)
      | inr out ↦ (failed e v, rw (start, run, out), g.keeps)
    ]

-- The loop appends a prefix of the buffer, and on success all of it.
abbrev pub AddsIov : Memory → Output → Ptr → ℕ → Bool × Output × World → Type 0
AddsIov mem c buf len r = (n : ℕ) × Places mem c buf n r.1 × (n ≤ len) × (r.0 ≡ true → n ≡ len)

span-add :
    (mem : Memory) (buf : Ptr) (m n : ℕ)
    → span mem buf (m + n) ≡ span mem buf m ++ span mem (ptr_add buf m) n
span-add mem buf m n = bytes-add (mem buf.region) buf.offset m n

-- The rest of the loop, from what a round has left and what the later rounds do.
continue_lem :
    (mem : Memory) (again : Output → Ptr → ℕ → World → Run (Bool × Output × World)) (c : Output)
    (buf : Ptr) (len : ℕ) (r : Round)
    → RoundEnds mem c buf len r
    → ((d : Output) (p : Ptr) (left : ℕ) (v : World)
        → IsBuilt d
        → 1 ≤ d.msgused
        → rounds d < rounds c
        → Returns (again d p left v) (AddsIov mem d p left))
    → 1 ≤ c.msgused
    → Returns (continue again buf r) (AddsIov mem c buf len)
unfolding continue bytes
continue_lem mem again c buf len (failed d v) k more u = (
  (false, d, v),
  refl,
  (
    0,
    record {
      built = k.built;
      appends = k.same ∙ sym (append-nil (written mem c));
      used = omega (arith, k.used);
      current = k.current;
    },
    omega arith,
    (λ e. cc),
  ),
)
continue_lem mem again c buf len (placed d v n left) (p, count, less, sums) more u =
    elim (Bool-cases (ltb 0 left)) [
      | inr done ↦ ((true, d, v), rw done, (n, p, omega arith, λ _. ground arith))
      | inl todo ↦
          let (r, run, (m, q, within, all)) =
            more d (ptr_add buf n) left v p.built p.used (less (ground arith)) in
          (
            r,
            rw todo run,
            (
              n + m,
              record {
                built = q.built;
                appends =
                    q.appends
                    ∙ ap (λ s. s ++ span mem (ptr_add buf n) m) p.appends
                    ∙ append_assoc (written mem c) (span mem buf n) (span mem (ptr_add buf n) m)
                    ∙ ap (◌++◌ (written mem c)) (sym (span-add mem buf n m));
                used = q.used;
                current = q.current ∙ p.current;
              },
              omega arith,
              λ e. omega (arith, all e),
            ),
          )
    ]

pub add_loop_lem :
    (mem : Memory) (fuel iov_max : ℕ) (c : Output) (buf : Ptr) (len : ℕ) (w : World)
    → IsBuilt c
    → 1 ≤ c.msgused
    → rounds c ≤ fuel
    → Returns (add_loop fuel iov_max c buf len w) (AddsIov mem c buf len)
unfolding add_loop
add_loop_lem mem zero iov_max c buf len w b u h = absurd (ground arith)
add_loop_lem mem (suc fuel) iov_max c buf len w b u h =
    let (r, run, e) = round_lem mem iov_max c buf len w b u in
    rw run (
      continue_lem mem (add_loop fuel iov_max) c buf len r e
        (λ d p left v b' u' less. add_loop_lem mem fuel iov_max d p left v b' u' (omega arith)) u)

-- From a built output with a header, `conn_add_iov` ends within its three rounds and never leaves
-- an array. Afterwards the output is built and stands for what it stood for followed by a prefix of
-- the buffer; where the result is true, by the whole buffer.
pub conn_add_iov-AddsIov :
    (mem : Memory) (iov_max : ℕ) (c : Output) (buf : Ptr) (len : ℕ) (w : World)
    → IsBuilt c
    → 1 ≤ c.msgused
    → Returns (conn_add_iov iov_max c buf len w) (AddsIov mem c buf len)
unfolding conn_add_iov
conn_add_iov-AddsIov mem iov_max c buf len w b u =
    add_loop_lem mem 3 iov_max c buf len w b u (ground arith)
