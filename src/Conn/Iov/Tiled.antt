-- ===== src/Conn/Iov/Tiled.antt =====
-- What holds of the vectored output: the headers tile the used part of `iov`.
use synthetic_client.Base.{
  ℕ, zero, suc, ◌+◌, ◌≤◌, ◌<◌, ◌≡◌, refl, ltb, if◌then◌else◌, update, arith,
}
use synthetic_client.Conn.{Output, Ptr, Msghdr, max_payload_size}
use synthetic_client.Conn.Iov.{pushed, grown, entered, repoint}

-- Where the header after number `i` begins in `iov`.
abbrev pub next_start : Output → ℕ → ℕ
next_start c j = if ltb j c.msgused then (c.msglist j).msg_iov else c.iovused

-- From number `from` on, each header points into the current array and spans up to the next one.
abbrev pub IsTiled : Output → ℕ → Type 0
IsTiled c from =
    (i : ℕ)
    → from ≤ i
    → i < c.msgused
    → ((c.msglist i).block ≡ c.iov_block)
      × ((c.msglist i).msg_iov + (c.msglist i).msg_iovlen ≡ next_start c (i + 1))

pub record HasRoom (c : Output) : Type 0 where
  pub msgs : c.msgused ≤ c.msgsize
  pub spare : 2 ≤ c.msgsize
  pub iovs : c.iovused ≤ c.iovsize
  pub some_iov : 1 ≤ c.iovsize

-- Output that is being put together: nothing of it is transmitted, and the first header respects
-- the limit on the first payload.
pub record IsBuilt (c : Output) : Type 0 where
  pub room : HasRoom c
  pub tiled : IsTiled c 0
  pub starts : next_start c 0 ≡ 0
  pub limited : c.msgused ≡ 1 → c.msgbytes ≤ max_payload_size

pub pushed-Built : (c : Output) → IsBuilt c → c.msgused < c.msgsize → IsBuilt (pushed c)
unfolding pushed
pushed-Built c b h = record {
  room = omega arith;
  tiled = λ i _ k. ground (arith, b.tiled i (omega arith));
  starts = ground arith;
  limited = λ _. omega arith;
}

-- Headers that tile `iov` from its start are pointed at the same places by the loop, in the new
-- array.
repoint_lem :
    (n i block : ℕ) (c : Output)
    → IsTiled c 0
    → i + n ≡ c.msgused
    → (msgs : ℕ → Msghdr) → ((j : ℕ) → i ≤ j → j < c.msgused → msgs j ≡ c.msglist j)
    → (j : ℕ) → j < c.msgused
    → repoint n i (next_start c i) block msgs j
      ≡ (if ltb j i then msgs j else record (c.msglist j) { block = block })
unfolding repoint
repoint_lem zero i block c t e msgs same j h = ground arith
repoint_lem (suc n) i block c t e msgs same j h =
    let here : i < c.msgused = omega arith in
    let first : msgs i ≡ c.msglist i = same i (omega arith) here in
    let next : next_start c i + (msgs i).msg_iovlen ≡ next_start c (i + 1) =
      ground (arith, t i (omega arith) here) in
    let moved : Msghdr = record (msgs i) { block = block; msg_iov = next_start c i } in
    let rest =
      repoint_lem n (i + 1) block c t (omega arith) (update msgs i moved)
        (λ k l m. ground (arith, same k (omega arith) m)) j h in
    rw next (ground (arith, rest))

pub grown-msglist :
    (c : Output)
    → IsBuilt c
    → (j : ℕ) → j < c.msgused
    → (grown c).msglist j ≡ record (c.msglist j) { block = c.iov_block + 1 }
unfolding grown
grown-msglist c b j h = ground (
  arith,
  b.starts,
  repoint_lem c.msgused 0 (c.iov_block + 1) c b.tiled (omega arith) c.msglist (λ _ _ _. refl) j h,
)

pub grown-Built : (c : Output) → IsBuilt c → IsBuilt (grown c)
unfolding grown
grown-Built c b = record {
  room = omega arith;
  tiled = λ i _ k.
      ground (arith, b.tiled i (omega arith) k, grown-msglist c b i k, grown-msglist c b (i + 1));
  starts = ground (arith, b.starts, grown-msglist c b 0);
  limited = b.limited;
}

pub entered-Built :
    (c : Output) (buf : Ptr) (len : ℕ)
    → IsBuilt c
    → 1 ≤ c.msgused
    → c.iovused < c.iovsize
    → (c.msgused ≡ 1 → c.msgbytes + len ≤ max_payload_size)
    → IsBuilt (entered c buf len)
unfolding entered
entered-Built c buf len b u s l = record {
  room = omega arith;
  tiled = λ i _ k. ground (arith, b.tiled i (omega arith));
  starts = ground (arith, b.tiled 0);
  limited = l;
}
