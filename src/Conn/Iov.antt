-- ===== src/Conn/Iov.antt =====
-- src/connections.c: vectored output, over the fields of the connection that it uses. `msglist`
-- holds message headers, each of which points at a run of elements of the flat array `iov`.
pub mod Tiled
pub mod Payload
pub mod Adds
pub mod Loop
pub mod Sums
pub mod Plenty
pub mod Frame
use synthetic_client.Base.{
  ℕ, zero, suc, ◌+◌, ◌-◌, ◌*◌, Bool, true, false, ◌&&◌, ◌||◌, ltb, leb, ◌==◌, if◌then◌else◌, update,
  Run, ok, fault, out_of_bounds, dangling, overflow, no_fuel, ◌>>=◌,
}
use synthetic_client.World.{World, after_alloc}
use synthetic_client.Conn.{Output, Ptr, Iovec, Msghdr, max_payload_size}

-- The new header points past the used part of `iov` and spans nothing.
pub pushed : Output → Output
pushed c = record c {
  msglist = update c.msglist c.msgused m;
  msgbytes = 0;
  msgused = c.msgused + 1;
}
  where
    m : Msghdr
    m = record { block = c.iov_block; msg_iov = c.iovused; msg_iovlen = 0 }

pub push_msghdr : Output → Run Output
unfolding pushed
push_msghdr c = if ltb c.msgused c.msgsize then ok (pushed c) else fault out_of_bounds

-- `false` is out-of-memory.
pub conn_add_msghdr : Output → World → Run (Bool × Output × World)
conn_add_msghdr c w =
    if c.msgsize == c.msgused
    then (if w.allocs 0
        then push_msghdr (record c { msgsize = c.msgsize * 2 })
          >>= (λ d. ok (true, d, after_alloc w))
        else ok (false, c, after_alloc w))
    else push_msghdr c >>= λ d. ok (true, d, w)

-- Point the headers from number `i` on at the array `block`, as if each spanned what follows the
-- one before it.
pub repoint : ℕ → ℕ → ℕ → ℕ → (ℕ → Msghdr) → ℕ → Msghdr
repoint zero i iovnum block msgs = msgs
repoint (suc n) i iovnum block msgs =
    repoint n (i + 1) (iovnum + (msgs i).msg_iovlen) block
      (update msgs i (record (msgs i) { block = block; msg_iov = iovnum }))

-- After `realloc` the old allocation is gone: the array has a new number.
pub grown : Output → Output
grown c = record c {
  iov_block = c.iov_block + 1;
  iovsize = c.iovsize * 2;
  msglist = repoint c.msgused 0 0 (c.iov_block + 1) c.msglist;
}

pub conn_ensure_iov_space : Output → World → Bool × Output × World
conn_ensure_iov_space c w =
    if leb c.iovsize c.iovused
    then (if w.allocs 0 then (true, grown c, after_alloc w) else (false, c, after_alloc w))
    else (true, c, w)

abbrev pub last_msg : Output → Msghdr
last_msg c = c.msglist (c.msgused - 1)

-- `m->msg_iov[m->msg_iovlen] = ...` for the last header `m`, and the counts.
pub entered : Output → Ptr → ℕ → Output
entered c buf len = record c {
  iov = update c.iov (m.msg_iov + m.msg_iovlen) (record { iov_base = buf; iov_len = len });
  msgbytes = c.msgbytes + len;
  iovused = c.iovused + 1;
  msglist = update c.msglist (c.msgused - 1) (record m { msg_iovlen = m.msg_iovlen + 1 });
}
  where
    m : Msghdr
    m = last_msg c

pub add_entry : Output → Ptr → ℕ → Run Output
unfolding entered
add_entry c buf len =
    if (last_msg c).block == c.iov_block
    then (if ltb ((last_msg c).msg_iov + (last_msg c).msg_iovlen) c.iovsize
        then ok (entered c buf len)
        else fault out_of_bounds)
    else fault dangling

-- How a round of the loop ends: out of memory, or with `len` bytes placed and `leftover` to go.
pub data Round : Type 0 where
  failed : Output → World → Round
  placed : Output → World → ℕ → ℕ → Round

-- The sums of `int` are without bounds here; in Conn/Iov/Sums they overflow.
-- A first header with more than `max_payload_size` bytes would make `len` negative.
pub place : Bool → Output → Ptr → ℕ → World → Run Round
place limited c buf len w =
    if limited && ltb max_payload_size (len + c.msgbytes)
    then (if ltb max_payload_size c.msgbytes
        then fault overflow
        else add_entry c buf (max_payload_size - c.msgbytes) >>= λ d.
            ok (placed d w (max_payload_size - c.msgbytes) (len + c.msgbytes - max_payload_size)))
    else add_entry c buf len >>= λ d. ok (placed d w len 0)

-- The payload of the first header is limited.
abbrev pub limit_to_mtu : Output → Bool
limit_to_mtu c = c.msgused == 1

-- Start a new header if the last one is full.
pub fresh_msghdr : ℕ → Output → World → Run (Bool × Output × World)
fresh_msghdr iov_max c w =
    if ((last_msg c).msg_iovlen == iov_max) || (limit_to_mtu c && leb max_payload_size c.msgbytes)
    then conn_add_msghdr c w
    else ok (true, c, w)

-- The result of `conn_add_msghdr` is not looked at, as in the source.
pub round : ℕ → Output → Ptr → ℕ → World → Run Round
round iov_max c buf len w =
    if c.msgused == 0
    then fault out_of_bounds
    else fresh_msghdr iov_max c w >>= λ r.
        let (room, d, v) = conn_ensure_iov_space r.1 r.2 in
        if room then place (limit_to_mtu c) d buf len v else ok (failed d v)

abbrev pub ptr_add : Ptr → ℕ → Ptr
ptr_add p n = record p { offset = p.offset + n }

-- The test `leftover > 0` at the end of a round.
pub continue :
    (Output → Ptr → ℕ → World → Run (Bool × Output × World))
    → Ptr
    → Round
    → Run (Bool × Output × World)
continue again buf (failed d v) = ok (false, d, v)
continue again buf (placed d v n leftover) =
    if ltb 0 leftover then again d (ptr_add buf n) leftover v else ok (true, d, v)

pub add_loop : ℕ → ℕ → Output → Ptr → ℕ → World → Run (Bool × Output × World)
unfolding continue
add_loop zero iov_max c buf len w = fault no_fuel
add_loop (suc fuel) iov_max c buf len w =
    round iov_max c buf len w >>= continue (add_loop fuel iov_max) buf

-- Three rounds are enough: the first fills the first header, the second starts the next one and is
-- still limited, and from the third on there is no limit.
unfoldable pub conn_add_iov : ℕ → Output → Ptr → ℕ → World → Run (Bool × Output × World)
unfolding add_loop
conn_add_iov iov_max c buf len w = add_loop 3 iov_max c buf len w
