-- ===== src/Server/States/Swallow.antt =====
-- src/server.c: the state `conn_swallow` throws away the bytes of a value, and no others.
use synthetic_client.Base.{
  ℕ, zero, suc, ◌+◌, ◌-◌, ◌≤◌, ◌≡◌, refl, sym, ap, ◌∙◌, inl, inr, ◌⊎◌, true, false, Bool, List, [],
  ◌∷◌, length, min, bytes, fill, drop, ok, Returns, Bool-cases, arith, ltb, if◌then◌else◌, none,
  le→ltb,
}
use synthetic_client.Base.Int.{ℤ, pos, is_zero}
use synthetic_client.Fsm.{conn_new_cmd, conn_closing}
use synthetic_client.World.{
  World, ReadOutcome, received, end_of_stream, would_block, read_failed, after_read,
}
use synthetic_client.Conn.{Conn, ev_read}
use synthetic_client.Conn.Event.{conn_set_state, conn_update_event, conn_update_event_t}
use synthetic_client.Server.Read.Stream.{unparsed, HasBounds, WellBehaved}
use synthetic_client.Server.Machine.Parked.{update_lem}
use synthetic_client.Server.States.{
  Turn, next, stop, if_updated, swallow_input, after_swallow_read, swallow_read, on_swallow,
}

-- The bytes that a `read` delivers.
abbrev pub delivered : ReadOutcome → ℕ
delivered (received bs) = length bs
delivered _ = 0

-- How many bytes a turn takes off a value with `s` bytes still to swallow: the unparsed ones that
-- belong to it, or else those that `read` delivers when it is asked for what fits into the buffer.
abbrev pub swallowed : ℕ → Conn → World → ℕ
swallowed s c w = if ltb 0 c.rbytes then min c.rbytes s else delivered (w.reads 0 (min c.rsize s))

-- With `s` bytes still to swallow: how a turn may end.
abbrev pub Swallows : ℕ → Conn → World → Turn → Type 0
Swallows s c w (next n d v) =
    ((d.state ≡ conn_closing) × (c.rbytes ≡ 0) × (swallowed s c w ≡ 0))
    ⊎ ((s ≡ 0) × (d.state ≡ conn_new_cmd) × (d.input ≡ c.input))
    ⊎ ((1 ≤ swallowed s c w)
        × (swallowed s c w ≤ s)
        × (d.sbytes ≡ pos (s - swallowed s c w))
        × (d.state ≡ c.state)
        × HasBounds d.input
        × (unparsed d.input ≡ drop (swallowed s c w) (unparsed c.input)))
Swallows s c w (stop d v) =
    (d.sbytes ≡ pos s)
    × (d.state ≡ c.state)
    × (swallowed s c w ≡ 0)
    × (d.input ≡ c.input)
    × (d.ev_flags ≡ ev_read)
    × (unparsed c.input ≡ [])

pub drop-bytes : (f : ℕ → ℕ) (o n k : ℕ) → k ≤ n → bytes f (o + k) (n - k) ≡ drop k (bytes f o n)
unfolding bytes
drop-bytes f o n zero h =
    let place : o + 0 ≡ o = omega arith in
    let count : n - 0 ≡ n = omega arith in rw (place, count) refl
drop-bytes f o zero (suc k) h = absurd (omega arith)
drop-bytes f o (suc n) (suc k) h =
    let place : o + suc k ≡ o + 1 + k = omega arith in
    let count : suc n - suc k ≡ n - k = omega arith in
    rw (place, count) (drop-bytes f (o + 1) n k (omega arith))

drop-nil : (k : ℕ) → drop {A = ℕ} k [] ≡ []
drop-nil zero = refl
drop-nil (suc k) = refl

swallow_input_lem :
    (n s : ℕ) (c : Conn) (w : World)
    → HasBounds c.input
    → 1 ≤ s
    → 1 ≤ c.rbytes
    → Returns (swallow_input n (pos s) c w) (Swallows s c w)
unfolding swallow_input unparsed
swallow_input_lem n s c w b some some_bytes =
    let k = min c.rbytes s in
    let some_left : ltb 0 c.rbytes ≡ true = ground (arith, some_bytes) in
    (
      _,
      refl,
      rw some_left (
          inr (
            inr (
              omega arith,
              omega arith,
              refl,
              refl,
              record { within = omega (arith, b.within); some_size = b.some_size },
              drop-bytes c.rbuf c.rcurr c.rbytes k (omega arith),
            ))),
    )

update-sbytes : (c : Conn) (w : World) → (conn_update_event c ev_read w).1.sbytes ≡ c.sbytes
unfolding conn_update_event conn_update_event_t
update-sbytes c w = ground arith

waits_or_closes :
    (n s : ℕ) (c : Conn) (w : World) (u : Bool × Conn × World)
    → (u.0 ≡ true → u.1.ev_flags ≡ ev_read)
    → u.1.input ≡ c.input
    → u.1.sbytes ≡ pos s
    → u.1.state ≡ c.state
    → c.rbytes ≡ 0
    → swallowed s c w ≡ 0
    → unparsed c.input ≡ []
    → Swallows s c w (if_updated u n stop)
unfolding conn_set_state
waits_or_closes n s c w (true, d, v) flags input count state none_left none_read empty =
    (count, state, none_read, input, flags refl, empty)
waits_or_closes n s c w (false, d, v) flags input count state none_left none_read empty =
    inl (refl, none_left, none_read)

swallow_read_lem :
    (n s avail : ℕ) (c : Conn) (o : ReadOutcome) (u w : World)
    → HasBounds c.input
    → c.rbytes ≡ 0
    → c.sbytes ≡ pos s
    → swallowed s c u ≡ delivered o
    → avail ≤ s
    → ((bs : List ℕ) → o ≡ received bs → length bs ≤ avail)
    → Returns (after_swallow_read n s avail c o w) (Swallows s c u)
unfolding after_swallow_read conn_set_state unparsed bytes
swallow_read_lem n s avail c (received []) u w b z e k l fits = (_, refl, inl (refl, z, k))
swallow_read_lem n s avail c (received (x ∷ xs)) u w b z e k l fits =
    let few : length (x ∷ xs) ≤ avail = fits (x ∷ xs) refl in
    (
      next n
          (record c {
            sbytes = pos (s - length (x ∷ xs));
            input = record (c.input) { rbuf = fill c.rbuf 0 (x ∷ xs) };
          })
          w,
      rw (le→ltb avail (length (x ∷ xs)) few) refl,
      inr (
          inr (
            omega (arith, k),
            omega (arith, k, few, l),
            ap (λ i. pos (s - i)) (sym k),
            refl,
            record { within = b.within; some_size = b.some_size },
            rw z (sym (drop-nil _)),
          )),
    )
swallow_read_lem n s avail c end_of_stream u w b z e k l fits = (_, refl, inl (refl, z, k))
swallow_read_lem n s avail c read_failed u w b z e k l fits = (_, refl, inl (refl, z, k))
swallow_read_lem n s avail c would_block u w b z e k l fits =
    let (flags, same, input) = update_lem c ev_read none w in
    (
      _,
      refl,
      waits_or_closes n s c u (conn_update_event c ev_read w) (unfold conn_update_event in flags)
          (unfold conn_update_event in input) (update-sbytes c w ∙ e)
          (unfold conn_update_event in same) z k (rw z refl),
    )

-- The state, by what `sbytes` is.
pub with_sbytes :
    (n : ℕ) (z : ℤ) (c : Conn) (w : World)
    → c.sbytes ≡ z
    → on_swallow n c w ≡ (
        if is_zero z
        then ok (next n (conn_set_state c conn_new_cmd) w)
        else if ltb 0 c.rbytes
        then swallow_input n z c w
        else swallow_read n z c w)
unfolding on_swallow
with_sbytes n z c w e =
    ap
      (λ y.
        if is_zero y
        then ok (next n (conn_set_state c conn_new_cmd) w)
        else if ltb 0 c.rbytes
        then swallow_input n y c w
        else swallow_read n y c w)
      e

-- With `s` bytes of a value still to swallow and a `read` that returns no more than it is asked
-- for, `on_swallow` does not fault. It goes on to the next command if nothing is left to swallow; or
-- it throws away at least one byte and counts exactly those that it throws away, never more than `s`:
-- the first of the unparsed ones, or, if none is unparsed, all that `read` delivers. If neither gives
-- a byte, it waits for input or closes the connection. Where bytes are thrown away, and where it waits,
-- the state stays as it is.
pub on_swallow-Swallows :
    (n s : ℕ) (c : Conn) (w : World)
    → HasBounds c.input
    → c.sbytes ≡ pos s
    → WellBehaved w
    → Returns (on_swallow n c w) (Swallows s c w)
unfolding swallow_read conn_set_state
on_swallow-Swallows n zero c w b e v = (
  next n (conn_set_state c conn_new_cmd) w,
  with_sbytes n (pos 0) c w e,
  inr (inl (refl, refl, refl)),
)
on_swallow-Swallows n (suc s) c w b e v = elim (Bool-cases (ltb 0 c.rbytes)) [
  | inl some_bytes ↦
      let (t, run, p) = swallow_input_lem n (suc s) c w b (omega arith) (ground arith) in
      (t, with_sbytes n (pos (suc s)) c w e ∙ rw some_bytes run, p)
  | inr empty ↦
      let (t, run, p) =
        swallow_read_lem n (suc s) (min c.rsize (suc s)) c (w.reads 0 (min c.rsize (suc s))) w
          (after_read w) b (ground arith) e (rw empty refl) (omega arith) (λ bs h. v 0 _ bs h) in
      (t, with_sbytes n (pos (suc s)) c w e ∙ rw empty run, p)
]
