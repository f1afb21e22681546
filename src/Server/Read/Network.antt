-- ===== src/Server/Read/Network.antt =====
-- The loop of `read_network`, and `read_network` as a whole.
use synthetic_client.Base.{
  ℕ, zero, suc, ◌+◌, ◌-◌, ◌*◌, ◌≤◌, ◌<◌, ◌≡◌, ◌≢◌, ◌⊎◌, refl, sym, ap, ◌∙◌, subst, false, ltb, inl,
  inr, leb, ◌==◌, if◌then◌else◌, List, [], ◌++◌, Returns, Bool-cases, arith,
}
use synthetic_client.World.{World, after_alloc, after_read}
use native.Mathlib.Nat.{mul_assoc}
use synthetic_client.Conn.{Input}
use synthetic_client.Utils.{int_max}
use synthetic_client.Server.Read.{
  ReadResult, read_data_received, read_no_data_received, read_memory_error, max_allocs, compact,
  doubled, read_some, read_loop, read_network,
}
use synthetic_client.Server.Read.Stream.{
  unparsed, HasBounds, WellBehaved, Delivers, start, alloc, compact_lem, Delivers-trans, room,
  room_double, room_pos, Loops, stops, after_reading_lem,
}

-- A round that doubles the buffer.
after_double :
    (n : ℕ) (ret : ReadResult) (c : Input) (w : World) (r : ReadResult × Input × World)
    → c.rcurr ≡ 0
    → n < 4
    → Loops (room (n + 1)) ret (doubled c) (after_alloc w) r
    → Loops (room n) ret c w r
unfolding unparsed
after_double n ret c w r z h l = record {
  bounds = l.bounds;
  bounded = rw (room_double n h) (grind (arith, l.bounded));
  arrived = l.arrived;
  delivered = Delivers-trans (alloc start) l.delivered;
  stream = rw z l.stream;
  some_data = l.some_data;
  no_data = l.no_data;
}

-- The size may be doubled while it has room for the factor that is left.
fits_twice : (n size : ℕ) → n < 4 → size * room n ≤ int_max → size * 2 * room (n + 1) ≤ int_max
fits_twice n size h i =
    subst (λ x. x ≤ int_max)
      (ap (◌*◌ size) (room_double n h) ∙ sym (mul_assoc size 2 (room (n + 1)))) i

fits_once : (size factor : ℕ) → 1 ≤ factor → size * factor ≤ int_max → ltb int_max size ≡ false
fits_once size factor some_factor i = grind (arith, some_factor, i)

-- The loop from any state in which the unparsed bytes begin the buffer, with fuel for the rounds
-- left.
read_loop_lem :
    (fuel : ℕ) (ret : ReadResult) (n : ℕ) (c : Input) (w : World)
    → HasBounds c
    → WellBehaved w
    → c.rsize * room n ≤ int_max
    → c.rcurr ≡ 0
    → n ≤ max_allocs
    → max_allocs - n + (if leb c.rsize c.rbytes then 1 else 2) ≤ fuel
    → Returns (read_loop fuel ret n c w) (Loops (room n) ret c w)
unfolding read_loop read_some
read_loop_lem zero ret n c w b v i z h m = absurd (ground arith)
read_loop_lem (suc fuel) ret n c w b v i z h m = elim (Bool-cases (leb c.rsize c.rbytes)) [
  | inr space ↦ rw space (
      after_reading_lem (room n) (read_loop fuel read_data_received n) ret c w _ b (room_pos n) z
        refl (λ bs e. v 0 (c.rsize - c.rbytes) bs e)
        (λ d b' z' full size.
          read_loop_lem fuel read_data_received n d (after_read w) b' (λ j. v (suc j))
            (subst (λ s. s * room n ≤ int_max) (sym size) i) z' h (ground arith)))
  | inl full ↦ elim (Bool-cases (n == max_allocs)) [
    | inl enough ↦ (
      (ret, c, w),
      rw (full, enough),
      stops (room n) ret c w w ret b (room_pos n) start (λ e. e) (λ e. e),
    )
    | inr few ↦
        let left : n < 4 = ground arith in
        let half = room_double n left in
        let some_room = room_pos (n + 1) in
        let twice : c.rsize * 2 * room (n + 1) ≤ int_max = fits_twice n c.rsize left i in
        let small : ltb int_max (c.rsize * 2) ≡ false =
          fits_once (c.rsize * 2) (room (n + 1)) some_room twice in
        elim (Bool-cases (w.allocs 0)) [
          | inl memory ↦
              let (r, run, l) =
                after_reading_lem (room (n + 1)) (read_loop fuel read_data_received (n + 1)) ret
                  (doubled c) (after_alloc w) _
                  (record { within = omega arith; some_size = omega arith }) (room_pos (n + 1)) refl
                  refl (λ bs e. v 0 (c.rsize * 2 - c.rbytes) bs e)
                  (λ d b' z' filled size.
                    read_loop_lem fuel read_data_received (n + 1) d (after_read (after_alloc w)) b'
                      (λ j. v (suc j)) (subst (λ s. s * room (n + 1) ≤ int_max) (sym size) twice) z'
                      (ground arith) (ground arith)) in
              (r, rw (full, few, small, memory) run, after_double n ret c w r z (ground arith) l)
          | inr none ↦ (
            (read_memory_error, c, after_alloc w),
            rw (full, few, small, none),
            stops (room n) ret c w (after_alloc w) read_memory_error b (room_pos n) (alloc start)
                (λ e. cc) (λ e. cc),
          )
        ]
  ]
]

some_arrived : (s : List ℕ) → (read_no_data_received ≡ read_data_received) ⊎ (s ≢ []) → s ≢ []
some_arrived s (inl e) = cc
some_arrived s (inr h) = h

-- What `read_network` achieves.
pub record Receives (c : Input) (w : World) (r : ReadResult × Input × World) : Type 0 where
  pub bounds : HasBounds r.1
  pub bounded : r.1.rsize ≤ c.rsize * 16
  pub arrived : List ℕ
  pub delivered : Delivers w arrived r.2
  pub stream : unparsed r.1 ≡ unparsed c ++ arrived
  pub some_data : r.0 ≡ read_data_received → arrived ≢ []
  pub no_data : r.0 ≡ read_no_data_received → arrived ≡ []

-- From a buffer that holds the unparsed bytes within its size, with a `read` that returns no more
-- than it is asked for, and 16 times the size within `int`, `read_network` returns. The unparsed
-- bytes are within the buffer, which is at most 16 times as large; they are those from before
-- followed by all that `read` delivered meanwhile. Something was delivered when data is reported,
-- and nothing when none is.
pub read_network-Receives :
    (c : Input) (w : World)
    → HasBounds c
    → WellBehaved w
    → c.rsize * 16 ≤ int_max
    → Returns (read_network c w) (Receives c w)
unfolding read_network
read_network-Receives c w b v i =
    let (b', same, front, size, count) = compact_lem c b in
    let (r, run, l) =
      read_loop_lem 6 read_no_data_received 0 (compact c) w b' v
        (subst (λ s. s * 16 ≤ int_max) (sym size) i) front (omega arith) (ground arith) in
    (
      r,
      run,
      record {
        bounds = l.bounds;
        bounded = omega (arith, l.bounded, size);
        arrived = l.arrived;
        delivered = l.delivered;
        stream = l.stream ∙ ap (λ s. s ++ l.arrived) same;
        some_data = λ e. some_arrived l.arrived (l.some_data e);
        no_data = λ e. (l.no_data e).1;
      },
    )
