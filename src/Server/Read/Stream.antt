-- ===== src/Server/Read/Stream.antt =====
-- `read_network` keeps the stream of bytes: what was unparsed stays in front of what arrives.
use synthetic_client.Base.{
  ℕ, zero, suc, ◌+◌, ◌-◌, ◌*◌, ◌≤◌, ◌<◌, ◌≡◌, ◌≢◌, ◌⊎◌, refl, sym, ap, ◌∙◌, subst, inl, inr, false,
  ltb, ◌==◌, List, [], ◌∷◌, ◌++◌, append-nil, append_assoc, length, bytes, fill, bytes-fill,
  bytes-fill_next, length-bytes, Run, Returns, Bool-cases, arith,
}
use synthetic_client.World.{
  World, ReadOutcome, received, end_of_stream, would_block, read_failed, after_alloc, after_read,
}
use synthetic_client.Conn.{Input}
use synthetic_client.Server.Read.{
  ReadResult, read_data_received, read_no_data_received, read_error, compact, stored, after_reading,
}

-- The unparsed bytes.
unfoldable pub unparsed : Input → List ℕ
unparsed c = bytes c.rbuf c.rcurr c.rbytes

-- The unparsed bytes lie within the buffer, which is not empty.
pub record HasBounds (c : Input) : Type 0 where
  pub within : c.rcurr + c.rbytes ≤ c.rsize
  pub some_size : 1 ≤ c.rsize

-- `read` returns no more bytes than it is asked for.
abbrev pub WellBehaved : World → Type 0
WellBehaved w = (i n : ℕ) (bs : List ℕ) → w.reads i n ≡ received bs → length bs ≤ n

abbrev pub bytes_of : ReadOutcome → List ℕ
bytes_of (received bs) = bs
bytes_of _ = []

-- Between two states of the world, `read` has delivered the bytes.
pub data Delivers (w : World) : List ℕ → World → Type 0 where
  start : Delivers w [] w
  alloc : {s : List ℕ} {v : World} → Delivers w s v → Delivers w s (after_alloc v)
  reading :
      {s : List ℕ} {v : World} (n : ℕ)
      → Delivers w s v
      → Delivers w (s ++ bytes_of (v.reads 0 n)) (after_read v)

pub compact_lem :
    (c : Input)
    → HasBounds c
    → HasBounds (compact c)
      × (unparsed (compact c) ≡ unparsed c)
      × ((compact c).rcurr ≡ 0)
      × ((compact c).rsize ≡ c.rsize)
      × ((compact c).rbytes ≡ c.rbytes)
unfolding compact unparsed
compact_lem c b = elim (Bool-cases (c.rcurr == 0)) [
  | inl front ↦ rw front (b, refl, ground arith, refl, refl)
  | inr behind ↦
      let moved = bytes c.rbuf c.rcurr c.rbytes in
      elim (Bool-cases (c.rbytes == 0)) [
        | inl empty ↦
            let none_left : c.rbytes ≡ 0 = ground arith in
            rw (behind, empty)
              (
                record { within = omega arith; some_size = b.some_size },
                (unfold bytes in rw none_left),
                refl,
                refl,
                refl,
              )
        | inr some_bytes ↦
            let size : length moved ≡ c.rbytes = length-bytes c.rbuf c.rcurr c.rbytes in
            rw (behind, some_bytes)
              (
                record { within = omega arith; some_size = b.some_size },
                subst (λ n. bytes (fill c.rbuf 0 moved) 0 n ≡ moved) size
                    (bytes-fill c.rbuf 0 moved),
                refl,
                refl,
                refl,
              )
      ]
]

pub Delivers-trans :
    {u v w : World} {s t : List ℕ} → Delivers u s v → Delivers v t w → Delivers u (s ++ t) w
Delivers-trans {u} {v} {s = s} d start = subst (λ l. Delivers u l v) (sym (append-nil s)) d
Delivers-trans d (alloc e) = alloc (Delivers-trans d e)
Delivers-trans {u} {s = s} d (reading {s = t} {v = x} n e) =
    subst (λ l. Delivers u l (after_read x)) (append_assoc s t (bytes_of (x.reads 0 n)))
      (reading n (Delivers-trans d e))

append-ne-nil {ℓ} : {A : Type ℓ} (xs ys : List A) → xs ≢ [] → xs ++ ys ≢ []
append-ne-nil [] ys h = absurd (h refl)
append-ne-nil (x ∷ xs) ys h = λ e. cc

-- How often the buffer may still double, as a factor, after a number of allocations.
abbrev pub room : ℕ → ℕ
room zero = 16
room (suc zero) = 8
room (suc (suc zero)) = 4
room (suc (suc (suc zero))) = 2
room _ = 1

pub room_double : (n : ℕ) → n < 4 → room n ≡ 2 * room (n + 1)
room_double zero h = refl
room_double (suc zero) h = refl
room_double (suc (suc zero)) h = refl
room_double (suc (suc (suc zero))) h = refl
room_double (suc (suc (suc (suc n)))) h = absurd (omega arith)

pub room_pos : (n : ℕ) → 1 ≤ room n
room_pos zero = omega arith
room_pos (suc zero) = omega arith
room_pos (suc (suc zero)) = omega arith
room_pos (suc (suc (suc zero))) = omega arith
room_pos (suc (suc (suc (suc n)))) = omega arith

-- The outcome of the loop, entered with the result `ret` and a factor of room.
pub record Loops (factor : ℕ) (ret : ReadResult) (c : Input) (w : World)
    (r : ReadResult × Input × World) : Type 0 where
  pub bounds : HasBounds r.1
  pub bounded : r.1.rsize ≤ c.rsize * factor
  pub arrived : List ℕ
  pub delivered : Delivers w arrived r.2
  pub stream : unparsed r.1 ≡ unparsed c ++ arrived
  pub some_data : r.0 ≡ read_data_received → (ret ≡ read_data_received) ⊎ (arrived ≢ [])
  pub no_data : r.0 ≡ read_no_data_received → (ret ≡ read_no_data_received) × (arrived ≡ [])

stored_lem : (c : Input) (bs : List ℕ) → c.rcurr ≡ 0 → unparsed (stored c bs) ≡ unparsed c ++ bs
unfolding unparsed
stored_lem c bs e = rw e (bytes-fill_next c.rbuf c.rbytes bs)

-- A round that ends the loop at once, having read nothing.
pub stops :
    (factor : ℕ) (ret : ReadResult) (c : Input) (w v : World) (q : ReadResult)
    → HasBounds c
    → 1 ≤ factor
    → Delivers w [] v
    → (q ≡ read_data_received → ret ≡ read_data_received)
    → (q ≡ read_no_data_received → ret ≡ read_no_data_received)
    → Loops factor ret c w (q, c, v)
stops factor ret c w v q b f d x y = record {
  bounds = b;
  bounded = grind arith;
  arrived = [];
  delivered = d;
  stream = sym (append-nil (unparsed c));
  some_data = λ e. inl (x e);
  no_data = λ e. (y e, refl);
}

-- What one `read` delivers.
read_once :
    (w : World) (n : ℕ) {out : ReadOutcome}
    → w.reads 0 n ≡ out
    → Delivers w (bytes_of out) (after_read w)
read_once w n o = subst (λ out. Delivers w (bytes_of out) (after_read w)) o (reading n start)

-- A round that fills the buffer, followed by the rest of the loop.
after_full :
    (factor : ℕ) (ret : ReadResult) (c : Input) (w : World) (r : ReadResult × Input × World)
    (xs : List ℕ)
    → HasBounds c
    → c.rcurr ≡ 0
    → Delivers w xs (after_read w)
    → xs ≢ []
    → Loops factor read_data_received (stored c xs) (after_read w) r
    → Loops factor ret c w r
after_full factor ret c w r xs b z got some_bytes l = record {
  bounds = l.bounds;
  bounded = l.bounded;
  arrived = xs ++ l.arrived;
  delivered = Delivers-trans got l.delivered;
  stream =
      l.stream
      ∙ ap (λ s. s ++ l.arrived) (stored_lem c xs z)
      ∙ append_assoc (unparsed c) xs l.arrived;
  some_data = λ e. inr (append-ne-nil xs l.arrived some_bytes);
  no_data = λ e. absurd (received-ne-none (l.no_data e).0);
}
  where
    received-ne-none : read_data_received ≡ read_no_data_received → ⊥
    received-ne-none e = cc

pub after_reading_lem :
    (factor : ℕ) (again : Input → World → Run (ReadResult × Input × World)) (ret : ReadResult)
    (c : Input) (w : World) (out : ReadOutcome)
    → HasBounds c
    → 1 ≤ factor
    → c.rcurr ≡ 0
    → w.reads 0 (c.rsize - c.rbytes) ≡ out
    → ((bs : List ℕ) → out ≡ received bs → length bs ≤ c.rsize - c.rbytes)
    → ((d : Input)
        → HasBounds d
        → d.rcurr ≡ 0
        → d.rbytes ≡ d.rsize
        → d.rsize ≡ c.rsize
        → Returns (again d (after_read w)) (Loops factor read_data_received d (after_read w)))
    → Returns
        (after_reading again ret (c.rsize - c.rbytes) c out (after_read w))
        (Loops factor ret c w)
unfolding after_reading
after_reading_lem factor again ret c w (received []) b f z o fits more = (
  _,
  refl,
  stops factor ret c w (after_read w) read_error b f (read_once w _ o) (λ e. cc) (λ e. cc),
)
after_reading_lem factor again ret c w (received (x ∷ bs)) b f z o fits more =
    let xs = x ∷ bs in
    let fit = fits xs refl in
    let got = read_once w (c.rsize - c.rbytes) o in
    let d = stored c xs in
    let b' : HasBounds d = record { within = omega arith; some_size = b.some_size } in
    let fine : ltb (c.rsize - c.rbytes) (length xs) ≡ false = ground arith in
    elim (Bool-cases (ltb (length xs) (c.rsize - c.rbytes))) [
      | inl short ↦ (
        (read_data_received, d, after_read w),
        rw (fine, short),
        record {
          bounds = b';
          bounded = grind arith;
          arrived = xs;
          delivered = got;
          stream = stored_lem c xs z;
          some_data = λ e. inr (λ n. cc);
          no_data = λ e. cc;
        },
      )
      | inr full ↦
          let (r, run, l) = more d b' z (ground arith) refl in
          (r, rw (fine, full) run, after_full factor ret c w r xs b z got (λ n. cc) l)
    ]
after_reading_lem factor again ret c w end_of_stream b f z o fits more = (
  _,
  refl,
  stops factor ret c w (after_read w) read_error b f (read_once w _ o) (λ e. cc) (λ e. cc),
)
after_reading_lem factor again ret c w would_block b f z o fits more =
    (_, refl, stops factor ret c w (after_read w) ret b f (read_once w _ o) (λ e. e) (λ e. e))
after_reading_lem factor again ret c w read_failed b f z o fits more = (
  _,
  refl,
  stops factor ret c w (after_read w) read_error b f (read_once w _ o) (λ e. cc) (λ e. cc),
)
