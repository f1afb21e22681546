-- ===== src/Conn/Iov/Sums.antt =====
-- `conn_add_iov` with its sums of `int`, which may overflow.
use synthetic_client.Base.{
  ℕ, zero, suc, ◌+◌, ◌≤◌, ◌≡◌, refl, sym, ap, ◌∙◌, subst, inl, inr, Bool, false, ltb, ◌==◌,
  if◌then◌else◌, Run, ok, fault, out_of_bounds, overflow, no_fuel, ◌>>=◌, Returns, Bool-cases,
  arith,
}
use synthetic_client.World.{World}
use synthetic_client.Conn.{Output, Ptr}
use synthetic_client.Conn.Iov.{
  Round, failed, placed, place, limit_to_mtu, fresh_msghdr, conn_ensure_iov_space, round, ptr_add,
  continue, add_loop, conn_add_iov,
}
use synthetic_client.Conn.Iov.Tiled.{IsBuilt}
use synthetic_client.Conn.Iov.Payload.{Memory}
use synthetic_client.Conn.Iov.Adds.{conn_ensure_iov_space_lem}
use synthetic_client.Conn.Iov.Loop.{
  RoundEnds, fresh_msghdr_lem, round_lem, AddsIov, conn_add_iov-AddsIov,
}
use synthetic_client.Utils.{int_max}

-- With the limit in force the test adds `len` to the count, and else the count itself grows by `len`.
unfoldable place_int : Bool → Output → Ptr → ℕ → World → Run Round
place_int limited c buf len w =
    if ltb int_max (len + c.msgbytes) then fault overflow else place limited c buf len w

unfoldable round_int : ℕ → Output → Ptr → ℕ → World → Run Round
unfolding place_int
round_int iov_max c buf len w =
    if c.msgused == 0
    then fault out_of_bounds
    else fresh_msghdr iov_max c w >>= λ r.
        let (room, d, v) = conn_ensure_iov_space r.1 r.2 in
        if room then place_int (limit_to_mtu c) d buf len v else ok (failed d v)

unfoldable add_loop_int : ℕ → ℕ → Output → Ptr → ℕ → World → Run (Bool × Output × World)
unfolding round_int
add_loop_int zero iov_max c buf len w = fault no_fuel
add_loop_int (suc fuel) iov_max c buf len w =
    round_int iov_max c buf len w >>= continue (add_loop_int fuel iov_max) buf

unfoldable pub conn_add_iov_int : ℕ → Output → Ptr → ℕ → World → Run (Bool × Output × World)
unfolding add_loop_int
conn_add_iov_int iov_max c buf len w = add_loop_int 3 iov_max c buf len w

-- A round whose first sum does not overflow.
round_int_lem :
    (mem : Memory) (iov_max : ℕ) (c : Output) (buf : Ptr) (len : ℕ) (w : World)
    → IsBuilt c
    → 1 ≤ c.msgused
    → len + c.msgbytes ≤ int_max
    → round_int iov_max c buf len w ≡ round iov_max c buf len w
unfolding round_int place_int round
round_int_lem mem iov_max c buf len w b u fits =
    let (r, run, f) = fresh_msghdr_lem mem iov_max c w b u in
    let (k, used, same_bytes, room) = conn_ensure_iov_space_lem mem r.1 r.2 f.keeps.built in
    let d = (conn_ensure_iov_space r.1 r.2).1 in
    let small : ltb int_max (len + d.msgbytes) ≡ false =
      ground (arith, f.fewer, same_bytes, fits) in
    elim (Bool-cases (conn_ensure_iov_space r.1 r.2).0) [
      | inl more ↦ rw (run, more, small) refl
      | inr out ↦ rw (run, out) refl
    ]

-- What follows a round, where the rest of the loop does not overflow.
continue_int_lem :
    (mem : Memory) (again again' : Output → Ptr → ℕ → World → Run (Bool × Output × World))
    (c : Output) (buf : Ptr) (len : ℕ) (r : Round)
    → RoundEnds mem c buf len r
    → len + c.msgbytes ≤ int_max
    → ((d : Output) (p : Ptr) (left : ℕ) (v : World)
        → IsBuilt d
        → 1 ≤ d.msgused
        → left + d.msgbytes ≤ int_max
        → again d p left v ≡ again' d p left v)
    → continue again buf r ≡ continue again' buf r
unfolding continue
continue_int_lem mem again again' c buf len (failed d v) h fits same = refl
continue_int_lem mem again again' c buf len (placed d v n left) (p, count, less, sums) fits same =
    elim (Bool-cases (ltb 0 left)) [
      | inl todo ↦
          rw todo (same d (ptr_add buf n) left v p.built p.used (omega (arith, sums, fits)))
      | inr done ↦ rw done refl
    ]

add_loop_int_lem :
    (mem : Memory) (fuel iov_max : ℕ) (c : Output) (buf : Ptr) (len : ℕ) (w : World)
    → IsBuilt c
    → 1 ≤ c.msgused
    → len + c.msgbytes ≤ int_max
    → add_loop_int fuel iov_max c buf len w ≡ add_loop fuel iov_max c buf len w
unfolding add_loop_int add_loop
add_loop_int_lem mem zero iov_max c buf len w b u fits = refl
add_loop_int_lem mem (suc fuel) iov_max c buf len w b u fits =
    let (r, run, ends) = round_lem mem iov_max c buf len w b u in
    ap (λ t. t >>= continue (add_loop_int fuel iov_max) buf)
      (round_int_lem mem iov_max c buf len w b u fits ∙ run)
    ∙ continue_int_lem mem (add_loop_int fuel iov_max) (add_loop fuel iov_max) c buf len r ends fits
        (λ d p left v b' u' fits'. add_loop_int_lem mem fuel iov_max d p left v b' u' fits')
    ∙ ap (λ t. t >>= continue (add_loop fuel iov_max) buf) (sym run)

-- From a built output with a header, where `len` and the bytes of the last header together fit an
-- `int`, no sum of `conn_add_iov` overflows, and it ends within its three rounds and never leaves an
-- array. Afterwards the output is built and stands for what it stood for followed by a prefix of the
-- buffer; where the result is true, by the whole buffer.
pub conn_add_iov_int-AddsIov :
    (mem : Memory) (iov_max : ℕ) (c : Output) (buf : Ptr) (len : ℕ) (w : World)
    → IsBuilt c
    → 1 ≤ c.msgused
    → len + c.msgbytes ≤ int_max
    → Returns (conn_add_iov_int iov_max c buf len w) (AddsIov mem c buf len)
unfolding conn_add_iov_int conn_add_iov
conn_add_iov_int-AddsIov mem iov_max c buf len w b u fits =
    subst (λ t. Returns t (AddsIov mem c buf len))
      (sym (add_loop_int_lem mem 3 iov_max c buf len w b u fits))
      (conn_add_iov-AddsIov mem iov_max c buf len w b u)
