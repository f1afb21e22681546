-- ===== src/Server/Read.antt =====
-- src/server.c: `read_network` moves the unparsed bytes to the start of the buffer and reads on
-- behind them, doubling the buffer when it is full, at most `max_allocs` times.
pub mod Stream
pub mod Network
use synthetic_client.Base.{
  ℕ, zero, suc, ◌+◌, ◌-◌, ◌*◌, ltb, leb, ◌==◌, if◌then◌else◌, List, [], ◌∷◌, length, bytes, fill,
  Run, ok, fault, out_of_bounds, overflow, no_fuel,
}
use synthetic_client.World.{
  World, ReadOutcome, received, end_of_stream, would_block, read_failed, after_alloc, after_read,
}
use synthetic_client.Conn.{Input}
use synthetic_client.Utils.{int_max}

pub data ReadResult : Type 0 where
  read_data_received read_no_data_received read_error read_memory_error : ReadResult

abbrev pub max_allocs : ℕ
max_allocs = 4

-- `memmove` of the unparsed bytes; where there are none it moves none.
pub compact : Input → Input
compact c = if c.rcurr == 0 then c else record c {
  rbuf = if c.rbytes == 0 then c.rbuf else fill c.rbuf 0 (bytes c.rbuf c.rcurr c.rbytes);
  rcurr = 0;
}

-- `realloc` keeps the bytes; what it adds is indeterminate.
abbrev pub doubled : Input → Input
doubled c = record c { rcurr = 0; rsize = c.rsize * 2 }

abbrev pub stored : Input → List ℕ → Input
stored c bs = record c { rbuf = fill c.rbuf c.rbytes bs; rbytes = c.rbytes + length bs }

-- What follows `read` when it was asked for `avail` bytes; `again` is the next round of the loop.
pub after_reading :
    (Input → World → Run (ReadResult × Input × World))
    → ReadResult
    → ℕ
    → Input
    → ReadOutcome
    → World
    → Run (ReadResult × Input × World)
after_reading again ret avail c (received []) w = ok (read_error, c, w)
after_reading again ret avail c (received (b ∷ bs)) w =
    if ltb avail (length (b ∷ bs))
    then fault out_of_bounds
    else if ltb (length (b ∷ bs)) avail
    then ok (read_data_received, stored c (b ∷ bs), w)
    else again (stored c (b ∷ bs)) w
after_reading again ret avail c end_of_stream w = ok (read_error, c, w)
after_reading again ret avail c would_block w = ok (ret, c, w)
after_reading again ret avail c read_failed w = ok (read_error, c, w)

pub read_some :
    (Input → World → Run (ReadResult × Input × World))
    → ReadResult
    → Input
    → World
    → Run (ReadResult × Input × World)
read_some again ret c w =
    after_reading again ret (c.rsize - c.rbytes) c (w.reads 0 (c.rsize - c.rbytes)) (after_read w)

-- The `while (1)`, from what is to be returned and the number of allocations made.
pub read_loop : ℕ → ReadResult → ℕ → Input → World → Run (ReadResult × Input × World)
read_loop zero ret num_allocs c w = fault no_fuel
read_loop (suc fuel) ret num_allocs c w =
    if leb c.rsize c.rbytes
    then (if num_allocs == max_allocs
        then ok (ret, c, w)
        else if ltb int_max (c.rsize * 2)
        then fault overflow
        else if w.allocs 0
        then read_some (read_loop fuel read_data_received (num_allocs + 1)) ret (doubled c)
            (after_alloc w)
        else ok (read_memory_error, c, after_alloc w))
    else read_some (read_loop fuel read_data_received num_allocs) ret c w

-- A round that goes on has filled the buffer, so that six rounds are enough.
unfoldable pub read_network : Input → World → Run (ReadResult × Input × World)
read_network c w = read_loop 6 read_no_data_received 0 (compact c) w
