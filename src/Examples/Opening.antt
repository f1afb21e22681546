-- ===== src/Examples/Opening.antt =====
-- The theorems on new connections at concrete inputs that meet their hypotheses.
use synthetic_client.Base.{
  ap, sym, subst, ◌∙◌, ◌⊎◌, ◌>>=◌, Bool, true, ℕ, ◌≡◌, refl, false, none, some, [], ◌∷◌, Bool-cases,
  inl, inr, ◌==◌, if◌then◌else◌, Returns, arith, update,
}
use synthetic_client.Base.Int.{pos}
use synthetic_client.Fsm.{conn_new_cmd}
use synthetic_client.World.{World}
use synthetic_client.Conn.{client_conn, ev_read}
use synthetic_client.Conn.New.{conn_new}
use synthetic_client.Conn.New.Counts.{Opens, CanOpen, workers-CanOpen, conn_new-Opens}
use synthetic_client.Queue.{conn_queue_new, NewConn}
use synthetic_client.Queue.Chain.{Cells}
use synthetic_client.Threads.{thread_new_conn_handler}
use synthetic_client.Threads.Serves.{Serves}
use synthetic_client.Threads.Handles.{Handles, thread_new_conn_handler-Handles}
use synthetic_client.Samples.{sample_conn, sample_stats}
use synthetic_client.World.{ClientStats}
use synthetic_client.Conn.{Conn}
use synthetic_client.Conn.Close.{conn_close}
use synthetic_client.Conn.New.Opens.{IsOpened, HasSpace}
use synthetic_client.Conn.New.Reopens.{IsOpen, Closes, conn_close-Closes, conn_new-conn_close}
use synthetic_client.Examples.Workers.{unknown, no_entries, bucket-2007, no_items}

-- A connection was closed.
abbrev one_closed : World
one_closed = record unknown {
  freelist = record { freeconns = λ _. 1; freetotal = 200; freecurr = 1 };
  conns = λ p. if p == 1 then some sample_conn else none;
}

one_closed-CanOpen : CanOpen (pos 2007) no_entries 7 one_closed
one_closed-CanOpen = record {
  map = record { heads = λ k. refl; linked = λ k. tt; keyed = λ k. tt; distinct = λ k. tt };
  key = bucket-2007;
  memory = λ i. refl;
  unused = λ i. refl;
  space = λ p s e. cc;
  freelist = record {
    room = omega arith;
    some_room = omega arith;
    closed = λ i h. record {
      conn = sample_conn;
      stored = refl;
      address = refl;
      some_size = omega arith;
    };
    distinct = λ i j h k e. omega (arith, h, k);
  };
}

conn_new-Opens_example :
    Returns
      (conn_new 3 client_conn (pos 2007) 9 conn_new_cmd ev_read 2048 one_closed)
      (Opens client_conn (pos 2007) 9 conn_new_cmd ev_read no_entries 7 one_closed)
conn_new-Opens_example =
    conn_new-Opens 3 client_conn (pos 2007) 9 conn_new_cmd ev_read 2048 no_entries 7 one_closed
      (omega arith) (omega arith) one_closed-CanOpen

abbrev item : NewConn
item = record {
  client_id = pos 2007;
  sfd = 9;
  init_state = conn_new_cmd;
  event_flags = ev_read;
  next = none;
  read_buffer_size = 2048;
}

-- An item waits for worker 0, which was notified.
abbrev one_waiting : World
one_waiting = record one_closed {
  workers = record (one_closed.workers) {
    nodes = update (λ _. none) 300 (some item);
    queues = update (λ _. conn_queue_new) 0 (record { head = some 300; tail = some 300 });
    pipes = update (λ _. 0) 0 1;
  };
}

abbrev one_item : ℕ → Cells
one_item = update no_items 0 ((300, item) ∷ [])

one_waiting-Serves : Serves one_waiting.workers one_item
unfolding conn_queue_new
one_waiting-Serves = record {
  some_worker = omega arith;
  queues = λ i. elim (Bool-cases (0 == i)) [
    | inl same ↦ rw same (record { linked = (refl, tt, tt); head = refl; tail = refl })
    | inr other ↦ rw other (record { linked = tt; head = refl; tail = refl })
  ];
  apart = λ i j ne. elim (Bool-cases (0 == i)) [
    | inl same ↦ let other : (0 == j) ≡ false = ground arith in rw (same, other) (tt, tt)
    | inr other ↦ rw other tt
  ];
  pipes = λ i. elim (Bool-cases (0 == i)) [
    | inl same ↦ rw same (omega arith)
    | inr other ↦ rw other (omega arith)
  ];
}

thread_new_conn_handler-Handles_example :
    Returns (thread_new_conn_handler 3 0 one_waiting) (Handles one_item 0 300 item [] one_waiting)
thread_new_conn_handler-Handles_example =
    thread_new_conn_handler-Handles 3 one_item 0 0 300 item [] no_entries 7 one_waiting
      one_waiting-Serves refl refl (omega arith) (omega arith)
      (workers-CanOpen (pos 2007) no_entries 7 one_closed one_waiting.workers one_closed-CanOpen)

-- A connection is open, and counted in an entry.
abbrev one_open : World
one_open = record unknown {
  client_stats = update (λ _. none) 0 (some sample_stats);
  conns = update (λ _. none) 1 (some sample_conn);
}

sample_conn-IsOpen : IsOpen sample_conn one_open
sample_conn-IsOpen = record {
  slot = 0;
  stats = refl;
  value = sample_stats;
  stored = refl;
  shared = (omega arith, omega arith);
  some_size = omega arith;
  away = λ i h e. omega (arith, h);
}

one_open-CanOpen : CanOpen (pos 2007) no_entries 7 one_open
one_open-CanOpen = record {
  map = record { heads = λ k. refl; linked = λ k. tt; keyed = λ k. tt; distinct = λ k. tt };
  key = bucket-2007;
  memory = λ i. refl;
  unused = λ i. ground arith;
  space = λ p s e. space p s (Bool-cases (0 == p)) e;
  freelist = record {
    room = omega arith;
    some_room = omega arith;
    closed = λ i h. absurd (omega (arith, h));
    distinct = λ i j h k e. omega (arith, h);
  };
}
  where
    space :
        (p : ℕ) (s : ClientStats)
        → ((0 == p) ≡ true) ⊎ ((0 == p) ≡ false)
        → update (λ _. none) 0 (some sample_stats) p ≡ some s
        → HasSpace s
    space p s (inl same) e =
        let both : some sample_stats ≡ some s =
          ap (λ (b : Bool). if b then some sample_stats else none) (sym same) ∙ e in
        let eq : sample_stats ≡ s = cc in subst HasSpace eq (omega arith, omega arith)
    space p s (inr other) e =
        let no : none ≡ some s =
          ap (λ (b : Bool). if b then some sample_stats else none) (sym other) ∙ e in
        cc

conn_close-Closes_example :
    Returns
      (conn_close sample_conn one_open)
      (Closes sample_conn no_entries one_open sample_conn-IsOpen)
conn_close-Closes_example =
    conn_close-Closes sample_conn no_entries one_open sample_conn-IsOpen one_open-CanOpen.map
      one_open-CanOpen.freelist one_open-CanOpen.memory

conn_new-conn_close_example :
    Returns
      (conn_close sample_conn one_open >>= λ r.
        conn_new 3 client_conn (pos 2007) 9 conn_new_cmd ev_read 2048 r.1)
      (λ r.
        (r.0 ≡ some 1)
        × (d : Conn) × (r.1.conns 1 ≡ some d)
        × IsOpened client_conn (pos 2007) 9 conn_new_cmd ev_read 1 d)
conn_new-conn_close_example =
    conn_new-conn_close 3 client_conn (pos 2007) 9 conn_new_cmd ev_read 2048 sample_conn no_entries
      7 one_open sample_conn-IsOpen one_open-CanOpen (omega arith) (omega arith) refl
