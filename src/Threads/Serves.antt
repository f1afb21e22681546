-- ===== src/Threads/Serves.antt =====
-- The queues of the workers share one heap, and stand for one list of items for each worker.
use synthetic_client.Base.{
  ℕ, ◌+◌, ◌≡◌, ◌≢◌, ◌≤◌, ◌<◌, refl, ap, ◌∙◌, subst, inl, inr, ◌⊎◌, true, false, ◌==◌, if◌then◌else◌,
  ==_iff, Bool-cases, none, some, [], ◌∷◌, ◌++◌, update, length, length-append, Returns, arith,
}
use synthetic_client.Base.Int.{pos}
use synthetic_client.Fsm.{ConnStates}
use synthetic_client.Conn.{EvFlags}
use synthetic_client.World.{World, Workers, rest, after_alloc, after_address, after_rand}
use synthetic_client.Queue.{NewConn, Nodes, conn_queue_push}
use synthetic_client.Queue.Chain.{
  Cells, IsQueue, Apart, AllApart, conn_queue_push_lem, update-Linked, free-Apart, frame-Linked,
  AllApart-append, append-AllApart,
}
use synthetic_client.Threads.{next_thread, notify, dispatch_conn_new}

-- There is a worker, each queue is well formed, no item is in two of them, and each byte in a pipe
-- has its item.
pub record Serves (t : Workers) (cells : ℕ → Cells) : Type 0 where
  pub some_worker : 0 < t.threads
  pub queues : (i : ℕ) → IsQueue t.nodes (t.queues i) (cells i)
  pub apart : (i j : ℕ) → i ≢ j → AllApart (cells i) (cells j)
  pub pipes : (i : ℕ) → t.pipes i ≤ length (cells i)

-- Worker `i` has one item more.
abbrev pub with_item : (ℕ → Cells) → ℕ → ℕ → NewConn → ℕ → Cells
with_item cells i p n = update cells i (cells i ++ (p, n) ∷ [])

-- What is dispatched.
abbrev pub new_item : ℕ → ConnStates → EvFlags → ℕ → World → NewConn
new_item sfd init_state event_flags read_buffer_size w = record {
  client_id = pos (w.rands 0);
  sfd = sfd;
  init_state = init_state;
  event_flags = event_flags;
  next = none;
  read_buffer_size = read_buffer_size;
}

length-with_item :
    (cells : ℕ → Cells) (i p : ℕ) (n : NewConn) (j : ℕ)
    → length (with_item cells i p n j) ≡ length (cells j) + (if i == j then 1 else 0)
length-with_item cells i p n j = elim (Bool-cases (i == j)) [
  | inl same ↦
      rw same (
        length-append (cells i) ((p, n) ∷ [])
        ∙ ap (λ k. length (cells k) + 1) ((==_iff i j).0 same))
  | inr other ↦ rw other (omega arith)
]

with_item-AllApart :
    (cells : ℕ → Cells) (i p : ℕ) (n : NewConn)
    → ((j k : ℕ) → j ≢ k → AllApart (cells j) (cells k))
    → ((j : ℕ) → Apart p (cells j))
    → (j k : ℕ) → j ≢ k
    → AllApart (with_item cells i p n j) (with_item cells i p n k)
with_item-AllApart cells i p n apart free j k ne = elim (Bool-cases (i == j)) [
  | inl same ↦
      let other : (i == k) ≡ false = ground arith in
      rw (same, other)
        (append-AllApart (cells i) (cells k) p n (apart i k (λ e. ground arith)) (free k))
  | inr first ↦ elim (Bool-cases (i == k)) [
    | inl same ↦
        rw (first, same)
          (AllApart-append (cells j) (cells i) p n (apart j i (λ e. ground arith)) (free j))
    | inr other ↦ rw (first, other) (apart j k ne)
  ]
]

-- An item at a free address goes to the end of a worker's list.
push-Serves :
    (t : Workers) (cells : ℕ → Cells) (i p : ℕ) (n : NewConn)
    → Serves t cells
    → t.nodes p ≡ none
    → Returns (conn_queue_push (update t.nodes p (some n)) (t.queues i) p) λ (m, q).
      Serves (record t { nodes = m; queues = update t.queues i q }) (with_item cells i p n)
      × ((a : ℕ) → a ≢ p → t.nodes a ≡ none → m a ≡ none)
push-Serves t cells i p n s e =
    let free : (j : ℕ) → Apart p (cells j) =
      λ j. free-Apart t.nodes p (cells j) none e (s.queues j).linked in
    let nodes = update t.nodes p (some n) in
    let here : IsQueue nodes (t.queues i) (cells i) = record {
      linked = update-Linked t.nodes p (some n) (cells i) none (free i) (s.queues i).linked;
      head = (s.queues i).head;
      tail = (s.queues i).tail;
    } in
    let ((m, q), run, (k, frame)) =
      conn_queue_push_lem nodes (t.queues i) (cells i) p n here (free i) (ground arith) in
    (
      (m, q),
      run,
      (
        record {
          some_worker = s.some_worker;
          queues = λ j. elim (Bool-cases (i == j)) [
            | inl same ↦ rw same k
            | inr other ↦ rw other (record {
              linked =
                  frame-Linked t.nodes m p (cells i) (cells j) none
                    (λ a ne b. frame a ne b ∙ ground arith) (s.apart j i (λ x. ground arith))
                    (free j) (s.queues j).linked;
              head = (s.queues j).head;
              tail = (s.queues j).tail;
            })
          ];
          apart = with_item-AllApart cells i p n s.apart free;
          pipes = λ j. omega (arith, s.pipes j, length-with_item cells i p n j);
        },
        λ a ne empty.
            frame a ne (free-Apart t.nodes a (cells i) none empty (s.queues i).linked)
            ∙ ground arith,
      ),
    )

-- A byte in the pipe of a worker that has an item more than bytes.
notify-Serves :
    (w : World) (cells : ℕ → Cells) (i : ℕ)
    → Serves w.workers cells
    → w.workers.pipes i + 1 ≤ length (cells i)
    → Serves (notify i w).workers cells
unfolding notify
notify-Serves w cells i s more = elim (Bool-cases (w.notifies 0)) [
  | inr failed ↦ rw failed s
  | inl written ↦ rw written (record {
    some_worker = s.some_worker;
    queues = s.queues;
    apart = s.apart;
    pipes = λ j. more_pipes j (Bool-cases (i == j));
  })
]
  where
    more_pipes :
        (j : ℕ)
        → ((i == j) ≡ true) ⊎ ((i == j) ≡ false)
        → update w.workers.pipes i (w.workers.pipes i + 1) j ≤ length (cells j)
    more_pipes j (inl same) =
        rw same (subst (λ k. w.workers.pipes i + 1 ≤ length (cells k)) ((==_iff i j).0 same) more)
    more_pipes j (inr other) = rw other (s.pipes j)

notify_lem :
    (i : ℕ) (w : World)
    → let v = notify i w in
      (v.workers.last_thread ≡ w.workers.last_thread)
      × (v.workers.threads ≡ w.workers.threads)
      × (v.workers.nodes ≡ w.workers.nodes)
      × (v.allocs ≡ w.allocs)
      × (v.addresses ≡ w.addresses)
unfolding notify
notify_lem i w = elim (Bool-cases (w.notifies 0)) [
  | inl written ↦ rw written (refl, refl, refl, refl, refl)
  | inr failed ↦ rw failed (refl, refl, refl, refl, refl)
]

-- What dispatching a connection leaves behind.
pub record Dispatches (cells : ℕ → Cells) (n : NewConn) (w v : World) : Type 0 where
  pub serves : Serves v.workers (with_item cells (next_thread w.workers) (w.addresses 0) n)
  pub last : v.workers.last_thread ≡ pos (next_thread w.workers)
  pub threads : v.workers.threads ≡ w.workers.threads
  pub allocs : v.allocs ≡ rest w.allocs
  pub addresses : v.addresses ≡ rest w.addresses
  pub free : (a : ℕ) → a ≢ w.addresses 0 → w.workers.nodes a ≡ none → v.workers.nodes a ≡ none

-- Where memory is to be had, at a free address, a connection is dispatched to the next worker in
-- turn, at the end of its list, and the lists of the other workers stay as they are.
pub dispatch_conn_new-Dispatches :
    (sfd : ℕ) (init_state : ConnStates) (event_flags : EvFlags) (read_buffer_size : ℕ) (w : World)
    (cells : ℕ → Cells)
    → Serves w.workers cells
    → w.allocs 0 ≡ true
    → w.workers.nodes (w.addresses 0) ≡ none
    → Returns
        (dispatch_conn_new sfd init_state event_flags read_buffer_size w)
        (Dispatches cells (new_item sfd init_state event_flags read_buffer_size w) w)
unfolding dispatch_conn_new
dispatch_conn_new-Dispatches sfd init_state event_flags read_buffer_size w cells s memory free =
    let some : (w.workers.threads == 0) ≡ false = ground (arith, s.some_worker) in
    let n = new_item sfd init_state event_flags read_buffer_size w in
    let i = next_thread w.workers in
    let p = w.addresses 0 in
    let ((m, q), run, (k, frame)) = push-Serves w.workers cells i p n s free in
    let v = record (after_rand (after_address (after_alloc w))) {
      workers = record (w.workers) {
        last_thread = pos i;
        nodes = m;
        queues = update w.workers.queues i q;
      };
    } in
    let here : ◌≡◌ {A = ℕ} (if i == i then 1 else 0) 1 = ground arith in
    let (last, threads, nodes, allocs, addresses) = notify_lem i v in
    (
      notify i v,
      rw (some, memory, run) refl,
      record {
        serves =
            notify-Serves v (with_item cells i p n) i
              (record {
                some_worker = k.some_worker;
                queues = k.queues;
                apart = k.apart;
                pipes = k.pipes;
              })
              (omega (arith, s.pipes i, length-with_item cells i p n i, here));
        last = last;
        threads = threads;
        allocs = allocs;
        addresses = addresses;
        free = λ a ne e. ap (λ (f : Nodes). f a) nodes ∙ frame a ne e;
      },
    )
