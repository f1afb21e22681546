-- ===== src/Threads/Handles.antt =====
-- A worker that is notified takes the oldest item of its queue and opens its connection.
use synthetic_client.Base.{
  ℕ, suc, ◌≡◌, ◌≢◌, ◌≤◌, ◌<◌, refl, sym, ap, ◌∙◌, subst, inl, inr, true, false, ◌==◌, Bool-cases,
  Option, none, some, List, [], ◌∷◌, update, length, ok, Returns, ◌>>=◌, arith,
}
use synthetic_client.Base.Int.{ℤ}
use synthetic_client.World.{World, Workers, store_conn}
use synthetic_client.Conn.{Conn, ConnType, EvFlags, client_conn}
use synthetic_client.Fsm.{ConnStates}
use synthetic_client.Conn.New.Freelist.{IsFreelist, next_conn, store-IsFreelist}
use synthetic_client.Conn.New.Opens.{IsOpened}
use synthetic_client.Conn.New.Counts.{Opens, CanOpen, workers-CanOpen, conn_new-Opens, same-IsMap}
use synthetic_client.Stats.Buckets.{IsMap}
use synthetic_client.Queue.{NewConn, ConnQueue, Nodes, conn_queue_pop, new_conn_free}
use synthetic_client.Queue.Chain.{
  Cells, IsQueue, Linked, AllApart, conn_queue_pop_lem, load_lem, update-Linked,
}
use synthetic_client.Threads.{
  assign, free_item, open_popped, after_notified, thread_new_conn_handler,
}
use synthetic_client.Threads.Serves.{Serves}

AllApart-tail : (ds cs : Cells) (p : ℕ) (n : NewConn) → AllApart ds ((p, n) ∷ cs) → AllApart ds cs
AllApart-tail [] cs p n a = tt
AllApart-tail ((q, x) ∷ ds) cs p n ((ne, b), a) = (b, AllApart-tail ds cs p n a)

-- The workers after the oldest item, at `p`, was taken from the queue of worker `i`, with a byte,
-- and freed.
abbrev pub served : Workers → ℕ → ℕ → ℕ → ConnQueue → Workers
served t i m p q = record t {
  nodes = new_conn_free t.nodes p;
  queues = update t.queues i q;
  pipes = update t.pipes i m;
}

served-Serves :
    (t : Workers) (cells : ℕ → Cells) (i m p : ℕ) (n : NewConn) (cs : Cells) (q : ConnQueue)
    → Serves t cells
    → cells i ≡ (p, n) ∷ cs
    → t.pipes i ≡ suc m
    → IsQueue t.nodes q cs
    → Serves (served t i m p q) (update cells i cs)
unfolding new_conn_free
served-Serves t cells i m p n cs q s at byte k =
    let (_, b, l) : Linked t.nodes ((p, n) ∷ cs) none =
      subst (λ ds. Linked t.nodes ds none) at (s.queues i).linked in
    let before : (j : ℕ) → i ≢ j → AllApart ((p, n) ∷ cs) (cells j) =
      λ j ne. subst (λ ds. AllApart ds (cells j)) at (s.apart i j ne) in
    let behind : (j : ℕ) → j ≢ i → AllApart (cells j) ((p, n) ∷ cs) =
      λ j ne. subst (AllApart (cells j)) at (s.apart j i ne) in
    record {
      some_worker = s.some_worker;
      queues = λ j. elim (Bool-cases (i == j)) [
        | inl same ↦ rw same (record {
          linked = update-Linked t.nodes p none cs none b k.linked;
          head = k.head;
          tail = k.tail;
        })
        | inr other ↦ rw other (record {
          linked =
              update-Linked t.nodes p none (cells j) none (before j (ground arith)).0
                (s.queues j).linked;
          head = (s.queues j).head;
          tail = (s.queues j).tail;
        })
      ];
      apart = λ j h ne. elim (Bool-cases (i == j)) [
        | inl same ↦
            let other : (i == h) ≡ false = ground arith in
            rw (same, other) (before h (ground arith)).1
        | inr first ↦ elim (Bool-cases (i == h)) [
          | inl same ↦ rw (first, same) (AllApart-tail (cells j) cs p n (behind j (ground arith)))
          | inr other ↦ rw (first, other) (s.apart j h ne)
        ]
      ];
      pipes = λ j. elim (Bool-cases (i == j)) [
        | inl same ↦ rw same (
            let bytes : suc m ≤ length ((p, n) ∷ cs) =
              subst (λ ds. suc m ≤ length ds) at
                (subst (λ x. x ≤ length (cells i)) byte (s.pipes i)) in
            omega (arith, bytes))
        | inr other ↦ rw other (s.pipes j)
      ];
    }

thread-IsOpened :
    (type : ConnType) (id : ℤ) (sfd : ℕ) (state : ConnStates) (flags : EvFlags) (p : ℕ) (c : Conn)
    (t : Option ℕ)
    → IsOpened type id sfd state flags p c
    → IsOpened type id sfd state flags p (record c { thread = t })
thread-IsOpened type id sfd state flags p c t o = record {
  address = o.address;
  kind = o.kind;
  states = o.states;
  registered = o.registered;
  no_input = o.no_input;
  no_output = o.no_output;
  no_items = o.no_items;
  no_calls = o.no_calls;
}

-- How the item `n` is opened by worker `i`, whose queue is left with `cs`.
pub record Handles (cells : ℕ → Cells) (i p : ℕ) (n : NewConn) (cs : Cells) (w v : World)
    : Type 0 where
  pub serves : Serves v.workers (update cells i cs)
  pub freed : v.workers.nodes p ≡ none
  pub entries : ℕ → List (ℕ × ℤ)
  pub map : IsMap v entries
  pub freelist : IsFreelist v.freelist v.conns
  pub success :
      w.events 0 ≡ true
      → (c : Conn) × (v.conns (next_conn w) ≡ some c)
        × IsOpened client_conn n.client_id n.sfd n.init_state n.event_flags (next_conn w) c
        × (c.thread ≡ some i)
        × ((j : ℕ) → j < v.freelist.freecurr → v.freelist.freeconns j ≢ next_conn w)
  pub failure :
      w.events 0 ≡ false
      → (j : ℕ) × (v.freelist.freecurr ≡ suc j) × (v.freelist.freeconns j ≡ next_conn w)
  pub others : (a : ℕ) → a ≢ next_conn w → v.conns a ≡ w.conns a

-- What is done with the result of `conn_new`.
assign-Handles :
    (cells : ℕ → Cells) (i m p : ℕ) (n : NewConn) (cs : Cells) (q : ConnQueue) (w : World)
    (entries : ℕ → List (ℕ × ℤ)) (k : ℕ) (r : Option ℕ × World)
    → Serves (served w.workers i m p q) (update cells i cs)
    → let t : Workers = record (w.workers) {
      queues = update w.workers.queues i q;
      pipes = update w.workers.pipes i m;
    } in
      Opens client_conn n.client_id n.sfd n.init_state n.event_flags entries k
        (record w { workers = t })
        r
      → Returns (assign i r.0 r.1 >>= λ u. ok (free_item p u)) (Handles cells i p n cs w)
unfolding assign new_conn_free
assign-Handles cells i m p n cs q w entries k (o, x) s opens =
    let t : Workers = record (w.workers) {
      queues = update w.workers.queues i q;
      pipes = update w.workers.pipes i m;
    } in
    let l = opens.listens in
    let c = record (opens.conn) { event = some (n.event_flags, none) } in
    let serves : Serves (record (x.workers) { nodes = update x.workers.nodes p none })
        (update cells i cs) =
      subst
        (λ (y : Workers). Serves (record y { nodes = update y.nodes p none }) (update cells i cs))
        (sym l.workers) s in
    elim (Bool-cases (w.events 0)) [
      | inl added ↦
          let (at, stored, away) = l.success added in
          let d = record c { thread = some i } in
          (
            free_item p (store_conn x (next_conn w) (some d)),
            rw (at, assign, stored) refl,
            record {
              serves = serves;
              freed = ground arith;
              entries = opens.after;
              map = same-IsMap x _ opens.after refl refl opens.map;
              freelist =
                  store-IsFreelist x.freelist x.conns (next_conn w) d l.freelist
                    opens.opened.address opens.opened.no_input.2;
              success = λ _. (
                d,
                ground arith,
                thread-IsOpened client_conn n.client_id n.sfd n.init_state n.event_flags _ c
                    (some i) opens.opened,
                refl,
                away,
              );
              failure = λ e. cc;
              others = λ a ne. ground (arith, l.others a ne);
            },
          )
      | inr failed ↦
          let (at, count, is_count, on_list) = l.failure failed in
          (
            free_item p x,
            rw at refl,
            record {
              serves = serves;
              freed = ground arith;
              entries = opens.after;
              map = same-IsMap x _ opens.after refl refl opens.map;
              freelist = l.freelist;
              success = λ e. cc;
              failure = λ _. (count, is_count, on_list);
              others = l.others;
            },
          )
    ]

pop_item :
    (nodes : Nodes) (cq : ConnQueue) (ds : Cells) (p : ℕ) (n : NewConn) (cs : Cells)
    → IsQueue nodes cq ds
    → ds ≡ (p, n) ∷ cs
    → (q : ConnQueue) × (conn_queue_pop nodes cq ≡ ok (some p, q)) × IsQueue nodes q cs
pop_item nodes cq ds p n cs k at =
    let ((o, q), run, (taken, queue)) =
      conn_queue_pop_lem nodes cq ((p, n) ∷ cs) (subst (IsQueue nodes cq) at k) in
    (q, run ∙ ap (λ x. ok (x, q)) taken, queue)

-- A worker with a byte in its pipe, and so an item in its queue, does not fault: it takes the
-- oldest item off its queue, frees it, and opens a connection for its socket as it was dispatched,
-- where one can be opened. If libevent takes the connection, it is stored as that of this worker,
-- and not on the free list; if not, it is on the free list. The queues of all workers, the free
-- list and the map stay well formed, and no other connection changes.
pub thread_new_conn_handler-Handles :
    (fuel : ℕ) (cells : ℕ → Cells) (i m p : ℕ) (n : NewConn) (cs : Cells)
    (entries : ℕ → List (ℕ × ℤ)) (k : ℕ) (w : World)
    → Serves w.workers cells
    → cells i ≡ (p, n) ∷ cs
    → w.workers.pipes i ≡ suc m
    → length (entries k) < fuel
    → 0 < n.read_buffer_size
    → CanOpen n.client_id entries k w
    → Returns (thread_new_conn_handler fuel i w) (Handles cells i p n cs w)
unfolding thread_new_conn_handler after_notified open_popped
thread_new_conn_handler-Handles fuel cells i m p n cs entries k w s at byte enough size c =
    let (q, pop, queue) =
      pop_item w.workers.nodes (w.workers.queues i) (cells i) p n cs (s.queues i) at in
    let (held, _, _) : Linked w.workers.nodes ((p, n) ∷ cs) none =
      subst (λ ds. Linked w.workers.nodes ds none) at (s.queues i).linked in
    let t : Workers = record (w.workers) {
      queues = update w.workers.queues i q;
      pipes = update w.workers.pipes i m;
    } in
    let v = record w { workers = t } in
    let (r, run, opens) =
      conn_new-Opens fuel client_conn n.client_id n.sfd n.init_state n.event_flags
        n.read_buffer_size entries k v enough size (workers-CanOpen n.client_id entries k w t c) in
    let (u, run', h) =
      assign-Handles cells i m p n cs q w entries k r
        (served-Serves w.workers cells i m p n cs q s at byte queue) opens in
    (
      u,
      rw
          (
            byte,
            thread_new_conn_handler,
            after_notified,
            pop,
            open_popped,
            load_lem w.workers.nodes p _ held,
            run,
          )
          run',
      h,
    )
