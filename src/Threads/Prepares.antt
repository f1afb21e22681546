-- ===== src/Threads/Prepares.antt =====
-- A worker before its backends: its queue, its pipe and the room for its backends.
use synthetic_client.Base.{
  ℕ, suc, ◌≡◌, ◌<◌, refl, inl, inr, true, false, ◌==◌, Bool-cases, update, arith,
}
use synthetic_client.Base.Int.{pos}
use synthetic_client.World.{World, rest, after_alloc, after_event}
use synthetic_client.Conn.New.Ready.{other-IsReady}
use synthetic_client.Queue.{conn_queue_new}
use synthetic_client.Threads.Start.{
  Launch, launch_world, set_world, listen_to_pipe, alloc_memcache, connect_backends, setup_thread,
}
use synthetic_client.Threads.Reaches.{IsReachable}
use synthetic_client.Threads.Entries.{AreJoined, other-AreJoined, Joining}

-- The queue and the pipe of worker `t`, and its room for backends.
abbrev pub prepared : ℕ → Launch → Launch
prepared t l =
    let w = launch_world l in
    let m =
      set_world (record l { bases = rest l.bases })
        (record (after_alloc (after_event w)) {
          workers = record (w.workers) {
            queues = update w.workers.queues t conn_queue_new;
            pipes = update w.workers.pipes t 0;
          };
        }) in
    set_world
      (record m {
        memcaches =
            update l.memcaches t
              (record { memcache = λ _. 0; memcache_null = false; memcache_used = 0 });
      })
      (after_alloc (launch_world m))

pub prepared_lem :
    (fuel t : ℕ) (l : Launch)
    → l.bases 0 ≡ true
    → (launch_world l).events 0 ≡ true
    → (launch_world l).allocs 0 ≡ true
    → (launch_world l).allocs 1 ≡ true
    → setup_thread fuel t l ≡ connect_backends fuel t 0 l.backends.len (prepared t l)
unfolding setup_thread listen_to_pipe alloc_memcache
prepared_lem fuel t l base event queue array = rw (base, event, queue, array) refl

-- No backends yet.
none_yet-AreJoined :
    (w : World)
    → AreJoined (record { memcache = λ _. 0; memcache_null = false; memcache_used = 0 }) w
none_yet-AreJoined w = record {
  array = refl;
  backend = λ j u. absurd (omega (arith, u));
  distinct = λ i j u v e. absurd (omega (arith, u));
  away = λ j u i. absurd (omega (arith, u));
}

pub prepared-Joining :
    (bound k fuel n : ℕ) (l : Launch)
    → Joining bound k fuel n l
    → Joining (suc bound) k fuel n (prepared bound l)
prepared-Joining bound k fuel n l h = record {
  joined = λ a low. elim (Bool-cases (bound == a)) [
    | inl same ↦ rw same (none_yet-AreJoined (launch_world (prepared bound l)))
    | inr other ↦ rw other (
        other-AreJoined (l.memcaches a) (launch_world l) (launch_world (prepared bound l))
          (λ b ne. refl) (λ i. (i, refl)) (h.joined a (ground arith)))
  ];
  ready =
      other-IsReady (pos 0) k fuel n (launch_world l) (λ i. (launch_world l).allocs (suc (suc i)))
        (λ i. (launch_world l).events (suc i)) (launch_world l).conns _
        (λ i. h.ready.memory (suc (suc i))) h.ready;
  events = λ i. h.events (suc i);
  fresh = h.fresh;
  lookups = h.lookups;
}

pub prepared_none : (t : ℕ) (l : Launch) → ((prepared t l).memcaches t).memcache_used ≡ 0
prepared_none t l = let here : (t == t) ≡ true = ground arith in rw here refl

pub prepared_other :
    (bound : ℕ) (l : Launch) (t : ℕ)
    → (bound == t) ≡ false
    → (prepared bound l).memcaches t ≡ l.memcaches t
prepared_other bound l t other = rw other refl

pub prepared-IsReachable :
    (limit n t : ℕ) (l : Launch)
    → IsReachable limit n l.system
    → IsReachable limit n (prepared t l).system
prepared-IsReachable limit n t l h = record {
  lookups = h.lookups;
  sockets = h.sockets;
  connects = h.connects;
  nonblocks = h.nonblocks;
  spare = h.spare;
}

pub prepared-queues :
    (bound : ℕ) (l : Launch)
    → ((t : ℕ)
        → t < bound
        → ((launch_world l).workers.queues t ≡ conn_queue_new)
          × ((launch_world l).workers.pipes t ≡ 0))
    → (t : ℕ) → t < suc bound
    → let w = (launch_world (prepared bound l)).workers in
      (w.queues t ≡ conn_queue_new) × (w.pipes t ≡ 0)
prepared-queues bound l h t low = elim (Bool-cases (bound == t)) [
  | inl same ↦ rw same (refl, refl)
  | inr other ↦ rw other (h t (ground arith))
]
