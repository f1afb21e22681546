-- ===== src/Threads/Init.antt =====
-- `thread_init`: the workers are set up, and then their threads are started.
use synthetic_client.Base.{
  ℕ, suc, ◌+◌, ◌*◌, ◌≡◌, ◌<◌, refl, sym, ap, ◌∙◌, subst, Bool, true, none, Returns, IfOk, arith,
}
use synthetic_client.Base.Int.{pos}
use synthetic_client.World.{rest}
use synthetic_client.Conn.New.Ready.{IsReady, other-IsReady}
use synthetic_client.Settings.{Backends}
use synthetic_client.System.{System}
use synthetic_client.Memcache.Outcomes.{AreFresh}
use synthetic_client.Queue.{conn_queue_new}
use synthetic_client.Memcache.Connect.{host_and_port}
use synthetic_client.Threads.Start.{Launch, Memcaches, launch_world, no_threads, thread_init}
use synthetic_client.Threads.Later.{IsLater, setup_threads-IsLater}
use synthetic_client.Threads.Reaches.{IsReachable}
use synthetic_client.Threads.Entries.{AreJoined, HaveAddress}
use synthetic_client.Threads.Sets.{CanStart, IsSetUp, setup_threads-IsSetUp}
use synthetic_client.Threads.Creates.{Starts, create_workers-Starts}

-- What is asked of the system that `thread_init` finds, for workers that may open `n` connections:
-- every call succeeds but for those that connect to a backend, which may fail.
pub record CanInit (k fuel n : ℕ) (l : Launch) : Type 0 where
  pub ready : IsReady (pos 0) k fuel n (launch_world l)
  pub events : (i : ℕ) → (launch_world l).events i ≡ true
  pub fresh : AreFresh l.system.sockets
  pub lookups : HaveAddress l.system.lookups
  pub pipes : (i : ℕ) → l.pipes i ≡ true
  pub bases : (i : ℕ) → l.bases i ≡ true
  pub can : CanStart l
  pub none_created : l.created ≡ 0
  pub no_listener : l.system.listen_conn ≡ none

-- What `thread_init` leaves behind: each worker has an empty queue, nothing in its pipe, and
-- connections to backends, all different; the threads are started; and the hosts of the settings
-- have lost their ports.
pub record Inits (nthreads k fuel n : ℕ) (l m : Launch) : Type 0 where
  pub threads : (launch_world m).workers.threads ≡ nthreads
  pub created : m.created ≡ nthreads
  pub queues :
      (t : ℕ)
      → t < nthreads
      → ((launch_world m).workers.queues t ≡ conn_queue_new)
        × ((launch_world m).workers.pipes t ≡ 0)
  pub joined : (t : ℕ) → t < nthreads → AreJoined (m.memcaches t) (launch_world m)
  pub cut :
      (j : ℕ) → j < l.backends.len → m.backends.hosts j ≡ (host_and_port (l.backends.hosts j)).0
  pub ready : IsReady (pos 0) k fuel n (launch_world m)
  pub events : (i : ℕ) → (launch_world m).events i ≡ true
  pub fresh : AreFresh m.system.sockets
  pub no_listener : m.system.listen_conn ≡ none
  pub later : IsLater l.system m.system

Starts-Inits :
    (nthreads k fuel n : ℕ) (l m r : Launch)
    → 0 < nthreads
    → IsSetUp nthreads nthreads k fuel n l m
    → Starts nthreads m r
    → IsLater l.system m.system
    → Inits nthreads k fuel n l r
Starts-Inits nthreads k fuel n l m r some_worker x y later = record {
  threads = ap (λ (s : System). s.world.workers.threads) y.system ∙ x.threads;
  created = y.created ∙ ap (λ c. c + nthreads) x.none_created ∙ omega arith;
  queues = λ t low.
      let (queue, pipe) = x.queues t low in
      (
        ap (λ (s : System). s.world.workers.queues t) y.system ∙ queue,
        ap (λ (s : System). s.world.workers.pipes t) y.system ∙ pipe,
      );
  joined = λ t low.
      subst (λ (s : System). AreJoined (r.memcaches t) s.world) (sym y.system)
        (subst (λ (c : ℕ → Memcaches). AreJoined (c t) (launch_world m)) (sym y.memcaches)
          (x.joining.joined t low));
  cut = λ j low. ap (λ (b : Backends). b.hosts j) y.backends ∙ x.cut some_worker j low;
  ready = subst (λ (s : System). IsReady (pos 0) k fuel n s.world) (sym y.system) x.joining.ready;
  events = λ i. ap (λ (s : System). s.world.events i) y.system ∙ x.joining.events i;
  fresh = subst (λ (s : System). AreFresh s.sockets) (sym y.system) x.joining.fresh;
  no_listener = ap (λ (s : System). s.listen_conn) y.system ∙ x.no_listener;
  later = subst (IsLater l.system) (sym y.system) later;
}

-- What `thread_init` leaves behind; and where `nthreads` times as many descriptors as there are hosts
-- are closed below `limit`, each worker has as many connections as there are hosts.
abbrev Full : ℕ → ℕ → ℕ → ℕ → Launch → Launch → Type 0
Full nthreads k fuel n l m =
    Inits nthreads k fuel n l m
    × ((limit spare : ℕ)
        → IsReachable limit (nthreads * l.backends.len + spare) l.system
        → (t : ℕ) → t < nthreads
        → (m.memcaches t).memcache_used ≡ l.backends.len)

thread_init-Full :
    (fuel k max_cpus nthreads more : ℕ) (thread_affinity : Bool) (l : Launch)
    → 0 < nthreads
    → CanInit k fuel (nthreads * l.backends.len + more) l
    → Returns (thread_init fuel thread_affinity max_cpus nthreads l) (Full nthreads k fuel more l)
unfolding thread_init
thread_init-Full fuel k max_cpus nthreads more thread_affinity l some_worker h =
    let l' = no_threads nthreads l in
    let (m, run, x) = setup_threads-IsSetUp nthreads 0 k fuel nthreads more l l' (record {
      joining = record {
        joined = λ t low. absurd (omega (arith, low));
        ready =
            other-IsReady (pos 0) k fuel (nthreads * l.backends.len + more) (launch_world l)
              (rest (launch_world l).allocs) (launch_world l).events (launch_world l).conns
              (launch_world l').workers (λ i. h.ready.memory (suc i)) h.ready;
        events = h.events;
        fresh = h.fresh;
        lookups = h.lookups;
      };
      queues = λ t low. absurd (omega (arith, low));
      threads = refl;
      pipes = h.pipes;
      bases = h.bases;
      len = refl;
      full = λ limit spare reach. (
        record {
          lookups = reach.lookups;
          sockets = reach.sockets;
          connects = reach.connects;
          nonblocks = reach.nonblocks;
          spare = omega (arith, reach.spare);
        },
        λ t low. absurd (omega (arith, low)),
      );
      can = record { set_affinities = h.can.set_affinities; creates = h.can.creates };
      none_created = h.none_created;
      no_listener = h.no_listener;
      whole = λ _ j low. refl;
      cut = λ z. absurd (omega (arith, z));
    }) in
    let later =
      subst (IfOk (λ (q : Launch). IsLater l'.system q.system)) run
        (setup_threads-IsLater fuel 0 nthreads l') in
    let (r, run', y) = create_workers-Starts thread_affinity max_cpus nthreads m x.can in
    let all : 0 + nthreads ≡ nthreads = omega arith in
    let done = subst (λ c. IsSetUp nthreads c k fuel more l m) all x in
    (
      r,
      rw (h.ready.memory 0, run) run',
      (
        Starts-Inits nthreads k fuel more l m r some_worker done y (record {
          lookups = later.lookups;
          sockets = later.sockets;
          connects = later.connects;
          nonblocks = later.nonblocks;
        }),
        λ limit spare reach t low.
            ap (λ (c : ℕ → Memcaches). (c t).memcache_used) y.memcaches
            ∙ (done.full limit spare reach).1 t low,
      ),
    )

-- Where there is a worker, and every call succeeds but for those that connect to a backend, which
-- may fail, `thread_init` returns. Each worker then has an empty queue, nothing in its pipe and its
-- connections to backends, which are open and all different; as many threads are started; and each
-- host of the settings is cut before its port.
pub thread_init-Inits :
    (fuel k max_cpus nthreads more : ℕ) (thread_affinity : Bool) (l : Launch)
    → 0 < nthreads
    → CanInit k fuel (nthreads * l.backends.len + more) l
    → Returns (thread_init fuel thread_affinity max_cpus nthreads l) (Inits nthreads k fuel more l)
thread_init-Inits fuel k max_cpus nthreads more thread_affinity l some_worker h =
    let (m, run, x) =
      thread_init-Full fuel k max_cpus nthreads more thread_affinity l some_worker h in
    (m, run, x.0)

-- Where every call succeeds, every name has an address, and as many descriptors below a limit, below
-- which `socket` finds them, are closed as there are connections to open, `thread_init` returns, and
-- each worker `t` has as many connections to backends, open and all different, as there are hosts.
-- Each host is left as `memcache_connect` leaves the host that it is given, cut before its port.
pub thread_init-reaches :
    (fuel k max_cpus nthreads more limit spare t : ℕ) (thread_affinity : Bool) (l : Launch)
    → CanInit k fuel (nthreads * l.backends.len + more) l
    → IsReachable limit (nthreads * l.backends.len + spare) l.system
    → t < nthreads
    → Returns (thread_init fuel thread_affinity max_cpus nthreads l) λ m.
      AreJoined (m.memcaches t) (launch_world m)
      × ((m.memcaches t).memcache_used ≡ l.backends.len)
      × ((j : ℕ) → j < l.backends.len → m.backends.hosts j ≡ (host_and_port (l.backends.hosts j)).0)
thread_init-reaches fuel k max_cpus nthreads more limit spare t thread_affinity l h reach low =
    let (m, run, (x, full)) =
      thread_init-Full fuel k max_cpus nthreads more thread_affinity l (omega (arith, low)) h in
    (m, run, (x.joined t low, full limit spare reach t low, x.cut))
