-- ===== src/Threads/Start.antt =====
-- src/threads.c: `thread_init` sets up the workers, each with its queue and its connections to the
-- backends, and starts their threads. In Threads/Registered the main thread waits for them.
use synthetic_client.Base.{
  ℕ, zero, suc, ◌+◌, ◌%◌, Bool, true, false, not, if◌then◌else◌, Option, none, some, List, update,
  Run, ok, fault, dangling, exited, ◌>>=◌,
}
use synthetic_client.Base.Int.{ℤ, pos}
use synthetic_client.World.{World, rest, after_alloc, after_event}
use synthetic_client.Queue.{conn_queue_new}
use synthetic_client.Settings.{Backends}
use synthetic_client.System.{System, with_world}
use synthetic_client.Memcache.Connect.{memcache_connect}
use synthetic_client.Threads.{successor}

-- src/threads.h: the connections of a worker to the backends, of which `memcache_used` are there.
-- The array may be null: its allocation is not checked.
pub record Memcaches : Type 0 where
  pub memcache : ℕ → ℕ
  pub memcache_null : Bool
  pub memcache_used : ℕ

-- What setting up the threads works on besides the system: the hosts of the settings, the
-- connections of each worker to the backends, the processor that was used last, and whether `pipe`,
-- `event_init`, `pthread_attr_setaffinity_np` and `pthread_create` succeed. `affinities` tells which
-- processors may be used, each time this is asked.
pub record Launch : Type 0 where
  pub system : System
  pub backends : Backends
  pub memcaches : ℕ → Memcaches
  pub current_cpu : ℤ
  pub pipes : ℕ → Bool
  pub bases : ℕ → Bool
  pub affinities : ℕ → ℕ → Bool
  pub set_affinities : ℕ → Bool
  pub creates : ℕ → Bool
  -- the workers whose threads were created
  pub created : ℕ

abbrev pub launch_world : Launch → World
launch_world l = l.system.world

abbrev pub set_world : Launch → World → Launch
set_world l w = record l { system = with_world l.system w }

-- `memcache_connect` has its host overwritten.
abbrev pub cut_host : Backends → ℕ → List ℕ → Backends
cut_host b i name = record b { hosts = update b.hosts i name }

-- A connection that is there is entered.
unfoldable pub enter_memcache : Option ℕ → Memcaches → Run Memcaches
enter_memcache none m = ok m
enter_memcache (some mc) m =
    if m.memcache_null
    then fault dangling
    else ok (record m {
      memcache = update m.memcache m.memcache_used mc;
      memcache_used = m.memcache_used + 1;
    })

-- The body of the loop over the hosts, for worker `t` and host `i`.
unfoldable pub connect_backend : ℕ → ℕ → ℕ → Launch → Run Launch
unfolding enter_memcache
connect_backend fuel t i l =
    memcache_connect fuel (l.backends.hosts i) l.system >>= λ (mc, name, s).
    enter_memcache mc (l.memcaches t) >>= λ m. ok (record l {
      system = s;
      backends = cut_host l.backends i name;
      memcaches = update l.memcaches t m;
    })

-- The loop over the hosts from `i` on, with the number that is left.
unfoldable pub connect_backends : ℕ → ℕ → ℕ → ℕ → Launch → Run Launch
unfolding connect_backend
connect_backends fuel t i zero l = ok l
connect_backends fuel t i (suc n) l =
    connect_backend fuel t i l >>= connect_backends fuel t (i + 1) n

-- The event base, the event of the pipe, and the queue. A failure of any ends the process.
unfoldable pub listen_to_pipe : ℕ → Launch → Run Launch
listen_to_pipe t l =
    let w = launch_world l in
    if l.bases 0
    then (if w.events 0
        then (if w.allocs 0
            then ok (
                set_world (record l { bases = rest l.bases })
                  (record (after_alloc (after_event w)) {
                    workers = record (w.workers) {
                      queues = update w.workers.queues t conn_queue_new;
                      pipes = update w.workers.pipes t 0;
                    };
                  }))
            else fault exited)
        else fault exited)
    else fault exited

-- Room for a connection to each backend.
unfoldable pub alloc_memcache : ℕ → Launch → Launch
alloc_memcache t l =
    let w = launch_world l in
    set_world
      (record l {
        memcaches =
            update l.memcaches t
              (record { memcache = λ _. 0; memcache_null = not (w.allocs 0); memcache_used = 0 });
      })
      (after_alloc w)

unfoldable pub setup_thread : ℕ → ℕ → Launch → Run Launch
unfolding listen_to_pipe alloc_memcache connect_backends
setup_thread fuel t l =
    listen_to_pipe t l >>= λ m. connect_backends fuel t 0 m.backends.len (alloc_memcache t m)

-- The loops over the workers from `t` on, with the number that is left: they are set up, each with
-- its pipe, and then started.
unfoldable pub setup_threads : ℕ → ℕ → ℕ → Launch → Run Launch
unfolding setup_thread
setup_threads fuel t zero l = ok l
setup_threads fuel t (suc n) l =
    if l.pipes 0
    then (setup_thread fuel t (record l { pipes = rest l.pipes }) >>= setup_threads fuel (t + 1) n)
    else fault exited

-- The loop over the processors from `current_cpu + i + 1` on, with the number of rounds that are
-- left, as a count from the processor that comes first.
unfoldable pub find_cpu : (ℕ → Bool) → ℕ → ℕ → ℕ → ℕ → Option ℕ
find_cpu mask max_cpus first i zero = none
find_cpu mask max_cpus first i (suc n) =
    let c = (first + i) % max_cpus in
    elim (mask c) [ true ↦ some c | false ↦ find_cpu mask max_cpus first (i + 1) n ]

unfoldable pub next_cpu : (ℕ → Bool) → ℕ → ℤ → Option ℕ
unfolding find_cpu
next_cpu mask max_cpus current_cpu = find_cpu mask max_cpus (successor current_cpu) 0 max_cpus

-- The thread is bound to the processor that is found; without one it is not bound.
unfoldable pub bind_cpu : Option ℕ → Launch → Run Launch
bind_cpu none l = ok l
bind_cpu (some c) l =
    if l.set_affinities 0
    then ok (record l { set_affinities = rest l.set_affinities; current_cpu = pos c })
    else fault exited

unfoldable pub set_affinity : Bool → ℕ → Launch → Run Launch
unfolding next_cpu bind_cpu
set_affinity false max_cpus l = ok l
set_affinity true max_cpus l =
    bind_cpu (next_cpu (l.affinities 0) max_cpus l.current_cpu)
      (record l { affinities = rest l.affinities })

unfoldable pub create_worker : Bool → ℕ → Launch → Run Launch
unfolding set_affinity
create_worker thread_affinity max_cpus l = set_affinity thread_affinity max_cpus l >>= λ m.
    if m.creates 0
    then ok (record m { creates = rest m.creates; created = m.created + 1 })
    else fault exited

unfoldable pub create_workers : Bool → ℕ → ℕ → Launch → Run Launch
unfolding create_worker
create_workers thread_affinity max_cpus zero l = ok l
create_workers thread_affinity max_cpus (suc n) l =
    create_worker thread_affinity max_cpus l >>= create_workers thread_affinity max_cpus n

-- The workers without anything set up.
abbrev pub no_threads : ℕ → Launch → Launch
no_threads nthreads l =
    let w = launch_world l in
    set_world l (record (after_alloc w) { workers = record (w.workers) { threads = nthreads } })

-- Up to the wait for the threads, which Threads/Registered models.
unfoldable pub thread_init : ℕ → Bool → ℕ → ℕ → Launch → Run Launch
unfolding setup_threads create_workers
thread_init fuel thread_affinity max_cpus nthreads l =
    if (launch_world l).allocs 0
    then (setup_threads fuel 0 nthreads (no_threads nthreads l)
        >>= create_workers thread_affinity max_cpus nthreads)
    else fault exited
