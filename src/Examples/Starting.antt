-- ===== src/Examples/Starting.antt =====
-- The theorems on the start of the server at concrete inputs that meet their hypotheses.
use synthetic_client.Base.{
  ℕ, ◌+◌, ◌*◌, ◌≡◌, ◌≢◌, ◌≤◌, ◌<◌, if◌then◌else◌, refl, sym, ap, ◌∙◌, ◌⊎◌, Bool, true, false, ◌==◌,
  none, some, [], ◌∷◌, codes, Returns, arith,
}
use synthetic_client.Base.Int.{pos, negsuc}
use synthetic_client.Conn.New.Ready.{IsReady}
use synthetic_client.Settings.{Settings, Backends, settings_init}
use synthetic_client.Stats.{bucket, stat_test_data}
use synthetic_client.Stats.Enters.{CanEnter}
use synthetic_client.Stats.Users.{Populates, stat_test_data-Populates}
use synthetic_client.System.{System, SocketOutcome, opened, no_socket, out_of_descriptors, bound}
use synthetic_client.Memcache.Connect.{host_and_port, memcache_connect, memcache_port}
use synthetic_client.Memcache.Port.{host_and_port-append, host_and_port-again}
use synthetic_client.Memcache.Outcomes.{Connects, outcome}
use synthetic_client.Memcache.Connects.{memcache_connect-Connects}
use synthetic_client.Threads.Start.{Launch, launch_world, next_cpu, thread_init}
use synthetic_client.Threads.Affinity.{TakesNext, next_cpu-TakesNext}
use synthetic_client.Threads.Init.{Inits, thread_init-Inits, CanInit, thread_init-reaches}
use synthetic_client.Threads.Entries.{AreJoined}
use synthetic_client.Threads.Reaches.{closed_below, IsReachable}
use synthetic_client.Threads.Registered.{
  InitState, init_start, returned, testing, InitStep, create, all_created, test, register,
  create_next, test_count, register_thread_initialized, start, step, InitSteps, none_yet, further,
}
use synthetic_client.Threads.Registered.Counted.{HasReturned, InitRun-progress}
use synthetic_client.Threads.Registered.Ends.{InitSteps-end}
use synthetic_client.Startup.Sockets.{server_socket}
use synthetic_client.Startup.Listening.{IsFair}
use synthetic_client.Startup.Loop.{Serving, server_socket-Serving}
use synthetic_client.Startup.Serves.{Serves}
use synthetic_client.World.{World}
use synthetic_client.Examples.Workers.{unknown, no_entries}

-- There are two descriptors, 0 and 1, which may be open.
abbrev a_free_one : Bool → Bool → SocketOutcome
a_free_one false b = opened 0
a_free_one true false = opened 1
a_free_one true true = no_socket

abbrev two_sockets : ℕ → (ℕ → Bool) → SocketOutcome
two_sockets i held = a_free_one (held 0) (held 1)

abbrev descriptor : SocketOutcome → ℕ
descriptor (opened sfd) = sfd
descriptor _ = 0

two_sockets-IsFair : IsFair two_sockets
two_sockets-IsFair = record {
  closed = λ i held sfd e. closed held (held 0) (held 1) refl refl sfd e;
  plenty = λ i held e. plenty (held 0) (held 1) e;
}
  where
    closed :
        (held : ℕ → Bool) (a b : Bool)
        → held 0 ≡ a
        → held 1 ≡ b
        → (sfd : ℕ) → a_free_one a b ≡ opened sfd
        → held sfd ≡ false
    closed held false b five six sfd e = ap held (sym (ap descriptor e)) ∙ five
    closed held true false five six sfd e = ap held (sym (ap descriptor e)) ∙ six
    closed held true true five six sfd e = cc

    plenty : (a b : Bool) → a_free_one a b ≢ out_of_descriptors
    plenty false b e = cc
    plenty true false e = cc
    plenty true true e = cc

-- Every name has two addresses, and every call succeeds.
abbrev sample_system : System
sample_system = record {
  world = unknown;
  lookups = λ i name port. some (1 ∷ 2 ∷ []);
  sockets = two_sockets;
  nonblocks = λ _. true;
  binds = λ _. bound;
  listens = λ _. true;
  connects = λ _. true;
  open_fds = λ _. false;
  listen_conn = none;
}

unknown-IsReady : (n : ℕ) → n ≤ 10 → IsReady (pos 0) 0 10 n unknown
unfolding bucket
unknown-IsReady n le = record {
  cells = no_entries;
  map = record { heads = λ k. refl; linked = λ k. tt; keyed = λ k. tt; distinct = λ k. tt };
  key = refl;
  enough = λ j. omega (arith, le);
  memory = λ i. refl;
  distinct = λ i j ne e. ne (omega (arith, e));
  unused = λ i. refl;
  some_room = omega (arith, le);
  room = λ p s e. cc;
  empty = refl;
}

server_socket-Serving_example :
    Returns (server_socket 10 (pos 11211) sample_system) (Serving (λ _. false) sample_system)
server_socket-Serving_example =
    server_socket-Serving 10 0 (pos 11211) sample_system refl (unknown-IsReady 2 (omega arith))
      (λ i. refl) two_sockets-IsFair

memcache_connect-Connects_example :
    Returns (memcache_connect 10 (codes "host:1") sample_system) λ (mc, name, t).
      (name ≡ (host_and_port (codes "host:1")).0)
      × Connects
          (outcome (codes "host:1") sample_system)
          0
          10
          1
          unknown
          (λ _. false)
          two_sockets
          (λ i name port. some (1 ∷ 2 ∷ []))
          none
          mc
          t
memcache_connect-Connects_example =
    memcache_connect-Connects 10 0 1 (codes "host:1") sample_system (λ e. cc) (λ sfd e. refl)
      (unknown-IsReady 2 (omega arith)) refl

host_and_port-append_example : host_and_port (codes "host:1") ≡ (codes "host", codes "1")
host_and_port-append_example =
    host_and_port-append (codes "host") (codes "1") (refl, (refl, (refl, (refl, tt))))

host_and_port-again_example :
    host_and_port (host_and_port (codes "host:1")).0
    ≡ ((host_and_port (codes "host:1")).0, memcache_port)
host_and_port-again_example = host_and_port-again (codes "host:1")

next_cpu-TakesNext_example : TakesNext (λ c. c == 2) 4 0 (next_cpu (λ c. c == 2) 4 (negsuc 0))
next_cpu-TakesNext_example = next_cpu-TakesNext (λ c. c == 2) 4 (negsuc 0) (omega arith)

-- The only worker registers itself before the main thread comes to wait.
abbrev one_created : InitState
one_created = create_next init_start

abbrev one_registered : InitState
one_registered = register_thread_initialized [] one_created

abbrev all_done : InitState
all_done = record one_registered { main_thread = testing }

one_worker : InitSteps 1 init_start (0 + 1 + 1 + 1 + 1) (test_count 1 all_done)
unfolding create_next register_thread_initialized
one_worker =
    further
      (further
        (further (further none_yet (create init_start refl (omega arith)))
          (register one_created [] 0 [] refl))
        (all_created one_registered refl (omega arith)))
      (test all_done refl)

InitSteps-end_example :
    (0 + 1 + 1 + 1 + 1 ≤ 4 * 1 + 2)
    × (((t : InitState) → ¬ InitStep 1 (test_count 1 all_done) t)
        → HasReturned 1 (test_count 1 all_done))
InitSteps-end_example = InitSteps-end 1 (0 + 1 + 1 + 1 + 1) (test_count 1 all_done) one_worker

InitRun-progress_example :
    HasReturned 1 one_created
    ⊎ ((one_created.main_thread ≢ returned) × (t : InitState) × InitStep 1 one_created t)
InitRun-progress_example =
    InitRun-progress 1 one_created (step start (create init_start refl (omega arith)))

unknown-CanEnter : CanEnter no_entries 10 3 unknown
unknown-CanEnter = record {
  map = record { heads = λ k. refl; linked = λ k. tt; keyed = λ k. tt; distinct = λ k. tt };
  enough = λ j. omega arith;
  memory = λ i. refl;
  distinct = λ i j ne e. ne (omega (arith, e));
  unused = λ i. refl;
}

stat_test_data-Populates_example :
    Returns (stat_test_data 10 2 unknown) (Populates no_entries 10 1 2 unknown)
stat_test_data-Populates_example =
    stat_test_data-Populates 2 1 10 no_entries unknown unknown-CanEnter

-- Two workers and a backend; every call succeeds.
abbrev one_backend : Backends
one_backend = record { hosts = λ i. codes "host:1"; len = 1; size = 1000 }

abbrev sample_launch : Launch
sample_launch = record {
  system = sample_system;
  backends = one_backend;
  memcaches = λ t. record { memcache = λ _. 0; memcache_null = true; memcache_used = 0 };
  current_cpu = negsuc 0;
  pipes = λ _. true;
  bases = λ _. true;
  affinities = λ i c. true;
  set_affinities = λ _. true;
  creates = λ _. true;
  created = 0;
}

sample_launch-CanInit : CanInit 0 10 (2 * 1 + 1) sample_launch
sample_launch-CanInit = record {
  ready = unknown-IsReady 3 (omega arith);
  events = λ i. refl;
  fresh = two_sockets-IsFair.closed;
  lookups = λ i name port e. cc;
  pipes = λ i. refl;
  bases = λ i. refl;
  can = record { set_affinities = λ i. refl; creates = λ i. refl };
  none_created = refl;
  no_listener = refl;
}

thread_init-Inits_example :
    Returns (thread_init 10 true 1024 2 sample_launch) (Inits 2 0 10 1 sample_launch)
thread_init-Inits_example =
    thread_init-Inits 10 0 1024 2 1 true sample_launch (omega arith) sample_launch-CanInit

a_free_one-opened :
    (a b : Bool)
    → 0 < (if b then 0 else 1) + ((if a then 0 else 1) + 0)
    → (sfd : ℕ) × (a_free_one a b ≡ opened sfd)
a_free_one-opened false b free = (0, refl)
a_free_one-opened true false free = (1, refl)
a_free_one-opened true true free = absurd (omega (arith, free))

sample_system-IsReachable : IsReachable 2 (2 * 1 + 0) sample_system
unfolding closed_below
sample_system-IsReachable = record {
  lookups = λ i name port e. cc;
  sockets = λ i held free. a_free_one-opened (held 0) (held 1) free;
  connects = λ i. refl;
  nonblocks = λ i. refl;
  spare = omega arith;
}

thread_init-reaches_example : Returns (thread_init 10 true 1024 2 sample_launch) λ m.
    AreJoined (m.memcaches 1) (launch_world m)
    × ((m.memcaches 1).memcache_used ≡ 1)
    × ((j : ℕ) → j < 1 → m.backends.hosts j ≡ (host_and_port (codes "host:1")).0)
thread_init-reaches_example =
    thread_init-reaches 10 0 1024 2 1 2 0 1 true sample_launch sample_launch-CanInit
      sample_system-IsReachable (omega arith)

-- Two workers, a backend and two users, by the command line.
abbrev sample_settings : Settings ℕ
sample_settings = record (settings_init 0) {
  threads = pos 2;
  users = pos 2;
  backends = one_backend;
}
