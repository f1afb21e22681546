-- ===== src/Startup/Serves.antt =====
-- `main`, from the accepted settings to its event loop.
use synthetic_client.Base.{
  ℕ, ◌+◌, ◌*◌, ◌%◌, ◌≡◌, ◌≢◌, ◌≤◌, ◌<◌, ◌⊎◌, Bool, true, false, none, List, length, Run, ok, fault,
  exited, Returns,
}
use synthetic_client.Base.Int.{pos}
use synthetic_client.Utils.{int_max}
use synthetic_client.World.{World, rest, after_alloc}
use synthetic_client.Conn.Iov.Plenty.{Plenty}
use synthetic_client.Settings.{Settings}
use synthetic_client.System.{System}
use synthetic_client.Threads.Start.{Launch, launch_world, set_world, thread_init}
use synthetic_client.Threads.Entries.{HaveAddress}
use synthetic_client.Threads.Sets.{CanStart}
use synthetic_client.Threads.Init.{Inits}
use synthetic_client.Startup.Sockets.{server_socket}
use synthetic_client.Startup.Listening.{IsFair}
use synthetic_client.Startup.Loop.{own_addresses, Serving}
use synthetic_client.Startup.Data.{number_of}
use synthetic_client.Startup.Main.{test_data}

-- What `server_socket` makes of a launch, unless it fails, in which case the process exits.
pub record Opens (before : ℕ → Bool) (l m : Launch) : Type 0 where
  pub serving : Serving before l.system (false, m.system)
  pub some_listener : 0 < length serving.listeners
  pub memcaches : m.memcaches ≡ l.memcaches
  pub backends : m.backends ≡ l.backends
  pub created : m.created ≡ l.created

-- What is asked of the surroundings: memory at addresses that are all different, with no statistics
-- yet; every call that sets up the threads succeeds; name lookup gives an address if it succeeds, and
-- no more than `most` to listen on; and `socket` gives no open descriptor and does not run out. The
-- other calls on sockets may answer what they will.
pub record CanServe {Double : Type 0} (fuel nthreads most : ℕ) (config : Settings Double)
    (w : World) (l : Launch) : Type 0 where
  pub memory : Plenty w
  pub distinct : (i j : ℕ) → i ≢ j → w.addresses i ≢ w.addresses j
  pub no_stats : (p : ℕ) → w.client_stats p ≡ none
  pub no_users : (k : ℕ) → config.stats.map k ≡ none
  pub threads : config.threads ≡ pos nthreads
  pub some_thread : 0 < nthreads
  pub enough : nthreads * config.backends.len + (number_of config.users + most) ≤ fuel
  pub small : nthreads * config.backends.len + (number_of config.users + most) ≤ int_max
  pub events : (i : ℕ) → w.events i ≡ true
  pub fair : IsFair l.system.sockets
  pub lookups : HaveAddress l.system.lookups
  pub few : (i : ℕ) (port : List ℕ) → length (own_addresses (l.system.lookups i none port)) ≤ most
  pub pipes : (i : ℕ) → l.pipes i ≡ true
  pub bases : (i : ℕ) → l.bases i ≡ true
  pub can : CanStart l
  pub none_created : l.created ≡ 0
  pub no_listener : l.system.listen_conn ≡ none

module _ {Double : Type 0} (fuel nthreads most : ℕ) (config : Settings Double) (w : World)
    (l : Launch) (h : CanServe fuel nthreads most config w l) where
  -- The world after the free list and the item are allocated.
  allocated : World
  allocated = record (after_alloc (after_alloc w)) {
    statistics = config.stats;
    freelist = record { freeconns = λ _. 0; freetotal = 200; freecurr = 0 };
  }

  launch : Launch
  launch = set_world (record l { bases = rest l.bases; backends = config.backends }) allocated

-- What `main` has done before it listens: the launch `launched` of `thread_init`, from the hosts of the
-- settings, and the test data in the world `users`.
pub record Prepares {Double : Type 0} (fuel nthreads most max_cpus : ℕ) (config : Settings Double)
    (launched : Launch) (users : World) : Type 0 where
  pub start : Launch
  pub hosts : start.backends ≡ config.backends
  pub starts : thread_init fuel config.thread_affinity max_cpus nthreads start ≡ ok launched
  pub inits :
      Inits nthreads (0 % config.stats.map_size) fuel (number_of config.users + most) start launched
  pub enters : test_data fuel config.users (launch_world launched) ≡ ok users

-- How `main` goes on: it exits, where `server_socket` reports a failure, or it comes to its event loop.
abbrev pub Serves : {Double : Type 0} → ℕ → Settings Double → Launch → World → Run Launch → Type 0
Serves fuel config launched users run =
    let l = set_world launched users in
    ((s : System) × (server_socket fuel config.tcpport l.system ≡ ok (true, s))
      × (run ≡ fault exited))
    ⊎ Returns run (Opens launched.system.open_fds l)
