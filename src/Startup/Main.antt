-- ===== src/Startup/Main.antt =====
-- src/server.c: `main`, up to its event loop.
use synthetic_client.Base.{
  ℕ, zero, suc, Bool, if◌then◌else◌, List, Run, ok, fault, dangling, exited, ◌>>=◌,
}
use synthetic_client.Base.Int.{ℤ, pos, negsuc}
use synthetic_client.World.{World, rest, after_alloc}
use synthetic_client.Conn.New.{conn_init}
use synthetic_client.Stats.{stat_test_data}
use synthetic_client.Settings.{
  Opt, Settings, Parsed, accepted, refused, usage, settings_init, settings_parse,
}
use synthetic_client.Startup.Sockets.{server_socket}
use synthetic_client.Threads.Start.{Launch, launch_world, set_world, thread_init}

-- `main` returns 1 or ends with its usage shown, or it comes to its event loop.
pub data Started (Double : Type 0) : Type 0 where
  not_started : Started Double
  serving : Settings Double → Launch → Started Double

-- The item is allocated without a check; its content is that of Items.
unfoldable pub alloc_item : World → Run World
alloc_item w = if w.allocs 0 then ok (after_alloc w) else fault dangling

-- Test data is generated for a positive number of users.
unfoldable pub test_data : ℕ → ℤ → World → Run World
test_data fuel (negsuc n) w = ok w
test_data fuel (pos zero) w = ok w
test_data fuel (pos (suc n)) w = stat_test_data fuel (suc n) w

-- A failure ends the process.
unfoldable pub listen_port : ℕ → ℤ → Launch → Run Launch
listen_port fuel port l = server_socket fuel port l.system >>= λ (failed, s).
    if failed then fault exited else ok (record l { system = s })

-- A number of threads that is not positive is refused before.
unfoldable pub start_threads : ℕ → ℕ → Bool → ℤ → Launch → Run Launch
start_threads fuel max_cpus thread_affinity (negsuc n) l = fault exited
start_threads fuel max_cpus thread_affinity (pos nthreads) l =
    thread_init fuel thread_affinity max_cpus nthreads l

-- With the settings as the command line gives them. The main event base is not checked.
unfoldable pub serve : {Double : Type 0} → ℕ → ℕ → Settings Double → World → Launch → Run Launch
unfolding alloc_item test_data listen_port start_threads
serve fuel max_cpus config w l =
    conn_init (record w { statistics = config.stats }) >>= alloc_item >>= λ v.
    start_threads fuel max_cpus config.thread_affinity config.threads
      (set_world (record l { bases = rest l.bases; backends = config.backends }) v)
    >>= λ m. test_data fuel config.users (launch_world m) >>= λ u.
        listen_port fuel config.tcpport (set_world m u)

module _ {Double : Type 0} where
  unfoldable pub after_parse : ℕ → ℕ → Launch → Parsed Double → Run (Started Double)
  unfolding serve
  after_parse fuel max_cpus l (accepted config w) =
      serve fuel max_cpus config w l >>= λ m. ok (serving config m)
  after_parse fuel max_cpus l (refused config w) = ok not_started
  after_parse fuel max_cpus l usage = ok not_started

module _ {Double : Type 0} (zero_double : Double) (atof : List ℕ → Double) where
  -- `sigignore` has succeeded.
  unfoldable pub main : ℕ → ℕ → List Opt → Launch → Run (Started Double)
  unfolding after_parse
  main fuel max_cpus opts l =
      settings_parse atof opts (settings_init zero_double) (launch_world l)
      >>= after_parse fuel max_cpus l
