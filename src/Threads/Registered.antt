-- ===== src/Threads/Registered.antt =====
-- src/threads.c: the main thread waits in `thread_init` until every worker has registered itself.
-- What is done under `init_lock` is one step; the threads take their steps in any order.
pub mod Counted
pub mod Ends
use synthetic_client.Base.{
  ℕ, zero, suc, ◌+◌, ◌-◌, ◌*◌, ◌≡◌, ◌≢◌, ◌≤◌, ◌<◌, refl, sym, ap, ◌∙◌, subst, inl, inr, ◌⊎◌, true,
  false, ltb, leb, if◌then◌else◌, Bool-cases, List, [], ◌∷◌, ◌++◌, length, length-append, arith,
}

-- Where the main thread is: it creates the workers, is about to test `init_count`, sleeps in
-- `pthread_cond_wait`, or has returned from `thread_init`.
pub data MainThread : Type 0 where
  creating testing sleeping returned : MainThread

-- The workers that are created and have not registered themselves yet are listed.
pub record InitState : Type 0 where
  pub main_thread : MainThread
  pub created : ℕ
  pub pending : List ℕ
  pub init_count : ℕ

abbrev pub init_start : InitState
init_start = record { main_thread = creating; created = 0; pending = []; init_count = 0 }

-- A signal, or a spurious wakeup.
abbrev pub woken : MainThread → MainThread
woken sleeping = testing
woken m = m

unfoldable pub register_thread_initialized : List ℕ → InitState → InitState
register_thread_initialized pending s = record s {
  pending = pending;
  init_count = s.init_count + 1;
  main_thread = woken s.main_thread;
}

unfoldable pub create_next : InitState → InitState
create_next s = record s { created = s.created + 1; pending = s.created ∷ s.pending }

-- The loop after the last worker is created, and its test.
unfoldable pub test_count : ℕ → InitState → InitState
test_count nthreads s = record s {
  main_thread = if ltb s.init_count nthreads then sleeping else returned;
}

-- A step of a thread.
pub data InitStep (nthreads : ℕ) : InitState → InitState → Type 0 where
  create :
      (s : InitState)
      → s.main_thread ≡ creating
      → s.created < nthreads
      → InitStep nthreads s (create_next s)
  all_created :
      (s : InitState)
      → s.main_thread ≡ creating
      → nthreads ≤ s.created
      → InitStep nthreads s (record s { main_thread = testing })
  test : (s : InitState) → s.main_thread ≡ testing → InitStep nthreads s (test_count nthreads s)
  register :
      (s : InitState) (before : List ℕ) (t : ℕ) (behind : List ℕ)
      → s.pending ≡ before ++ t ∷ behind
      → InitStep nthreads s (register_thread_initialized (before ++ behind) s)

-- Any number of steps, with spurious wakeups among them.
pub data InitRun (nthreads : ℕ) : InitState → Type 0 where
  start : InitRun nthreads init_start
  step : {s t : InitState} → InitRun nthreads s → InitStep nthreads s t → InitRun nthreads t
  wake :
      {s : InitState}
      → InitRun nthreads s
      → InitRun nthreads (record s { main_thread = woken s.main_thread })

-- A number of steps, without spurious wakeups.
pub data InitSteps (nthreads : ℕ) (s : InitState) : ℕ → InitState → Type 0 where
  none_yet : InitSteps nthreads s 0 s
  further :
      {n : ℕ} {t u : InitState}
      → InitSteps nthreads s n t
      → InitStep nthreads t u
      → InitSteps nthreads s (n + 1) u
