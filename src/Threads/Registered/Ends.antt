-- ===== src/Threads/Registered/Ends.antt =====
-- The wait of the main thread for the workers ends.
use synthetic_client.Base.{ℕ, ◌+◌, ◌-◌, ◌*◌, ◌≤◌, ◌<◌, ap, inl, inr, ltb, Bool-cases, length, arith}
use synthetic_client.Threads.Registered.{
  MainThread, creating, testing, sleeping, returned, InitState, init_start, woken,
  register_thread_initialized, create_next, test_count, InitStep, create, all_created, test,
  register, InitRun, start, step, InitSteps, none_yet, further,
}
use synthetic_client.Threads.Registered.Counted.{one_less, HasReturned, InitRun-progress}

-- What is left to do, as a number.
abbrev pub phase_work : MainThread → ℕ
phase_work creating = 2
phase_work testing = 1
phase_work sleeping = 0
phase_work returned = 0

abbrev pub work : ℕ → InitState → ℕ
work nthreads s = 4 * (nthreads - s.created) + 3 * length s.pending + phase_work s.main_thread

woken_work : (m : MainThread) → phase_work (woken m) ≤ phase_work m + 1
woken_work creating = omega arith
woken_work testing = omega arith
woken_work sleeping = omega arith
woken_work returned = omega arith

InitStep-work :
    {nthreads : ℕ} {s t : InitState} → InitStep nthreads s t → work nthreads t < work nthreads s
unfolding create_next test_count register_thread_initialized
InitStep-work {nthreads} (create s at more) = omega (arith, more)
InitStep-work {nthreads} (all_created s at done) = omega (arith, ap phase_work at)
InitStep-work {nthreads} (test s at) = elim (Bool-cases (ltb s.init_count nthreads)) [
  | inl less ↦ rw less (omega (arith, ap phase_work at))
  | inr enough ↦ rw enough (omega (arith, ap phase_work at))
]
InitStep-work {nthreads} (register s before t behind e) =
    omega (arith, one_less s.pending before behind t e, woken_work s.main_thread)

InitSteps-work :
    {nthreads : ℕ} {s : InitState} {n : ℕ} {t : InitState}
    → InitSteps nthreads s n t
    → n + work nthreads t ≤ work nthreads s
InitSteps-work none_yet = omega arith
InitSteps-work (further r st) = omega (arith, InitSteps-work r, InitStep-work st)

-- The wait ends: without spurious wakeups the threads take no more than 4 steps for each worker and 2
-- more in all, and where they can take no other step the main thread has returned.
pub InitSteps-end :
    (nthreads n : ℕ) (s : InitState)
    → InitSteps nthreads init_start n s
    → (n ≤ 4 * nthreads + 2)
      × (((t : InitState) → ¬ InitStep nthreads s t) → HasReturned nthreads s)
InitSteps-end nthreads n s r = (
  omega (arith, InitSteps-work r),
  λ stuck. elim (InitRun-progress nthreads s (run r)) [
    | inl done ↦ done
    | inr (waits, t, st) ↦ absurd (stuck t st)
  ],
)
  where
    run : {m : ℕ} {t : InitState} → InitSteps nthreads init_start m t → InitRun nthreads t
    run none_yet = start
    run (further q st) = step (run q) st
