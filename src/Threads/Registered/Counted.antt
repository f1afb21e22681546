-- ===== src/Threads/Registered/Counted.antt =====
-- No wakeup is lost while the main thread waits for the workers.
use synthetic_client.Base.{
  ℕ, suc, ◌+◌, ◌≡◌, ◌≢◌, ◌≤◌, ◌<◌, refl, sym, ap, ◌∙◌, subst, inl, inr, ◌⊎◌, ltb, if◌then◌else◌,
  Bool-cases, List, [], ◌∷◌, ◌++◌, length, length-append, arith,
}
use synthetic_client.Threads.Registered.{
  MainThread, creating, testing, sleeping, returned, InitState, woken, register_thread_initialized,
  create_next, test_count, InitStep, create, all_created, test, register, InitRun, start, step,
  wake,
}

-- What holds throughout: each worker that is created is pending or counted, and the main thread
-- sleeps only while one is pending.
abbrev IsAsCounted : (nthreads created pending init_count : ℕ) → MainThread → Type 0
IsAsCounted nthreads created pending init_count creating = created ≤ nthreads
IsAsCounted nthreads created pending init_count testing = created ≡ nthreads
IsAsCounted nthreads created pending init_count sleeping = (created ≡ nthreads) × (0 < pending)
IsAsCounted nthreads created pending init_count returned =
    (created ≡ nthreads) × (init_count ≡ nthreads)

record IsCounted (nthreads : ℕ) (s : InitState) : Type 0 where
  counted : s.init_count + length s.pending ≡ s.created
  phase : IsAsCounted nthreads s.created (length s.pending) s.init_count s.main_thread

pub one_less :
    (pending before behind : List ℕ) (t : ℕ)
    → pending ≡ before ++ t ∷ behind
    → length pending ≡ length (before ++ behind) + 1
one_less pending before behind t e =
    ap length e ∙ omega (arith, length-append before (t ∷ behind), length-append before behind)

-- The test, on the count of the workers that are registered.
test-IsAsCounted :
    (nthreads created pending init_count : ℕ)
    → init_count + pending ≡ created
    → created ≡ nthreads
    → IsAsCounted nthreads created pending init_count
        (if ltb init_count nthreads then sleeping else returned)
test-IsAsCounted nthreads created pending init_count e all =
    elim (Bool-cases (ltb init_count nthreads)) [
      | inl less ↦ rw less (all, ground arith)
      | inr enough ↦ rw enough (all, ground arith)
    ]

-- A worker less is pending, and one more is counted.
register-IsAsCounted :
    (nthreads created pending init_count : ℕ) (m : MainThread)
    → init_count + (pending + 1) ≡ created
    → IsAsCounted nthreads created (pending + 1) init_count m
    → IsAsCounted nthreads created pending (init_count + 1) (woken m)
register-IsAsCounted nthreads created pending init_count creating e h = h
register-IsAsCounted nthreads created pending init_count testing e h = h
register-IsAsCounted nthreads created pending init_count sleeping e h = h.0
register-IsAsCounted nthreads created pending init_count returned e h =
    absurd (omega (arith, e, h.0, h.1))

woken-IsAsCounted :
    (nthreads created pending init_count : ℕ) (m : MainThread)
    → IsAsCounted nthreads created pending init_count m
    → IsAsCounted nthreads created pending init_count (woken m)
woken-IsAsCounted nthreads created pending init_count creating h = h
woken-IsAsCounted nthreads created pending init_count testing h = h
woken-IsAsCounted nthreads created pending init_count sleeping h = h.0
woken-IsAsCounted nthreads created pending init_count returned h = h

InitStep-IsCounted :
    {nthreads : ℕ} {s t : InitState}
    → InitStep nthreads s t
    → IsCounted nthreads s
    → IsCounted nthreads t
unfolding create_next test_count register_thread_initialized
InitStep-IsCounted {nthreads} (create s at more) h = record {
  counted = omega (arith, h.counted);
  phase =
      subst (IsAsCounted nthreads (s.created + 1) (suc (length s.pending)) s.init_count) (sym at)
        (omega (arith, more));
}
InitStep-IsCounted {nthreads} (all_created s at done) h =
    let few = subst (IsAsCounted nthreads s.created (length s.pending) s.init_count) at h.phase in
    record { counted = h.counted; phase = omega (arith, few, done) }
InitStep-IsCounted {nthreads} (test s at) h =
    let all = subst (IsAsCounted nthreads s.created (length s.pending) s.init_count) at h.phase in
    record {
      counted = h.counted;
      phase = test-IsAsCounted nthreads s.created (length s.pending) s.init_count h.counted all;
    }
InitStep-IsCounted {nthreads} (register s before t behind e) h =
    let less = one_less s.pending before behind t e in
    record {
      counted = omega (arith, h.counted, less);
      phase =
          register-IsAsCounted nthreads s.created (length (before ++ behind)) s.init_count
            s.main_thread (omega (arith, h.counted, less))
            (subst (λ n. IsAsCounted nthreads s.created n s.init_count s.main_thread) less h.phase);
    }

InitRun-IsCounted : {nthreads : ℕ} {s : InitState} → InitRun nthreads s → IsCounted nthreads s
InitRun-IsCounted start = record { counted = omega arith; phase = omega arith }
InitRun-IsCounted (step r st) = InitStep-IsCounted st (InitRun-IsCounted r)
InitRun-IsCounted {nthreads} (wake {s} r) =
    let h = InitRun-IsCounted r in
    record {
      counted = h.counted;
      phase =
          woken-IsAsCounted nthreads s.created (length s.pending) s.init_count s.main_thread
            h.phase;
    }

-- Every worker is created and has registered itself, and the main thread has returned.
abbrev pub HasReturned : ℕ → InitState → Type 0
HasReturned nthreads s =
    (s.main_thread ≡ returned)
    × (s.created ≡ nthreads)
    × (s.init_count ≡ nthreads)
    × (s.pending ≡ [])

no_more : (n : ℕ) (pending : List ℕ) → n + length pending ≡ n → pending ≡ []
no_more n [] e = refl
no_more n (t ∷ pending) e = absurd (omega (arith, e))

-- Whatever the threads have done, in whatever order, with spurious wakeups or without: either the main
-- thread has returned, and every worker is created and has registered itself, or it has not, and some
-- thread can take a step, so that no wakeup is lost.
pub InitRun-progress :
    (nthreads : ℕ) (s : InitState)
    → InitRun nthreads s
    → HasReturned nthreads s
      ⊎ ((s.main_thread ≢ returned) × (t : InitState) × InitStep nthreads s t)
InitRun-progress nthreads s r = at s.main_thread refl (InitRun-IsCounted r).phase
  where
    counted : s.init_count + length s.pending ≡ s.created
    counted = (InitRun-IsCounted r).counted

    at :
        (m : MainThread)
        → s.main_thread ≡ m
        → IsAsCounted nthreads s.created (length s.pending) s.init_count m
        → HasReturned nthreads s
          ⊎ ((s.main_thread ≢ returned) × (t : InitState) × InitStep nthreads s t)
    at creating e h = elim (Bool-cases (ltb s.created nthreads)) [
      | inl less ↦ inr (λ z. cc, create_next s, create s e (ground arith))
      | inr done ↦ inr (λ z. cc, _, all_created s e (ground arith))
    ]
    at testing e h = inr (λ z. cc, test_count nthreads s, test s e)
    at sleeping e h = let (t, st) = wakes s.pending refl h.1 in inr (λ z. cc, t, st)
      where
        wakes :
            (pending : List ℕ)
            → s.pending ≡ pending
            → 0 < length s.pending
            → (t : InitState) × InitStep nthreads s t
        wakes [] p some = absurd (omega (arith, some, ap length p))
        wakes (t ∷ pending) p some =
            (register_thread_initialized pending s, register s [] t pending p)
    at returned e (all, count) =
        inl (e, all, count, no_more nthreads s.pending (omega (arith, counted, all, count)))
