-- ===== src/Threads/Sets.antt =====
-- The workers are set up one after the other, each with an empty queue and its backends.
use synthetic_client.Base.{
  ℕ, zero, suc, ◌+◌, ◌*◌, ◌≡◌, ◌<◌, refl, sym, ap, ◌∙◌, subst, inl, inr, Bool, true, ◌==◌,
  Bool-cases, ==_iff, none, Returns, arith,
}
use synthetic_client.World.{Workers, rest}
use synthetic_client.Queue.{conn_queue_new}
use synthetic_client.Memcache.Connect.{host_and_port}
use synthetic_client.Memcache.Port.{host_and_port-again}
use synthetic_client.Threads.Start.{Memcaches, Launch, launch_world, setup_thread, setup_threads}
use synthetic_client.Threads.Reaches.{IsReachable}
use synthetic_client.Threads.Entries.{Joining}
use synthetic_client.Threads.Joins.{connect_backends-Joins}
use synthetic_client.Threads.Prepares.{
  prepared, prepared_lem, prepared-Joining, prepared_none, prepared_other, prepared-IsReachable,
  prepared-queues,
}

-- The calls that start the threads succeed.
pub record CanStart (l : Launch) : Type 0 where
  pub set_affinities : (i : ℕ) → l.set_affinities i ≡ true
  pub creates : (i : ℕ) → l.creates i ≡ true

-- The workers below `bound` are set up, from what the hosts were at first; `pipe` and `event_init`
-- succeed.
pub record IsSetUp (nthreads bound k fuel n : ℕ) (first : Launch) (l : Launch) : Type 0 where
  pub joining : Joining bound k fuel n l
  pub queues :
      (t : ℕ)
      → t < bound
      → ((launch_world l).workers.queues t ≡ conn_queue_new)
        × ((launch_world l).workers.pipes t ≡ 0)
  pub threads : (launch_world l).workers.threads ≡ nthreads
  pub pipes : (i : ℕ) → l.pipes i ≡ true
  pub bases : (i : ℕ) → l.bases i ≡ true
  pub len : l.backends.len ≡ first.backends.len
  pub full :
      (limit spare : ℕ)
      → IsReachable limit (bound * first.backends.len + spare) first.system
      → IsReachable limit spare l.system
        × ((t : ℕ) → t < bound → (l.memcaches t).memcache_used ≡ first.backends.len)
  pub can : CanStart l
  pub none_created : l.created ≡ 0
  pub no_listener : l.system.listen_conn ≡ none
  pub whole :
      bound ≡ 0 → (j : ℕ) → j < first.backends.len → l.backends.hosts j ≡ first.backends.hosts j
  pub cut :
      0 < bound
      → (j : ℕ) → j < first.backends.len
      → l.backends.hosts j ≡ (host_and_port (first.backends.hosts j)).0

-- One worker more is set up.
setup_thread-IsSetUp :
    (nthreads bound k fuel more : ℕ) (first : Launch) (l : Launch)
    → IsSetUp nthreads bound k fuel (first.backends.len + more) first l
    → Returns (setup_thread fuel bound l) (IsSetUp nthreads (suc bound) k fuel more first)
setup_thread-IsSetUp nthreads bound k fuel more first l h =
    let (m, run, x) =
      connect_backends-Joins (suc bound) bound k fuel (omega arith) 0 l.backends.len more
        (prepared bound l)
        (subst (λ c. Joining (suc bound) k fuel (c + more) (prepared bound l)) (sym h.len)
          (prepared-Joining bound k fuel (first.backends.len + more) l h.joining)) in
    (
      m,
      prepared_lem fuel bound l (h.bases 0) (h.joining.events 0) (h.joining.ready.memory 0)
            (h.joining.ready.memory 1)
          ∙ run,
      record {
        joining = x.joining;
        queues = λ t low.
            let (queue, pipe) = prepared-queues bound l h.queues t low in
            (
              ap (λ (w : Workers). w.queues t) x.workers ∙ queue,
              ap (λ (w : Workers). w.pipes t) x.workers ∙ pipe,
            );
        threads = ap (λ (w : Workers). w.threads) x.workers ∙ h.threads;
        pipes = λ i. ap (λ (f : ℕ → Bool). f i) x.pipes ∙ h.pipes i;
        bases = λ i. ap (λ (f : ℕ → Bool). f i) x.bases ∙ h.bases (suc i);
        len = x.len ∙ h.len;
        full = λ limit spare reach.
            let len = first.backends.len in
            let rooms : suc bound * len + spare ≡ bound * len + (len + spare) = omega arith in
            let (now, counts) =
              h.full limit (len + spare)
                (subst (λ n. IsReachable limit n first.system) rooms reach) in
            let (all, count) = x.full limit spare (
              subst (λ c. IsReachable limit (c + spare) (prepared bound l).system) (sym h.len)
                (prepared-IsReachable limit (len + spare) bound l now)) in
            (
              all,
              λ t low. elim (Bool-cases (bound == t)) [
                | inl same ↦
                    subst (λ a. (m.memcaches a).memcache_used ≡ first.backends.len)
                      ((==_iff bound t).0 same) (omega (arith, count, prepared_none bound l, h.len))
                | inr other ↦
                    ap (λ (y : Memcaches). y.memcache_used)
                      (x.others t (λ e. ground arith) ∙ prepared_other bound l t other)
                    ∙ counts t (ground arith)
              ],
            );
        can = record {
          set_affinities = λ i. ap (λ (f : ℕ → Bool). f i) x.calls.0 ∙ h.can.set_affinities i;
          creates = λ i. ap (λ (f : ℕ → Bool). f i) x.calls.1 ∙ h.can.creates i;
        };
        none_created = x.calls.2 ∙ h.none_created;
        no_listener = x.listen_conn ∙ h.no_listener;
        whole = λ e. cc;
        cut = λ _ j low. x.cut j (omega arith) (omega (arith, low, h.len)) ∙ cut j low;
      },
    )
  where
    cut :
        (j : ℕ)
        → j < first.backends.len
        → (host_and_port (l.backends.hosts j)).0 ≡ (host_and_port (first.backends.hosts j)).0
    cut j low = at bound refl
      where
        at :
            (b : ℕ)
            → bound ≡ b
            → (host_and_port (l.backends.hosts j)).0 ≡ (host_and_port (first.backends.hosts j)).0
        at zero e = ap (λ s. (host_and_port s).0) (h.whole e j low)
        at (suc b) e =
            ap (λ s. (host_and_port s).0) (h.cut (omega (arith, e)) j low)
            ∙ ap (λ r. r.0) (host_and_port-again (first.backends.hosts j))

-- `n` workers more are set up.
pub setup_threads-IsSetUp :
    (nthreads bound k fuel n more : ℕ) (first : Launch) (l : Launch)
    → IsSetUp nthreads bound k fuel (n * first.backends.len + more) first l
    → Returns (setup_threads fuel bound n l) (IsSetUp nthreads (bound + n) k fuel more first)
unfolding setup_threads
setup_threads-IsSetUp nthreads bound k fuel zero more first l h =
    let none : zero * first.backends.len + more ≡ more = omega arith in
    let same : bound ≡ bound + 0 = omega arith in
    (
      l,
      refl,
      subst (λ c. IsSetUp nthreads c k fuel more first l) same
          (subst (λ c. IsSetUp nthreads bound k fuel c first l) none h),
    )
setup_threads-IsSetUp nthreads bound k fuel (suc n) more first l h =
    let count : suc n * first.backends.len + more
        ≡ first.backends.len + (n * first.backends.len + more) =
      omega arith in
    let h' = subst (λ c. IsSetUp nthreads bound k fuel c first l) count h in
    let (m, run, x) =
      setup_thread-IsSetUp nthreads bound k fuel (n * first.backends.len + more) first
        (record l { pipes = rest l.pipes })
        (record {
          joining = record {
            joined = h'.joining.joined;
            ready = h'.joining.ready;
            events = h'.joining.events;
            fresh = h'.joining.fresh;
            lookups = h'.joining.lookups;
          };
          queues = h'.queues;
          threads = h'.threads;
          pipes = λ i. h'.pipes (suc i);
          bases = h'.bases;
          len = h'.len;
          full = h'.full;
          can = record { set_affinities = h'.can.set_affinities; creates = h'.can.creates };
          none_created = h'.none_created;
          no_listener = h'.no_listener;
          whole = h'.whole;
          cut = h'.cut;
        }) in
    let next : bound + 1 ≡ suc bound = omega arith in
    let (r, run', y) = setup_threads-IsSetUp nthreads (suc bound) k fuel n more first m x in
    let all : suc bound + n ≡ bound + suc n = omega arith in
    (r, rw (h.pipes 0, run, next) run', subst (λ c. IsSetUp nthreads c k fuel more first r) all y)
