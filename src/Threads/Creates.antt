-- ===== src/Threads/Creates.antt =====
-- `create_worker`: the threads of the workers are started one after the other.
use synthetic_client.Base.{
  ℕ, zero, suc, ◌+◌, ◌≡◌, refl, ◌∙◌, subst, Bool, true, false, Option, none, some, Returns, arith,
}
use synthetic_client.Base.Int.{pos}
use synthetic_client.World.{rest}
use synthetic_client.Threads.Start.{
  Launch, bind_cpu, next_cpu, set_affinity, create_worker, create_workers,
}
use synthetic_client.Threads.Sets.{CanStart}

-- What starting `n` threads makes of `l`.
pub record Starts (n : ℕ) (l m : Launch) : Type 0 where
  pub created : m.created ≡ l.created + n
  pub system : m.system ≡ l.system
  pub memcaches : m.memcaches ≡ l.memcaches
  pub backends : m.backends ≡ l.backends
  pub pipes : m.pipes ≡ l.pipes
  pub bases : m.bases ≡ l.bases
  pub can : CanStart m

none-Starts : (l : Launch) → CanStart l → Starts 0 l l
none-Starts l h = record {
  created = omega arith;
  system = refl;
  memcaches = refl;
  backends = refl;
  pipes = refl;
  bases = refl;
  can = h;
}

Starts-trans : (m n : ℕ) (a b c : Launch) → Starts m a b → Starts n b c → Starts (m + n) a c
Starts-trans m n a b c x y = record {
  created = omega (arith, x.created, y.created);
  system = y.system ∙ x.system;
  memcaches = y.memcaches ∙ x.memcaches;
  backends = y.backends ∙ x.backends;
  pipes = y.pipes ∙ x.pipes;
  bases = y.bases ∙ x.bases;
  can = y.can;
}

set_affinity-Starts :
    (thread_affinity : Bool) (max_cpus : ℕ) (l : Launch)
    → CanStart l
    → Returns (set_affinity thread_affinity max_cpus l) (Starts 0 l)
unfolding set_affinity bind_cpu
set_affinity-Starts false max_cpus l h = (l, refl, none-Starts l h)
set_affinity-Starts true max_cpus l h = at (next_cpu (l.affinities 0) max_cpus l.current_cpu)
  where
    at :
        (c : Option ℕ)
        → Returns (bind_cpu c (record l { affinities = rest l.affinities })) (Starts 0 l)
    at none = (
      _,
      refl,
      record {
        created = omega arith;
        system = refl;
        memcaches = refl;
        backends = refl;
        pipes = refl;
        bases = refl;
        can = record { set_affinities = h.set_affinities; creates = h.creates };
      },
    )
    at (some c) = (
      record l {
        affinities = rest l.affinities;
        set_affinities = rest l.set_affinities;
        current_cpu = pos c;
      },
      rw (h.set_affinities 0) refl,
      record {
        created = omega arith;
        system = refl;
        memcaches = refl;
        backends = refl;
        pipes = refl;
        bases = refl;
        can = record { set_affinities = λ i. h.set_affinities (suc i); creates = h.creates };
      },
    )

create_worker-Starts :
    (thread_affinity : Bool) (max_cpus : ℕ) (l : Launch)
    → CanStart l
    → Returns (create_worker thread_affinity max_cpus l) (Starts 1 l)
unfolding create_worker
create_worker-Starts thread_affinity max_cpus l h =
    let (m, run, x) = set_affinity-Starts thread_affinity max_cpus l h in
    let started : Launch = record m { creates = rest m.creates; created = m.created + 1 } in
    (
      started,
      rw (run, x.can.creates 0) refl,
      Starts-trans 0 1 l m started x (record {
        created = refl;
        system = refl;
        memcaches = refl;
        backends = refl;
        pipes = refl;
        bases = refl;
        can = record {
          set_affinities = x.can.set_affinities;
          creates = λ i. x.can.creates (suc i);
        };
      }),
    )

pub create_workers-Starts :
    (thread_affinity : Bool) (max_cpus n : ℕ) (l : Launch)
    → CanStart l
    → Returns (create_workers thread_affinity max_cpus n l) (Starts n l)
unfolding create_workers
create_workers-Starts thread_affinity max_cpus zero l h = (l, refl, none-Starts l h)
create_workers-Starts thread_affinity max_cpus (suc n) l h =
    let (m, run, x) = create_worker-Starts thread_affinity max_cpus l h in
    let (r, run', y) = create_workers-Starts thread_affinity max_cpus n m x.can in
    let one_more : 1 + n ≡ suc n = omega arith in
    (r, rw run run', subst (λ c. Starts c l r) one_more (Starts-trans 1 n l m r x y))
