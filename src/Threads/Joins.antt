-- ===== src/Threads/Joins.antt =====
-- The connections of a worker to the backends, as `setup_thread` opens them.
use synthetic_client.Base.{
  Bool, ℕ, zero, suc, ◌+◌, ◌≡◌, ◌≢◌, ◌||◌, IfOk, ◌≤◌, ◌<◌, refl, sym, ap, ◌∙◌, subst, inl, inr,
  ◌==◌, Bool-cases, Option, List, update, update_other, Returns, arith,
}
use synthetic_client.System.{System, SocketOutcome}
use synthetic_client.Memcache.Connect.{host_and_port}
use synthetic_client.Memcache.Outcomes.{outcome, left_open}
use synthetic_client.Memcache.Connects.{memcache_connect-Connects}
use synthetic_client.Threads.Later.{IsLater, memcache_connect-IsLater}
use synthetic_client.Threads.Reaches.{IsReachable, IsReachable-established, later-IsReachable}
use synthetic_client.Threads.Start.{
  Memcaches, Launch, launch_world, connect_backend, connect_backends,
}
use synthetic_client.Threads.Entries.{Joining, other-AreJoined, enter_memcache_lem}

-- What `n` rounds of the loop over the hosts, from host `i` on, make of `l`.
pub record Joins (bound t k fuel more i n : ℕ) (l m : Launch) : Type 0 where
  pub joining : Joining bound k fuel more m
  pub cut :
      (j : ℕ) → i ≤ j → j < i + n → m.backends.hosts j ≡ (host_and_port (l.backends.hosts j)).0
  pub before : (j : ℕ) → j < i → m.backends.hosts j ≡ l.backends.hosts j
  pub others : (a : ℕ) → a ≢ t → m.memcaches a ≡ l.memcaches a
  pub workers : (launch_world m).workers ≡ (launch_world l).workers
  pub pipes : m.pipes ≡ l.pipes
  pub bases : m.bases ≡ l.bases
  pub len : m.backends.len ≡ l.backends.len
  pub calls :
      (m.set_affinities ≡ l.set_affinities) × (m.creates ≡ l.creates) × (m.created ≡ l.created)
  pub listen_conn : m.system.listen_conn ≡ l.system.listen_conn
  pub full :
      (limit spare : ℕ)
      → IsReachable limit (n + spare) l.system
      → IsReachable limit spare m.system
        × ((m.memcaches t).memcache_used ≡ (l.memcaches t).memcache_used + n)

module _ (bound t k fuel : ℕ) (below : t < bound) where
  connect_backend-Joins :
      (i more : ℕ) (l : Launch)
      → Joining bound k fuel (suc more) l
      → Returns (connect_backend fuel t i l) λ m.
        Joins bound t k fuel more i 1 l m
        × ((j : ℕ) → i < j → m.backends.hosts j ≡ l.backends.hosts j)
  unfolding connect_backend
  connect_backend-Joins i more l h =
      let host = l.backends.hosts i in
      let (r, run, (name, c)) =
        memcache_connect-Connects fuel k more host l.system (h.lookups 0 _ _)
          (λ sfd e. h.fresh 0 l.system.open_fds sfd e) h.ready (h.events 0) in
      let (x, run', (joined, count)) =
        enter_memcache_lem (outcome host l.system) k fuel more l.system r.2 r.0 (l.memcaches t) c
          (h.joined t below) in
      let here : update l.memcaches t x t ≡ x = ground arith in
      let written : update l.backends.hosts i r.1 i ≡ r.1 = ground arith in
      (
        record l {
          system = r.2;
          backends = record (l.backends) { hosts = update l.backends.hosts i r.1 };
          memcaches = update l.memcaches t x;
        },
        rw (run, run') refl,
        (
          record {
            joining = record {
              joined = λ a low. elim (Bool-cases (t == a)) [
                | inl same ↦ rw same joined
                | inr other ↦ rw other (
                    other-AreJoined (l.memcaches a) l.system.world r.2.world c.others c.addresses
                      (h.joined a low))
              ];
              ready = c.ready;
              events = λ i. let (j, same) = c.events i in same ∙ h.events j;
              fresh = λ a held sfd e.
                  let (j, same) = c.sockets_left a in
                  h.fresh j held sfd
                    (ap (λ (f : (ℕ → Bool) → SocketOutcome). f held) (sym same) ∙ e);
              lookups =
                  λ a p q e. h.lookups (suc a) p q (ap (λ f. f a p q) (sym c.lookups_left) ∙ e);
            };
            cut = λ j low high.
                let at : i ≡ j = omega (arith, low, high) in
                subst
                  (λ a. update l.backends.hosts i r.1 a ≡ (host_and_port (l.backends.hosts a)).0) at
                  (written ∙ name);
            before = λ j low. update_other l.backends.hosts i j r.1 (omega arith);
            others = λ a ne. update_other l.memcaches t a x (λ e. ne (sym e));
            workers = c.workers;
            pipes = refl;
            bases = refl;
            len = refl;
            calls = (refl, refl, refl);
            listen_conn = c.listen_conn;
            full = λ limit spare reach.
                let (sfd, done) = IsReachable-established limit spare host l.system reach in
                let later =
                  subst (IfOk (λ (q : Option ℕ × List ℕ × System). IsLater l.system q.2)) run
                    (memcache_connect-IsLater fuel host l.system) in
                (
                  later-IsReachable limit spare l.system r.2 sfd later
                      (λ d. c.fds d ∙ ap (λ o. left_open o d || l.system.open_fds d) done) reach,
                  ap (λ (y : Memcaches). y.memcache_used) here ∙ count sfd done,
                );
          },
          λ j high. update_other l.backends.hosts i j r.1 (omega arith),
        ),
      )

  -- The loop over the hosts.
  pub connect_backends-Joins :
      (i n more : ℕ) (l : Launch)
      → Joining bound k fuel (n + more) l
      → Returns (connect_backends fuel t i n l) (Joins bound t k fuel more i n l)
  unfolding connect_backends
  connect_backends-Joins i zero more l h =
      let count : 0 + more ≡ more = omega arith in
      (
        l,
        refl,
        record {
          joining = subst (λ a. Joining bound k fuel a l) count h;
          cut = λ j low high. absurd (omega (arith, low, high));
          before = λ j low. refl;
          others = λ a ne. refl;
          workers = refl;
          pipes = refl;
          bases = refl;
          len = refl;
          calls = (refl, refl, refl);
          listen_conn = refl;
          full = λ limit spare reach.
              let none : 0 + spare ≡ spare = omega arith in
              (subst (λ a. IsReachable limit a l.system) none reach, omega arith);
        },
      )
  connect_backends-Joins i (suc n) more l h =
      let count : suc n + more ≡ suc (n + more) = omega arith in
      let (m, run, (x, after)) =
        connect_backend-Joins i (n + more) l (subst (λ a. Joining bound k fuel a l) count h) in
      let (r, run', y) = connect_backends-Joins (i + 1) n more m x.joining in
      (
        r,
        rw run run',
        record {
          joining = y.joining;
          cut = λ j low high. elim (Bool-cases (i == j)) [
            | inl same ↦ y.before j (ground arith) ∙ x.cut j low (ground arith)
            | inr other ↦
                y.cut j (ground arith) (omega arith)
                ∙ ap (λ s. (host_and_port s).0) (after j (ground arith))
          ];
          before = λ j low. y.before j (omega arith) ∙ x.before j low;
          others = λ a ne. y.others a ne ∙ x.others a ne;
          workers = y.workers ∙ x.workers;
          pipes = y.pipes ∙ x.pipes;
          bases = y.bases ∙ x.bases;
          len = y.len ∙ x.len;
          calls = (y.calls.0 ∙ x.calls.0, y.calls.1 ∙ x.calls.1, y.calls.2 ∙ x.calls.2);
          listen_conn = y.listen_conn ∙ x.listen_conn;
          full = λ limit spare reach.
              let rooms : suc n + spare ≡ 1 + (n + spare) = omega arith in
              let (one, count) =
                x.full limit (n + spare) (subst (λ a. IsReachable limit a l.system) rooms reach) in
              let (all, counts) = y.full limit spare one in (all, omega (arith, count, counts));
        },
      )
