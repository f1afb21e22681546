-- ===== src/Threads/Entries.antt =====
-- The connections of a worker to the backends, one of which is entered more.
use synthetic_client.Base.{
  ℕ, ◌+◌, ◌≡◌, ◌≢◌, ◌<◌, refl, sym, ◌∙◌, inl, inr, true, false, ◌==◌, Bool-cases, Option, none,
  some, List, [], update, update-distinct, Returns, arith,
}
use synthetic_client.Base.Int.{pos}
use synthetic_client.World.{World, rest}
use synthetic_client.Conn.New.Ready.{IsReady}
use synthetic_client.System.{System}
use synthetic_client.Memcache.Outcomes.{
  Outcome, unresolved, no_descriptor, refused, blocking, established, Gives, IsBackend, AreFresh,
  Connects,
}
use synthetic_client.Threads.Start.{Memcaches, Launch, launch_world, enter_memcache}

-- The entries of a worker are open connections to backends, all different, and none at an address
-- that comes next.
pub record AreJoined (m : Memcaches) (w : World) : Type 0 where
  pub array : m.memcache_null ≡ false
  pub backend : (j : ℕ) → j < m.memcache_used → (sfd : ℕ) × IsBackend sfd (m.memcache j) w.conns
  pub distinct :
      (i j : ℕ) → i < m.memcache_used → j < m.memcache_used → m.memcache i ≡ m.memcache j → i ≡ j
  pub away : (j : ℕ) → j < m.memcache_used → (i : ℕ) → w.addresses i ≢ m.memcache j

-- Name lookup gives an address if it succeeds.
abbrev pub HaveAddress : (ℕ → Option (List ℕ) → List ℕ → Option (List ℕ)) → Type 0
HaveAddress lookups =
    (i : ℕ) (name : Option (List ℕ)) (port : List ℕ) → lookups i name port ≢ some []

-- The workers below `bound` are joined to backends, and `n` connections more may be opened.
pub record Joining (bound k fuel n : ℕ) (l : Launch) : Type 0 where
  pub joined : (t : ℕ) → t < bound → AreJoined (l.memcaches t) (launch_world l)
  pub ready : IsReady (pos 0) k fuel n (launch_world l)
  pub events : (i : ℕ) → (launch_world l).events i ≡ true
  pub fresh : AreFresh l.system.sockets
  pub lookups : HaveAddress l.system.lookups

-- Another connection is stored at an address that comes next.
pub other-AreJoined :
    (m : Memcaches) (w v : World)
    → ((a : ℕ) → a ≢ w.addresses 0 → v.conns a ≡ w.conns a)
    → ((i : ℕ) → (j : ℕ) × (v.addresses i ≡ w.addresses j))
    → AreJoined m w
    → AreJoined m v
other-AreJoined m w v same from h = record {
  array = h.array;
  backend = λ j u.
      let (sfd, b) = h.backend j u in
      (
        sfd,
        record {
          conn = b.conn;
          stored = same (m.memcache j) (λ e. h.away j u 0 (sym e)) ∙ b.stored;
          opened = b.opened;
        },
      );
  distinct = h.distinct;
  away = λ j u i e. let (a, at) = from i in h.away j u a (sym at ∙ e);
}

-- The entries with one more, at an address that none of them has.
enter-AreJoined :
    (m : Memcaches) (w : World) (p sfd : ℕ)
    → IsBackend sfd p w.conns
    → ((i : ℕ) → w.addresses i ≢ p)
    → ((j : ℕ) → j < m.memcache_used → m.memcache j ≢ p)
    → AreJoined m w
    → AreJoined
        (record m {
          memcache = update m.memcache m.memcache_used p;
          memcache_used = m.memcache_used + 1;
        })
        w
enter-AreJoined m w p sfd b new other h = record {
  array = h.array;
  backend = λ j u. elim (Bool-cases (m.memcache_used == j)) [
    | inl last ↦ rw last (sfd, b)
    | inr before ↦ rw before (h.backend j (ground arith))
  ];
  distinct = update-distinct m.memcache m.memcache_used p h.distinct other;
  away = λ j u i. elim (Bool-cases (m.memcache_used == j)) [
    | inl last ↦ rw last (new i)
    | inr before ↦ rw before (h.away j (ground arith) i)
  ];
}

-- An established connection is counted.
abbrev pub Entered : Outcome → World → Memcaches → Memcaches → Type 0
Entered o w m x =
    AreJoined x w × ((sfd : ℕ) → o ≡ established sfd → x.memcache_used ≡ m.memcache_used + 1)

pub enter_memcache_lem :
    (o : Outcome) (k fuel n : ℕ) (l s : System) (mc : Option ℕ) (m : Memcaches)
    → Connects o k fuel n l.world l.open_fds l.sockets (rest l.lookups) l.listen_conn mc s
    → AreJoined m l.world
    → Returns (enter_memcache mc m) (Entered o s.world m)
unfolding enter_memcache
enter_memcache_lem o k fuel n l s mc m c h = at o c.gives
  where
    kept : AreJoined m s.world
    kept = other-AreJoined m l.world s.world c.others c.addresses h

    without :
        (o : Outcome)
        → ((sfd : ℕ) → o ≢ established sfd)
        → mc ≡ none
        → Returns (enter_memcache mc m) (Entered o s.world m)
    without o ne e = (m, rw e refl, (kept, λ sfd z. absurd (ne sfd z)))

    at : (o : Outcome) → Gives o l.world mc s → Returns (enter_memcache mc m) (Entered o s.world m)
    at unresolved (e, _) = without unresolved (λ sfd z. cc) e
    at no_descriptor (e, _) = without no_descriptor (λ sfd z. cc) e
    at (refused sfd) (e, _) = without (refused sfd) (λ d z. cc) e
    at (blocking sfd) (e, _) = without (blocking sfd) (λ d z. cc) e
    at (established sfd) (e, b, new) = (
      _,
      rw (e, enter_memcache, h.array) refl,
      (
        enter-AreJoined m s.world (l.world.addresses 0) sfd b new (λ j u x. h.away j u 0 (sym x))
            kept,
        λ d z. refl,
      ),
    )
