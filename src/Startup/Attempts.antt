-- ===== src/Startup/Attempts.antt =====
-- One round of the loop of `server_socket`, on each of its branches.
use synthetic_client.Base.{
  ℕ, suc, ◌+◌, ◌≡◌, ◌≢◌, refl, sym, ap, ◌∙◌, subst, inl, inr, Bool, true, false, ◌==◌, ==_iff,
  Bool-cases, Option, some, ◌∷◌, update, update_other, ok, Returns, arith,
}
use synthetic_client.Base.Int.{pos}
use synthetic_client.Fsm.{conn_listening}
use synthetic_client.World.{World, store_conn, rest}
use synthetic_client.Conn.{Conn, client_conn, ev_read}
use synthetic_client.Conn.New.OpensNext.{conn_new-OpensNext}
use synthetic_client.Conn.New.Ready.{OpensNext, other-IsReady}
use synthetic_client.System.{
  System, SocketOutcome, opened, out_of_descriptors, no_socket, BindOutcome, bound, in_use,
  bind_failed, open_fd, close_fd, close_fd_lem, after_socket, after_nonblock, after_bind,
  after_listen,
}
use synthetic_client.Startup.Sockets.{
  usable, Attempt, listening, skipped, given_up, set_nonblocking, after_socket_call, new_socket,
  link_listener, listen_on, after_bind_call, after_new_socket, try_address,
}
use synthetic_client.Startup.Listening.{
  Listeners, IsFair, Listens, Listens-less, IsOpened-next, AreLinked-frame, AreAway-later,
}

-- No `bind` fails but for an address that is in use, and no `listen` fails.
pub record IsPatient (s : System) : Type 0 where
  pub binds : (i : ℕ) → s.binds i ≢ bind_failed
  pub listens : (i : ℕ) → s.listens i ≡ true

-- What a round achieves: a listener more, or none; it gives up only where a call fails.
abbrev pub Attempts : (ℕ → Bool) → Listeners → (k fuel n : ℕ) → System → Attempt → Type 0
Attempts before ls k fuel n s (listening t) =
    (p : ℕ) × (sfd : ℕ) × Listens before ((p, sfd) ∷ ls) k fuel n t × (IsPatient s → IsPatient t)
Attempts before ls k fuel n s (skipped t) =
    Listens before ls k fuel n t × (IsPatient s → IsPatient t)
Attempts before ls k fuel n s (given_up t) = Listens before ls k fuel n t × (IsPatient s → ⊥)

-- With one descriptor more that is open.
record Holds (before : ℕ → Bool) (ls : Listeners) (k fuel n sfd : ℕ) (s : System) : Type 0 where
  closed : Listens before ls k fuel (suc n) (close_fd sfd s)
  held : s.open_fds sfd ≡ true

-- The connection at `p` becomes the first one that listens.
abbrev joined : System → World → ℕ → Conn → System
joined s w p c = record s {
  world = store_conn w p (some (record c { next = s.listen_conn }));
  listen_conn = some p;
}

module _ (before : ℕ → Bool) (ls : Listeners) (k fuel n : ℕ) where
  add-Listens :
      (sfd : ℕ) (s : System) (r : Option ℕ × World)
      → (h : Holds before ls k fuel n sfd s)
      → (o : OpensNext client_conn (pos 0) sfd conn_listening ev_read k fuel n s.world r)
      → let p = s.world.addresses 0 in
        Listens before ((p, sfd) ∷ ls) k fuel n (joined s r.1 p o.conn)
  add-Listens sfd s r h o =
      let p = s.world.addresses 0 in
      let d = record (o.conn) { next = s.listen_conn } in
      record {
        head = refl;
        linked = (
          record {
            conn = d;
            stored = ground arith;
            opened =
                IsOpened-next client_conn (pos 0) sfd conn_listening ev_read _ o.conn _ o.opened;
            linked = h.closed.head;
          },
          AreLinked-frame s.world.conns (update r.1.conns p (some d)) p ls
              (λ a ne. update_other r.1.conns p a (some d) (λ e. ne (sym e)) ∙ o.others a ne)
              (AreAway-later s.world.addresses (λ _. p) ls (λ i. (0, refl)) h.closed.away)
              h.closed.linked,
        );
        away = (
          λ i e. h.closed.ready.distinct (suc (o.drawn + i)) 0 (λ z. cc) (sym (o.addresses i) ∙ e),
          AreAway-later s.world.addresses r.1.addresses ls (λ i. (suc (o.drawn + i), o.addresses i))
              h.closed.away,
        );
        fds = λ a. elim (Bool-cases (sfd == a)) [
          | inl same ↦ rw same (ap s.open_fds (sym ((==_iff sfd a).0 same)) ∙ h.held)
          | inr other ↦
              rw other
                (sym (update_other s.open_fds sfd a false (λ e. ground arith)) ∙ h.closed.fds a)
        ];
        ready =
            other-IsReady (pos 0) k fuel n r.1 r.1.allocs r.1.events (update r.1.conns p (some d))
              r.1.workers o.ready.memory o.ready;
        events = λ i. ap (λ (f : ℕ → Bool). f i) o.events ∙ h.closed.events (suc i);
        fair = h.closed.fair;
      }

  abbrev Round : System → Attempt → Type 0
  Round = Attempts before ls k fuel n

  link_listener_lem :
      (p : ℕ) (c : Conn) (r : Option ℕ × World) (s : System)
      → r.0 ≡ some p
      → r.1.conns p ≡ some c
      → link_listener r.0 r.1 s ≡ ok (listening (joined s r.1 p c))
  unfolding link_listener
  link_listener_lem p c r s at stored =
      ap (λ q. link_listener q r.1 s) at ∙ rw (link_listener, stored) refl

  -- In what follows `s₀` is the system before the round.
  module _ (s₀ : System) where
    listen_on-Round :
        (sfd : ℕ) (s : System)
        → (IsPatient s₀ → IsPatient s)
        → Holds before ls k fuel n sfd s
        → Returns (listen_on fuel sfd s) (Round s₀)
    unfolding listen_on
    listen_on-Round sfd s patient h = elim (Bool-cases (s.listens 0)) [
      | inr failed ↦ (
        given_up (close_fd sfd (after_listen s)),
        rw failed refl,
        (
          Listens-less before ls k fuel n (close_fd sfd (after_listen s)) h.closed,
          λ p. let no : true ≡ false = sym ((patient p).listens 0) ∙ failed in cc,
        ),
      )
      | inl done ↦
          let (r, run, o) =
            conn_new-OpensNext fuel client_conn (pos 0) sfd conn_listening ev_read 1 k n s.world
              (omega arith) h.closed.ready (h.closed.events 0) in
          (
            listening (joined (after_listen s) r.1 (s.world.addresses 0) o.conn),
            rw (done, run) (link_listener_lem _ o.conn r (after_listen s) o.address o.stored),
            (
              s.world.addresses 0,
              sfd,
              add-Listens sfd (after_listen s) r (record { closed = h.closed; held = h.held }) o,
              λ p. record { binds = (patient p).binds; listens = λ i. (patient p).listens (suc i) },
            ),
          )
    ]

    after_bind_call-Round :
        (sfd : ℕ) (b : BindOutcome) (s : System)
        → (IsPatient s₀ → (b ≢ bind_failed) × IsPatient s)
        → Holds before ls k fuel n sfd s
        → Returns (after_bind_call fuel sfd b s) (Round s₀)
    unfolding after_bind_call
    after_bind_call-Round sfd bound s patient h = listen_on-Round sfd s (λ p. (patient p).1) h
    after_bind_call-Round sfd in_use s patient h = (
      skipped (close_fd sfd s),
      refl,
      (
        Listens-less before ls k fuel n (close_fd sfd s) h.closed,
        λ p. record { binds = (patient p).1.binds; listens = (patient p).1.listens },
      ),
    )
    after_bind_call-Round sfd bind_failed s patient h = (
      given_up (close_fd sfd s),
      refl,
      (Listens-less before ls k fuel n (close_fd sfd s) h.closed, λ p. (patient p).0 refl),
    )

  open-Holds :
      (sfd : ℕ) (s : System)
      → s.open_fds sfd ≡ false
      → Listens before ls k fuel (suc n) s
      → Holds before ls k fuel n sfd (open_fd sfd s)
  open-Holds sfd s free l = record {
    closed = record {
      head = l.head;
      linked = l.linked;
      away = l.away;
      fds = λ d. close_fd_lem s.open_fds sfd d free ∙ l.fds d;
      ready = l.ready;
      events = l.events;
      fair = l.fair;
    };
    held = ground arith;
  }

  set_nonblocking_lem :
      (sfd : ℕ) (s : System)
      → s.nonblocks 0 ≡ true
      → set_nonblocking sfd s ≡ (usable sfd, after_nonblock s)
  unfolding set_nonblocking
  set_nonblocking_lem sfd s h = rw h refl

  -- Where connections may be opened, and libevent takes them, a round of the loop returns, whatever
  -- the calls answer.
  pub try_address-Attempts :
      (s : System)
      → Listens before ls k fuel (suc n) s
      → Returns (try_address fuel s) (Attempts before ls k fuel n s)
  unfolding try_address new_socket after_new_socket after_socket_call set_nonblocking
  try_address-Attempts s l = at (s.sockets 0 s.open_fds) refl
    where
      later : (sockets : ℕ → (ℕ → Bool) → SocketOutcome) → IsFair sockets → IsFair (rest sockets)
      later sockets f = record { closed = λ i. f.closed (suc i); plenty = λ i. f.plenty (suc i) }

      further : Listens before ls k fuel (suc n) (after_socket s)
      further = record {
        head = l.head;
        linked = l.linked;
        away = l.away;
        fds = l.fds;
        ready = l.ready;
        events = l.events;
        fair = later s.sockets l.fair;
      }

      at :
          (o : SocketOutcome)
          → s.sockets 0 s.open_fds ≡ o
          → Returns
              (after_new_socket fuel (after_socket_call o (after_socket s)))
              (Attempts before ls k fuel n s)
      at out_of_descriptors e = absurd (l.fair.plenty 0 s.open_fds e)
      at no_socket e = (
        skipped (after_socket s),
        refl,
        (
          Listens-less before ls k fuel n (after_socket s) further,
          λ p. record { binds = p.binds; listens = p.listens },
        ),
      )
      at (opened sfd) e =
          let h = open-Holds sfd (after_socket s) (l.fair.closed 0 s.open_fds sfd e) further in
          elim (Bool-cases (s.nonblocks 0)) [
            | inl done ↦
                subst (λ q. Returns (after_new_socket fuel q) (Attempts before ls k fuel n s))
                  (sym (set_nonblocking_lem sfd (open_fd sfd (after_socket s)) done))
                  (after_bind_call-Round s sfd (s.binds 0)
                    (after_bind (after_nonblock (open_fd sfd (after_socket s))))
                    (λ p. (p.binds 0, record { binds = λ i. p.binds (suc i); listens = p.listens }))
                    (record { closed = h.closed; held = h.held }))
            | inr failed ↦ (
              skipped (close_fd sfd (after_nonblock (open_fd sfd (after_socket s)))),
              rw (after_new_socket, after_socket_call, set_nonblocking, failed) refl,
              (
                Listens-less before ls k fuel n
                    (close_fd sfd (after_nonblock (open_fd sfd (after_socket s))))
                    (record {
                      head = h.closed.head;
                      linked = h.closed.linked;
                      away = h.closed.away;
                      fds = h.closed.fds;
                      ready = h.closed.ready;
                      events = h.closed.events;
                      fair = h.closed.fair;
                    }),
                λ p. record { binds = p.binds; listens = p.listens },
              ),
            )
          ]
