-- ===== src/Memcache/Connects.antt =====
-- `memcache_connect` on each of its branches.
use synthetic_client.Base.{
  ℕ, suc, ◌+◌, ◌≡◌, ◌≢◌, refl, sym, ap, ◌∙◌, subst, inl, inr, Bool, true, false, Bool-cases, Option,
  none, some, List, [], ◌∷◌, Returns, arith,
}
use synthetic_client.Base.Int.{pos}
use synthetic_client.Fsm.{conn_new_cmd}
use synthetic_client.World.{World, rest}
use synthetic_client.Conn.{memcached_conn, ev_read, data_buffer_size}
use synthetic_client.Conn.New.OpensNext.{conn_new-OpensNext}
use synthetic_client.Conn.New.Ready.{IsReady, IsReady-le}
use synthetic_client.System.{
  System, SocketOutcome, opened, out_of_descriptors, no_socket, after_lookup, after_socket,
  after_connect, after_nonblock, open_fd, close_fd, with_world, open_fd_lem, close_fd_lem,
}
use synthetic_client.Memcache.Connect.{
  host_and_port, connect_socket, with_socket, with_addresses, memcache_connect,
}
use synthetic_client.Memcache.Outcomes.{
  Outcome, unresolved, no_descriptor, socket_outcome, lookup_outcome, looked_up, outcome, left_open,
  Gives, Connects,
}

module _ (k fuel n : ℕ) where
  connect_socket-Connects :
      (sfd : ℕ) (s : System)
      → s.open_fds sfd ≡ false
      → IsReady (pos 0) k fuel (suc n) s.world
      → s.world.events 0 ≡ true
      → Returns (connect_socket fuel sfd (open_fd sfd s)) λ (mc, t).
        Connects
          (socket_outcome (opened sfd) (s.connects 0) (s.nonblocks 0))
          k
          fuel
          n
          s.world
          s.open_fds
          s.sockets
          s.lookups
          s.listen_conn
          mc
          t
  unfolding connect_socket
  connect_socket-Connects sfd s free h added = elim (Bool-cases (s.connects 0)) [
    | inr failed ↦ (
      (none, after_connect (open_fd sfd s)),
      rw failed refl,
      rw failed (record {
        gives = (refl, refl);
        fds = λ d. open_fd_lem s.open_fds sfd d;
        ready = IsReady-le (pos 0) k fuel n (suc n) s.world (omega arith) h;
        others = λ a ne. refl;
        addresses = λ i. (i, refl);
        events = λ i. (i, refl);
        sockets_left = λ i. (i, refl);
        lookups_left = refl;
        listen_conn = refl;
        workers = refl;
      }),
    )
    | inl connected ↦ elim (Bool-cases (s.nonblocks 0)) [
      | inr failed ↦ (
        (none, close_fd sfd (after_nonblock (after_connect (open_fd sfd s)))),
        rw (connected, failed) refl,
        rw (connected, failed)
            (record {
              gives = (refl, refl);
              fds = λ d. close_fd_lem s.open_fds sfd d free;
              ready = IsReady-le (pos 0) k fuel n (suc n) s.world (omega arith) h;
              others = λ a ne. refl;
              addresses = λ i. (i, refl);
              events = λ i. (i, refl);
              sockets_left = λ i. (i, refl);
              lookups_left = refl;
              listen_conn = refl;
              workers = refl;
            }),
      )
      | inl done ↦
          let (r, run, o) =
            conn_new-OpensNext fuel memcached_conn (pos 0) sfd conn_new_cmd ev_read data_buffer_size
              k n s.world (omega arith) h added in
          (
            (r.0, with_world (after_nonblock (after_connect (open_fd sfd s))) r.1),
            rw (connected, done, run) refl,
            rw (connected, done)
                (record {
                  gives = (
                    o.address,
                    record { conn = o.conn; stored = o.stored; opened = o.opened },
                    λ i e. h.distinct (suc (o.drawn + i)) 0 (λ z. cc) (sym (o.addresses i) ∙ e),
                  );
                  fds = λ d. open_fd_lem s.open_fds sfd d;
                  ready = o.ready;
                  others = o.others;
                  addresses = λ i. (suc (o.drawn + i), o.addresses i);
                  events = λ i. (suc i, ap (λ (f : ℕ → Bool). f i) o.events);
                  sockets_left = λ i. (i, refl);
                  lookups_left = refl;
                  listen_conn = refl;
                  workers = o.workers;
                }),
          )
    ]
  ]

  -- Where nothing is opened.
  nothing :
      (o : Outcome) (s t : System)
      → Gives o s.world none t
      → ((d : ℕ) → left_open o d ≡ false)
      → t.world ≡ s.world
      → t.open_fds ≡ s.open_fds
      → ((i : ℕ) → (j : ℕ) × (t.sockets i ≡ s.sockets j))
      → t.lookups ≡ s.lookups
      → t.listen_conn ≡ s.listen_conn
      → IsReady (pos 0) k fuel (suc n) s.world
      → Connects o k fuel n s.world s.open_fds s.sockets s.lookups s.listen_conn none t
  nothing o s t gives closed world fds sockets lookups listener h = record {
    gives = gives;
    fds = λ d. rw (closed d, fds) refl;
    ready =
        subst (IsReady (pos 0) k fuel n) (sym world)
          (IsReady-le (pos 0) k fuel n (suc n) s.world (omega arith) h);
    others = λ a ne. ap (λ (w : World). w.conns a) world;
    addresses = λ i. (i, ap (λ (w : World). w.addresses i) world);
    events = λ i. (i, ap (λ (w : World). w.events i) world);
    sockets_left = sockets;
    lookups_left = lookups;
    listen_conn = listener;
    workers = ap (λ (w : World). w.workers) world;
  }

  with_addresses-Connects :
      (found : Option (List ℕ)) (s : System)
      → found ≢ some []
      → ((sfd : ℕ) → s.sockets 0 s.open_fds ≡ opened sfd → s.open_fds sfd ≡ false)
      → IsReady (pos 0) k fuel (suc n) s.world
      → s.world.events 0 ≡ true
      → Returns (with_addresses fuel found s) λ (mc, t).
        Connects
          (lookup_outcome found (s.sockets 0 s.open_fds) (s.connects 0) (s.nonblocks 0))
          k
          fuel
          n
          s.world
          s.open_fds
          s.sockets
          s.lookups
          s.listen_conn
          mc
          t
  unfolding with_addresses with_socket
  with_addresses-Connects none s ne fair h added = (
    _,
    refl,
    nothing unresolved s s (refl, refl) (λ d. refl) refl refl (λ i. (i, refl)) refl refl h,
  )
  with_addresses-Connects (some []) s ne fair h added = absurd (ne refl)
  with_addresses-Connects (some (a ∷ ai)) s ne fair h added = at (s.sockets 0 s.open_fds) fair
    where
      at :
          (o : SocketOutcome)
          → ((sfd : ℕ) → o ≡ opened sfd → s.open_fds sfd ≡ false)
          → Returns (with_socket fuel o (after_socket s)) λ (mc, t).
            Connects
              (socket_outcome o (s.connects 0) (s.nonblocks 0))
              k
              fuel
              n
              s.world
              s.open_fds
              s.sockets
              s.lookups
              s.listen_conn
              mc
              t
      at (opened sfd) fair =
          let (r, run, c) = connect_socket-Connects sfd (after_socket s) (fair sfd refl) h added in
          (
            r,
            run,
            record {
              gives = c.gives;
              fds = c.fds;
              ready = c.ready;
              others = c.others;
              addresses = c.addresses;
              events = c.events;
              sockets_left = λ i. let (j, same) = c.sockets_left i in (suc j, same);
              lookups_left = c.lookups_left;
              listen_conn = c.listen_conn;
              workers = c.workers;
            },
          )
      at out_of_descriptors fair = (
        _,
        refl,
        nothing no_descriptor s (after_socket s) (refl, refl) (λ d. refl) refl refl
            (λ i. (suc i, refl)) refl refl h,
      )
      at no_socket fair = (
        _,
        refl,
        nothing no_descriptor s (after_socket s) (refl, refl) (λ d. refl) refl refl
            (λ i. (suc i, refl)) refl refl h,
      )

-- Where one more connection may be opened, and libevent takes it, and name lookup gives an address
-- if it succeeds, and `socket` no descriptor that is open, `memcache_connect` returns on every
-- outcome of the lookup and of the calls: with the connection, set up for its socket, if it is
-- established, and with null if not. The host is cut before its port. A socket that could not be
-- connected is left open, besides that of an established connection, and no other one.
pub memcache_connect-Connects :
    (fuel k n : ℕ) (host : List ℕ) (s : System)
    → looked_up host s ≢ some []
    → ((sfd : ℕ) → s.sockets 0 s.open_fds ≡ opened sfd → s.open_fds sfd ≡ false)
    → IsReady (pos 0) k fuel (suc n) s.world
    → s.world.events 0 ≡ true
    → Returns (memcache_connect fuel host s) λ (mc, name, t).
      (name ≡ (host_and_port host).0)
      × Connects
          (outcome host s)
          k
          fuel
          n
          s.world
          s.open_fds
          s.sockets
          (rest s.lookups)
          s.listen_conn
          mc
          t
unfolding memcache_connect
memcache_connect-Connects fuel k n host s some_address fair h added =
    let (r, run, c) =
      with_addresses-Connects k fuel n (looked_up host s) (after_lookup s) some_address fair h
        added in
    ((r.0, (host_and_port host).0, r.1), rw run refl, (refl, c))
