-- ===== src/Threads/Later.antt =====
-- The answers that `thread_init` leaves for later calls are among those that there were.
use synthetic_client.Base.{
  ℕ, zero, suc, ◌+◌, ◌≡◌, refl, ap, ◌∙◌, inl, inr, Bool, Bool-cases, Option, none, some, List, [],
  ◌∷◌, Run, ok, fault, IfOk, ◌>>=◌, IfOk->>=,
}
use synthetic_client.World.{rest}
use synthetic_client.System.{
  System, SocketOutcome, opened, out_of_descriptors, no_socket, after_lookup, after_socket, open_fd,
}
use synthetic_client.Memcache.Connect.{
  host_and_port, connect_socket, with_socket, with_addresses, memcache_connect,
}
use synthetic_client.Conn.New.{conn_new}
use synthetic_client.Base.Int.{pos}
use synthetic_client.Fsm.{conn_new_cmd}
use synthetic_client.Conn.{memcached_conn, ev_read, data_buffer_size}
use synthetic_client.Threads.Start.{
  Launch, launch_world, enter_memcache, connect_backend, connect_backends, listen_to_pipe,
  alloc_memcache, setup_thread, setup_threads,
}

-- The answers of `getaddrinfo`, `socket`, `connect` and `fcntl` that `t` has are among those that `s` has.
pub record IsLater (s t : System) : Type 0 where
  pub lookups : (i : ℕ) → (j : ℕ) × (t.lookups i ≡ s.lookups j)
  pub sockets : (i : ℕ) → (j : ℕ) × (t.sockets i ≡ s.sockets j)
  pub connects : (i : ℕ) → (j : ℕ) × (t.connects i ≡ s.connects j)
  pub nonblocks : (i : ℕ) → (j : ℕ) × (t.nonblocks i ≡ s.nonblocks j)

same-IsLater :
    (s t : System)
    → t.lookups ≡ s.lookups
    → t.sockets ≡ s.sockets
    → t.connects ≡ s.connects
    → t.nonblocks ≡ s.nonblocks
    → IsLater s t
same-IsLater s t l k c n = record {
  lookups = λ i. (i, ap (λ f. f i) l);
  sockets = λ i. (i, ap (λ f. f i) k);
  connects = λ i. (i, ap (λ (f : ℕ → Bool). f i) c);
  nonblocks = λ i. (i, ap (λ (f : ℕ → Bool). f i) n);
}

IsLater-trans : (s t u : System) → IsLater s t → IsLater t u → IsLater s u
IsLater-trans s t u x y = record {
  lookups = λ i. let (j, e) = y.lookups i in let (k, f) = x.lookups j in (k, e ∙ f);
  sockets = λ i. let (j, e) = y.sockets i in let (k, f) = x.sockets j in (k, e ∙ f);
  connects = λ i. let (j, e) = y.connects i in let (k, f) = x.connects j in (k, e ∙ f);
  nonblocks = λ i. let (j, e) = y.nonblocks i in let (k, f) = x.nonblocks j in (k, e ∙ f);
}

-- What holds of a result of a later system.
from_later :
    {A : Type 0} (f : A → System) (s t : System) (m : Run A)
    → IsLater s t
    → IfOk (λ a. IsLater t (f a)) m
    → IfOk (λ a. IsLater s (f a)) m
from_later f s t (ok a) l h = IsLater-trans s t (f a) l h
from_later f s t (fault x) l h = tt

-- The same of what follows a result.
then_later :
    {A B : Type 0} (f : A → System) (g : B → System) (s : System) (m : Run A) (next : A → Run B)
    → IfOk (λ a. IsLater s (f a)) m
    → ((a : A) → IfOk (λ b. IsLater (f a) (g b)) (next a))
    → IfOk (λ b. IsLater s (g b)) (m >>= next)
then_later f g s (ok a) next h k = from_later g s (f a) (next a) h (k a)
then_later f g s (fault x) next h k = tt

connect_socket-IsLater :
    (fuel sfd : ℕ) (s : System) → IfOk (λ r. IsLater s r.1) (connect_socket fuel sfd s)
unfolding connect_socket
connect_socket-IsLater fuel sfd s = elim (Bool-cases (s.connects 0)) [
  | inr failed ↦ rw failed (record {
    lookups = λ i. (i, refl);
    sockets = λ i. (i, refl);
    connects = λ i. (suc i, refl);
    nonblocks = λ i. (i, refl);
  })
  | inl connected ↦ elim (Bool-cases (s.nonblocks 0)) [
    | inr failed ↦
        rw (connected, failed)
          (record {
            lookups = λ i. (i, refl);
            sockets = λ i. (i, refl);
            connects = λ i. (suc i, refl);
            nonblocks = λ i. (suc i, refl);
          })
    | inl done ↦
        rw (connected, done)
          (IfOk->>= (λ r. IsLater s r.1)
            (conn_new fuel memcached_conn (pos 0) sfd conn_new_cmd ev_read data_buffer_size s.world)
            _
            (λ r _. record {
              lookups = λ i. (i, refl);
              sockets = λ i. (i, refl);
              connects = λ i. (suc i, refl);
              nonblocks = λ i. (suc i, refl);
            }))
  ]
]

with_socket-IsLater :
    (fuel : ℕ) (o : SocketOutcome) (s : System) → IfOk (λ r. IsLater s r.1) (with_socket fuel o s)
unfolding with_socket
with_socket-IsLater fuel (opened sfd) s =
    from_later (λ (r : Option ℕ × System). r.1) s (open_fd sfd s) _
      (same-IsLater s _ refl refl refl refl) (connect_socket-IsLater fuel sfd (open_fd sfd s))
with_socket-IsLater fuel out_of_descriptors s = same-IsLater s s refl refl refl refl
with_socket-IsLater fuel no_socket s = same-IsLater s s refl refl refl refl

with_addresses-IsLater :
    (fuel : ℕ) (found : Option (List ℕ)) (s : System)
    → IfOk (λ r. IsLater s r.1) (with_addresses fuel found s)
unfolding with_addresses
with_addresses-IsLater fuel none s = same-IsLater s s refl refl refl refl
with_addresses-IsLater fuel (some []) s = tt
with_addresses-IsLater fuel (some (a ∷ ai)) s =
    from_later (λ (r : Option ℕ × System). r.1) s (after_socket s) _
      (record {
        lookups = λ i. (i, refl);
        sockets = λ i. (suc i, refl);
        connects = λ i. (i, refl);
        nonblocks = λ i. (i, refl);
      })
      (with_socket-IsLater fuel (s.sockets 0 s.open_fds) (after_socket s))

pub memcache_connect-IsLater :
    (fuel : ℕ) (host : List ℕ) (s : System)
    → IfOk (λ r. IsLater s r.2) (memcache_connect fuel host s)
unfolding memcache_connect
memcache_connect-IsLater fuel host s =
    let (name, port) = host_and_port host in
    then_later (λ (r : Option ℕ × System). r.1) (λ (r : Option ℕ × List ℕ × System). r.2) s
      (with_addresses fuel (s.lookups 0 (some name) port) (after_lookup s)) _
      (from_later (λ (r : Option ℕ × System). r.1) s (after_lookup s) _
        (record {
          lookups = λ i. (suc i, refl);
          sockets = λ i. (i, refl);
          connects = λ i. (i, refl);
          nonblocks = λ i. (i, refl);
        })
        (with_addresses-IsLater fuel _ (after_lookup s)))
      (λ (mc, t). same-IsLater t t refl refl refl refl)

abbrev system_of : Launch → System
system_of l = l.system

connect_backend-IsLater :
    (fuel t i : ℕ) (l : Launch) → IfOk (λ m. IsLater l.system m.system) (connect_backend fuel t i l)
unfolding connect_backend
connect_backend-IsLater fuel t i l =
    then_later (λ (r : Option ℕ × List ℕ × System). r.2) system_of l.system
      (memcache_connect fuel (l.backends.hosts i) l.system) _
      (memcache_connect-IsLater fuel (l.backends.hosts i) l.system)
      (λ (mc, name, s).
        IfOk->>= (λ (m : Launch). IsLater s m.system) (enter_memcache mc (l.memcaches t)) _
          (λ m _. same-IsLater s s refl refl refl refl))

connect_backends-IsLater :
    (fuel t i n : ℕ) (l : Launch)
    → IfOk (λ m. IsLater l.system m.system) (connect_backends fuel t i n l)
unfolding connect_backends
connect_backends-IsLater fuel t i zero l = same-IsLater l.system l.system refl refl refl refl
connect_backends-IsLater fuel t i (suc n) l =
    then_later system_of system_of l.system (connect_backend fuel t i l) _
      (connect_backend-IsLater fuel t i l) (connect_backends-IsLater fuel t (i + 1) n)

listen_to_pipe-IsLater :
    (t : ℕ) (l : Launch) → IfOk (λ m. IsLater l.system m.system) (listen_to_pipe t l)
unfolding listen_to_pipe
listen_to_pipe-IsLater t l = elim (Bool-cases (l.bases 0)) [
  | inr failed ↦ rw failed tt
  | inl base ↦ elim (Bool-cases ((launch_world l).events 0)) [
    | inr failed ↦ rw (base, failed) tt
    | inl event ↦ elim (Bool-cases ((launch_world l).allocs 0)) [
      | inr failed ↦ rw (base, event, failed) tt
      | inl memory ↦ rw (base, event, memory) (same-IsLater l.system _ refl refl refl refl)
    ]
  ]
]

setup_thread-IsLater :
    (fuel t : ℕ) (l : Launch) → IfOk (λ m. IsLater l.system m.system) (setup_thread fuel t l)
unfolding setup_thread alloc_memcache
setup_thread-IsLater fuel t l =
    then_later system_of system_of l.system (listen_to_pipe t l) _ (listen_to_pipe-IsLater t l)
      (λ m.
        from_later system_of m.system (alloc_memcache t m).system _
          (same-IsLater m.system _ refl refl refl refl)
          (connect_backends-IsLater fuel t 0 m.backends.len (alloc_memcache t m)))

pub setup_threads-IsLater :
    (fuel t n : ℕ) (l : Launch) → IfOk (λ m. IsLater l.system m.system) (setup_threads fuel t n l)
unfolding setup_threads
setup_threads-IsLater fuel t zero l = same-IsLater l.system l.system refl refl refl refl
setup_threads-IsLater fuel t (suc n) l = elim (Bool-cases (l.pipes 0)) [
  | inr failed ↦ rw failed tt
  | inl made ↦ rw made (
      then_later system_of system_of l.system
        (setup_thread fuel t (record l { pipes = rest l.pipes })) _
        (setup_thread-IsLater fuel t (record l { pipes = rest l.pipes }))
        (setup_threads-IsLater fuel (t + 1) n))
]
