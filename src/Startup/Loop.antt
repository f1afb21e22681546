-- ===== src/Startup/Loop.antt =====
-- `server_socket`: what listens when it returns, and what its result says.
use synthetic_client.Base.{
  ℕ, suc, ◌+◌, ◌≡◌, ◌<◌, refl, ap, ◌∙◌, Bool, true, false, ◌||◌, ◌==◌, Option, none, some, List, [],
  ◌∷◌, length, Returns, Returns->>=, arith,
}
use synthetic_client.Base.Int.{ℤ, pos}
use synthetic_client.Conn.New.Ready.{IsReady}
use synthetic_client.System.{System, after_lookup}
use synthetic_client.Startup.Sockets.{
  Attempt, listening, skipped, given_up, try_address, proceed, listen_all, port_text,
  after_lookup_call, server_socket,
}
use synthetic_client.Startup.Listening.{
  Listeners, first, AreLinked, among, IsFair, Listening, Listens,
}
use synthetic_client.Startup.Attempts.{IsPatient, Attempts, try_address-Attempts}

-- What is there in the end: listening connections that are linked from `listen_conn`, with their
-- sockets and no others opened; there is one where the result is 0, and the result is 0 exactly
-- where there is one, if no call failed for which the loop is given up.
pub record Serving (before : ℕ → Bool) (s : System) (r : Bool × System) : Type 0 where
  pub listeners : Listeners
  pub head : r.1.listen_conn ≡ first listeners
  pub linked : AreLinked r.1.world.conns listeners
  pub fds : (d : ℕ) → r.1.open_fds d ≡ (among d listeners || before d)
  pub some_socket : r.0 ≡ false → 0 < length listeners
  pub exact : IsPatient s → r.0 ≡ (length listeners == 0)

module _ (before : ℕ → Bool) (k fuel : ℕ) where
  serving :
      (ls : Listeners) (n : ℕ) (s t : System) (failed : Bool)
      → Listens before ls k fuel n t
      → (failed ≡ false → 0 < length ls)
      → (IsPatient s → failed ≡ (length ls == 0))
      → Serving before s (failed, t)
  serving ls n s t failed h some_socket exact = record {
    listeners = ls;
    head = h.head;
    linked = h.linked;
    fds = h.fds;
    some_socket = some_socket;
    exact = exact;
  }

  Serving-later :
      (s t : System) (r : Bool × System)
      → (IsPatient s → IsPatient t)
      → Serving before t r
      → Serving before s r
  Serving-later s t r patient v = record {
    listeners = v.listeners;
    head = v.head;
    linked = v.linked;
    fds = v.fds;
    some_socket = v.some_socket;
    exact = λ p. v.exact (patient p);
  }

  listen_all-Serving :
      (ai : List ℕ) (ls : Listeners) (s : System)
      → Listens before ls k fuel (length ai) s
      → Returns (listen_all fuel ai (length ls) s) (Serving before s)
  unfolding listen_all
  listen_all-Serving [] ls s h =
      (_, refl, serving ls 0 s s (length ls == 0) h (λ e. ground arith) (λ _. refl))
  listen_all-Serving (a ∷ ai) ls s h =
      Returns->>= (Attempts before ls k fuel (length ai) s) (Serving before s) (try_address fuel s)
        (proceed (listen_all fuel ai) (length ls))
        (try_address-Attempts before ls k fuel (length ai) s h) (after (listen_all-Serving ai))
    where
      after :
          ((ms : Listeners) (t : System)
            → Listens before ms k fuel (length ai) t
            → Returns (listen_all fuel ai (length ms) t) (Serving before t))
          → (x : Attempt) → Attempts before ls k fuel (length ai) s x
          → Returns (proceed (listen_all fuel ai) (length ls) x) (Serving before s)
      after again (listening t) (p, sfd, l, patient) =
          let (r, run, v) = again ((p, sfd) ∷ ls) t l in
          let count : length ls + 1 ≡ suc (length ls) = omega arith in
          (r, ap (λ m. listen_all fuel ai m t) count ∙ run, Serving-later s t r patient v)
      after again (skipped t) (l, patient) =
          let (r, run, v) = again ls t l in (r, run, Serving-later s t r patient v)
      after again (given_up t) (l, failed) =
          ((true, t), refl, serving ls (length ai) s t true l (λ e. cc) (λ p. absurd (failed p)))

-- The addresses that name lookup gives to listen on, none on an error.
abbrev pub own_addresses : Option (List ℕ) → List ℕ
own_addresses none = []
own_addresses (some ai) = ai

-- Where `server_socket` is called first, and as many connections may be opened as there are
-- addresses, which libevent takes, and `socket` does not run out of descriptors, `server_socket`
-- returns, whatever the other calls answer. The connections that listen are then linked from
-- `listen_conn`, each set up for its socket, and of the descriptors that were opened exactly their
-- sockets are still open. If the result is 0 one of them listens; and unless `bind` failed other than
-- for an address in use, or `listen` failed, the result is 0 if and only if one does.
pub server_socket-Serving :
    (fuel k : ℕ) (port : ℤ) (s : System)
    → s.listen_conn ≡ none
    → IsReady (pos 0) k fuel (length (own_addresses (s.lookups 0 none (port_text port)))) s.world
    → ((i : ℕ) → s.world.events i ≡ true)
    → IsFair s.sockets
    → Returns (server_socket fuel port s) (Serving s.open_fds s)
unfolding server_socket
server_socket-Serving fuel k port s no_listener ready events fair =
    at (s.lookups 0 none (port_text port)) ready
  where
    none_yet :
        {n : ℕ}
        → IsReady (pos 0) k fuel n s.world
        → Listening s.open_fds [] k fuel n s.world s.sockets s.open_fds s.listen_conn
    none_yet ready = record {
      head = no_listener;
      linked = tt;
      away = tt;
      fds = λ d. refl;
      ready = ready;
      events = events;
      fair = fair;
    }

    at :
        (o : Option (List ℕ))
        → IsReady (pos 0) k fuel (length (own_addresses o)) s.world
        → Returns (after_lookup_call fuel o (after_lookup s)) (Serving s.open_fds s)
    at none ready = (
      (true, after_lookup s),
      refl,
      serving s.open_fds k fuel [] 0 s (after_lookup s) true (none_yet ready) (λ e. cc) (λ _. refl),
    )
    at (some ai) ready =
        let (r, run, v) =
          listen_all-Serving s.open_fds k fuel ai [] (after_lookup s) (none_yet ready) in
        (
          r,
          run,
          Serving-later s.open_fds k fuel s (after_lookup s) r
              (λ p. record { binds = p.binds; listens = p.listens }) v,
        )
