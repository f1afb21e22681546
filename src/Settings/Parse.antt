-- ===== src/Settings/Parse.antt =====
-- `settings_parse` over all options of a command line.
use synthetic_client.Base.{
  ℕ, suc, ◌+◌, ◌≡◌, ◌≤◌, ◌<◌, refl, sym, ap, ◌∙◌, inl, inr, Bool, true, false, ltb, leb, ◌==◌,
  if◌then◌else◌, Bool-cases, List, [], ◌∷◌, ◌++◌, append-nil, append_assoc, bytes,
  bytes-update_next, update, length, length-append, take, ok, Run, Returns, Returns->>=, ◌>>=◌,
  arith,
}
use synthetic_client.Base.Int.{ℤ, pos, ltb_ℤ}
use synthetic_client.World.{World, after_alloc}
use synthetic_client.Conn.Iov.Plenty.{Plenty}
use synthetic_client.Utils.{int_max}
use synthetic_client.Settings.{
  max_server_string, Backends, atoi, Opt, Settings, Parsed, accepted, refused, usage, add_host,
  apply_opt, go_on, settings_parse,
}

-- The hosts among the options, in order.
abbrev pub hosts_of : List Opt → List (List ℕ)
hosts_of [] = []
hosts_of (o ∷ os) =
    let rest = hosts_of os in
    if o.letter == b's' then take max_server_string o.optarg ∷ rest else rest

hosts_of-cons : (o : Opt) (os : List Opt) → hosts_of (o ∷ os) ≡ hosts_of (o ∷ []) ++ hosts_of os
hosts_of-cons o os = elim (Bool-cases (o.letter == b's')) [
  | inl host ↦ rw host refl
  | inr other ↦ rw other refl
]

-- No argument begins with a number that is out of the range of `long`.
abbrev pub AreInRange : List Opt → Type 0
AreInRange [] = Unit {0}
AreInRange (o ∷ os) = ((n : ℤ) × (atoi o.optarg ≡ ok n)) × AreInRange os

Returns-if :
    {A : Type 0} (Q : A → Type 0) (b : Bool) (m n : Run A)
    → (b ≡ true → Returns m Q)
    → (b ≡ false → Returns n Q)
    → Returns (if b then m else n) Q
Returns-if Q true m n f g = f refl
Returns-if Q false m n f g = g refl

module _ {Double : Type 0} where
  -- The hosts that are listed.
  abbrev pub listed : Settings Double → List (List ℕ)
  listed s = bytes s.backends.hosts 0 s.backends.len

  -- What the rest of the server relies on.
  pub record IsValid (s : Settings Double) : Type 0 where
    pub some_thread : ltb_ℤ (pos 0) s.threads ≡ true
    pub no_debt : ltb_ℤ s.users (pos 0) ≡ false

  -- With so many options to come, the list of hosts and the verbosity have room, and memory is to
  -- be had.
  pub record CanTake (opts : List Opt) (s : Settings Double) (w : World) : Type 0 where
    pub memory : Plenty w
    pub room : s.backends.len + length (hosts_of opts) ≤ s.backends.size
    pub talk : s.verbose + length opts ≤ int_max

  -- What holds of the settings where the options are accepted.
  abbrev pub OnAccepted : (Settings Double → World → Type 0) → Parsed Double → Type 0
  OnAccepted Q (accepted s w) = Q s w
  OnAccepted Q (refused s w) = Unit {0}
  OnAccepted Q usage = Unit {0}

  OnAccepted-map :
      (Q R : Settings Double → World → Type 0) (r : Parsed Double)
      → ((s : Settings Double) (w : World) → Q s w → R s w)
      → OnAccepted Q r
      → OnAccepted R r
  OnAccepted-map Q R (accepted s w) f q = f s w q
  OnAccepted-map Q R (refused s w) f q = tt
  OnAccepted-map Q R usage f q = tt

  -- What an accepted option does.
  record Takes (o : Opt) (s : Settings Double) (t : Settings Double) (v : World) : Type 0 where
    valid : IsValid s → IsValid t
    hosts : listed t ≡ listed s ++ hosts_of (o ∷ [])
    len : t.backends.len ≡ s.backends.len + length (hosts_of (o ∷ []))
    size : t.backends.size ≡ s.backends.size
    talk : t.verbose ≤ s.verbose + 1
    memory : Plenty v

  -- An option that is not a host.
  other_option :
      (o : Opt) (s t : Settings Double) (w : World)
      → (o.letter == b's') ≡ false
      → (IsValid s → IsValid t)
      → t.backends ≡ s.backends
      → t.verbose ≤ s.verbose + 1
      → Plenty w
      → Takes o s t w
  other_option o s t w no_host valid same talk m = record {
    valid = valid;
    hosts =
        rw no_host
          (ap (λ (b : Backends). bytes b.hosts 0 b.len) same ∙ sym (append-nil (listed s)));
    len = rw no_host (ap (λ (b : Backends). b.len) same ∙ omega arith);
    size = ap (λ (b : Backends). b.size) same;
    talk = talk;
    memory = m;
  }

  -- An option that is not for the threads or the users either.
  plain_option :
      (o : Opt) (s t : Settings Double) (w : World)
      → (o.letter == b's') ≡ false
      → t.threads ≡ s.threads
      → t.users ≡ s.users
      → t.backends ≡ s.backends
      → t.verbose ≤ s.verbose + 1
      → Plenty w
      → Takes o s t w
  plain_option o s t w no_host threads users same talk m =
      other_option o s t w no_host
        (λ v. record {
          some_thread = ap (ltb_ℤ (pos 0)) threads ∙ v.some_thread;
          no_debt = ap (λ n. ltb_ℤ n (pos 0)) users ∙ v.no_debt;
        })
        same talk m

  module _ (atof : List ℕ → Double) where
    add_host_lem :
        (o : Opt) (s : Settings Double) (w : World)
        → (o.letter == b's') ≡ true
        → Plenty w
        → s.backends.len < s.backends.size
        → Returns
            (add_host atof s o.optarg w >>= λ (r, v). ok (accepted r v))
            (OnAccepted (Takes o s))
    unfolding add_host
    add_host_lem o s w host m room =
        let inside : ltb s.backends.len s.backends.size ≡ true = ground arith in
        (
          accepted
              (record s {
                backends = record (s.backends) {
                  hosts = update s.backends.hosts s.backends.len (take max_server_string o.optarg);
                  len = s.backends.len + 1;
                };
              })
              (after_alloc w),
          rw (m 0, inside) refl,
          record {
            valid = λ v. record { some_thread = v.some_thread; no_debt = v.no_debt };
            hosts = rw host (
                bytes-update_next s.backends.hosts s.backends.len
                  (take max_server_string o.optarg));
            len = rw host refl;
            size = refl;
            talk = omega arith;
            memory = λ i. m (suc i);
          },
        )

    -- With the argument in range, an option returns.
    apply_opt_lem :
        (o : Opt) (opts : List Opt) (s : Settings Double) (w : World)
        → CanTake (o ∷ opts) s w
        → (n : ℤ) → atoi o.optarg ≡ ok n
        → Returns (apply_opt atof o s w) (OnAccepted (Takes o s))
    unfolding apply_opt
    apply_opt_lem o opts s w can n number =
        let Q = OnAccepted (Takes o s) in
        Returns-if Q (o.letter == b'p') _ _
          (λ e. (
            accepted (record s { tcpport = n }) w,
            rw number refl,
            plain_option o s _ w (ground (arith, e)) refl refl refl (omega arith) can.memory,
          ))
          λ _.
            Returns-if Q (o.letter == b'h') _ _ (λ e. (usage, refl, tt))
              λ _.
                Returns-if Q (o.letter == b'v') _ _
                  (λ e.
                    let quiet : leb int_max s.verbose ≡ false = ground (arith, can.talk) in
                    (
                      accepted (record s { verbose = s.verbose + 1 }) w,
                      rw quiet refl,
                      plain_option o s _ w (ground (arith, e)) refl refl refl (omega arith)
                          can.memory,
                    ))
                  λ _.
                    Returns-if Q (o.letter == b't') _ _
                      (λ e. elim (Bool-cases (ltb_ℤ (pos 0) n)) [
                        | inl some ↦ (
                          accepted (record s { threads = n }) w,
                          rw (number, some) refl,
                          other_option o s _ w (ground (arith, e))
                              (λ v. record { some_thread = some; no_debt = v.no_debt }) refl
                              (omega arith) can.memory,
                        )
                        | inr none ↦
                            (refused (record s { threads = n }) w, rw (number, none) refl, tt)
                      ])
                      λ _.
                        Returns-if Q (o.letter == b'T') _ _
                          (λ e. (
                            _,
                            refl,
                            plain_option o s _ w (ground (arith, e)) refl refl refl (omega arith)
                                can.memory,
                          ))
                          λ _.
                            Returns-if Q (o.letter == b's') _ _
                              (λ e. add_host_lem o s w e can.memory (room e))
                              λ no_host.
                                Returns-if Q (o.letter == b'u') _ _
                                  (λ e. elim (Bool-cases (ltb_ℤ n (pos 0))) [
                                    | inl debt ↦ (
                                      refused (record s { users = n }) w,
                                      rw (number, debt) refl,
                                      tt,
                                    )
                                    | inr none ↦ (
                                      accepted (record s { users = n }) w,
                                      rw (number, none) refl,
                                      other_option o s _ w no_host
                                          (λ v. record {
                                            some_thread = v.some_thread;
                                            no_debt = none;
                                          })
                                          refl (omega arith) can.memory,
                                    )
                                  ])
                                  λ _.
                                    Returns-if Q (o.letter == b'd') _ _
                                      (λ e. (
                                        _,
                                        refl,
                                        plain_option o s _ w no_host refl refl refl (omega arith)
                                            can.memory,
                                      ))
                                      λ _.
                                        Returns-if Q (o.letter == b'D') _ _
                                          (λ e. (
                                            _,
                                            refl,
                                            plain_option o s _ w no_host refl refl refl
                                                (omega arith) can.memory,
                                          ))
                                          λ _.
                                            Returns-if Q (o.letter == b'r') _ _
                                              (λ e. (
                                                _,
                                                refl,
                                                plain_option o s _ w no_host refl refl refl
                                                    (omega arith) can.memory,
                                              ))
                                              λ _.
                                                Returns-if Q (o.letter == b'R') _ _
                                                  (λ e. (
                                                    _,
                                                    refl,
                                                    plain_option o s _ w no_host refl refl refl
                                                        (omega arith) can.memory,
                                                  ))
                                                  λ _.
                                                    Returns-if Q (o.letter == b'C') _ _
                                                      (λ e. (
                                                        _,
                                                        refl,
                                                        plain_option o s _ w no_host refl refl refl
                                                            (omega arith) can.memory,
                                                      ))
                                                      λ _. (refused s w, refl, tt)
      where
        room : (o.letter == b's') ≡ true → s.backends.len < s.backends.size
        room e =
            let one_more : length (hosts_of (o ∷ opts)) ≡ 1 + length (hosts_of opts) =
              rw e (omega arith) in
            omega (arith, can.room, one_more)

    -- Where the arguments are in range and the lists have room, `settings_parse` returns. Settings
    -- that it accepts have at least one thread and no negative number of users, if they had before,
    -- and list the hosts of the options, cut at the longest length, in order behind those that were
    -- listed.
    pub settings_parse-Parses :
        (opts : List Opt) (s : Settings Double) (w : World)
        → AreInRange opts
        → CanTake opts s w
        → IsValid s
        → Returns
            (settings_parse atof opts s w)
            (OnAccepted (λ t v. IsValid t × (listed t ≡ listed s ++ hosts_of opts)))
    unfolding settings_parse
    settings_parse-Parses [] s w range can valid =
        (accepted s w, refl, (valid, sym (append-nil (listed s))))
    settings_parse-Parses (o ∷ opts) s w ((n, number), range) can valid =
        Returns->>= (OnAccepted (Takes o s)) _ (apply_opt atof o s w) _
          (apply_opt_lem o opts s w can n number)
          (step (λ t v. settings_parse-Parses opts t v range))
      where
        step :
            ((t : Settings Double) (v : World)
              → CanTake opts t v
              → IsValid t
              → Returns
                  (settings_parse atof opts t v)
                  (OnAccepted (λ u x. IsValid u × (listed u ≡ listed t ++ hosts_of opts))))
            → (r : Parsed Double) → OnAccepted (Takes o s) r
            → Returns
                (go_on atof (settings_parse atof opts) r)
                (OnAccepted (λ t v. IsValid t × (listed t ≡ listed s ++ hosts_of (o ∷ opts))))
        step again (refused t v) _ = (refused t v, refl, tt)
        step again usage _ = (usage, refl, tt)
        step again (accepted t v) x =
            let both = hosts_of-cons o opts in
            let count : length (hosts_of (o ∷ opts))
                ≡ length (hosts_of (o ∷ [])) + length (hosts_of opts) =
              ap length both ∙ length-append (hosts_of (o ∷ [])) (hosts_of opts) in
            let (r, run, got) =
              again t v
                (record {
                  memory = x.memory;
                  room = omega (arith, can.room, x.len, x.size, count);
                  talk = omega (arith, can.talk, x.talk);
                })
                (x.valid valid) in
            (
              r,
              run,
              OnAccepted-map _ _ r
                  (λ u _ (ok_now, hosts). (
                    ok_now,
                    hosts
                        ∙ ap (λ l. l ++ hosts_of opts) x.hosts
                        ∙ append_assoc (listed s) _ _
                        ∙ ap (λ l. listed s ++ l) (sym both),
                  ))
                  got,
            )
