-- ===== src/Conn/New/OpensNext.antt =====
-- `conn_new` where libevent takes the connection, again and again.
use synthetic_client.Base.{
  ℕ, suc, ◌+◌, ◌≡◌, ◌≢◌, ◌≤◌, ◌<◌, refl, sym, ap, ◌∙◌, subst, inl, inr, ◌⊎◌, Bool, true, false,
  ◌==◌, if◌then◌else◌, ==_iff, Bool-cases, Option, none, some, update, update_other, length, ok,
  Returns, IfOk, arith,
}
use synthetic_client.Base.Int.{ℤ}
use synthetic_client.Fsm.{ConnStates}
use synthetic_client.Utils.{int_max}
use synthetic_client.World.{World, ClientStats, Freelist, rest, after_event, store_conn}
use synthetic_client.Conn.{Conn, ConnType, EvFlags}
use synthetic_client.Conn.Close.{store_stats}
use synthetic_client.Conn.Iov.Plenty.{Plenty}
use synthetic_client.Conn.New.{
  blank, last_freed, conn_from_freelist, taken, obtained, set_up, listen, opened, conn_new,
}
use synthetic_client.Conn.New.Freelist.{after_allocated, allocated_lem}
use synthetic_client.Conn.New.Opens.{Keeps, get_client_stats-Keeps, counted, count_connection_lem}
use synthetic_client.Conn.New.Counts.{Gets-counts, same-IsMap, set_up-IsOpened}
use synthetic_client.Stats.{bucket}
use synthetic_client.Stats.Buckets.{IsMap, touch-IsMap}
use synthetic_client.Stats.Get.{get_client_stats-Gets}
use synthetic_client.Stats.Draws.{Draws, get_client_stats-Draws}
use synthetic_client.Conn.New.Ready.{HasRoom, IsReady, OpensNext, HasRoom-le}

obtained_lem :
    (size : ℕ) (w : World)
    → Plenty w
    → w.freelist.freecurr ≡ 0
    → obtained size w ≡ ok (some (blank (w.addresses 0) size false w), after_allocated w)
unfolding obtained taken conn_from_freelist
obtained_lem size w m empty =
    ap (λ n. taken size (last_freed w n)) empty ∙ ap ok (allocated_lem size w m)

-- What a map holds after one of its places is set.
pub updated {ℓ} :
    {A : Type ℓ} (f : ℕ → Option A) (i : ℕ) (x : A) (p : ℕ) (y : A)
    → update f i (some x) p ≡ some y
    → (x ≡ y) ⊎ ((p ≢ i) × (f p ≡ some y))
updated f i x p y e = elim (Bool-cases (i == p)) [
  | inl same ↦
      let both : some x ≡ some y = ap (λ (b : Bool). if b then some x else f p) (sym same) ∙ e in
      inl (cc)
  | inr other ↦
      inr (λ h. ground arith, ap (λ (b : Bool). if b then some x else f p) (sym other) ∙ e)
]

-- What the entries come to when the one that is got is stored anew.
pub stored-HasRoom :
    (n : ℕ) (w : World) (r : ℕ × World) (value : ClientStats)
    → HasRoom n w
    → Draws w r
    → (value.total_connections + n ≤ int_max) × (value.live_connections + n ≤ int_max)
    → HasRoom n (store_stats r.1 r.0 value)
stored-HasRoom n w r value room d h p s e = elim (updated r.1.client_stats r.0 value p s e) [
  | inl same ↦
      subst
        (λ (t : ClientStats).
          (t.total_connections + n ≤ int_max) × (t.live_connections + n ≤ int_max))
        same h
  | inr (ne, before) ↦ room p s (sym (d.elsewhere p ne) ∙ before)
]

-- The addresses that come next are unused.
pub stored-unused :
    (w : World) (r : ℕ × World) (value : ClientStats)
    → ((i j : ℕ) → i ≢ j → w.addresses i ≢ w.addresses j)
    → ((i : ℕ) → w.client_stats (w.addresses i) ≡ none)
    → Draws w r
    → (i : ℕ) → update r.1.client_stats r.0 (some value) (r.1.addresses i) ≡ none
stored-unused w r value distinct unused d i =
    update_other r.1.client_stats r.0 (r.1.addresses i) (some value) (λ e. away (sym e))
    ∙ d.elsewhere (r.1.addresses i) away
    ∙ ap w.client_stats (d.addresses i)
    ∙ unused (d.drawn + i)
  where
    away : r.1.addresses i ≢ r.0
    away e = elim d.slot [
      | inl (one, new) ↦
          distinct (d.drawn + i) 0 (λ z. omega (arith, one, z)) (sym (d.addresses i) ∙ e ∙ new)
      | inr (s, stored) ↦
          let no : none ≡ some s =
            sym (unused (d.drawn + i)) ∙ ap w.client_stats (sym (d.addresses i) ∙ e) ∙ stored in
          cc
    ]

listen_added :
    (c : Conn) (flags : EvFlags) (w : World)
    → w.events 0 ≡ true
    → listen c flags w ≡ (
      some c.self,
      store_conn (after_event w) c.self (some (record c { event = some (flags, none) })),
    )
unfolding listen
listen_added c flags w h = rw h refl

-- Where connections may be opened, and libevent takes the connection, `conn_new` returns a new
-- connection that is set up as asked, at the first address, and one connection less may be opened.
pub conn_new-OpensNext :
    (fuel : ℕ) (type : ConnType) (id : ℤ) (sfd : ℕ) (state : ConnStates) (flags : EvFlags)
    (size k n : ℕ) (w : World)
    → 0 < size
    → IsReady id k fuel (suc n) w
    → w.events 0 ≡ true
    → Returns
        (conn_new fuel type id sfd state flags size w)
        (OpensNext type id sfd state flags k fuel n w)
unfolding conn_new opened set_up listen blank
conn_new-OpensNext fuel type id sfd state flags size k n w some_size h added =
    let v = after_allocated w in
    let c = blank (w.addresses 0) size false w in
    let m : IsMap v h.cells = same-IsMap w v h.cells refl refl h.map in
    let (g, run, gets) =
      get_client_stats-Gets fuel id h.cells k v m h.key (omega (arith, h.enough k)) (h.memory 7)
        (h.unused 1) in
    let keeps : Keeps v g.1 =
      subst (IfOk (λ q. Keeps v q.1)) run (get_client_stats-Keeps fuel id v) in
    let draws : Draws v g = subst (IfOk (Draws v)) run (get_client_stats-Draws fuel id v) in
    let counts =
      Gets-counts (λ total live. (total + suc n ≤ int_max) × (live + suc n ≤ int_max)) id h.cells k
        v g m (omega (arith, h.some_room), omega (arith, h.some_room)) h.room gets in
    let x = store_stats g.1 g.0 (counted gets.value) in
    let d = set_up c type id sfd state flags g.0 in
    let added_there : g.1.events 0 ≡ true = ap (λ (f : ℕ → Bool). f 0) keeps.events ∙ added in
    (
      (
        some (w.addresses 0),
        store_conn (after_event x) (w.addresses 0) (some (record d { event = some (flags, none) })),
      ),
      rw
          (
            obtained_lem size w h.memory h.empty,
            opened,
            run,
            count_connection_lem g.0 gets.value g.1 gets.stored
                (omega (arith, counts.0), omega (arith, counts.1)),
            listen_added d flags x added_there,
          )
          refl,
      record {
        address = refl;
        conn = record d { event = some (flags, none) };
        stored = ground arith;
        opened = set_up-IsOpened c type id sfd state flags g.0 some_size;
        others = λ a ne.
            update_other g.1.conns (w.addresses 0) a _ (λ e. ne (sym e))
            ∙ ap (λ (f : ℕ → Option Conn). f a) keeps.conns;
        ready = record {
          cells = gets.after;
          map = same-IsMap x _ gets.after refl refl (
              touch-IsMap g.1 gets.after g.0 gets.value (counted gets.value) gets.stored refl refl
                gets.map);
          key = ap (λ z. bucket z id) draws.map_size ∙ h.key;
          enough = λ j. elim (Bool-cases (k == j)) [
            | inl same ↦
                subst (λ i. length (gets.after i) + n ≤ fuel) ((==_iff k j).0 same)
                  (omega (arith, h.enough k, gets.growth))
            | inr other ↦ omega (arith, h.enough j, ap length (gets.others j (λ z. ground arith)))
          ];
          memory = draws.memory (λ i. h.memory (suc (suc (suc (suc (suc (suc (suc i))))))));
          distinct = λ i j ne e.
              h.distinct (suc (draws.drawn + i)) (suc (draws.drawn + j))
                (λ z. ne (omega (arith, z))) (sym (draws.addresses i) ∙ e ∙ draws.addresses j);
          unused =
              stored-unused v g (counted gets.value)
                (λ i j ne. h.distinct (suc i) (suc j) (λ z. ne (omega (arith, z))))
                (λ i. h.unused (suc i)) draws;
          some_room = omega (arith, h.some_room);
          room =
              stored-HasRoom n v g (counted gets.value)
                (HasRoom-le n (suc n) v (omega arith) h.room) draws
                (omega (arith, counts.0), omega (arith, counts.1));
          empty = ap (λ (l : Freelist). l.freecurr) keeps.freelist ∙ h.empty;
        };
        drawn = draws.drawn;
        addresses = draws.addresses;
        events = ap (λ (f : ℕ → Bool). rest f) keeps.events;
        workers = keeps.workers;
      },
    )
