-- ===== src/Conn/New/Counts.antt =====
-- `conn_new` opens a connection at the address that comes next, and counts it for its client.
use synthetic_client.Base.{
  ℕ, ◌≡◌, ◌≢◌, ◌≤◌, ◌<◌, refl, sym, ap, ◌∙◌, subst, inl, inr, Option-cases, Option, none, some,
  length, ok, Returns, IfOk, arith,
}
use synthetic_client.Base.Int.{ℤ}
use synthetic_client.Fsm.{ConnStates}
use synthetic_client.Utils.{int_max}
use synthetic_client.World.{World, Workers, Statistics, ClientStats}
use synthetic_client.Conn.{Conn, ConnType, EvFlags}
use synthetic_client.Conn.Close.{store_stats, refcount_incr}
use synthetic_client.Conn.Iov.Plenty.{Plenty}
use synthetic_client.Conn.New.{set_up, listen, opened, conn_new}
use synthetic_client.Conn.New.Freelist.{IsFreelist, next_conn, Obtains, obtained-Obtains}
use synthetic_client.Conn.New.Opens.{
  Keeps, get_client_stats-Keeps, IsOpened, counted, HasSpace, count_connection_lem, Listens,
  listen-Listens, earlier-Listens, listen_lem,
}
use synthetic_client.Stats.{bucket, fresh_entry}
use synthetic_client.Stats.Buckets.{Cells, Linked, AreKeyed, IsMap, find, touch-IsMap}
use synthetic_client.Stats.Get.{Gets, get_client_stats-Gets, find-entry}

-- What is opened, and where its client is counted; how it ends is in `Listens`.
pub record Opens (type : ConnType) (id : ℤ) (sfd : ℕ) (state : ConnStates) (flags : EvFlags)
    (cells : ℕ → Cells) (k : ℕ) (w : World) (r : Option ℕ × World) : Type 0 where
  pub conn : Conn
  pub opened :
      IsOpened type id sfd state flags (next_conn w) (record conn { event = some (flags, none) })
  pub listens : Listens (next_conn w) conn flags w r
  pub after : ℕ → Cells
  pub map : IsMap r.1 after
  pub slot : ℕ
  pub stats : conn.stats ≡ some slot
  pub found : find id (after k) ≡ some slot
  pub value : ClientStats
  pub stored : r.1.client_stats slot ≡ some value
  pub first : find id (cells k) ≡ none → value ≡ counted (fresh_entry id (w.statistics.map k))
  pub again :
      (p : ℕ) (s : ClientStats)
      → find id (cells k) ≡ some p
      → w.client_stats p ≡ some s
      → value ≡ counted (record s { refcnt = refcount_incr s.refcnt })

pub same-IsMap :
    (w v : World) (cells : ℕ → Cells)
    → v.client_stats ≡ w.client_stats
    → v.statistics ≡ w.statistics
    → IsMap w cells
    → IsMap v cells
same-IsMap w v cells f s m = record {
  heads = λ j. ap (λ (t : Statistics). t.map j) s ∙ m.heads j;
  linked = λ j. subst (λ g. Linked g (cells j)) (sym f) (m.linked j);
  keyed = λ j. subst (λ (t : Statistics). AreKeyed t.map_size j (cells j)) (sym s) (m.keyed j);
  distinct = m.distinct;
}

-- What holds of the counts of every entry, and of no connections, holds of those of an entry after it
-- is got.
pub Gets-counts :
    (P : ℕ → ℕ → Type 0) (id : ℤ) (cells : ℕ → Cells) (k : ℕ) (w : World) (r : ℕ × World)
    → IsMap w cells
    → P 0 0
    → ((p : ℕ) (s : ClientStats)
        → w.client_stats p ≡ some s
        → P s.total_connections s.live_connections)
    → (g : Gets id cells k w r) → P g.value.total_connections g.value.live_connections
Gets-counts P id cells k w r m none_yet space g = elim (Option-cases (find id (cells k))) [
  | inl missing ↦
      subst (λ (s : ClientStats). P s.total_connections s.live_connections) (sym (g.fresh missing))
        none_yet
  | inr (p, here) ↦
      let (s, stored, client) = find-entry w.client_stats id p (cells k) (m.linked k) here in
      subst (λ (t : ClientStats). P t.total_connections t.live_connections)
        (sym (g.more p s here stored)) (space p s stored)
]

pub set_up-IsOpened :
    (d : Conn) (type : ConnType) (id : ℤ) (sfd : ℕ) (state : ConnStates) (flags : EvFlags) (p : ℕ)
    → 1 ≤ d.rsize
    → IsOpened type id sfd state flags d.self
        (record (set_up d type id sfd state flags p) { event = some (flags, none) })
unfolding set_up
set_up-IsOpened d type id sfd state flags p size = record {
  address = refl;
  kind = (refl, refl, refl);
  states = (refl, refl);
  registered = (refl, refl);
  no_input = (refl, refl, size);
  no_output = (refl, refl, refl, refl);
  no_items = (refl, refl);
  no_calls = (refl, refl, refl);
}

-- What is asked of the world that `conn_new` finds: a well-formed map and free list, memory, unused
-- addresses for entries, and counts that may still grow.
pub record CanOpen (id : ℤ) (cells : ℕ → Cells) (k : ℕ) (w : World) : Type 0 where
  pub map : IsMap w cells
  pub key : bucket w.statistics.map_size id ≡ ok k
  pub memory : Plenty w
  pub unused : (i : ℕ) → w.client_stats (w.addresses i) ≡ none
  pub space : (p : ℕ) (s : ClientStats) → w.client_stats p ≡ some s → HasSpace s
  pub freelist : IsFreelist w.freelist w.conns

-- Where the entry of the client is got, the connection is counted and listens.
opened-Opens :
    (fuel : ℕ) (type : ConnType) (id : ℤ) (sfd : ℕ) (state : ConnStates) (flags : EvFlags)
    (cells : ℕ → Cells) (k : ℕ) (w : World) (r : Option Conn × World)
    → length (cells k) < fuel
    → CanOpen id cells k w
    → (o : Obtains w r)
    → Returns
        (opened fuel type id sfd state flags r.0 r.1)
        (Opens type id sfd state flags cells k w)
unfolding opened set_up
opened-Opens fuel type id sfd state flags cells k w r enough c o =
    let v = r.1 in
    let m : IsMap v cells = same-IsMap w v cells o.client_stats o.statistics c.map in
    let (j, from) = o.addresses 0 in
    let unused : v.client_stats (v.addresses 0) ≡ none =
      ap (λ (f : ℕ → Option ClientStats). f (v.addresses 0)) o.client_stats
      ∙ ap w.client_stats from
      ∙ c.unused j in
    let key : bucket v.statistics.map_size id ≡ ok k =
      ap (λ (t : Statistics). bucket t.map_size id) o.statistics ∙ c.key in
    let (g, run, gets) = get_client_stats-Gets fuel id cells k v m key enough (o.memory 0) unused in
    let keeps : Keeps v g.1 =
      subst (IfOk (λ q. Keeps v q.1)) run (get_client_stats-Keeps fuel id v) in
    let space =
      Gets-counts (λ total live. (total < int_max) × (live < int_max)) id cells k v g m
        (omega arith, omega arith)
        (λ p s e. c.space p s (ap (λ (f : ℕ → Option ClientStats). f p) (sym o.client_stats) ∙ e))
        gets in
    let x = store_stats g.1 g.0 (counted gets.value) in
    let d = set_up o.conn type id sfd state flags g.0 in
    let room : x.freelist.freecurr < x.freelist.freetotal =
      subst (λ l. l.freecurr < l.freetotal) (sym keeps.freelist) o.room in
    let list : IsFreelist x.freelist x.conns =
      subst (λ l. IsFreelist l x.conns) (sym keeps.freelist)
        (subst (IsFreelist v.freelist) (sym keeps.conns) o.freelist) in
    let away : (i : ℕ) → i < x.freelist.freecurr → x.freelist.freeconns i ≢ d.self =
      subst (λ l. (i : ℕ) → i < l.freecurr → l.freeconns i ≢ d.self) (sym keeps.freelist)
        (λ i h e. o.away i h (e ∙ o.address)) in
    let (same_stats, same_map) = listen_lem d flags x room in
    let l = listen-Listens d flags x o.some_size list room away in
    (
      (listen d flags x),
      rw (o.here, opened, run, count_connection_lem g.0 gets.value g.1 gets.stored space) refl,
      record {
        conn = d;
        opened =
            subst
              (λ p. IsOpened type id sfd state flags p (record d { event = some (flags, none) }))
              o.address (set_up-IsOpened o.conn type id sfd state flags g.0 o.some_size);
        listens =
            earlier-Listens (next_conn w) d flags w x _ (keeps.events ∙ o.events)
              (keeps.conns ∙ o.conns) (keeps.workers ∙ o.workers)
              (subst (λ p. Listens p d flags x (listen d flags x)) o.address l);
        after = gets.after;
        map = same-IsMap x _ gets.after same_stats same_map (
            touch-IsMap g.1 gets.after g.0 gets.value (counted gets.value) gets.stored refl refl
              gets.map);
        slot = g.0;
        stats = refl;
        found = gets.found;
        value = counted gets.value;
        stored = ap (λ (f : ℕ → Option ClientStats). f g.0) same_stats ∙ ground arith;
        first = λ e.
            ap counted
              (gets.fresh e ∙ ap (λ (t : Statistics). fresh_entry id (t.map k)) o.statistics);
        again = λ p s e f.
            ap counted
              (gets.more p s e (ap (λ (h : ℕ → Option ClientStats). h p) o.client_stats ∙ f));
      },
    )

-- `conn_new` returns where a connection can be opened. The connection is the one that was closed
-- last, or a new one if none is on the free list. It is set up as asked, with nothing left of an
-- earlier use in its buffers and queues, and its client has one connection more in its entry. If
-- libevent takes it, it is returned, is stored as it was set up, and is not on the free list; if
-- not, null is returned and it is on the free list again. The list stays well formed, and so does
-- the map.
pub conn_new-Opens :
    (fuel : ℕ) (type : ConnType) (id : ℤ) (sfd : ℕ) (state : ConnStates) (flags : EvFlags)
    (read_buffer_size : ℕ) (cells : ℕ → Cells) (k : ℕ) (w : World)
    → length (cells k) < fuel
    → 0 < read_buffer_size
    → CanOpen id cells k w
    → Returns
        (conn_new fuel type id sfd state flags read_buffer_size w)
        (Opens type id sfd state flags cells k w)
unfolding conn_new
conn_new-Opens fuel type id sfd state flags read_buffer_size cells k w enough size c =
    let (r, run, o) = obtained-Obtains read_buffer_size w c.memory size c.freelist in
    let (q, run', opens) = opened-Opens fuel type id sfd state flags cells k w r enough c o in
    (q, rw (conn_new, run) run', opens)

-- The workers do not matter.
pub workers-CanOpen :
    (id : ℤ) (cells : ℕ → Cells) (k : ℕ) (w : World) (t : Workers)
    → CanOpen id cells k w
    → CanOpen id cells k (record w { workers = t })
workers-CanOpen id cells k w t c = record {
  map = same-IsMap w (record w { workers = t }) cells refl refl c.map;
  key = c.key;
  memory = c.memory;
  unused = c.unused;
  space = c.space;
  freelist = c.freelist;
}
