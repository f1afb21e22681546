-- ===== src/Stats/Enters.antt =====
-- One client that `stat_test_data` draws gets its entry.
use synthetic_client.Base.{
  ℕ, suc, ◌+◌, ◌≡◌, ◌≢◌, ◌≤◌, refl, sym, ap, ◌∙◌, subst, inl, inr, ◌==◌, ==_iff, Bool-cases, none,
  some, length, ok, Returns, IfOk, arith,
}
use synthetic_client.Base.Int.{ℤ, same_ℤ}
use synthetic_client.World.{World, ClientStats}
use synthetic_client.Conn.Close.{store_stats, refcount_decr}
use synthetic_client.Conn.Iov.Plenty.{Plenty}
use synthetic_client.Utils.{int_max}
use synthetic_client.Conn.New.Opens.{Keeps, get_client_stats-Keeps}
use synthetic_client.Conn.New.Counts.{Gets-counts}
use synthetic_client.Conn.New.OpensNext.{stored-HasRoom, stored-unused}
use synthetic_client.Conn.New.Ready.{HasRoom}
use synthetic_client.Stats.{bucket, entry, get_client_stats}
use synthetic_client.Stats.Buckets.{Cells, IsMap, find, touch-IsMap, entry_lem}
use synthetic_client.Stats.Get.{Gets, get_client_stats-Gets, same_ℤ-eq}
use synthetic_client.Stats.Draws.{Draws, get_client_stats-Draws}

-- Entries may be added, with fuel for `amount` of them in any bucket.
pub record CanEnter (cells : ℕ → Cells) (fuel amount : ℕ) (w : World) : Type 0 where
  pub map : IsMap w cells
  pub enough : (k : ℕ) → length (cells k) + amount ≤ fuel
  pub memory : Plenty w
  pub distinct : (i j : ℕ) → i ≢ j → w.addresses i ≢ w.addresses j
  pub unused : (i : ℕ) → w.client_stats (w.addresses i) ≡ none

-- The entries that were there are found where they were, and each bucket has at most so many more.
pub record Grows (cells after : ℕ → Cells) (amount : ℕ) : Type 0 where
  pub kept : (id : ℤ) (k p : ℕ) → find id (cells k) ≡ some p → find id (after k) ≡ some p
  pub growth : (k : ℕ) → length (after k) ≤ length (cells k) + amount

pub Grows-trans : (a b c : ℕ → Cells) (m n : ℕ) → Grows a b m → Grows b c n → Grows a c (m + n)
Grows-trans a b c m n f g = record {
  kept = λ id k p e. g.kept id k p (f.kept id k p e);
  growth = λ k. omega (arith, f.growth k, g.growth k);
}

Gets-Grows :
    (id : ℤ) (cells : ℕ → Cells) (k : ℕ) (w : World) (r : ℕ × World)
    → (g : Gets id cells k w r) → Grows cells g.after 1
Gets-Grows id cells k w r g = record {
  kept = λ id' j p e. elim (Bool-cases (k == j)) [
    | inr other ↦ ap (find id') (g.others j (λ z. ground arith)) ∙ e
    | inl same ↦
        subst (λ i. find id' (cells i) ≡ some p → find id' (g.after i) ≡ some p)
          ((==_iff k j).0 same) (here id' p) e
  ];
  growth = λ j. elim (Bool-cases (k == j)) [
    | inl same ↦
        subst (λ i. length (g.after i) ≤ length (cells i) + 1) ((==_iff k j).0 same) g.growth
    | inr other ↦ omega (arith, ap length (g.others j (λ z. ground arith)))
  ];
}
  where
    here : (id' : ℤ) (p : ℕ) → find id' (cells k) ≡ some p → find id' (g.after k) ≡ some p
    here id' p e = elim (Bool-cases (same_ℤ id id')) [
      | inr differs ↦ g.kept id' differs ∙ e
      | inl client ↦
          let known = g.known p (ap (λ i. find i (cells k)) (same_ℤ-eq id id' client) ∙ e) in
          ap (find id') known.1 ∙ e
    ]

-- What has nothing to do with the map.
pub record Leaves (w v : World) : Type 0 where
  pub keeps : Keeps w v
  pub map_size : v.statistics.map_size ≡ w.statistics.map_size
  pub room : (n : ℕ) → n ≤ int_max → HasRoom n w → HasRoom n v

-- What entering one client leaves behind.
pub record Enters (id : ℤ) (cells : ℕ → Cells) (k fuel amount : ℕ) (w v : World) : Type 0 where
  pub after : ℕ → Cells
  pub grows : Grows cells after 1
  pub slot : ℕ
  pub found : find id (after k) ≡ some slot
  pub can : CanEnter after fuel amount v
  pub leaves : Leaves w v
  pub rands : v.rands ≡ w.rands

-- The reference that was got is given back.
abbrev pub returned : ℕ × World → ClientStats → World
returned r s = store_stats r.1 r.0 (record s { refcnt = refcount_decr s.refcnt })

pub enter_lem :
    (id : ℤ) (cells : ℕ → Cells) (k fuel amount : ℕ) (w : World)
    → CanEnter cells fuel (suc amount) w
    → bucket w.statistics.map_size id ≡ ok k
    → Returns (get_client_stats fuel id w) λ r.
      (s : ClientStats) × (entry r.1 r.0 ≡ ok s) × Enters id cells k fuel amount w (returned r s)
enter_lem id cells k fuel amount w h key =
    let (r, run, g) =
      get_client_stats-Gets fuel id cells k w h.map key (omega (arith, h.enough k)) (h.memory 0)
        (h.unused 0) in
    let draws : Draws w r = subst (IfOk (Draws w)) run (get_client_stats-Draws fuel id w) in
    let keeps : Keeps w r.1 =
      subst (IfOk (λ q. Keeps w q.1)) run (get_client_stats-Keeps fuel id w) in
    let s' = record (g.value) { refcnt = refcount_decr g.value.refcnt } in
    let grows = Gets-Grows id cells k w r g in
    (
      r,
      run,
      (
        g.value,
        entry_lem r.1 r.0 g.value g.stored,
        record {
          after = g.after;
          grows = grows;
          slot = r.0;
          found = g.found;
          can = record {
            map = touch-IsMap r.1 g.after r.0 g.value s' g.stored refl refl g.map;
            enough = λ j. omega (arith, h.enough j, grows.growth j);
            memory = draws.memory h.memory;
            distinct = λ i j ne e.
                h.distinct (draws.drawn + i) (draws.drawn + j) (λ z. ne (omega (arith, z)))
                  (sym (draws.addresses i) ∙ e ∙ draws.addresses j);
            unused = stored-unused w r s' h.distinct h.unused draws;
          };
          leaves = record {
            keeps = record {
              conns = keeps.conns;
              freelist = keeps.freelist;
              events = keeps.events;
              workers = keeps.workers;
            };
            map_size = draws.map_size;
            room = λ n small room. stored-HasRoom n w r s' room draws (
                Gets-counts (λ total live. (total + n ≤ int_max) × (live + n ≤ int_max)) id cells k
                  w r h.map (omega (arith, small), omega (arith, small)) room g);
          };
          rands = draws.rands;
        },
      ),
    )
