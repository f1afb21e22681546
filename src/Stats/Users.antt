-- ===== src/Stats/Users.antt =====
-- `stat_test_data` enters the clients that it draws.
use synthetic_client.Base.{ℕ, zero, suc, ◌+◌, ◌%◌, ◌≡◌, ◌<◌, refl, ◌∙◌, subst, some, Returns, arith}
use synthetic_client.Base.Int.{pos}
use synthetic_client.World.{World, ClientStats, rest, after_rand}
use synthetic_client.Conn.New.Counts.{same-IsMap}
use synthetic_client.Stats.{bucket, stat_test_data}
use synthetic_client.Stats.Buckets.{Cells, find}
use synthetic_client.Stats.Enters.{CanEnter, Grows, Grows-trans, Leaves, returned, enter_lem}

Leaves-trans : (u v w : World) → Leaves u v → Leaves v w → Leaves u w
Leaves-trans u v w x y = record {
  keeps = record {
    conns = y.keeps.conns ∙ x.keeps.conns;
    freelist = y.keeps.freelist ∙ x.keeps.freelist;
    events = y.keeps.events ∙ x.keeps.events;
    workers = y.keeps.workers ∙ x.keeps.workers;
  };
  map_size = y.map_size ∙ x.map_size;
  room = λ n small room. y.room n small (x.room n small room);
}

-- What `stat_test_data` leaves behind: every client that is drawn has its entry, those that were there
-- have theirs, and the map is well formed.
pub record Populates (cells : ℕ → Cells) (fuel more amount : ℕ) (w v : World) : Type 0 where
  pub after : ℕ → Cells
  pub can : CanEnter after fuel more v
  pub grows : Grows cells after amount
  pub drawn :
      (i : ℕ)
      → i < amount
      → (p : ℕ) × (find (pos (w.rands i)) (after (w.rands i % w.statistics.map_size)) ≡ some p)
  pub leaves : Leaves w v

-- On a well-formed map, where memory is to be had at unused addresses that are all different, and
-- with fuel for the entries of every bucket, `stat_test_data` returns. Every client that it draws has
-- an entry, in its bucket, those that were there have theirs, and no bucket has more new entries than
-- clients are drawn; the map stays well formed, and the connections and the workers stay as they are.
pub stat_test_data-Populates :
    (amount more fuel : ℕ) (cells : ℕ → Cells) (w : World)
    → CanEnter cells fuel (amount + more) w
    → Returns (stat_test_data fuel amount w) (Populates cells fuel more amount w)
unfolding stat_test_data bucket
stat_test_data-Populates zero more fuel cells w h =
    let count : 0 + more ≡ more = omega arith in
    (
      w,
      refl,
      record {
        after = cells;
        can = subst (λ n. CanEnter cells fuel n w) count h;
        grows = record { kept = λ id k p e. e; growth = λ k. omega arith };
        drawn = λ i low. absurd (omega (arith, low));
        leaves = record {
          keeps = record { conns = refl; freelist = refl; events = refl; workers = refl };
          map_size = refl;
          room = λ n small room. room;
        };
      },
    )
stat_test_data-Populates (suc amount) more fuel cells w h =
    let count : suc amount + more ≡ suc (amount + more) = omega arith in
    let one_more : 1 + amount ≡ suc amount = omega arith in
    let id = pos (w.rands 0) in
    let k = w.rands 0 % w.statistics.map_size in
    let (r, run, (s, here, x)) =
      enter_lem id cells k fuel (amount + more) (after_rand w)
        (later-CanEnter (subst (λ n. CanEnter cells fuel n w) count h)) refl in
    let (v, run', y) = stat_test_data-Populates amount more fuel x.after (returned r s) x.can in
    (
      v,
      rw (run, here) run',
      record {
        after = y.after;
        can = y.can;
        grows =
            subst (Grows cells y.after) one_more
              (Grows-trans cells x.after y.after 1 amount x.grows y.grows);
        drawn = λ i low. drawn r s x.after x.slot x.found x.rands x.leaves.map_size y i low;
        leaves =
            Leaves-trans w (returned r s) v
              (record {
                keeps = record {
                  conns = x.leaves.keeps.conns;
                  freelist = x.leaves.keeps.freelist;
                  events = x.leaves.keeps.events;
                  workers = x.leaves.keeps.workers;
                };
                map_size = x.leaves.map_size;
                room = λ n small room. x.leaves.room n small room;
              })
              y.leaves;
      },
    )
  where
    later-CanEnter : {n : ℕ} → CanEnter cells fuel n w → CanEnter cells fuel n (after_rand w)
    later-CanEnter h = record {
      map = same-IsMap w (after_rand w) cells refl refl h.map;
      enough = h.enough;
      memory = h.memory;
      distinct = h.distinct;
      unused = h.unused;
    }

    drawn :
        (r : ℕ × World) (s : ClientStats) (middle : ℕ → Cells) (slot : ℕ)
        → find (pos (w.rands 0)) (middle (w.rands 0 % w.statistics.map_size)) ≡ some slot
        → r.1.rands ≡ rest w.rands
        → r.1.statistics.map_size ≡ w.statistics.map_size
        → {v : World} → (y : Populates middle fuel more amount (returned r s) v) → (i : ℕ)
        → i < suc amount
        → (p : ℕ) × (find (pos (w.rands i)) (y.after (w.rands i % w.statistics.map_size)) ≡ some p)
    drawn r s middle slot found rands size y zero low =
        (slot, y.grows.kept (pos (w.rands 0)) (w.rands 0 % w.statistics.map_size) slot found)
    drawn r s middle slot found rands size y (suc i) low =
        let (p, e) = y.drawn i (omega (arith, low)) in
        (
          p,
          subst (λ m. find (pos (w.rands (suc i))) (y.after (w.rands (suc i) % m)) ≡ some p) size
              (subst
                (λ (f : ℕ → ℕ). find (pos (f i)) (y.after (f i % r.1.statistics.map_size)) ≡ some p)
                rands e),
        )
