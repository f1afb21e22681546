-- ===== src/Conn/New/Lists.antt =====
-- A connection is put on the free list, which has room for it or grows.
use synthetic_client.Base.{ℕ, suc, ◌*◌, ◌≡◌, ◌≤◌, ◌<◌, refl, inl, inr, true, ltb, Bool-cases, arith}
use synthetic_client.World.{World, Freelist}
use synthetic_client.Conn.Close.{conn_add_to_freelist}
use synthetic_client.Conn.Iov.Plenty.{Plenty}
use synthetic_client.Conn.New.Freelist.{listed}

-- A list with the same connections and with room for one more.
pub record Lists (p : ℕ) (w : World) (l : Freelist) : Type 0 where
  pub curr : l.freecurr ≡ w.freelist.freecurr
  pub conns : l.freeconns ≡ w.freelist.freeconns
  pub room : l.freecurr < l.freetotal
  pub after : World
  pub run : conn_add_to_freelist p w ≡ (true, record after { freelist = listed l p })
  pub same :
      (after.client_stats ≡ w.client_stats)
      × (after.statistics ≡ w.statistics)
      × (after.conns ≡ w.conns)
      × (after.addresses ≡ w.addresses)
      × (after.events ≡ w.events)
  pub memory : Plenty after

pub lists :
    (p : ℕ) (w : World)
    → w.freelist.freecurr ≤ w.freelist.freetotal
    → 0 < w.freelist.freetotal
    → Plenty w
    → (l : Freelist) × Lists p w l
unfolding conn_add_to_freelist
lists p w le size m = elim (Bool-cases (ltb w.freelist.freecurr w.freelist.freetotal)) [
  | inl room ↦ (
    w.freelist,
    record {
      curr = refl;
      conns = refl;
      room = ground (arith, room);
      after = w;
      run = rw room refl;
      same = (refl, refl, refl, refl, refl);
      memory = m;
    },
  )
  | inr full ↦
      let l = record (w.freelist) { freetotal = w.freelist.freetotal * 2 } in
      (
        l,
        record {
          curr = refl;
          conns = refl;
          room = omega (arith, le, size);
          after = record w { allocs = λ i. w.allocs (suc i) };
          run = rw (full, m 0) refl;
          same = (refl, refl, refl, refl, refl);
          memory = λ i. m (suc i);
        },
      )
]
