-- ===== src/Stats/Draws.antt =====
-- What `get_client_stats` takes from the world, and what it leaves as it is.
use synthetic_client.Base.{
  ℕ, suc, ◌+◌, ◌≡◌, ◌≢◌, refl, ap, inl, inr, ◌⊎◌, Bool-cases, Option-cases, Option, none, some, Run,
  ok, fault, dangling, ok-injective, IfOk, IfOk->>=, arith, sym, ◌∙◌,
}
use synthetic_client.Base.Int.{ℤ}
use synthetic_client.World.{World, ClientStats}
use synthetic_client.Conn.Iov.Plenty.{Plenty}
use synthetic_client.Stats.{bucket, entry, search_from, new_entry, found_or_new, get_client_stats}

-- Only the entry that is got changes, and its address is new or has an entry.
pub record Draws (w : World) (r : ℕ × World) : Type 0 where
  pub map_size : r.1.statistics.map_size ≡ w.statistics.map_size
  pub memory : Plenty w → Plenty r.1
  pub drawn : ℕ
  pub addresses : (i : ℕ) → r.1.addresses i ≡ w.addresses (drawn + i)
  pub slot :
      ((drawn ≡ 1) × (r.0 ≡ w.addresses 0)) ⊎ ((s : ClientStats) × (w.client_stats r.0 ≡ some s))
  pub elsewhere : (p : ℕ) → p ≢ r.0 → r.1.client_stats p ≡ w.client_stats p
  pub rands : r.1.rands ≡ w.rands

abbrev at_entry : Option ClientStats → Run ClientStats
at_entry o = elim o [ none ↦ fault dangling | some s ↦ ok s ]

entry-stored : (w : World) (p : ℕ) (s : ClientStats) → entry w p ≡ ok s → w.client_stats p ≡ some s
unfolding entry
entry-stored w p s e = elim (Option-cases (w.client_stats p)) [
  | inl missing ↦ let no : fault dangling ≡ ok s = ap at_entry (sym missing) ∙ e in cc
  | inr (t, stored) ↦
      let same : t ≡ s = ok-injective (ap at_entry (sym stored) ∙ e) in stored ∙ ap some same
]

pub get_client_stats-Draws :
    (fuel : ℕ) (id : ℤ) (w : World) → IfOk (Draws w) (get_client_stats fuel id w)
unfolding get_client_stats found_or_new new_entry
get_client_stats-Draws fuel id w =
    IfOk->>= (Draws w) (bucket _ id) _ λ k _.
      IfOk->>= (Draws w) (search_from fuel id w none (w.statistics.map k)) _ λ r _. found k r.1
  where
    found : (k : ℕ) (o : Option ℕ) → IfOk (Draws w) (found_or_new k id w o)
    found k none = elim (Bool-cases (w.allocs 0)) [
      | inl memory ↦ rw memory (record {
        map_size = refl;
        memory = λ m i. m (suc i);
        drawn = 1;
        addresses = λ i. ap w.addresses (omega arith);
        slot = inl (refl, refl);
        elsewhere = λ p ne. ground arith;
        rands = refl;
      })
      | inr full ↦ rw full tt
    ]
    found k (some p) = IfOk->>= (Draws w) (entry w p) _ λ s run. record {
      map_size = refl;
      memory = λ m. m;
      drawn = 0;
      addresses = λ i. ap w.addresses (omega arith);
      slot = inr (s, entry-stored w p s run);
      elsewhere = λ q ne. ground arith;
      rands = refl;
    }
