-- ===== src/Stats/Buckets.antt =====
-- What the hash map stands for: in each bucket, the addresses of its entries with their clients.
use synthetic_client.Base.{
  ℕ, zero, suc, ◌≡◌, ◌<◌, refl, sym, ap, ◌∙◌, inl, inr, ◌⊎◌, true, false, ◌==◌, if◌then◌else◌,
  ==_iff, Bool-cases, Option, none, some, List, [], ◌∷◌, update, length, ok, Returns, arith,
}
use synthetic_client.Base.Int.{ℤ, same_ℤ}
use synthetic_client.World.{World, ClientStats}
use synthetic_client.Conn.Close.{store_stats}
use synthetic_client.Stats.{bucket, entry, search_from}

abbrev pub Cells : Type 0
Cells = List (ℕ × ℤ)

abbrev pub Entries : Type 0
Entries = ℕ → Option ClientStats

abbrev pub first : Cells → Option ℕ
first [] = none
first ((p, id) ∷ cs) = some p

-- The entry of a client, linked to the next one.
pub record IsEntry (f : Entries) (p : ℕ) (id : ℤ) (q : Option ℕ) : Type 0 where
  pub value : ClientStats
  pub stored : f p ≡ some value
  pub client : value.client_id ≡ id
  pub next : value.next ≡ q

abbrev pub Linked : Entries → Cells → Type 0
Linked f [] = Unit {0}
Linked f ((p, id) ∷ cs) = IsEntry f p id (first cs) × Linked f cs

-- The address of a client's entry.
abbrev pub find : ℤ → Cells → Option ℕ
find id [] = none
find id ((p, id') ∷ cs) = let rest = find id cs in if same_ℤ id' id then some p else rest

-- The entries belong in bucket `k`.
abbrev pub AreKeyed : ℕ → ℕ → Cells → Type 0
AreKeyed map_size k [] = Unit {0}
AreKeyed map_size k ((p, id) ∷ cs) = (bucket map_size id ≡ ok k) × AreKeyed map_size k cs

-- No client has two entries.
abbrev pub AreDistinct : Cells → Type 0
AreDistinct [] = Unit {0}
AreDistinct ((p, id) ∷ cs) = (find id cs ≡ none) × AreDistinct cs

pub record IsMap (w : World) (cells : ℕ → Cells) : Type 0 where
  pub heads : (k : ℕ) → w.statistics.map k ≡ first (cells k)
  pub linked : (k : ℕ) → Linked w.client_stats (cells k)
  pub keyed : (k : ℕ) → AreKeyed w.statistics.map_size k (cells k)
  pub distinct : (k : ℕ) → AreDistinct (cells k)

-- The entry before that of the client, in a walk that begins behind `prev`.
abbrev pub before : Option ℕ → ℤ → Cells → Option ℕ
before prev id [] = prev
before prev id ((p, id') ∷ cs) =
    let rest = before (some p) id cs in if same_ℤ id' id then prev else rest

-- A change of the counts of an entry.
touch-Linked :
    (f : Entries) (p : ℕ) (s s' : ClientStats) (cs : Cells)
    → f p ≡ some s
    → s'.client_id ≡ s.client_id
    → s'.next ≡ s.next
    → Linked f cs
    → Linked (update f p (some s')) cs
touch-Linked f p s s' [] e c n l = tt
touch-Linked f p s s' ((q, id) ∷ cs) e c n (h, l) =
    (here (Bool-cases (p == q)), touch-Linked f p s s' cs e c n l)
  where
    here : ((p == q) ≡ true) ⊎ ((p == q) ≡ false) → IsEntry (update f p (some s')) q id (first cs)
    here (inr other) = record {
      value = h.value;
      stored = rw other h.stored;
      client = h.client;
      next = h.next;
    }
    here (inl same) =
        let both : some s ≡ some h.value = sym e ∙ ap f ((==_iff p q).0 same) ∙ h.stored in
        let eq : s ≡ h.value = cc in
        record {
          value = s';
          stored = rw same refl;
          client = c ∙ ap (λ (x : ClientStats). x.client_id) eq ∙ h.client;
          next = n ∙ ap (λ (x : ClientStats). x.next) eq ∙ h.next;
        }

pub touch-IsMap :
    (w : World) (cells : ℕ → Cells) (p : ℕ) (s s' : ClientStats)
    → w.client_stats p ≡ some s
    → s'.client_id ≡ s.client_id
    → s'.next ≡ s.next
    → IsMap w cells
    → IsMap (store_stats w p s') cells
touch-IsMap w cells p s s' e c n m = record {
  heads = m.heads;
  linked = λ k. touch-Linked w.client_stats p s s' (cells k) e c n (m.linked k);
  keyed = m.keyed;
  distinct = m.distinct;
}

pub fresh-Linked :
    (f : Entries) (p : ℕ) (s : ClientStats) (cs : Cells)
    → f p ≡ none
    → Linked f cs
    → Linked (update f p (some s)) cs
fresh-Linked f p s [] e l = tt
fresh-Linked f p s ((q, id) ∷ cs) e (h, l) =
    let other : (p == q) ≡ false = ground (arith, h.stored) in
    (
      record { value = h.value; stored = rw other h.stored; client = h.client; next = h.next },
      fresh-Linked f p s cs e l,
    )

pub entry_lem : (w : World) (p : ℕ) (s : ClientStats) → w.client_stats p ≡ some s → entry w p ≡ ok s
unfolding entry
entry_lem w p s h = ground arith

-- The walk over a bucket finds the entry of the client, if it has one.
pub search_lem :
    (fuel : ℕ) (id : ℤ) (w : World) (prev : Option ℕ) (cs : Cells)
    → Linked w.client_stats cs
    → length cs < fuel
    → Returns
        (search_from fuel id w prev (first cs))
        (λ r. (r.0 ≡ before prev id cs) × (r.1 ≡ find id cs))
unfolding search_from
search_lem zero id w prev cs l h = absurd (omega arith)
search_lem (suc fuel) id w prev [] l h = ((prev, none), refl, (refl, refl))
search_lem (suc fuel) id w prev ((p, id') ∷ cs) (e, l) h = elim (Bool-cases (same_ℤ id' id)) [
  | inl same ↦ (
    (prev, some p),
    rw (search_from, entry_lem w p e.value e.stored, e.client, same) refl,
    rw same (refl, refl),
  )
  | inr other ↦
      let (r, run, found) = search_lem fuel id w (some p) cs l (omega arith) in
      (
        r,
        rw (search_from, entry_lem w p e.value e.stored, e.client, other, e.next) run,
        rw other found,
      )
]
