-- ===== src/Stats/Get.antt =====
-- `get_client_stats` finds the entry of a client, or adds it.
use synthetic_client.Base.{
  ℕ, ◌≡◌, ◌≢◌, ◌+◌, ◌≤◌, ◌<◌, refl, sym, ap, ◌∙◌, subst, inl, inr, Bool, true, false, ◌==◌,
  if◌then◌else◌, ==_iff, Bool-cases, Option-cases, none, some, [], ◌∷◌, update, update_other,
  length, ok, Returns, arith,
}
use synthetic_client.Base.Int.{ℤ, pos, negsuc, same_ℤ}
use synthetic_client.World.{World, ClientStats, after_alloc, after_address}
use synthetic_client.Conn.Close.{store_stats, refcount_incr}
use synthetic_client.Stats.{
  bucket, set_bucket, fresh_entry, new_entry, found_or_new, get_client_stats,
}
use synthetic_client.Stats.Buckets.{
  Cells, Entries, first, IsEntry, Linked, AreKeyed, IsMap, find, touch-IsMap, fresh-Linked,
  entry_lem, search_lem,
}

pub same_ℤ-eq : (a b : ℤ) → same_ℤ a b ≡ true → a ≡ b
same_ℤ-eq (pos m) (pos n) h = ap pos ((==_iff m n).0 h)
same_ℤ-eq (negsuc m) (negsuc n) h = ap negsuc ((==_iff m n).0 h)
same_ℤ-eq (pos m) (negsuc n) h = cc
same_ℤ-eq (negsuc m) (pos n) h = cc

pub same_ℤ-refl : (a : ℤ) → same_ℤ a a ≡ true
same_ℤ-refl (pos m) = ground arith
same_ℤ-refl (negsuc m) = ground arith

-- The entry that is found is there, and is the client's.
pub find-entry :
    (f : Entries) (id : ℤ) (p : ℕ) (cs : Cells)
    → Linked f cs
    → find id cs ≡ some p
    → (s : ClientStats) × (f p ≡ some s) × (s.client_id ≡ id)
find-entry f id p [] l e = cc
find-entry f id p ((q, id') ∷ cs) (h, l) e = elim (Bool-cases (same_ℤ id' id)) [
  | inl same ↦
      let at : some q ≡ some p =
        ap (λ (b : Bool). if b then some q else find id cs) (sym same) ∙ e in
      let eq : q ≡ p = cc in (h.value, ap f (sym eq) ∙ h.stored, h.client ∙ same_ℤ-eq id' id same)
  | inr other ↦
      find-entry f id p cs l (ap (λ (b : Bool). if b then some q else find id cs) (sym other) ∙ e)
]

-- What getting the statistics of a client, whose bucket is `k`, achieves.
pub record Gets (id : ℤ) (cells : ℕ → Cells) (k : ℕ) (w : World) (r : ℕ × World) : Type 0 where
  pub after : ℕ → Cells
  pub map : IsMap r.1 after
  pub found : find id (after k) ≡ some r.0
  pub known : (p : ℕ) → find id (cells k) ≡ some p → (r.0 ≡ p) × (after k ≡ cells k)
  pub kept : (id' : ℤ) → same_ℤ id id' ≡ false → find id' (after k) ≡ find id' (cells k)
  pub others : (j : ℕ) → j ≢ k → after j ≡ cells j
  pub elsewhere : (p : ℕ) → p ≢ r.0 → r.1.client_stats p ≡ w.client_stats p
  pub growth : length (after k) ≤ length (cells k) + 1
  pub value : ClientStats
  pub stored : r.1.client_stats r.0 ≡ some value
  pub client : value.client_id ≡ id
  pub fresh : find id (cells k) ≡ none → value ≡ fresh_entry id (w.statistics.map k)
  pub more :
      (p : ℕ) (s : ClientStats)
      → find id (cells k) ≡ some p
      → w.client_stats p ≡ some s
      → value ≡ record s { refcnt = refcount_incr s.refcnt }

-- A new entry at the front of its bucket.
front-IsMap :
    (id : ℤ) (cells : ℕ → Cells) (k : ℕ) (w : World)
    → IsMap w cells
    → bucket w.statistics.map_size id ≡ ok k
    → find id (cells k) ≡ none
    → w.client_stats (w.addresses 0) ≡ none
    → let p = w.addresses 0 in
      IsMap
        (set_bucket
          (store_stats (after_address (after_alloc w)) p (fresh_entry id (w.statistics.map k)))
          k
          (some p))
        (update cells k ((p, id) ∷ cells k))
front-IsMap id cells k w m at missing free =
    let p = w.addresses 0 in
    let s = fresh_entry id (w.statistics.map k) in
    let new : IsEntry (update w.client_stats p (some s)) p id (first (cells k)) = record {
      value = s;
      stored = ground arith;
      client = refl;
      next = m.heads k;
    } in
    let old : (j : ℕ) → Linked (update w.client_stats p (some s)) (cells j) =
      λ j. fresh-Linked w.client_stats p s (cells j) free (m.linked j) in
    record {
      heads = λ j. elim (Bool-cases (k == j)) [
        | inl same ↦ rw same refl
        | inr other ↦ rw other (m.heads j)
      ];
      linked = λ j. elim (Bool-cases (k == j)) [
        | inl same ↦ rw same (new, old k)
        | inr other ↦ rw other (old j)
      ];
      keyed = λ j. elim (Bool-cases (k == j)) [
        | inl same ↦ rw same (
            subst (λ i. AreKeyed w.statistics.map_size i ((p, id) ∷ cells k)) ((==_iff k j).0 same)
              (at, m.keyed k))
        | inr other ↦ rw other (m.keyed j)
      ];
      distinct = λ j. elim (Bool-cases (k == j)) [
        | inl same ↦ rw same (missing, m.distinct k)
        | inr other ↦ rw other (m.distinct j)
      ];
    }

new_entry_lem :
    (id : ℤ) (cells : ℕ → Cells) (k : ℕ) (w : World)
    → IsMap w cells
    → bucket w.statistics.map_size id ≡ ok k
    → find id (cells k) ≡ none
    → w.allocs 0 ≡ true
    → w.client_stats (w.addresses 0) ≡ none
    → Returns (new_entry k id w) (Gets id cells k w)
unfolding new_entry
new_entry_lem id cells k w m at missing memory free =
    let p = w.addresses 0 in
    let s = fresh_entry id (w.statistics.map k) in
    let here : (k == k) ≡ true = ground arith in
    (
      (p, set_bucket (store_stats (after_address (after_alloc w)) p s) k (some p)),
      rw memory refl,
      record {
        after = update cells k ((p, id) ∷ cells k);
        map = front-IsMap id cells k w m at missing free;
        found = rw (here, same_ℤ-refl id) refl;
        known = λ q e. cc;
        kept = λ id' ne. rw (here, ne) refl;
        others = λ j ne. ground arith;
        elsewhere = λ q ne. update_other w.client_stats p q (some s) (λ e. ne (sym e));
        growth = rw here (omega arith);
        value = s;
        stored = ground arith;
        client = refl;
        fresh = λ _. refl;
        more = λ q t e. cc;
      },
    )

-- In a well-formed map, with fuel for the entries of the bucket, and a free address where memory is
-- asked for, `get_client_stats` returns the address of the client's entry, which is in its bucket
-- from then on. The map stays well formed, and the bucket has at most one entry more; an entry that
-- was there is found, with one reference more, and a new one has two. Other clients and other buckets
-- keep their entries, and every other entry keeps its content.
pub get_client_stats-Gets :
    (fuel : ℕ) (id : ℤ) (cells : ℕ → Cells) (k : ℕ) (w : World)
    → IsMap w cells
    → bucket w.statistics.map_size id ≡ ok k
    → length (cells k) < fuel
    → w.allocs 0 ≡ true
    → w.client_stats (w.addresses 0) ≡ none
    → Returns (get_client_stats fuel id w) (Gets id cells k w)
unfolding get_client_stats found_or_new
get_client_stats-Gets fuel id cells k w m at enough memory free =
    let (r, run, (_, found)) = search_lem fuel id w none (cells k) (m.linked k) enough in
    elim (Option-cases (find id (cells k))) [
      | inl missing ↦
          let (q, run', g) = new_entry_lem id cells k w m at missing memory free in
          (
            q,
            rw (get_client_stats, at, m.heads k, run)
                (ap (found_or_new k id w) (found ∙ missing) ∙ run'),
            g,
          )
      | inr (p, here) ↦
          let (s, stored, client) = find-entry w.client_stats id p (cells k) (m.linked k) here in
          let s' : ClientStats = record s { refcnt = refcount_incr s.refcnt } in
          (
            (p, store_stats w p s'),
            rw (get_client_stats, at, m.heads k, run)
                (ap (found_or_new k id w) (found ∙ here)
                  ∙ rw (found_or_new, entry_lem w p s stored) refl),
            record {
              after = cells;
              map = touch-IsMap w cells p s s' stored refl refl m;
              found = here;
              known = λ q e. (ground (arith, sym here ∙ e), refl);
              kept = λ id' _. refl;
              others = λ j _. refl;
              elsewhere = λ q ne. update_other w.client_stats p q (some s') (λ e. ne (sym e));
              growth = omega arith;
              value = s';
              stored = ground arith;
              client = client;
              fresh = λ e. cc;
              more = λ q t e f.
                  let both : some q ≡ some p = sym e ∙ here in
                  let q-p : q ≡ p = cc in
                  let two : some t ≡ some s = sym f ∙ ap w.client_stats q-p ∙ stored in
                  let t-s : s ≡ t = cc in
                  ap (λ (x : ClientStats). record x { refcnt = refcount_incr x.refcnt }) t-s;
            },
          )
    ]
