-- ===== src/Stats/Remove.antt =====
-- `rm_client_stats` takes an entry out of its bucket. The first entry takes the others with it.
use synthetic_client.Base.{
  ℕ, ◌≡◌, ◌≢◌, ◌<◌, refl, sym, ap, ◌∙◌, subst, inl, inr, Bool, true, false, ◌==◌, if◌then◌else◌,
  ==_iff, Bool-cases, Option-cases, Option, none, some, [], ◌∷◌, update, length, ok, Returns, arith,
}
use synthetic_client.Base.Int.{ℤ, same_ℤ}
use synthetic_client.World.{World, ClientStats}
use synthetic_client.Conn.Close.{refcount_decr, drop_stats}
use synthetic_client.Stats.{bucket, set_bucket, unlink, remove, rm_client_stats}
use synthetic_client.Stats.Buckets.{
  Cells, first, Linked, AreKeyed, AreDistinct, IsMap, find, before, entry_lem, search_lem,
}
use synthetic_client.Stats.Get.{find-entry}
use synthetic_client.Stats.Delete.{
  Apart, delete, left, update-Linked, elsewhere-Apart, pick, gone-Apart, AreDistinct-left,
  AreKeyed-left, left-missing,
}
use synthetic_client.Stats.Skip.{Skips, skip_entry}

-- What becomes of the entry that is removed.
abbrev pub released : ClientStats → Option ClientStats
released s =
    if refcount_decr s.refcnt == 0
    then none
    else some (record s { refcnt = refcount_decr s.refcnt })

drop_stats_lem :
    (p : ℕ) (s : ClientStats) (w : World)
    → drop_stats p s w ≡ record w { client_stats = update w.client_stats p (released s) }
unfolding drop_stats
drop_stats_lem p s w = elim (Bool-cases (refcount_decr s.refcnt == 0)) [
  | inl last ↦ rw last refl
  | inr more ↦ rw more refl
]

-- What removing the statistics of a client, whose bucket is `k`, achieves.
pub record Removes (id : ℤ) (cells : ℕ → Cells) (k : ℕ) (w v : World) : Type 0 where
  pub map : IsMap v (update cells k (left id (cells k)))
  pub unknown : find id (cells k) ≡ none → v ≡ w
  pub refs :
      (p : ℕ) (s : ClientStats)
      → find id (cells k) ≡ some p
      → w.client_stats p ≡ some s
      → v.client_stats p ≡ released s

-- The map with another bucket `k`.
left-IsMap :
    (id : ℤ) (cells : ℕ → Cells) (k : ℕ) (w v : World)
    → IsMap w cells
    → v.statistics.map_size ≡ w.statistics.map_size
    → v.statistics.map k ≡ first (left id (cells k))
    → ((j : ℕ) → k ≢ j → v.statistics.map j ≡ w.statistics.map j)
    → Linked v.client_stats (left id (cells k))
    → ((j : ℕ) → k ≢ j → Linked v.client_stats (cells j))
    → IsMap v (update cells k (left id (cells k)))
left-IsMap id cells k w v m size head heads linked others = record {
  heads = λ j. elim (Bool-cases (k == j)) [
    | inl same ↦ rw same (ap v.statistics.map (sym ((==_iff k j).0 same)) ∙ head)
    | inr other ↦ rw other (heads j (ground arith) ∙ m.heads j)
  ];
  linked = λ j. elim (Bool-cases (k == j)) [
    | inl same ↦ rw same linked
    | inr other ↦ rw other (others j (ground arith))
  ];
  keyed = λ j.
      subst (λ n. AreKeyed n j (update cells k (left id (cells k)) j)) (sym size)
        (elim (Bool-cases (k == j)) [
          | inl same ↦ rw same (
              AreKeyed-left _ j id (cells k) (
                subst (λ i. AreKeyed w.statistics.map_size i (cells k)) ((==_iff k j).0 same)
                  (m.keyed k)))
          | inr other ↦ rw other (m.keyed j)
        ]);
  distinct = λ j. elim (Bool-cases (k == j)) [
    | inl same ↦ rw same (AreDistinct-left id (cells k) (m.distinct k))
    | inr other ↦ rw other (m.distinct j)
  ];
}

-- What taking the entry `s` at `p` out of bucket `k`, whose entries are `cs`, achieves.
record Leaves (id : ℤ) (k : ℕ) (cs : Cells) (p : ℕ) (s : ClientStats) (w v : World) : Type 0 where
  size : v.statistics.map_size ≡ w.statistics.map_size
  head : v.statistics.map k ≡ first (left id cs)
  heads : (j : ℕ) → k ≢ j → v.statistics.map j ≡ w.statistics.map j
  linked : Linked v.client_stats (left id cs)
  others :
      (j : ℕ) (ds : Cells)
      → k ≢ j
      → AreKeyed w.statistics.map_size j ds
      → Linked w.client_stats ds
      → Linked v.client_stats ds
  gone : v.client_stats p ≡ released s

remove_first :
    (w : World) (id : ℤ) (k q : ℕ) (i : ℤ) (cs : Cells) (s : ClientStats)
    → same_ℤ i id ≡ true
    → bucket w.statistics.map_size s.client_id ≡ ok k
    → w.client_stats q ≡ some s
    → Leaves id k
        ((q, i) ∷ cs)
        q
        s
        w
        (record (set_bucket w k none) { client_stats = update w.client_stats q (released s) })
remove_first w id k q i cs s same key stored = record {
  size = refl;
  head = rw same (ground arith);
  heads = λ j ne. ground arith;
  linked = rw same tt;
  others = λ j ds ne b l.
      update-Linked w.client_stats q _ ds
        (elsewhere-Apart w.client_stats w.statistics.map_size q j k s ds stored key
          (λ x. ne (sym x)) b l)
        l;
  gone = ground arith;
}

remove_later :
    (w : World) (id : ℤ) (k q : ℕ) (i : ℤ) (cs : Cells) (p : ℕ) (s : ClientStats)
    → Linked w.client_stats ((q, i) ∷ cs)
    → AreDistinct ((q, i) ∷ cs)
    → same_ℤ i id ≡ false
    → find id cs ≡ some p
    → bucket w.statistics.map_size s.client_id ≡ ok k
    → w.client_stats p ≡ some s
    → w.statistics.map k ≡ some q
    → (r : Skips w w.statistics.map_size k q i id cs s)
    → Leaves id k ((q, i) ∷ cs) p s w (record w {
      client_stats = update (update w.client_stats r.at (some r.new)) p (released s);
    })
remove_later w id k q i cs p s l d other e key stored head r =
    let f = update w.client_stats r.at (some r.new) in
    let found : find id ((q, i) ∷ cs) ≡ some p = rw other e in
    let gone : Apart p ((q, i) ∷ delete id cs) =
      subst (λ (b : Bool). Apart p (if b then cs else (q, i) ∷ delete id cs)) other
        (gone-Apart w.client_stats id p ((q, i) ∷ cs) l d found) in
    record {
      size = refl;
      head = rw other head;
      heads = λ j ne. refl;
      linked = rw other (update-Linked f p (released s) ((q, i) ∷ delete id cs) gone r.linked);
      others = λ j ds ne b m.
          let n = w.statistics.map_size in
          let ne' : j ≢ k = λ x. ne (sym x) in
          update-Linked f p _ ds (elsewhere-Apart w.client_stats n p j k s ds stored key ne' b m) (
            update-Linked w.client_stats r.at _ ds
              (elsewhere-Apart w.client_stats n r.at j k r.old ds r.stored r.key ne' b m) m);
      gone = ground arith;
    }

remove-Leaves :
    (w : World) (id : ℤ) (k : ℕ) (cs : Cells) (p : ℕ) (s : ClientStats)
    → Linked w.client_stats cs
    → AreDistinct cs
    → AreKeyed w.statistics.map_size k cs
    → find id cs ≡ some p
    → bucket w.statistics.map_size s.client_id ≡ ok k
    → w.client_stats p ≡ some s
    → w.statistics.map k ≡ first cs
    → Returns (remove k (before none id cs) (some p) w) (Leaves id k cs p s w)
unfolding remove unlink
remove-Leaves w id k [] p s l d b e key stored head = cc
remove-Leaves w id k ((q, i) ∷ cs) p s l d b e key stored head = elim (Bool-cases (same_ℤ i id)) [
  | inl same ↦
      let here : some q ≡ some p = pick id i q cs (some p) true same e in
      let q-p : q ≡ p = cc in
      let v = record (set_bucket w k none) {
        client_stats = update w.client_stats p (released s);
      } in
      (
        v,
        rw same (rw (remove, entry_lem w p s stored, drop_stats_lem p s) refl),
        subst
            (λ a. Leaves id k ((q, i) ∷ cs) a s w (record (set_bucket w k none) {
              client_stats = update w.client_stats a (released s);
            }))
            q-p (remove_first w id k q i cs s same key (ap w.client_stats q-p ∙ stored)),
      )
  | inr other ↦
      let e' = pick id i q cs (some p) false other e in
      let r = skip_entry w w.statistics.map_size k q i id cs p s l d b e' stored in
      (
        _,
        rw other (rw (remove, entry_lem w p s stored, r.run, drop_stats_lem p s) refl),
        remove_later w id k q i cs p s l d other e' key stored head r,
      )
]

-- In a well-formed map, with fuel for the entries of the bucket, `rm_client_stats` returns, and the
-- map stays well formed. Without an entry of the client nothing changes. An entry behind the first
-- one is taken out of its bucket; if it is the first one, the bucket is empty afterwards and the
-- entries behind it are lost. The entry has one reference less, and is freed with its last one.
pub rm_client_stats-Removes :
    (fuel : ℕ) (id : ℤ) (cells : ℕ → Cells) (k : ℕ) (w : World)
    → IsMap w cells
    → bucket w.statistics.map_size id ≡ ok k
    → length (cells k) < fuel
    → Returns (rm_client_stats fuel id w) (Removes id cells k w)
unfolding rm_client_stats remove
rm_client_stats-Removes fuel id cells k w m at enough =
    let ((prev, cs), run, (before_at, found)) =
      search_lem fuel id w none (cells k) (m.linked k) enough in
    elim (Option-cases (find id (cells k))) [
      | inl missing ↦
          let same = left-missing id (cells k) missing in
          (
            w,
            rw (rm_client_stats, at, m.heads k, run)
                (ap (λ o. remove k prev o w) (found ∙ missing)),
            record {
              map =
                  left-IsMap id cells k w w m refl (m.heads k ∙ ap first (sym same)) (λ j _. refl)
                    (subst (Linked w.client_stats) (sym same) (m.linked k)) (λ j _. m.linked j);
              unknown = λ _. refl;
              refs = λ p s e. cc;
            },
          )
      | inr (p, here) ↦
          let (s, stored, client) = find-entry w.client_stats id p (cells k) (m.linked k) here in
          let (v, run', r) =
            remove-Leaves w id k (cells k) p s (m.linked k) (m.distinct k) (m.keyed k) here
              (ap (bucket w.statistics.map_size) client ∙ at) stored (m.heads k) in
          (
            v,
            rw (rm_client_stats, at, m.heads k, run)
                (ap (λ o. remove k o cs w) before_at
                  ∙ ap (λ o. remove k (before none id (cells k)) o w) (found ∙ here)
                  ∙ run'),
            record {
              map =
                  left-IsMap id cells k w v m r.size r.head r.heads r.linked
                    (λ j ne. r.others j (cells j) ne (m.keyed j) (m.linked j));
              unknown = λ e. cc;
              refs = λ q t e f.
                  let both : some q ≡ some p = sym e ∙ here in
                  let q-p : q ≡ p = cc in
                  let two : some t ≡ some s = sym f ∙ ap w.client_stats q-p ∙ stored in
                  let t-s : t ≡ s = cc in ap v.client_stats q-p ∙ r.gone ∙ ap released (sym t-s);
            },
          )
    ]
