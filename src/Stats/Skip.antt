-- ===== src/Stats/Skip.antt =====
-- The write by which `rm_client_stats` takes an entry out of its chain.
use synthetic_client.Base.{
  ℕ, ◌≡◌, ◌≢◌, refl, sym, ap, ◌∙◌, inl, inr, true, false, Bool-cases, some, [], ◌∷◌, update, ok,
  arith,
}
use synthetic_client.Base.Int.{ℤ, same_ℤ}
use synthetic_client.World.{World, ClientStats}
use synthetic_client.Conn.Close.{store_stats}
use synthetic_client.Stats.{bucket, unlink}
use synthetic_client.Stats.Buckets.{
  Cells, first, Linked, AreKeyed, AreDistinct, find, before, entry_lem,
}
use synthetic_client.Stats.Delete.{Apart, delete, update-IsEntry, update-Linked, tail-Apart, pick}

-- The write that takes an entry out of the chain behind `q`.
pub record Skips (w : World) (n k q : ℕ) (i id : ℤ) (cs : Cells) (s : ClientStats) : Type 0 where
  pub at : ℕ
  pub old : ClientStats
  pub new : ClientStats
  pub run : unlink k (before (some q) id cs) s w ≡ ok (store_stats w at new)
  pub stored : w.client_stats at ≡ some old
  pub key : bucket n old.client_id ≡ ok k
  pub linked : Linked (update w.client_stats at (some new)) ((q, i) ∷ delete id cs)
  pub frame : (a : ℕ) → Apart a ((q, i) ∷ cs) → a ≢ at

pub skip_entry :
    (w : World) (n k q : ℕ) (i id : ℤ) (cs : Cells) (p : ℕ) (s : ClientStats)
    → Linked w.client_stats ((q, i) ∷ cs)
    → AreDistinct ((q, i) ∷ cs)
    → AreKeyed n k ((q, i) ∷ cs)
    → find id cs ≡ some p
    → w.client_stats p ≡ some s
    → Skips w n k q i id cs s
unfolding unlink
skip_entry w n k q i id [] p s l d b e stored = cc
skip_entry w n k q i id ((c, id') ∷ cs) p s (h, (h', l)) (missing, d) (at, b) e stored =
    elim (Bool-cases (same_ℤ id' id)) [
      | inl same ↦
          let here : some c ≡ some p = pick id id' c cs (some p) true same e in
          let c-p : c ≡ p = cc in
          let both : some h'.value ≡ some s = sym h'.stored ∙ ap w.client_stats c-p ∙ stored in
          let value : h'.value ≡ s = cc in
          let next : s.next ≡ first cs = ap (λ (x : ClientStats). x.next) (sym value) ∙ h'.next in
          let (_, apart) =
            tail-Apart w.client_stats q i ((c, id') ∷ cs) (h, (h', l)) (missing, d) in
          record {
            at = q;
            old = h.value;
            new = record (h.value) { next = s.next };
            run = rw same (rw (unlink, entry_lem w q h.value h.stored) refl);
            stored = h.stored;
            key = ap (bucket n) h.client ∙ at;
            linked = rw same (
              record {
                value = record (h.value) { next = s.next };
                stored = ground arith;
                client = h.client;
                next = next;
              },
              update-Linked w.client_stats q _ cs apart l,
            );
            frame = λ a (ne, _). ne;
          }
      | inr other ↦
          let r =
            skip_entry w n k c id' id cs p s (h', l) d b (pick id id' c cs (some p) false other e)
              stored in
          let apart = tail-Apart w.client_stats q i ((c, id') ∷ cs) (h, (h', l)) (missing, d) in
          let ne : q ≢ r.at = r.frame q apart in
          record {
            at = r.at;
            old = r.old;
            new = r.new;
            run = rw other r.run;
            stored = r.stored;
            key = r.key;
            linked = rw other (
              update-IsEntry w.client_stats r.at (some r.new) q i (some c) (λ x. ne (sym x)) h,
              r.linked,
            );
            frame = λ a (_, away). r.frame a away;
          }
    ]
