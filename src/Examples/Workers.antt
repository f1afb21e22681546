-- ===== src/Examples/Workers.antt =====
-- The theorems on the workers and on the statistics at concrete inputs that meet their hypotheses.
use synthetic_client.Base.{
  ℕ, ◌≡◌, refl, none, List, [], ◌∷◌, ◌++◌, Returns, ok, arith, some, if◌then◌else◌, ◌==◌, ==_iff,
  Bool-cases, inl, inr, sym, ap,
}
use synthetic_client.Base.Int.{ℤ, pos}
use synthetic_client.World.{World}
use synthetic_client.Queue.Chain.{Cells}
use synthetic_client.Queue.{conn_queue_new}
use synthetic_client.Threads.{next_thread}
use synthetic_client.Threads.Serves.{Serves}
use synthetic_client.Threads.Turns.{dispatch_all, shares, sockets, HasFree, dispatch_all-shares}
use synthetic_client.Stats.{bucket, get_client_stats, rm_client_stats}
use synthetic_client.Stats.Buckets.{IsMap}
use synthetic_client.Stats.Get.{Gets, get_client_stats-Gets}
use synthetic_client.Stats.Remove.{Removes, rm_client_stats-Removes}
use synthetic_client.Samples.{surroundings, sample_stats}

abbrev pub no_items : ℕ → Cells
no_items i = []

surroundings-Serves : Serves surroundings.workers no_items
unfolding conn_queue_new
surroundings-Serves = record {
  some_worker = omega arith;
  queues = λ i. record { linked = tt; head = refl; tail = refl };
  apart = λ i j ne. tt;
  pipes = λ i. omega arith;
}

surroundings-HasFree : HasFree surroundings
surroundings-HasFree = record {
  memory = λ i. refl;
  free = λ i. refl;
  distinct = λ i j ne e. ne (omega (arith, e));
}

dispatch_all-shares_example : Returns (dispatch_all (5 ∷ 6 ∷ 7 ∷ []) surroundings) λ v.
    (after : ℕ → Cells) × Serves v.workers after
    × ((i : ℕ)
        → sockets (after i)
          ≡ sockets (no_items i) ++ shares 2 (next_thread surroundings.workers) (5 ∷ 6 ∷ 7 ∷ []) i)
dispatch_all-shares_example =
    dispatch_all-shares (5 ∷ 6 ∷ 7 ∷ []) surroundings no_items surroundings-Serves
      surroundings-HasFree

-- No client has statistics.
abbrev pub unknown : World
unknown = record surroundings { client_stats = λ _. none }

abbrev pub no_entries : ℕ → List (ℕ × ℤ)
no_entries k = []

unknown-IsMap : IsMap unknown no_entries
unknown-IsMap = record { heads = λ k. refl; linked = λ k. tt; keyed = λ k. tt; distinct = λ k. tt }

pub bucket-2007 : bucket unknown.statistics.map_size (pos 2007) ≡ ok 7
unfolding bucket
bucket-2007 = refl

get_client_stats-Gets_example :
    Returns (get_client_stats 3 (pos 2007) unknown) (Gets (pos 2007) no_entries 7 unknown)
get_client_stats-Gets_example =
    get_client_stats-Gets 3 (pos 2007) no_entries 7 unknown unknown-IsMap bucket-2007 (omega arith)
      refl refl

-- Two clients share a bucket.
abbrev two_clients : World
two_clients = record surroundings {
  client_stats = λ p.
      if p == 50
      then some (record sample_stats { client_id = pos 2007; next = some 60 })
      else if p == 60
      then some sample_stats
      else none;
  statistics = record { map_size = 1000; map = λ k. if k == 7 then some 50 else none };
}

abbrev two_entries : ℕ → List (ℕ × ℤ)
two_entries k = if k == 7 then (50, pos 2007) ∷ (60, pos 7) ∷ [] else []

two_clients-IsMap : IsMap two_clients two_entries
unfolding bucket
two_clients-IsMap = record {
  heads = λ k. elim (Bool-cases (k == 7)) [ inl same ↦ rw same refl | inr other ↦ rw other refl ];
  linked = λ k. elim (Bool-cases (k == 7)) [
    | inl same ↦ rw same (
      record { value = _; stored = refl; client = refl; next = refl },
      (record { value = _; stored = refl; client = refl; next = refl }, tt),
    )
    | inr other ↦ rw other tt
  ];
  keyed = λ k. elim (Bool-cases (k == 7)) [
    | inl same ↦
        rw same (ap ok (sym ((==_iff k 7).0 same)), (ap ok (sym ((==_iff k 7).0 same)), tt))
    | inr other ↦ rw other tt
  ];
  distinct = λ k. elim (Bool-cases (k == 7)) [
    | inl same ↦ rw same (refl, (refl, tt))
    | inr other ↦ rw other tt
  ];
}

bucket-7 : bucket two_clients.statistics.map_size (pos 7) ≡ ok 7
unfolding bucket
bucket-7 = refl

rm_client_stats-Removes_example :
    Returns (rm_client_stats 3 (pos 7) two_clients) (Removes (pos 7) two_entries 7 two_clients)
rm_client_stats-Removes_example =
    rm_client_stats-Removes 3 (pos 7) two_entries 7 two_clients two_clients-IsMap bucket-7
      (omega arith)
