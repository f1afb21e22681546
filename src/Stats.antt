-- ===== src/Stats.antt =====
-- src/stats.c: the statistics of the clients, in a hash map of linked entries. What an operation
-- does to an entry under its lock is one step. The map has a lock, but it is used without it: what
-- holds here holds of operations on the map that do not run at the same time.
pub mod Buckets
pub mod Get
pub mod Delete
pub mod Skip
pub mod Remove
pub mod Draws
pub mod Enters
pub mod Users
use synthetic_client.Base.{
  ℕ, zero, suc, ◌+◌, ◌%◌, Bool, true, false, ◌==◌, if◌then◌else◌, Option, none, some, update, Run,
  ok, fault, out_of_bounds, dangling, no_fuel, ◌>>=◌,
}
use synthetic_client.Base.Int.{ℤ, pos, negsuc, same_ℤ}
use synthetic_client.World.{World, ClientStats, Statistics, after_alloc, after_address, after_rand}
use synthetic_client.Conn.Close.{refcount_incr, refcount_decr, store_stats, drop_stats}

abbrev pub stats_hash_map_size : ℕ
stats_hash_map_size = 1_000_000

unfoldable pub new_stats : Statistics
new_stats = record { map_size = stats_hash_map_size; map = λ _. none }

-- `client_id % s->map_size` as an index: the remainder has the sign of the identifier.
unfoldable pub bucket : ℕ → ℤ → Run ℕ
bucket map_size (pos n) = ok (n % map_size)
bucket map_size (negsuc n) = if (n + 1) % map_size == 0 then ok 0 else fault out_of_bounds

-- `*cs`
unfoldable pub entry : World → ℕ → Run ClientStats
entry w p = elim (w.client_stats p) [ none ↦ fault dangling | some s ↦ ok s ]

-- The `while` over the entries of a bucket, with fuel: the entry before, and the entry that is
-- found.
unfoldable pub search_from : ℕ → ℤ → World → Option ℕ → Option ℕ → Run (Option ℕ × Option ℕ)
unfolding entry
search_from zero client_id w prev cs = fault no_fuel
search_from (suc fuel) client_id w prev none = ok (prev, none)
search_from (suc fuel) client_id w prev (some p) = entry w p >>= λ s.
    let rest = search_from fuel client_id w (some p) s.next in
    if same_ℤ s.client_id client_id then ok (prev, some p) else rest

abbrev pub set_bucket : World → ℕ → Option ℕ → World
set_bucket w key p = record w {
  statistics = record (w.statistics) { map = update w.statistics.map key p };
}

-- What `calloc` gives, with a reference for the map and one for the caller.
abbrev pub fresh_entry : ℤ → Option ℕ → ClientStats
fresh_entry client_id next = record {
  refcnt = 2;
  next = next;
  client_id = client_id;
  total_connections = 0;
  live_connections = 0;
  requests = 0;
}

-- A new entry at the front of its bucket. `calloc` is not checked.
unfoldable pub new_entry : ℕ → ℤ → World → Run (ℕ × World)
new_entry key client_id w =
    if w.allocs 0
    then (let p = w.addresses 0 in
        let s = fresh_entry client_id (w.statistics.map key) in
        ok (p, set_bucket (store_stats (after_address (after_alloc w)) p s) key (some p)))
    else fault dangling

-- What follows the search: the entry that is found has one reference more.
unfoldable pub found_or_new : ℕ → ℤ → World → Option ℕ → Run (ℕ × World)
unfolding new_entry
found_or_new key client_id w none = new_entry key client_id w
found_or_new key client_id w (some p) =
    entry w p >>= λ s. ok (p, store_stats w p (record s { refcnt = refcount_incr s.refcnt }))

unfoldable pub get_client_stats : ℕ → ℤ → World → Run (ℕ × World)
unfolding search_from found_or_new
get_client_stats fuel client_id w = bucket w.statistics.map_size client_id >>= λ key.
    search_from fuel client_id w none (w.statistics.map key) >>= λ r.
    found_or_new key client_id w r.1

-- Take the entry out of its bucket. If it is the first one, the bucket becomes empty.
unfoldable pub unlink : ℕ → Option ℕ → ClientStats → World → Run World
unlink key none s w = ok (set_bucket w key none)
unlink key (some q) s w =
    entry w q >>= λ before. ok (store_stats w q (record before { next = s.next }))

unfoldable pub remove : ℕ → Option ℕ → Option ℕ → World → Run World
unfolding unlink
remove key prev none w = ok w
remove key prev (some p) w = entry w p >>= λ s. unlink key prev s w >>= λ v. ok (drop_stats p s v)

unfoldable pub rm_client_stats : ℕ → ℤ → World → Run World
unfolding search_from remove
rm_client_stats fuel client_id w = bucket w.statistics.map_size client_id >>= λ key.
    search_from fuel client_id w none (w.statistics.map key) >>= λ r. remove key r.0 r.1 w

-- The references that the test data gets are given back, and nothing is freed.
unfoldable pub stat_test_data : ℕ → ℕ → World → Run World
unfolding get_client_stats
stat_test_data fuel zero w = ok w
stat_test_data fuel (suc amount) w =
    get_client_stats fuel (pos (w.rands 0)) (after_rand w) >>= λ (p, v). entry v p >>= λ s.
    stat_test_data fuel amount (store_stats v p (record s { refcnt = refcount_decr s.refcnt }))
