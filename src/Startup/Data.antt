-- ===== src/Startup/Data.antt =====
-- `main` enters the test data, after which connections may be opened as before.
use synthetic_client.Base.{ℕ, zero, suc, ◌+◌, ◌≡◌, refl, ap, ◌∙◌, Bool, true, Returns, arith}
use synthetic_client.Base.Int.{ℤ, pos, negsuc}
use synthetic_client.World.{World, Freelist}
use synthetic_client.Conn.New.Ready.{HasRoom-le, IsReady, IsReady-le}
use synthetic_client.Stats.{bucket}
use synthetic_client.Stats.Enters.{CanEnter}
use synthetic_client.Stats.Users.{Populates, stat_test_data-Populates}
use synthetic_client.Startup.Main.{test_data}

IsReady-CanEnter :
    (id : ℤ) (k fuel n : ℕ) (w : World) → (h : IsReady id k fuel n w) → CanEnter h.cells fuel n w
IsReady-CanEnter id k fuel n w h = record {
  map = h.map;
  enough = h.enough;
  memory = h.memory;
  distinct = h.distinct;
  unused = h.unused;
}

-- After the clients are entered, connections may be opened as before.
Populates-IsReady :
    (id : ℤ) (k fuel more amount : ℕ) (w v : World)
    → (h : IsReady id k fuel (amount + more) w) → Populates h.cells fuel more amount w v
    → IsReady id k fuel more v
Populates-IsReady id k fuel more amount w v h p = record {
  cells = p.after;
  map = p.can.map;
  key = ap (λ m. bucket m id) p.leaves.map_size ∙ h.key;
  enough = p.can.enough;
  memory = p.can.memory;
  distinct = p.can.distinct;
  unused = p.can.unused;
  some_room = omega (arith, h.some_room);
  room =
      p.leaves.room more (omega (arith, h.some_room))
        (HasRoom-le more (amount + more) w (omega arith) h.room);
  empty = ap (λ (l : Freelist). l.freecurr) p.leaves.keeps.freelist ∙ h.empty;
}

-- The number of users that are entered.
abbrev pub number_of : ℤ → ℕ
number_of (pos n) = n
number_of (negsuc n) = 0

pub test_data-IsReady :
    (fuel k more : ℕ) (users : ℤ) (w : World)
    → IsReady (pos 0) k fuel (number_of users + more) w
    → ((i : ℕ) → w.events i ≡ true)
    → Returns
        (test_data fuel users w)
        λ v. IsReady (pos 0) k fuel more v × ((i : ℕ) → v.events i ≡ true)
unfolding test_data
test_data-IsReady fuel k more (negsuc n) w h events =
    (w, refl, (IsReady-le (pos 0) k fuel more (0 + more) w (omega arith) h, events))
test_data-IsReady fuel k more (pos zero) w h events =
    (w, refl, (IsReady-le (pos 0) k fuel more (0 + more) w (omega arith) h, events))
test_data-IsReady fuel k more (pos (suc n)) w h events =
    let (v, run, p) =
      stat_test_data-Populates (suc n) more fuel h.cells w
        (IsReady-CanEnter (pos 0) k fuel (suc n + more) w h) in
    (
      v,
      run,
      (
        Populates-IsReady (pos 0) k fuel more (suc n) w v h p,
        λ i. ap (λ (f : ℕ → Bool). f i) p.leaves.keeps.events ∙ events i,
      ),
    )
