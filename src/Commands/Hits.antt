-- ===== src/Commands/Hits.antt =====
-- What the tokens of a get command add to its response, with memory to be had.
use synthetic_client.Base.{
  ℕ, zero, suc, ◌+◌, ◌≤◌, ◌<◌, ◌≡◌, refl, sym, ap, ◌∙◌, inl, inr, Bool, true, false, List, [], ◌++◌,
  append_assoc, length, leb, Run, Returns, IfOk, IfOk->>=, Bool-cases, arith, subst, lt→ltb, le→ltb,
  ◌==◌,
}
use synthetic_client.World.{World}
use synthetic_client.Conn.{Conn, Output, Ptr}
use synthetic_client.Conn.Iov.Tiled.{IsBuilt}
use synthetic_client.Conn.Iov.Payload.{written}
use synthetic_client.Conn.Iov.Plenty.{Plenty, conn_add_iov-Plenty}
use synthetic_client.Items.{Item, item_get}
use synthetic_client.Protocol.{Token, key_max_length}
use synthetic_client.Protocol.Tokenize.{word_token}
use synthetic_client.Commands.{Config, then_add, add_item, Keys, ensure_slot, add_hit, get_key}
use synthetic_client.Commands.Replies.{server_memory, item_reply, Extends, add_item-Extends}

-- Both what a run that returns has, and what it has if it returns.
pub Returns-IfOk {ℓ κ ι} :
    {A : Type ℓ} (P : A → Type κ) (Q : A → Type ι) (m : Run A)
    → Returns m P
    → IfOk Q m
    → Returns m (λ a. P a × Q a)
Returns-IfOk P Q m (a, e, p) q = (a, e, (p, subst (IfOk Q) e q))

abbrev pub Succeeds : Bool × Output × World → Type 0
Succeeds r = (r.0 ≡ true) × Plenty r.2

pub then_add-Succeeds :
    (iov_max : ℕ) (p : Ptr) (n : ℕ) (before : Run (Bool × Output × World))
    → IfOk Succeeds before
    → IfOk Succeeds (then_add iov_max p n before)
unfolding then_add
then_add-Succeeds iov_max p n before h = IfOk->>= Succeeds before _ λ r run.
    let (good, m) = subst (IfOk Succeeds) run h in
    rw good (conn_add_iov-Plenty iov_max r.1 p n r.2 m)

add_item_lem :
    (buffer content : ℕ → ℕ) (iov_max : ℕ) (it : Item) (o : Output) (w : World)
    → IsBuilt o
    → 1 ≤ o.msgused
    → Plenty w
    → Returns
        (add_item iov_max it o w)
        (λ r. Extends (server_memory buffer content) o (item_reply content it) r × Succeeds r)
unfolding add_item
add_item_lem buffer content iov_max it o w b u m =
    Returns-IfOk _ Succeeds _ (add_item-Extends buffer content iov_max it o w b u) (
      then_add-Succeeds iov_max _ _ _
        (then_add-Succeeds iov_max _ _ _ (conn_add_iov-Plenty iov_max o _ 6 w m)))

-- The answers for so many items.
abbrev pub items : (ℕ → ℕ) → Item → ℕ → List ℕ
items content it zero = []
items content it (suc n) = item_reply content it ++ items content it n

-- What the loop over the keys relies on, with `i` items so far.
pub record IsReady (i : ℕ) (c : Conn) (w : World) : Type 0 where
  pub built : IsBuilt c.output
  pub some_msg : 1 ≤ c.msgused
  pub some_slot : 1 ≤ c.isize
  pub slots : i ≤ c.isize
  pub plenty : Plenty w

-- Between two connections, some bytes were added to the output.
pub record Gains (buffer content : ℕ → ℕ) (s : List ℕ) (c d : Conn) : Type 0 where
  pub output :
      written (server_memory buffer content) d.output
      ≡ written (server_memory buffer content) c.output ++ s
  pub current : d.msgcurr ≡ c.msgcurr

pub Gains-trans :
    (buffer content : ℕ → ℕ) (s t : List ℕ) (c d e : Conn)
    → Gains buffer content s c d
    → Gains buffer content t d e
    → Gains buffer content (s ++ t) c e
Gains-trans buffer content s t c d e g h = record {
  output =
      h.output
      ∙ ap (λ l. l ++ t) g.output
      ∙ append_assoc (written (server_memory buffer content) c.output) s t;
  current = h.current ∙ g.current;
}

-- There is a slot for the next item.
ensure_slot_lem :
    (c : Conn) (i : ℕ) (w : World)
    → IsReady i c w
    → let r = ensure_slot c i w in
      (r.0 ≡ true) × (r.1.output ≡ c.output) × (i < r.1.isize) × Plenty r.2
unfolding ensure_slot
ensure_slot_lem c i w h = elim (Bool-cases (leb c.isize i)) [
  | inl full ↦
      rw (full, h.plenty 0) (refl, refl, omega (arith, h.some_slot, h.slots), λ k. h.plenty (suc k))
  | inr free ↦ rw free (refl, refl, ground arith, h.plenty)
]

add_hit_lem :
    (buffer content : ℕ → ℕ) (again : Conn → ℕ → World → Run Keys) (config : Config) (t : Token)
    (i : ℕ) (r : Bool × Conn × World)
    → r.0 ≡ true
    → IsBuilt r.1.output
    → 1 ≤ r.1.msgused
    → i < r.1.isize
    → Plenty r.2
    → (d : Conn) × (v : World) × (add_hit again config config.fixed_item t i r ≡ again d (i + 1) v)
      × IsReady (i + 1) d v
      × Gains buffer content (item_reply content config.fixed_item) r.1 d
unfolding add_hit
add_hit_lem buffer content again config t i (false, c, w) e b u s m = absurd cc
add_hit_lem buffer content again config t i (true, c, w) e b u s m =
    let (r, run, (x, (good, m'))) =
      add_item_lem buffer content config.iov_max config.fixed_item c.output w b u m in
    (
      record c { output = r.1 },
      r.2,
      rw (run, good, lt→ltb i c.isize s) refl,
      record {
        built = x.built;
        some_msg = x.some_msg;
        some_slot = omega arith;
        slots = omega arith;
        plenty = m';
      },
      record { output = x.whole good; current = x.current },
    )

-- A key of at least one byte and at most `key_max_length`.
abbrev pub IsKey : List ℕ → Type 0
IsKey k = (1 ≤ length k) × (length k ≤ key_max_length)

pub get_key_lem :
    (buffer content : ℕ → ℕ) (again : Conn → ℕ → World → Run Keys) (config : Config) (k : List ℕ)
    (i : ℕ) (c : Conn) (w : World)
    → IsKey k
    → IsReady i c w
    → (d : Conn) × (v : World) × (get_key again config (word_token k) c i w ≡ again d (i + 1) v)
      × IsReady (i + 1) d v
      × Gains buffer content (item_reply content config.fixed_item) c d
unfolding get_key item_get
get_key_lem buffer content again config k i c w (some_byte, short) h =
    let (good, same, slot, m) = ensure_slot_lem c i w h in
    let nonzero : (length k == 0) ≡ false = ground arith in
    let (d, v, run, ready, g) =
      add_hit_lem buffer content again config (word_token k) i (ensure_slot c i w) good
        (subst IsBuilt (sym same) h.built) (subst (λ o. 1 ≤ o.msgused) (sym same) h.some_msg) slot
        m in
    (
      d,
      v,
      rw (nonzero, le→ltb key_max_length (length k) short) run,
      ready,
      record {
        output =
            subst
              (λ o.
                written (server_memory buffer content) d.output
                ≡ written (server_memory buffer content) o ++ item_reply content config.fixed_item)
              same g.output;
        current = g.current ∙ ap (λ o. o.msgcurr) same;
      },
    )
