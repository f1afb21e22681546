-- ===== src/Queue/Chain.antt =====
-- What a linked queue stands for: its items, oldest first.
use synthetic_client.Base.{
  ℕ, ◌≡◌, ◌≢◌, refl, sym, ap, ◌∙◌, Option, none, some, List, [], ◌∷◌, ◌++◌, update, ok, Returns,
  ◌>>=◌, arith,
}
use synthetic_client.Queue.{
  NewConn, ConnQueue, Nodes, load, set_next, conn_queue_push, popped, conn_queue_pop,
}

-- Items with their addresses. The `next` of a listed item does not matter.
abbrev pub Cells : Type 0
Cells = List (ℕ × NewConn)

abbrev pub Holds : Nodes → ℕ → NewConn → Option ℕ → Type 0
Holds nodes p n q = nodes p ≡ some (record n { next = q })

-- No listed item is at the address.
abbrev pub Apart : ℕ → Cells → Type 0
Apart p [] = Unit {0}
Apart p ((q, n) ∷ cs) = (p ≢ q) × Apart p cs

abbrev pub first : Cells → Option ℕ → Option ℕ
first [] end = end
first ((p, n) ∷ cs) end = some p

-- The items are linked, each to the next one, and the last one to `end`.
abbrev pub Linked : Nodes → Cells → Option ℕ → Type 0
Linked nodes [] end = Unit {0}
Linked nodes ((p, n) ∷ cs) end = Holds nodes p n (first cs end) × Apart p cs × Linked nodes cs end

abbrev pub last_from : ℕ → Cells → ℕ
last_from p [] = p
last_from p ((q, n) ∷ cs) = last_from q cs

abbrev pub last : Cells → Option ℕ
last [] = none
last ((p, n) ∷ cs) = some (last_from p cs)

pub record IsQueue (nodes : Nodes) (q : ConnQueue) (cs : Cells) : Type 0 where
  pub linked : Linked nodes cs none
  pub head : q.head ≡ first cs none
  pub tail : q.tail ≡ last cs

-- A write at an address apart from the items leaves them linked.
pub update-Linked :
    (nodes : Nodes) (p : ℕ) (v : Option NewConn) (cs : Cells) (end : Option ℕ)
    → Apart p cs
    → Linked nodes cs end
    → Linked (update nodes p v) cs end
update-Linked nodes p v [] end a l = tt
update-Linked nodes p v ((q, n) ∷ cs) end (ne, a) (h, b, l) =
    (ground arith, b, update-Linked nodes p v cs end a l)

Apart-append :
    (p q : ℕ) (n : NewConn) (cs : Cells) → p ≢ q → Apart p cs → Apart p (cs ++ (q, n) ∷ [])
Apart-append p q n [] ne a = (ne, tt)
Apart-append p q n (c ∷ cs) ne (x, a) = (x, Apart-append p q n cs ne a)

pub load_lem : (nodes : Nodes) (p : ℕ) (n : NewConn) → nodes p ≡ some n → load nodes p ≡ ok n
unfolding load
load_lem nodes p n h = ground arith

set_next_lem :
    (nodes : Nodes) (p : ℕ) (n : NewConn) (q : Option ℕ)
    → nodes p ≡ some n
    → set_next p q nodes ≡ ok (update nodes p (some (record n { next = q })))
unfolding set_next
set_next_lem nodes p n q h = rw (set_next, load_lem nodes p n h) refl

-- A queue with one item more at its end.
record Extends (nodes : Nodes) (p : ℕ) (n : NewConn) (q : ℕ) (cs ds : Cells) (m : Nodes)
    : Type 0 where
  linked : Linked m (ds ++ (p, n) ∷ []) none
  tail : last_from q (cs ++ (p, n) ∷ []) ≡ p
  frame : (a : ℕ) → Apart a ds → m a ≡ nodes a

-- Linking the last item to a new one.
link_last :
    (nodes : Nodes) (p : ℕ) (n : NewConn) (q : ℕ) (x : NewConn) (cs : Cells)
    → Apart p ((q, x) ∷ cs)
    → Linked nodes ((q, x) ∷ cs) none
    → Holds nodes p n none
    → Returns (set_next (last_from q cs) (some p) nodes) (Extends nodes p n q cs ((q, x) ∷ cs))
link_last nodes p n q x [] (ne, a) (h, b, l) new = (
  update nodes q (some (record x { next = some p })),
  set_next_lem nodes q (record x { next = none }) (some p) h,
  record {
    linked = (ground arith, ((λ e. ne (sym e)), tt), (ground arith, tt, tt));
    tail = refl;
    frame = λ a (k, _). ground arith;
  },
)
link_last nodes p n q x ((d, y) ∷ cs) (ne, a) (h, (x', b), l) new =
    let (m, run, e) = link_last nodes p n d y cs a l new in
    (
      m,
      run,
      record {
        linked = (
          e.frame q (x', b) ∙ h,
          Apart-append q p n ((d, y) ∷ cs) (λ k. ne (sym k)) (x', b),
          e.linked,
        );
        tail = e.tail;
        frame = λ a (k, r). e.frame a r;
      },
    )

-- An item at a fresh address, apart from those of the queue, goes to the end of the queue. No other
-- item changes.
pub conn_queue_push_lem :
    (nodes : Nodes) (cq : ConnQueue) (cs : Cells) (p : ℕ) (n : NewConn)
    → IsQueue nodes cq cs
    → Apart p cs
    → nodes p ≡ some n
    → Returns
        (conn_queue_push nodes cq p)
        λ (m, q). IsQueue m q (cs ++ (p, n) ∷ []) × ((a : ℕ) → a ≢ p → Apart a cs → m a ≡ nodes a)
unfolding conn_queue_push
conn_queue_push_lem nodes cq [] p n q a new = (
  (update nodes p (some (record n { next = none })), record { head = some p; tail = some p }),
  rw (conn_queue_push, set_next_lem nodes p n none new, q.tail) refl,
  (record { linked = (ground arith, tt, tt); head = refl; tail = refl }, λ a ne _. ground arith),
)
conn_queue_push_lem nodes cq ((d, y) ∷ cs) p n q a new =
    let fresh = update nodes p (some (record n { next = none })) in
    let (m, run, e) =
      link_last fresh p n d y cs a (update-Linked nodes p _ ((d, y) ∷ cs) none a q.linked)
        (ground arith) in
    (
      (m, record cq { tail = some p }),
      rw (conn_queue_push, set_next_lem nodes p n none new, q.tail)
          (ap (λ r. r >>= λ linked. ok (linked, record cq { tail = some p })) run),
      (
        record { linked = e.linked; head = q.head; tail = ap some (sym e.tail) },
        λ a ne r. e.frame a r ∙ ground arith,
      ),
    )

-- The oldest item is taken off; an empty queue gives none.
abbrev pub Pops : Nodes → Cells → Option ℕ × ConnQueue → Type 0
Pops nodes [] (p, q) = (p ≡ none) × IsQueue nodes q []
Pops nodes ((a, n) ∷ cs) (p, q) = (p ≡ some a) × IsQueue nodes q cs

pub conn_queue_pop_lem :
    (nodes : Nodes) (cq : ConnQueue) (cs : Cells)
    → IsQueue nodes cq cs
    → Returns (conn_queue_pop nodes cq) (Pops nodes cs)
unfolding conn_queue_pop popped
conn_queue_pop_lem nodes cq [] q = (
  (none, record cq { head = none }),
  rw (conn_queue_pop, q.head) (ap (λ (h : Option ℕ). ok (none, record cq { head = h })) q.head),
  (refl, record { linked = tt; head = refl; tail = q.tail }),
)
conn_queue_pop_lem nodes cq ((a, n) ∷ []) q =
    let (h, b, l) = q.linked in
    (
      (some a, record { head = none; tail = none }),
      rw (conn_queue_pop, q.head, load_lem nodes a _ h) refl,
      (refl, record { linked = tt; head = refl; tail = refl }),
    )
conn_queue_pop_lem nodes cq ((a, n) ∷ ((d, y) ∷ cs)) q =
    let (h, b, l) = q.linked in
    (
      (some a, record cq { head = some d }),
      rw (conn_queue_pop, q.head, load_lem nodes a _ h) refl,
      (refl, record { linked = l; head = refl; tail = q.tail }),
    )

-- No item of the one list is at an address of the other.
abbrev pub AllApart : Cells → Cells → Type 0
AllApart [] ds = Unit {0}
AllApart ((p, n) ∷ cs) ds = Apart p ds × AllApart cs ds

pub AllApart-append :
    (cs ds : Cells) (p : ℕ) (n : NewConn)
    → AllApart cs ds
    → Apart p cs
    → AllApart cs (ds ++ (p, n) ∷ [])
AllApart-append [] ds p n a b = tt
AllApart-append ((q, x) ∷ cs) ds p n (h, a) (ne, b) =
    (Apart-append q p n ds (λ e. ne (sym e)) h, AllApart-append cs ds p n a b)

pub append-AllApart :
    (cs ds : Cells) (p : ℕ) (n : NewConn)
    → AllApart cs ds
    → Apart p ds
    → AllApart (cs ++ (p, n) ∷ []) ds
append-AllApart [] ds p n a b = (b, tt)
append-AllApart ((q, x) ∷ cs) ds p n (h, a) b = (h, append-AllApart cs ds p n a b)

-- A change at one address and at those of one list leaves another list linked.
pub frame-Linked :
    (nodes m : Nodes) (p : ℕ) (ds cs : Cells) (end : Option ℕ)
    → ((a : ℕ) → a ≢ p → Apart a ds → m a ≡ nodes a)
    → AllApart cs ds
    → Apart p cs
    → Linked nodes cs end
    → Linked m cs end
frame-Linked nodes m p ds [] end f a b l = tt
frame-Linked nodes m p ds ((q, n) ∷ cs) end f (x, a) (ne, b) (h, y, l) =
    (f q (λ e. ne (sym e)) x ∙ h, y, frame-Linked nodes m p ds cs end f a b l)

-- A free address is apart from all items.
pub free-Apart :
    (nodes : Nodes) (p : ℕ) (cs : Cells) (end : Option ℕ)
    → nodes p ≡ none
    → Linked nodes cs end
    → Apart p cs
free-Apart nodes p [] end e l = tt
free-Apart nodes p ((q, n) ∷ cs) end e (h, b, l) =
    ((λ same. ground arith), free-Apart nodes p cs end e l)
