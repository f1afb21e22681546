-- ===== src/Threads/Turns.antt =====
-- The workers are given connections in turn.
use mathlib.Core.List.{map, map-append}
use synthetic_client.Base.{
  ℕ, suc, ◌+◌, ◌%◌, ◌≡◌, ◌≢◌, refl, sym, ap, ◌∙◌, subst, inl, inr, Bool, ◌==◌, if◌then◌else◌,
  ==_iff, Bool-cases, none, List, [], ◌∷◌, ◌++◌, append-nil, append_assoc, Run, ok, Returns, ◌>>=◌,
  arith,
}
use synthetic_client.Fsm.{conn_new_cmd}
use synthetic_client.Conn.{ev_read, data_buffer_size}
use synthetic_client.World.{World}
use synthetic_client.Conn.Iov.Plenty.{Plenty}
use synthetic_client.Queue.Chain.{Cells}
use synthetic_client.Threads.{next_thread, dispatch_conn_new}
use synthetic_client.Threads.Serves.{
  Serves, Dispatches, dispatch_conn_new-Dispatches, with_item, new_item,
}

-- The listening thread is given these sockets, one after the other.
unfoldable pub dispatch_all : List ℕ → World → Run World
dispatch_all [] w = ok w
dispatch_all (sfd ∷ sfds) w =
    dispatch_conn_new sfd conn_new_cmd ev_read data_buffer_size w >>= dispatch_all sfds

-- The sockets of a list that fall to worker `i`, when they are dealt out in turn from worker `k`
-- on.
abbrev pub shares : ℕ → ℕ → List ℕ → ℕ → List ℕ
shares threads k [] i = []
shares threads k (sfd ∷ sfds) i =
    let rest = shares threads ((k + 1) % threads) sfds i in if k == i then sfd ∷ rest else rest

abbrev pub sockets : Cells → List ℕ
sockets = map (λ c. c.1.sfd)

-- The allocator returns addresses at which nothing is allocated, and none twice.
pub record HasFree (w : World) : Type 0 where
  pub memory : Plenty w
  pub free : (i : ℕ) → w.workers.nodes (w.addresses i) ≡ none
  pub distinct : (i j : ℕ) → i ≢ j → w.addresses i ≢ w.addresses j

HasFree-Dispatches :
    (cells : ℕ → Cells) (sfd : ℕ) (w v : World)
    → HasFree w
    → Dispatches cells (new_item sfd conn_new_cmd ev_read data_buffer_size w) w v
    → HasFree v
HasFree-Dispatches cells sfd w v h d = record {
  memory = λ i. ap (λ (f : ℕ → Bool). f i) d.allocs ∙ h.memory (suc i);
  free = λ i.
      ap (λ (f : ℕ → ℕ). v.workers.nodes (f i)) d.addresses
      ∙ d.free (w.addresses (suc i)) (h.distinct (suc i) 0 (λ e. cc)) (h.free (suc i));
  distinct = λ i j ne.
      subst (λ (f : ℕ → ℕ). f i ≢ f j) (sym d.addresses)
        (h.distinct (suc i) (suc j) (λ e. ne (omega (arith, e))));
}

sockets-with_item :
    (cells : ℕ → Cells) (k p sfd i : ℕ) (w : World)
    → sockets (with_item cells k p (new_item sfd conn_new_cmd ev_read data_buffer_size w) i)
      ≡ (if k == i then sockets (cells i) ++ sfd ∷ [] else sockets (cells i))
sockets-with_item cells k p sfd i w = elim (Bool-cases (k == i)) [
  | inl same ↦ rw same (
      map-append (λ c. c.1.sfd) (cells k) _
      ∙ ap (λ j. sockets (cells j) ++ sfd ∷ []) ((==_iff k i).0 same))
  | inr other ↦ rw other refl
]

deal :
    (k i sfd : ℕ) (front back : List ℕ)
    → (if k == i then front ++ sfd ∷ [] else front) ++ back
      ≡ front ++ (if k == i then sfd ∷ back else back)
deal k i sfd front back = elim (Bool-cases (k == i)) [
  | inl same ↦ rw same (append_assoc front (sfd ∷ []) back)
  | inr other ↦ rw other refl
]

-- Sockets that are accepted one after the other are dealt out to the workers in turn, from the one
-- after the worker that was given a connection last: each worker's queue gets the sockets of its
-- share, in order, behind those that were in it. This holds where every allocation succeeds and
-- gives a free address.
pub dispatch_all-shares :
    (sfds : List ℕ) (w : World) (cells : ℕ → Cells)
    → Serves w.workers cells
    → HasFree w
    → Returns (dispatch_all sfds w) λ v.
      (after : ℕ → Cells) × Serves v.workers after
      × ((i : ℕ)
          → sockets (after i)
            ≡ sockets (cells i) ++ shares w.workers.threads (next_thread w.workers) sfds i)
unfolding dispatch_all next_thread
dispatch_all-shares [] w cells s h =
    (w, refl, (cells, s, λ i. sym (append-nil (sockets (cells i)))))
dispatch_all-shares (sfd ∷ sfds) w cells s h =
    let (v, run, d) =
      dispatch_conn_new-Dispatches sfd conn_new_cmd ev_read data_buffer_size w cells s (h.memory 0)
        (h.free 0) in
    let k = next_thread w.workers in
    let (u, run', (after, s', dealt)) =
      dispatch_all-shares sfds v _ d.serves (HasFree-Dispatches cells sfd w v h d) in
    let turn : next_thread v.workers ≡ (k + 1) % w.workers.threads = rw (d.last, d.threads) refl in
    (
      u,
      rw run run',
      (
        after,
        s',
        λ i.
            let front = if k == i then sockets (cells i) ++ sfd ∷ [] else sockets (cells i) in
            dealt i
            ∙ ap (λ (l : List ℕ). l ++ shares v.workers.threads (next_thread v.workers) sfds i)
                (sockets-with_item cells k (w.addresses 0) sfd i w)
            ∙ ap (λ (n : ℕ). front ++ shares v.workers.threads n sfds i) turn
            ∙ ap (λ (t : ℕ). front ++ shares t ((k + 1) % w.workers.threads) sfds i) d.threads
            ∙ deal k i sfd (sockets (cells i))
                (shares w.workers.threads ((k + 1) % w.workers.threads) sfds i),
      ),
    )
