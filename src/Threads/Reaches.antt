-- ===== src/Threads/Reaches.antt =====
-- Where every call answers well, a connection to a backend is established.
use synthetic_client.Base.{
  ℕ, zero, suc, ◌+◌, ◌≡◌, ◌≢◌, ◌≤◌, ◌<◌, refl, sym, ap, ◌∙◌, inl, inr, Bool, true, false, ◌||◌,
  ◌==◌, Option-cases, Bool-cases, if◌then◌else◌, Option, none, List, arith,
}
use synthetic_client.System.{System, SocketOutcome, opened}
use synthetic_client.Memcache.Outcomes.{established, outcome, looked_up}
use synthetic_client.Threads.Later.{IsLater}

-- How many descriptors below `limit` are closed.
unfoldable pub closed_below : ℕ → (ℕ → Bool) → ℕ
closed_below zero held = 0
closed_below (suc b) held = (if held b then 0 else 1) + closed_below b held

-- Every name has an address, `socket` gives a descriptor while one below `limit` is closed, and the
-- other calls on sockets succeed; `n` descriptors below `limit` are closed.
pub record IsReachable (limit n : ℕ) (s : System) : Type 0 where
  pub lookups : (i : ℕ) (name : Option (List ℕ)) (port : List ℕ) → s.lookups i name port ≢ none
  pub sockets :
      (i : ℕ) (held : ℕ → Bool)
      → 0 < closed_below limit held
      → (sfd : ℕ) × (s.sockets i held ≡ opened sfd)
  pub connects : (i : ℕ) → s.connects i ≡ true
  pub nonblocks : (i : ℕ) → s.nonblocks i ≡ true
  pub spare : n ≤ closed_below limit s.open_fds

pub IsReachable-established :
    (limit n : ℕ) (host : List ℕ) (s : System)
    → IsReachable limit (1 + n) s
    → (sfd : ℕ) × (outcome host s ≡ established sfd)
IsReachable-established limit n host s h =
    let (sfd, given) = h.sockets 0 s.open_fds (omega (arith, h.spare)) in
    elim (Option-cases (looked_up host s)) [
      | inl unknown ↦ absurd (h.lookups 0 _ _ unknown)
      | inr (ai, found) ↦ (sfd, rw (found, given, h.connects 0, h.nonblocks 0) refl)
    ]

-- Opening a descriptor at or above the limit takes no closed one.
closed_below-high :
    (b sfd : ℕ) (f g : ℕ → Bool)
    → ((d : ℕ) → g d ≡ ((sfd == d) || f d))
    → b ≤ sfd
    → closed_below b g ≡ closed_below b f
unfolding closed_below
closed_below-high zero sfd f g with_one high = refl
closed_below-high (suc b) sfd f g with_one high =
    let other : (sfd == b) ≡ false = ground (arith, high) in
    let rest = closed_below-high b sfd f g with_one (omega (arith, high)) in
    rw (with_one b, other, rest) refl

-- Opening a descriptor takes at most one closed one.
closed_below-open :
    (b sfd : ℕ) (f g : ℕ → Bool)
    → ((d : ℕ) → g d ≡ ((sfd == d) || f d))
    → closed_below b f ≤ suc (closed_below b g)
unfolding closed_below
closed_below-open zero sfd f g with_one = omega arith
closed_below-open (suc b) sfd f g with_one = elim (Bool-cases (sfd == b)) [
  | inl same ↦
      let below = closed_below-high b sfd f g with_one (ground arith) in
      elim (Bool-cases (f b)) [
        | inl held ↦ rw (with_one b, same, held, below) (omega arith)
        | inr closed ↦ rw (with_one b, same, closed, below) (omega arith)
      ]
  | inr other ↦
      let below = closed_below-open b sfd f g with_one in
      elim (Bool-cases (f b)) [
        | inl held ↦ rw (with_one b, other, held) (omega (arith, below))
        | inr closed ↦ rw (with_one b, other, closed) (omega (arith, below))
      ]
]

-- It stays so after one more descriptor is opened.
pub later-IsReachable :
    (limit n : ℕ) (s t : System) (sfd : ℕ)
    → IsLater s t
    → ((d : ℕ) → t.open_fds d ≡ ((sfd == d) || s.open_fds d))
    → IsReachable limit (1 + n) s
    → IsReachable limit n t
later-IsReachable limit n s t sfd later fds h = record {
  lookups = λ i name port e.
      let (j, same) = later.lookups i in
      h.lookups j name port
        (ap (λ (f : Option (List ℕ) → List ℕ → Option (List ℕ)). f name port) (sym same) ∙ e);
  sockets = λ i held free.
      let (j, same) = later.sockets i in
      let (k, given) = h.sockets j held free in
      (k, ap (λ (f : (ℕ → Bool) → SocketOutcome). f held) same ∙ given);
  connects = λ i. let (j, same) = later.connects i in same ∙ h.connects j;
  nonblocks = λ i. let (j, same) = later.nonblocks i in same ∙ h.nonblocks j;
  spare = omega (arith, h.spare, closed_below-open limit sfd s.open_fds t.open_fds fds);
}
