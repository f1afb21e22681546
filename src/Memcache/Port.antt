-- ===== src/Memcache/Port.antt =====
-- The port of a backend is cut off the text of its host, so that it serves once.
use synthetic_client.Base.{
  ℕ, suc, ◌+◌, ◌≡◌, ◌<◌, refl, sym, ap, ◌∙◌, subst, inl, inr, true, false, ◌==◌, Bool-cases,
  Option-cases, Option, none, some, List, [], ◌∷◌, ◌++◌, length, length-append, take, drop, arith,
}
use synthetic_client.Server.Command.{find_byte}
use synthetic_client.Memcache.Connect.{memcache_port, cut_at, host_and_port}

-- No byte is a colon.
abbrev pub HasNoColon : List ℕ → Type 0
HasNoColon [] = Unit {0}
HasNoColon (c ∷ s) = ((c == b':') ≡ false) × HasNoColon s

abbrev later : Option ℕ → Option ℕ
later o = elim o [ none ↦ none | some i ↦ some (i + 1) ]

find_byte-here : (b c : ℕ) (s : List ℕ) → (c == b) ≡ true → find_byte b (c ∷ s) ≡ some 0
unfolding find_byte
find_byte-here b c s h = rw h refl

find_byte-later :
    (b c : ℕ) (s : List ℕ) → (c == b) ≡ false → find_byte b (c ∷ s) ≡ later (find_byte b s)
unfolding find_byte
find_byte-later b c s h = rw h refl

find_byte-none : (s : List ℕ) → HasNoColon s → find_byte b':' s ≡ none
unfolding find_byte
find_byte-none [] h = refl
find_byte-none (c ∷ s) (ne, h) = find_byte-later b':' c s ne ∙ ap later (find_byte-none s h)

nowhere-HasNoColon : (s : List ℕ) → find_byte b':' s ≡ none → HasNoColon s
nowhere-HasNoColon [] e = tt
nowhere-HasNoColon (c ∷ s) e = elim (Bool-cases (c == b':')) [
  | inl colon ↦ let no = sym e ∙ find_byte-here b':' c s colon in cc
  | inr other ↦ elim (Option-cases (find_byte b':' s)) [
    | inl nowhere ↦ (other, nowhere-HasNoColon s nowhere)
    | inr (j, there) ↦ let no = sym e ∙ find_byte-later b':' c s other ∙ ap later there in cc
  ]
]

find_byte-colon :
    (name port : List ℕ)
    → HasNoColon name
    → find_byte b':' (name ++ b':' ∷ port) ≡ some (length name)
unfolding find_byte
find_byte-colon [] port h = refl
find_byte-colon (c ∷ s) port (ne, h) =
    find_byte-later b':' c (s ++ b':' ∷ port) ne
    ∙ ap later (find_byte-colon s port h)
    ∙ ap some (omega arith)

-- What stands before the first colon.
take-HasNoColon :
    (s : List ℕ) (k : ℕ) → find_byte b':' s ≡ some k → HasNoColon (take k s) × (k < length s)
unfolding find_byte
take-HasNoColon [] k e = cc
take-HasNoColon (c ∷ s) k e = elim (Bool-cases (c == b':')) [
  | inl colon ↦
      let at = sym (find_byte-here b':' c s colon) ∙ e in
      let first : 0 ≡ k = cc in
      let none_before : HasNoColon (take 0 (c ∷ s)) × (0 < length (c ∷ s)) = (tt, omega arith) in
      subst (λ j. HasNoColon (take j (c ∷ s)) × (j < length (c ∷ s))) first none_before
  | inr other ↦ elim (Option-cases (find_byte b':' s)) [
    | inl nowhere ↦ let no = sym e ∙ find_byte-later b':' c s other ∙ ap later nowhere in cc
    | inr (j, there) ↦
        let (before, inside) = take-HasNoColon s j there in
        let at = sym e ∙ find_byte-later b':' c s other ∙ ap later there in
        let next : suc j ≡ k = ground arith in
        subst (λ i. HasNoColon (take i (c ∷ s)) × (i < length (c ∷ s))) next
          ((other, before), omega (arith, inside))
  ]
]

-- What is left of a host has no colon.
host_and_port-HasNoColon : (host : List ℕ) → HasNoColon (host_and_port host).0
unfolding host_and_port cut_at
host_and_port-HasNoColon host = at (find_byte b':' host) refl
  where
    at : (o : Option ℕ) → find_byte b':' host ≡ o → HasNoColon (cut_at host o).0
    at none e = nowhere-HasNoColon host e
    at (some k) e =
        let (before, inside) = take-HasNoColon host k e in
        let short : (k == length host) ≡ false = ground (arith, inside) in rw (cut_at, short) before

take-front : (xs ys : List ℕ) → take (length xs) (xs ++ ys) ≡ xs
take-front [] ys = refl
take-front (x ∷ xs) ys = ap (◌∷◌ x) (take-front xs ys)

drop-front : (xs : List ℕ) (y : ℕ) (ys : List ℕ) → drop (suc (length xs)) (xs ++ y ∷ ys) ≡ ys
drop-front [] y ys = refl
drop-front (x ∷ xs) y ys = drop-front xs y ys

-- A name without a colon, a colon and a port are read as this name and this port, whatever the port.
pub host_and_port-append :
    (name port : List ℕ) → HasNoColon name → host_and_port (name ++ b':' ∷ port) ≡ (name, port)
unfolding host_and_port cut_at
host_and_port-append name port h =
    let short : (length name == length (name ++ b':' ∷ port)) ≡ false =
      ground (arith, length-append name (b':' ∷ port)) in
    rw
      (
        host_and_port,
        find_byte-colon name port h,
        cut_at,
        short,
        take-front name (b':' ∷ port),
        drop-front name b':' port,
      )
      refl

-- What is left of a host is read as the same name with the port that memcached has by default.
pub host_and_port-again :
    (host : List ℕ) → host_and_port (host_and_port host).0 ≡ ((host_and_port host).0, memcache_port)
unfolding host_and_port cut_at
host_and_port-again host =
    ap (cut_at (host_and_port host).0) (find_byte-none _ (host_and_port-HasNoColon host))
