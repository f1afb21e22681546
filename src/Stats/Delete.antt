-- ===== src/Stats/Delete.antt =====
-- A bucket without the entry of a client, and the addresses of its entries.
use synthetic_client.Base.{
  ℕ, ◌≡◌, ◌≢◌, refl, sym, ap, ◌∙◌, subst, inl, inr, Bool, true, false, if◌then◌else◌, Bool-cases,
  Option, none, some, [], ◌∷◌, update, ok, arith,
}
use synthetic_client.Base.Int.{ℤ, same_ℤ}
use synthetic_client.World.{ClientStats}
use synthetic_client.Stats.{bucket}
use synthetic_client.Stats.Buckets.{
  Cells, Entries, first, IsEntry, Linked, AreKeyed, AreDistinct, find,
}
use synthetic_client.Stats.Get.{find-entry, same_ℤ-refl}

-- No entry is at the address.
abbrev pub Apart : ℕ → Cells → Type 0
Apart p [] = Unit {0}
Apart p ((q, id) ∷ cs) = (p ≢ q) × Apart p cs

-- The entries but for that of the client.
abbrev pub delete : ℤ → Cells → Cells
delete id [] = []
delete id ((p, id') ∷ cs) = let rest = delete id cs in if same_ℤ id' id then cs else (p, id') ∷ rest

-- What is left of a bucket: nothing, where the client's entry was the first one.
abbrev pub left : ℤ → Cells → Cells
left id [] = []
left id ((p, id') ∷ cs) = if same_ℤ id' id then [] else (p, id') ∷ delete id cs

pub update-IsEntry :
    (f : Entries) (p : ℕ) (v : Option ClientStats) (q : ℕ) (id : ℤ) (o : Option ℕ)
    → p ≢ q
    → IsEntry f q id o
    → IsEntry (update f p v) q id o
update-IsEntry f p v q id o ne h = record {
  value = h.value;
  stored = ground (arith, h.stored);
  client = h.client;
  next = h.next;
}

pub update-Linked :
    (f : Entries) (p : ℕ) (v : Option ClientStats) (cs : Cells)
    → Apart p cs
    → Linked f cs
    → Linked (update f p v) cs
update-Linked f p v [] a l = tt
update-Linked f p v ((q, id) ∷ cs) (ne, a) (h, l) =
    (update-IsEntry f p v q id (first cs) ne h, update-Linked f p v cs a l)

-- Two values at one address are the same.
same_client :
    (a b : ClientStats) (o : Option ClientStats)
    → o ≡ some a
    → o ≡ some b
    → a.client_id ≡ b.client_id
same_client a b o e f =
    let both : some a ≡ some b = sym e ∙ f in
    let eq : a ≡ b = cc in ap (λ (x : ClientStats). x.client_id) eq

-- The address of an entry is not that of another entry of the bucket.
other-Apart :
    (f : Entries) (p : ℕ) (s : ClientStats) (cs : Cells)
    → f p ≡ some s
    → find s.client_id cs ≡ none
    → Linked f cs
    → Apart p cs
other-Apart f p s [] e missing l = tt
other-Apart f p s ((q, id) ∷ cs) e missing (h, l) = elim (Bool-cases (same_ℤ id s.client_id)) [
  | inl same ↦
      let at : some q ≡ none =
        ap (λ (b : Bool). if b then some q else find s.client_id cs) (sym same) ∙ missing in
      cc
  | inr other ↦ (
    λ eq.
        let id' : s.client_id ≡ id =
          same_client s h.value (f q) (ap f (sym eq) ∙ e) h.stored ∙ h.client in
        let same : same_ℤ id s.client_id ≡ true =
          ap (λ (i : ℤ). same_ℤ id i) id' ∙ same_ℤ-refl id in
        cc,
    other-Apart f p s cs e
        (ap (λ (b : Bool). if b then some q else find s.client_id cs) (sym other) ∙ missing) l,
  )
]

-- Nor that of an entry of another bucket.
pub elsewhere-Apart :
    (f : Entries) (n p j k : ℕ) (s : ClientStats) (cs : Cells)
    → f p ≡ some s
    → bucket n s.client_id ≡ ok k
    → j ≢ k
    → AreKeyed n j cs
    → Linked f cs
    → Apart p cs
elsewhere-Apart f n p j k s [] e at ne b l = tt
elsewhere-Apart f n p j k s ((q, id) ∷ cs) e at ne (here, b) (h, l) = (
  λ eq.
      let id' : s.client_id ≡ id =
        same_client s h.value (f q) (ap f (sym eq) ∙ e) h.stored ∙ h.client in
      let both : ok j ≡ ok k = sym here ∙ ap (bucket n) (sym id') ∙ at in ne (cc),
  elsewhere-Apart f n p j k s cs e at ne b l,
)

-- The entries of a bucket after its first one have addresses of their own.
pub tail-Apart :
    (f : Entries) (q : ℕ) (i : ℤ) (cs : Cells)
    → Linked f ((q, i) ∷ cs)
    → AreDistinct ((q, i) ∷ cs)
    → Apart q cs
tail-Apart f q i cs (h, l) (missing, d) =
    other-Apart f q h.value cs h.stored (ap (λ (id : ℤ). find id cs) h.client ∙ missing) l

pub pick :
    (id id' : ℤ) (q : ℕ) (cs : Cells) (o : Option ℕ) (b : Bool)
    → same_ℤ id' id ≡ b
    → find id ((q, id') ∷ cs) ≡ o
    → (if b then some q else find id cs) ≡ o
pick id id' q cs o b e h = ap (λ (x : Bool). if x then some q else find id cs) (sym e) ∙ h

-- The entry that is deleted is gone.
pub gone-Apart :
    (f : Entries) (id : ℤ) (p : ℕ) (cs : Cells)
    → Linked f cs
    → AreDistinct cs
    → find id cs ≡ some p
    → Apart p (delete id cs)
gone-Apart f id p [] l d e = cc
gone-Apart f id p ((q, id') ∷ cs) (h, l) (missing, d) e = elim (Bool-cases (same_ℤ id' id)) [
  | inl same ↦
      let at : some q ≡ some p = pick id id' q cs (some p) true same e in
      let eq : q ≡ p = cc in
      rw same (subst (λ a. Apart a cs) eq (tail-Apart f q id' cs (h, l) (missing, d)))
  | inr other ↦
      let e' : find id cs ≡ some p = pick id id' q cs (some p) false other e in
      let (s, stored, client) = find-entry f id p cs l e' in
      rw other (
        λ eq.
            let id'-id : id ≡ id' =
              sym client
              ∙ same_client s h.value (f q) (ap f (sym eq) ∙ stored) h.stored
              ∙ h.client in
            let same : same_ℤ id' id ≡ true =
              ap (λ (i : ℤ). same_ℤ id' i) id'-id ∙ same_ℤ-refl id' in
            cc,
        gone-Apart f id p cs l d e',
      )
]

find-delete : (x id : ℤ) (cs : Cells) → find x cs ≡ none → find x (delete id cs) ≡ none
find-delete x id [] e = refl
find-delete x id ((q, id') ∷ cs) e = elim (Bool-cases (same_ℤ id' x)) [
  | inl here ↦ let no : some q ≡ none = pick x id' q cs none true here e in cc
  | inr away ↦
      let e' : find x cs ≡ none = pick x id' q cs none false away e in
      elim (Bool-cases (same_ℤ id' id)) [
        | inl same ↦ rw same e'
        | inr other ↦ rw (other, away) (find-delete x id cs e')
      ]
]

AreDistinct-delete : (id : ℤ) (cs : Cells) → AreDistinct cs → AreDistinct (delete id cs)
AreDistinct-delete id [] d = tt
AreDistinct-delete id ((q, id') ∷ cs) (missing, d) = elim (Bool-cases (same_ℤ id' id)) [
  | inl same ↦ rw same d
  | inr other ↦ rw other (find-delete id' id cs missing, AreDistinct-delete id cs d)
]

AreKeyed-delete : (n k : ℕ) (id : ℤ) (cs : Cells) → AreKeyed n k cs → AreKeyed n k (delete id cs)
AreKeyed-delete n k id [] b = tt
AreKeyed-delete n k id ((q, id') ∷ cs) (at, b) = elim (Bool-cases (same_ℤ id' id)) [
  | inl same ↦ rw same b
  | inr other ↦ rw other (at, AreKeyed-delete n k id cs b)
]

pub AreDistinct-left : (id : ℤ) (cs : Cells) → AreDistinct cs → AreDistinct (left id cs)
AreDistinct-left id [] d = tt
AreDistinct-left id ((q, id') ∷ cs) (missing, d) = elim (Bool-cases (same_ℤ id' id)) [
  | inl same ↦ rw same tt
  | inr other ↦ rw other (find-delete id' id cs missing, AreDistinct-delete id cs d)
]

pub AreKeyed-left : (n k : ℕ) (id : ℤ) (cs : Cells) → AreKeyed n k cs → AreKeyed n k (left id cs)
AreKeyed-left n k id [] b = tt
AreKeyed-left n k id ((q, id') ∷ cs) (at, b) = elim (Bool-cases (same_ℤ id' id)) [
  | inl same ↦ rw same tt
  | inr other ↦ rw other (at, AreKeyed-delete n k id cs b)
]

delete-missing : (id : ℤ) (cs : Cells) → find id cs ≡ none → delete id cs ≡ cs
delete-missing id [] e = refl
delete-missing id ((q, i) ∷ cs) e = elim (Bool-cases (same_ℤ i id)) [
  | inl same ↦ let no : some q ≡ none = pick id i q cs none true same e in cc
  | inr other ↦
      rw other (ap (λ ds. (q, i) ∷ ds) (delete-missing id cs (pick id i q cs none false other e)))
]

pub left-missing : (id : ℤ) (cs : Cells) → find id cs ≡ none → left id cs ≡ cs
left-missing id [] e = refl
left-missing id ((q, i) ∷ cs) e = elim (Bool-cases (same_ℤ i id)) [
  | inl same ↦ let no : some q ≡ none = pick id i q cs none true same e in cc
  | inr other ↦
      rw other (ap (λ ds. (q, i) ∷ ds) (delete-missing id cs (pick id i q cs none false other e)))
]
