-- ===== src/Base/Memory.antt =====
-- A block of memory is a function from offsets; what lies past the allocated size is indeterminate,
-- that is, whatever the function says. `bytes f o n` is the `n` cells from offset `o`.
use Prim.Native.Nat.{ℕ, zero, suc, ◌+◌, ◌≤◌, ◌<◌}
use mathlib.Core.Path.{◌≡◌, refl, sym, ap, ap₂, ◌∙◌}
use mathlib.Core.Logic.{◌≢◌, inl, inr}
use mathlib.Core.Bool.{true, false}
use mathlib.Core.List.{List, [], ◌∷◌, ◌++◌}
use native.Mathlib.Omega.{arith}
use synthetic_client.Base.Tests.{◌==◌, if◌then◌else◌, Bool-cases, ==_iff}
use synthetic_client.Base.Lists.{length}

module _ {ℓ} {A : Type ℓ} where
  unfoldable pub bytes : (ℕ → A) → ℕ → ℕ → List A
  bytes f o zero = []
  bytes f o (suc n) = f o ∷ bytes f (o + 1) n

  -- `a[i] = v`
  abbrev pub update : (ℕ → A) → ℕ → A → ℕ → A
  update f i v j = if i == j then v else f j

  pub update_other : (f : ℕ → A) (i j : ℕ) (v : A) → i ≢ j → update f i v j ≡ f j
  update_other f i j v h = ground arith

module _ {ℓ} {A : Type ℓ} where
  -- `memcpy`: the cells from offset `o` become the list
  unfoldable pub fill : (ℕ → A) → ℕ → List A → ℕ → A
  fill f o [] = f
  fill f o (x ∷ xs) = fill (update f o x) (o + 1) xs

  pub length-bytes : (f : ℕ → A) (o n : ℕ) → length (bytes f o n) ≡ n
  unfolding bytes
  length-bytes f o zero = refl
  length-bytes f o (suc n) = ap suc (length-bytes f (o + 1) n)

  pub bytes-add : (f : ℕ → A) (o m n : ℕ) → bytes f o (m + n) ≡ bytes f o m ++ bytes f (o + m) n
  unfolding bytes
  bytes-add f o zero n =
      let count : zero + n ≡ n = omega arith in
      let place : o ≡ o + zero = omega arith in ap₂ (bytes f) place count
  bytes-add f o (suc m) n =
      let count : suc m + n ≡ suc (m + n) = omega arith in
      let place : o + 1 + m ≡ o + suc m = omega arith in
      ap (bytes f o) count
      ∙ ap (◌∷◌ (f o)) (bytes-add f (o + 1) m n)
      ∙ ap (λ a. f o ∷ (bytes f (o + 1) m ++ bytes f a n)) place

  pub bytes_congr :
      (f g : ℕ → A) (o n : ℕ)
      → ((i : ℕ) → o ≤ i → i < o + n → f i ≡ g i)
      → bytes f o n ≡ bytes g o n
  unfolding bytes
  bytes_congr f g o zero h = refl
  bytes_congr f g o (suc n) h =
      ap₂ ◌∷◌ (h o (omega arith) (omega arith))
        (bytes_congr f g (o + 1) n (λ i a b. h i (omega arith) (omega arith)))

  pub bytes-update_next :
      (f : ℕ → A) (n : ℕ) (x : A) → bytes (update f n x) 0 (n + 1) ≡ bytes f 0 n ++ x ∷ []
  unfolding bytes
  bytes-update_next f n x =
      let place : zero + n ≡ n = omega arith in
      let old : bytes (update f n x) 0 n ≡ bytes f 0 n =
        bytes_congr (update f n x) f 0 n (λ i _ l. update_other f n i x (omega arith)) in
      let new : update f n x (0 + n) ≡ x = ground arith in
      bytes-add (update f n x) 0 n 1 ∙ ap₂ (λ xs y. xs ++ y ∷ []) old new

  pub fill-below : (f : ℕ → A) (o : ℕ) (xs : List A) (i : ℕ) → i < o → fill f o xs i ≡ f i
  unfolding fill
  fill-below f o [] i h = refl
  fill-below f o (x ∷ xs) i h =
      fill-below (update f o x) (o + 1) xs i (omega arith) ∙ update_other f o i x (omega arith)

  pub bytes-fill : (f : ℕ → A) (o : ℕ) (xs : List A) → bytes (fill f o xs) o (length xs) ≡ xs
  unfolding bytes fill
  bytes-fill f o [] = refl
  bytes-fill f o (x ∷ xs) =
      ap₂ ◌∷◌ (fill-below (update f o x) (o + 1) xs o (omega arith) ∙ ground arith)
        (bytes-fill (update f o x) (o + 1) xs)

  -- What is written behind `n` cells follows them.
  pub bytes-fill_next :
      (f : ℕ → A) (n : ℕ) (xs : List A) → bytes (fill f n xs) 0 (n + length xs) ≡ bytes f 0 n ++ xs
  bytes-fill_next f n xs =
      let place : 0 + n ≡ n = omega arith in
      bytes-add (fill f n xs) 0 n (length xs)
      ∙ ap₂ ◌++◌ (bytes_congr (fill f n xs) f 0 n (λ i _ l. fill-below f n xs i (omega arith)))
          (ap (λ o. bytes (fill f n xs) o (length xs)) place ∙ bytes-fill f n xs)

-- A list of different numbers, of `n` elements, with one more that is none of them.
pub update-distinct :
    (f : ℕ → ℕ) (n p : ℕ)
    → ((i j : ℕ) → i < n → j < n → f i ≡ f j → i ≡ j)
    → ((i : ℕ) → i < n → f i ≢ p)
    → (i j : ℕ) → i < n + 1
    → j < n + 1
    → update f n p i ≡ update f n p j
    → i ≡ j
update-distinct f n p distinct away i j h k e = elim (Bool-cases (n == i)) [
  | inl last ↦ elim (Bool-cases (n == j)) [
    | inl same ↦ sym ((==_iff n i).0 last) ∙ (==_iff n j).0 same
    | inr other ↦ absurd (away j (ground arith) (at_other j other ∙ sym e ∙ at_last i last))
  ]
  | inr other ↦ elim (Bool-cases (n == j)) [
    | inl last ↦ absurd (away i (ground arith) (at_other i other ∙ e ∙ at_last j last))
    | inr away_too ↦
        distinct i j (ground arith) (ground arith)
          (at_other i other ∙ e ∙ sym (at_other j away_too))
  ]
]
  where
    at_last : (i : ℕ) → (n == i) ≡ true → update f n p i ≡ p
    at_last i same = rw same refl

    at_other : (i : ℕ) → (n == i) ≡ false → f i ≡ update f n p i
    at_other i other = rw other refl
