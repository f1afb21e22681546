-- ===== src/Utils/Numbers.antt =====
-- `safe_strtol` on the texts of numbers.
use Prim.Native.Nat.pow
use synthetic_client.Base.{
  ℕ, zero, suc, ◌+◌, ◌-◌, ◌*◌, ◌%◌, ◌^◌, ◌≤◌, ◌≡◌, refl, sym, ap, ◌∙◌, Bool, true, false, leb, ◌==◌,
  if◌then◌else◌, some, List, [], ◌∷◌, ◌++◌, length, arith,
}
use synthetic_client.Base.Int.{ℤ, pos}
use synthetic_client.Utils.{
  is_digit, xisspace, skip_spaces, digits_from, starts_with_digit, negate, long_max, strtol_signed,
  strtol_unsigned, int_max, to_int32, at_end, checked, safe_strtol,
}

-- Digits, from the first one on, and what they stand for.
abbrev pub value : List ℕ → ℕ
value [] = 0
value (d ∷ ds) = d * 10 ^ length ds + value ds

abbrev pub numeral : List ℕ → List ℕ
numeral [] = []
numeral (d ∷ ds) = (b'0' + d) ∷ numeral ds

abbrev pub AreDigits : List ℕ → Type 0
AreDigits [] = Unit {0}
AreDigits (d ∷ ds) = (d ≤ 9) × AreDigits ds

abbrev pub AreSpaces : List ℕ → Type 0
AreSpaces [] = Unit {0}
AreSpaces (c ∷ cs) = (xisspace c ≡ true) × AreSpaces cs

shifted : (acc d p v : ℕ) → (acc * 10 + d) * p + v ≡ acc * (p * 10) + (d * p + v)
shifted acc d p v = omega arith

place_value : (acc d n v : ℕ) → (acc * 10 + d) * 10 ^ n + v ≡ acc * 10 ^ suc n + (d * 10 ^ n + v)
place_value acc d n v =
    shifted acc d (10 ^ n) v ∙ ap (λ q. acc * q + (d * 10 ^ n + v)) (sym (pow.suc 10 n))

no_digit : (rest : List ℕ) → at_end rest ≡ true → starts_with_digit rest ≡ false
no_digit [] h = refl
no_digit (c ∷ rest) h = ground (arith, h)

from_start : (acc : ℕ) → acc ≡ acc * 10 ^ 0 + 0
from_start acc = omega arith

digits_from-numeral :
    (acc : ℕ) (ds rest : List ℕ)
    → AreDigits ds
    → starts_with_digit rest ≡ false
    → digits_from acc (numeral ds ++ rest) ≡ (acc * 10 ^ length ds + value ds, rest)
unfolding digits_from
digits_from-numeral acc [] [] d h = ap (λ n. (n, [])) (from_start acc)
digits_from-numeral acc [] (c ∷ rest) d h = rw h (ap (λ n. (n, c ∷ rest)) (from_start acc))
digits_from-numeral acc (x ∷ ds) rest (small, d) h =
    let digit : is_digit (b'0' + x) ≡ true = ground arith in
    let amount : b'0' + x - b'0' ≡ x = omega arith in
    rw (digit, amount)
      (digits_from-numeral (acc * 10 + x) ds rest d h
        ∙ ap (λ n. (n, rest)) (place_value acc x (length ds) (value ds)))

skip_spaces-append : (cs s : List ℕ) → AreSpaces cs → skip_spaces (cs ++ s) ≡ skip_spaces s
unfolding skip_spaces
skip_spaces-append [] s h = refl
skip_spaces-append (c ∷ cs) s (h, hs) = rw h (skip_spaces-append cs s hs)

-- A sign, or none.
pub data Sign : Type 0 where
  unsigned plus minus : Sign

abbrev pub sign : Sign → List ℕ
sign unsigned = []
sign plus = b'+' ∷ []
sign minus = b'-' ∷ []

abbrev pub signed : Sign → ℕ → ℤ
signed unsigned n = pos n
signed plus n = pos n
signed minus n = negate n

-- The largest amount that fits.
abbrev pub bound : Sign → ℕ
bound unsigned = int_max
bound plus = int_max
bound minus = int_max + 1

negate-to_int32 : (n : ℕ) → n ≤ int_max + 1 → to_int32 (negate n) ≡ negate n
unfolding to_int32
negate-to_int32 zero h = refl
negate-to_int32 (suc n) h =
    let one_less : suc n - 1 ≡ n = omega arith in
    let whole : n % 2 ^ 32 ≡ n = omega (arith, h) in
    let large : leb (2 ^ 32 - 1 - n) int_max ≡ false = ground (arith, h) in
    let back : 2 ^ 32 - (2 ^ 32 - 1 - n) ≡ suc n = omega (arith, h) in
    let some : (suc n == 0) ≡ false = ground arith in
    rw (some, one_less, whole, large, back, some, one_less) refl

pos-to_int32 : (n : ℕ) → n ≤ int_max → to_int32 (pos n) ≡ pos n
unfolding to_int32
pos-to_int32 n h =
    let whole : n % 2 ^ 32 ≡ n = omega (arith, h) in
    let small : leb n int_max ≡ true = ground arith in rw (whole, small) refl

-- The digits and what follows them, with the sign that was read.
signed_lem :
    (m : Bool) (d : ℕ) (ds rest : List ℕ)
    → AreDigits (d ∷ ds)
    → at_end rest ≡ true
    → value (d ∷ ds) ≤ (if m then long_max + 1 else long_max)
    → strtol_signed m (numeral (d ∷ ds) ++ rest)
      ≡ some ((if m then negate (value (d ∷ ds)) else pos (value (d ∷ ds))), rest)
signed_lem m d ds rest h e b =
    let run : digits_from 0 (numeral (d ∷ ds) ++ rest) ≡ (value (d ∷ ds), rest) =
      digits_from-numeral 0 (d ∷ ds) rest h (no_digit rest e) ∙ ap (λ n. (n, rest)) (omega arith) in
    let digit : is_digit (b'0' + d) ≡ true = ground (arith, h.0) in
    let small : leb (value (d ∷ ds)) (if m then long_max + 1 else long_max) ≡ true =
      ground (arith, b) in
    rw (run, digit, small) refl

-- A text that begins with a sign or a digit has no leading space.
no_space :
    (g : Sign) (d : ℕ) (s : List ℕ)
    → d ≤ 9
    → skip_spaces (sign g ++ (b'0' + d) ∷ s) ≡ sign g ++ (b'0' + d) ∷ s
unfolding skip_spaces
no_space unsigned d s h = let other : xisspace (b'0' + d) ≡ false = ground arith in rw other refl
no_space plus d s h = refl
no_space minus d s h = refl

numeral_lem :
    (g : Sign) (d : ℕ) (ds rest : List ℕ)
    → AreDigits (d ∷ ds)
    → at_end rest ≡ true
    → value (d ∷ ds) ≤ bound g
    → checked (strtol_unsigned (sign g ++ (numeral (d ∷ ds) ++ rest)))
      ≡ some (signed g (value (d ∷ ds)))
numeral_lem unsigned d ds rest h e b =
    let no_minus : ((b'0' + d) == b'-') ≡ false = ground (arith, h.0) in
    let no_plus : ((b'0' + d) == b'+') ≡ false = ground (arith, h.0) in
    rw (no_minus, no_plus, signed_lem false d ds rest h e (omega (arith, b)), e)
      (ap some (pos-to_int32 (value (d ∷ ds)) b))
numeral_lem plus d ds rest h e b =
    rw (signed_lem false d ds rest h e (omega (arith, b)), e)
      (ap some (pos-to_int32 (value (d ∷ ds)) b))
numeral_lem minus d ds rest h e b =
    rw (signed_lem true d ds rest h e (omega (arith, b)), e)
      (ap some (negate-to_int32 (value (d ∷ ds)) b))

-- The text of a number of 32 bits, behind spaces and with or without a sign, up to its end or a
-- space, is read as that number.
pub safe_strtol-numeral :
    (spaces : List ℕ) (g : Sign) (d : ℕ) (ds rest : List ℕ)
    → AreSpaces spaces
    → AreDigits (d ∷ ds)
    → at_end rest ≡ true
    → value (d ∷ ds) ≤ bound g
    → safe_strtol (spaces ++ (sign g ++ (numeral (d ∷ ds) ++ rest)))
      ≡ some (signed g (value (d ∷ ds)))
unfolding safe_strtol
safe_strtol-numeral spaces g d ds rest space h e b =
    ap (λ s. checked (strtol_unsigned s))
      (skip_spaces-append spaces _ space ∙ no_space g d (numeral ds ++ rest) h.0)
    ∙ numeral_lem g d ds rest h e b
