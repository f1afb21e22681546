-- ===== src/Utils.antt =====
-- src/utils.c: `safe_strtol`, with what it uses of `strtol` and `isspace`. The text is the list of
-- the bytes before its terminating NUL, and `long` has 64 bits.
pub mod Numbers
use synthetic_client.Base.{
  ℕ, ◌+◌, ◌-◌, ◌*◌, ◌%◌, ◌^◌, Bool, true, false, ◌&&◌, ◌||◌, leb, ◌==◌, if◌then◌else◌, Option, none,
  some, List, [], ◌∷◌,
}
use synthetic_client.Base.Int.{ℤ, pos, negsuc}

abbrev pub is_digit : ℕ → Bool
is_digit c = leb b'0' c && leb c b'9'

-- space, and `\t \n \v \f \r`
abbrev pub xisspace : ℕ → Bool
xisspace c = (c == b' ') || (leb 9 c && leb c 13)

unfoldable pub skip_spaces : List ℕ → List ℕ
skip_spaces [] = []
skip_spaces (c ∷ s) = let rest = skip_spaces s in if xisspace c then rest else c ∷ s

-- The digits from the front, after the value `acc`, and what follows them.
unfoldable pub digits_from : ℕ → List ℕ → ℕ × List ℕ
digits_from acc [] = (acc, [])
digits_from acc (c ∷ s) =
    let rest = digits_from (acc * 10 + (c - b'0')) s in if is_digit c then rest else (acc, c ∷ s)

abbrev pub starts_with_digit : List ℕ → Bool
starts_with_digit [] = false
starts_with_digit (c ∷ s) = is_digit c

-- -n
abbrev pub negate : ℕ → ℤ
negate n = if n == 0 then pos 0 else negsuc (n - 1)

abbrev pub long_max : ℕ
long_max = 9223372036854775807

-- `strtol` behind the sign: null without a digit or out of range.
abbrev pub strtol_signed : Bool → List ℕ → Option (ℤ × List ℕ)
strtol_signed minus s =
    let (n, rest) = digits_from 0 s in
    if starts_with_digit s && leb n (if minus then long_max + 1 else long_max)
    then some ((if minus then negate n else pos n), rest)
    else none

abbrev pub strtol_unsigned : List ℕ → Option (ℤ × List ℕ)
strtol_unsigned [] = none
strtol_unsigned (c ∷ s) =
    if c == b'-'
    then strtol_signed true s
    else if c == b'+'
    then strtol_signed false s
    else strtol_signed false (c ∷ s)

abbrev pub int_max : ℕ
int_max = 2147483647

-- The conversion of a `long` to `int32_t`: the low 32 bits, with a sign.
abbrev pub signed32 : ℕ → ℤ
signed32 u = if leb u int_max then pos u else negate (2 ^ 32 - u)

unfoldable pub to_int32 : ℤ → ℤ
to_int32 (pos n) = signed32 (n % 2 ^ 32)
to_int32 (negsuc n) = signed32 (2 ^ 32 - 1 - n % 2 ^ 32)

-- The value is used up to its end or a space.
abbrev pub at_end : List ℕ → Bool
at_end [] = true
at_end (c ∷ s) = xisspace c

abbrev pub checked : Option (ℤ × List ℕ) → Option ℤ
checked none = none
checked (some (l, rest)) = if at_end rest then some (to_int32 l) else none

-- The number where the result is true.
unfoldable pub safe_strtol : List ℕ → Option ℤ
unfolding skip_spaces digits_from to_int32
safe_strtol str = checked (strtol_unsigned (skip_spaces str))
