-- ===== src/Server/Command/Lines.antt =====
-- src/server.c: `read_command` on input that begins with a whole line.
use synthetic_client.Base.{
  ℕ, zero, suc, ◌+◌, ◌-◌, ◌≡◌, ◌≢◌, refl, ap, ◌∙◌, false, true, some, List, [], ◌∷◌, ◌++◌, length,
  bytes, length-bytes, get_or, drop, Run, ok, ◌>>=◌, ◌==◌, arith,
}
use synthetic_client.World.{World}
use synthetic_client.Conn.{Conn, Input}
use synthetic_client.Commands.{Config}
use synthetic_client.Server.Read.Stream.{unparsed}
use synthetic_client.Server.Command.{
  find_byte, until_nul, complete, find_line, line_end, process_command, skip_line, read_command,
}

-- No byte of the text ends a line or a string.
abbrev pub IsPlain : List ℕ → Type 0
IsPlain [] = Unit {0}
IsPlain (b ∷ s) = (b ≢ 10) × (b ≢ 0) × IsPlain s

-- Bytes that are two texts one after the other.
bytes-split :
    (f : ℕ → ℕ) (o n : ℕ) (xs ys : List ℕ)
    → bytes f o n ≡ xs ++ ys
    → (n ≡ length xs + length ys)
      × (bytes f o (length xs) ≡ xs)
      × (bytes f (o + length xs) (length ys) ≡ ys)
unfolding bytes
bytes-split f o n [] ys e =
    let count : n ≡ length ys = length-bytes-of f o n ys e in
    let start : o ≡ o + 0 = omega arith in
    (
      omega (arith, count),
      refl,
      ap (λ k. bytes f (o + 0) k) (count-sym n (length ys) count)
          ∙ ap (λ a. bytes f a n) (place o)
          ∙ e,
    )
  where
    length-bytes-of : (f : ℕ → ℕ) (o n : ℕ) (ys : List ℕ) → bytes f o n ≡ ys → n ≡ length ys
    length-bytes-of f o n ys e = omega (arith, length-bytes f o n, ap length e)

    count-sym : (n m : ℕ) → n ≡ m → m ≡ n
    count-sym n m e = omega (arith, e)

    place : (o : ℕ) → o + 0 ≡ o
    place o = omega arith
bytes-split f o zero (x ∷ xs) ys e = absurd cc
bytes-split f o (suc n) (x ∷ xs) ys e =
    let (count, first, second) = bytes-split f (o + 1) n xs ys (ap (drop 1) e) in
    let head : f o ≡ x = ap (λ l. get_or l 0 0) e in
    let place : o + suc (length xs) ≡ o + 1 + length xs = omega arith in
    (omega (arith, count), rw (head, first) refl, ap (λ a. bytes f a (length ys)) place ∙ second)

find_byte-line :
    (text rest : List ℕ)
    → IsPlain text
    → find_byte 10 (text ++ 13 ∷ 10 ∷ rest) ≡ some (length text + 1)
unfolding find_byte
find_byte-line [] rest h = refl
find_byte-line (b ∷ s) rest (no_end, _, h) =
    let other : (b == 10) ≡ false = ground arith in
    let count : length s + 1 + 1 ≡ suc (length s) + 1 = omega arith in
    rw (other, find_byte-line s rest h) (ap some count)

until_nul-plain : (text : List ℕ) → IsPlain text → until_nul text ≡ text
unfolding until_nul
until_nul-plain [] h = refl
until_nul-plain (b ∷ s) (_, no_nul, h) =
    let other : (b == 0) ≡ false = ground arith in rw (other, until_nul-plain s h) refl

find_line_lem :
    (c : Input) (text rest : List ℕ)
    → IsPlain text
    → text ≢ []
    → unparsed c ≡ text ++ 13 ∷ 10 ∷ rest
    → find_line c ≡ ok (complete text (length text + 2))
unfolding find_line unparsed bytes
find_line_lem c [] rest h some_text e = absurd (some_text refl)
find_line_lem c (b ∷ s) rest h some_text e =
    let text = b ∷ s in
    let (count, first, second) = bytes-split c.rbuf c.rcurr c.rbytes text (13 ∷ 10 ∷ rest) e in
    let cr : c.rbuf (c.rcurr + length text) ≡ 13 = ap (λ l. get_or l 0 0) second in
    let el = length text + 1 in
    let place : c.rcurr + el - 1 ≡ c.rcurr + length text = omega arith in
    let end : line_end c el ≡ length text = rw (place, cr) (ground arith) in
    let total : el + 1 ≡ length text + 2 = omega arith in
    let found : find_byte 10 (bytes c.rbuf c.rcurr c.rbytes) ≡ some el =
      ap (find_byte 10) e ∙ find_byte-line text rest h in
    rw (find_line, found)
      (rw end (
        ap (λ l. ok (complete l (el + 1))) (ap until_nul first ∙ until_nul-plain text h)
        ∙ ap (λ n. ok (complete text n)) total))

-- Skipping the line leaves what follows it.
skip_line_lem :
    (c : Input) (text rest : List ℕ)
    → unparsed c ≡ text ++ 13 ∷ 10 ∷ rest
    → unparsed (skip_line c (length text + 2)) ≡ rest
unfolding unparsed bytes
skip_line_lem c text rest e =
    let (count, first, second) = bytes-split c.rbuf c.rcurr c.rbytes text (13 ∷ 10 ∷ rest) e in
    let left : c.rbytes - (length text + 2) ≡ length rest = omega (arith, count) in
    let place : c.rcurr + (length text + 2) ≡ c.rcurr + length text + 1 + 1 = omega arith in
    rw (left, place) (ap (drop 2) second)

-- Where the unparsed bytes begin with a text of at least one byte, none of them an end of line or a
-- NUL, ended by CR LF, `read_command` has exactly this text processed, and then passes over the
-- text and its ending: of an input that processing leaves alone, what follows the line is left.
pub read_command-skip_line :
    (backend : Conn → List ℕ → World → Run (Conn × World)) (fuel : ℕ) (config : Config) (c : Conn)
    (text rest : List ℕ) (w : World)
    → IsPlain text
    → text ≢ []
    → unparsed c.input ≡ text ++ 13 ∷ 10 ∷ rest
    → (read_command backend fuel config c w ≡ (
        process_command backend fuel config c text w >>= λ r.
        ok (true, record (r.0) { input = skip_line r.0.input (length text + 2) }, r.1)))
      × (unparsed (skip_line c.input (length text + 2)) ≡ rest)
unfolding read_command unparsed
read_command-skip_line backend fuel config c text rest w h some_text e =
    let (count, _, _) = bytes-split c.rbuf c.rcurr c.rbytes text (13 ∷ 10 ∷ rest) e in
    let some_bytes : (c.rbytes == 0) ≡ false = ground (arith, count) in
    (
      rw (some_bytes, find_line_lem c.input text rest h some_text e) refl,
      skip_line_lem c.input text rest e,
    )
