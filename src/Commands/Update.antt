-- ===== src/Commands/Update.antt =====
-- The commands that set a value: the line is looked at, and the value is read and thrown away.
use synthetic_client.Base.{
  ℕ, ◌+◌, ◌≤◌, ◌≡◌, refl, sym, subst, inl, inr, Bool, true, false, ltb, if◌then◌else◌, Bool-cases,
  Option, none, some, List, Run, ok, fault, overflow, Returns,
}
use synthetic_client.Base.Int.{ℤ, pos, negsuc}
use synthetic_client.Fsm.{conn_read_value}
use synthetic_client.Utils.{int_max, safe_strtol}
use synthetic_client.World.{World}
use synthetic_client.Conn.{Conn}
use synthetic_client.Conn.Event.{conn_set_state}
use synthetic_client.Conn.Iov.Tiled.{HasRoom}
use synthetic_client.Protocol.{Token, key_max_length}
use synthetic_client.Commands.{token_at, bad_format, process_update_command, expect_value}
use synthetic_client.Server.Response.{fitting}
use synthetic_client.Server.Response.Line.{Responds, error_response-Responds}

-- How many bytes a command announces, its value and the end of the line, if it is well formed.
abbrev pub announced : ℕ → Option ℤ → Option ℕ
announced key_length none = none
announced key_length (some (negsuc n)) = none
announced key_length (some (pos n)) = if ltb key_max_length key_length then none else some (n + 2)

-- The connection goes on to read so many bytes, or the client is told of a bad line.
abbrev pub Expects : Option ℕ → Conn → World → Conn × World → Type 0
Expects none c w r = Responds (fitting c.wsize bad_format) c r
Expects (some k) c w r = r ≡ (record c { sbytes = pos k; state = conn_read_value }, w)

-- Whether the length of a value, behind a key that is not too long, leaves no room in an `int` for
-- the two bytes of the line end.
abbrev pub overflows : ℕ → Option ℤ → Bool
overflows key_length none = false
overflows key_length (some (negsuc n)) = false
overflows key_length (some (pos n)) =
    if ltb key_max_length key_length then false else ltb int_max (n + 2)

-- The sum overflows, or the code returns.
abbrev pub Ends : Bool → (Conn × World → Type 0) → Run (Conn × World) → Type 0
Ends true P r = r ≡ fault overflow
Ends false P r = Returns r P

expect_value_lem :
    (c : Conn) (vlen : Option ℤ) (w : World)
    → HasRoom c.output
    → 64 ≤ c.wsize
    → Ends (overflows 0 vlen) (Expects (announced 0 vlen) c w) (expect_value c vlen w)
unfolding expect_value conn_set_state
expect_value_lem c none w room size = error_response-Responds c bad_format w room size
expect_value_lem c (some (negsuc n)) w room size = error_response-Responds c bad_format w room size
expect_value_lem c (some (pos n)) w room size = elim (Bool-cases (ltb int_max (n + 2))) [
  | inl large ↦ rw large refl
  | inr small ↦ rw small (_, refl, refl)
]

short_key :
    (key_length : ℕ) (vlen : Option ℤ)
    → ltb key_max_length key_length ≡ false
    → (announced key_length vlen ≡ announced 0 vlen)
      × (overflows key_length vlen ≡ overflows 0 vlen)
short_key key_length none h = (refl, refl)
short_key key_length (some (negsuc n)) h = (refl, refl)
short_key key_length (some (pos n)) h = (rw h refl, rw h refl)

long_key :
    (key_length : ℕ) (vlen : Option ℤ)
    → ltb key_max_length key_length ≡ true
    → (announced key_length vlen ≡ none) × (overflows key_length vlen ≡ false)
long_key key_length none h = (refl, refl)
long_key key_length (some (negsuc n)) h = (refl, refl)
long_key key_length (some (pos n)) h = (rw h refl, rw h refl)

-- With a key and a length among the tokens: a key that is too long and a length that does not parse
-- or is negative are answered by one line, over an emptied output; a length that leaves no room in an
-- `int` for two bytes more is a fault, and no other is; else the connection is left to read the value
-- and its line end.
pub process_update_command-Expects :
    (c : Conn) (tokens : List Token) (key t : Token) (s : List ℕ) (w : World)
    → HasRoom c.output
    → 64 ≤ c.wsize
    → token_at tokens 1 ≡ ok key
    → token_at tokens 4 ≡ ok t
    → t.value ≡ some s
    → Ends
        (overflows key.length (safe_strtol s))
        (Expects (announced key.length (safe_strtol s)) c w)
        (process_update_command c tokens w)
unfolding process_update_command
process_update_command-Expects c tokens key t s w room size has_key has_length text =
    elim (Bool-cases (ltb key_max_length key.length)) [
      | inl long ↦
          let (announces, fits) = long_key key.length (safe_strtol s) long in
          let (r, run, p) = error_response-Responds c bad_format w room size in
          rw fits (
            (
              r,
              rw (process_update_command, has_key, long) run,
              subst (λ k. Expects k c w r) (sym announces) p,
            ))
      | inr short ↦
          let (announces, fits) = short_key key.length (safe_strtol s) short in
          let same : process_update_command c tokens w ≡ expect_value c (safe_strtol s) w =
            rw (process_update_command, has_key, short, has_length, text) refl in
          subst
            (λ b.
              Ends b (Expects (announced key.length (safe_strtol s)) c w)
                (process_update_command c tokens w))
            (sym fits)
            (subst
              (λ k.
                Ends (overflows 0 (safe_strtol s)) (Expects k c w)
                  (process_update_command c tokens w))
              (sym announces)
              (subst
                (Ends (overflows 0 (safe_strtol s)) (Expects (announced 0 (safe_strtol s)) c w))
                (sym same) (expect_value_lem c (safe_strtol s) w room size)))
    ]
