-- ===== src/Commands.antt =====
-- src/commands.c: the commands of a client.
pub mod Replies
pub mod Hits
pub mod Rounds
pub mod Get
pub mod Update
pub mod Finish
use synthetic_client.Base.{
  ℕ, zero, suc, ◌+◌, ◌*◌, Bool, true, false, ◌&&◌, ltb, leb, ◌==◌, if◌then◌else◌, Option, none,
  some, List, [], ◌∷◌, drop, codes, Run, ok, fault, out_of_bounds, dangling, overflow, no_fuel,
  ◌>>=◌,
}
use synthetic_client.Base.Int.{ℤ, pos, negsuc}
use synthetic_client.Fsm.{conn_new_cmd, conn_read_value, conn_mwrite}
use synthetic_client.World.{World, after_alloc, after_size, after_delay}
use synthetic_client.Conn.{Conn, Output, Ptr, text}
use synthetic_client.Conn.Event.{conn_set_state}
use synthetic_client.Conn.Close.{stats_of}
use synthetic_client.Conn.Iov.{conn_add_iov}
use synthetic_client.Items.{Item, item_get, item_key, item_suffix}
use synthetic_client.Utils.{safe_strtol, int_max}
use synthetic_client.Protocol.{Token, max_tokens, key_max_length}
use synthetic_client.Protocol.Tokenize.{tokenize_command}
use synthetic_client.Server.Response.{error_response}

-- What does not change while requests are served: three of the settings, the limit of the system on
-- the elements of a message, and the item.
pub record Config : Type 0 where
  pub verbose : ℕ
  pub alloc : Bool
  pub rtt_delay : Bool
  pub iov_max : ℕ
  pub fixed_item : Item

-- A string constant.
abbrev pub constant : List ℕ → Ptr
constant s = record { region = text s; offset = 0 }

abbrev pub with_output : Conn → Bool × Output × World → Bool × Conn × World
with_output c (b, o, w) = (b, record c { output = o }, w)

-- `conn_add_iov` of a connection, after what came before has succeeded.
unfoldable pub then_add : ℕ → Ptr → ℕ → Run (Bool × Output × World) → Run (Bool × Output × World)
then_add iov_max buf len before =
    before >>= λ r. if r.0 then conn_add_iov iov_max r.1 buf len r.2 else ok r

-- "VALUE ", the key, and the flags, length and data of an item.
unfoldable pub add_item : ℕ → Item → Output → World → Run (Bool × Output × World)
unfolding then_add
add_item iov_max it o w = then_add iov_max (item_suffix it) (it.nsuffix + it.nbytes) (
    then_add iov_max (item_key it) it.nkey (conn_add_iov iov_max o (constant (codes "VALUE ")) 6 w))

abbrev pub out_of_memory : List ℕ
out_of_memory = codes "SERVER_ERROR out of memory writing get response"

abbrev pub bad_format : List ℕ
bad_format = codes "CLIENT_ERROR bad command line format"

-- "END\r\n", and on to writing.
unfoldable pub end_response : Config → Conn → World → Run (Conn × World)
end_response config c w =
    conn_add_iov config.iov_max c.output (constant (codes "END\r\n")) 5 w >>= λ r.
    let d = record c { output = r.1 } in
    if r.0 then ok (conn_set_state d conn_mwrite, r.2) else error_response d out_of_memory r.2

-- Complete the response to a get request, once the backends have answered.
unfoldable pub finish_items : ℕ → Config → Conn → World → Run (Conn × World)
finish_items zero config c w = end_response config c w
finish_items (suc n) config c w = add_item config.iov_max config.fixed_item c.output w >>= λ r.
    elim r.0 [
      | true ↦ finish_items n config (record c { output = r.1 }) r.2
      | false ↦ error_response (record c { output = r.1 }) out_of_memory r.2
    ]

unfoldable pub finish_get_command : Config → Conn → World → Run (Conn × World)
unfolding finish_items
finish_get_command config c w = finish_items c.ileft config c w

-- The block that a request allocates; `size <= 0 ? 10 : size`.
abbrev pub blob_size : ℤ → ℕ
blob_size (pos zero) = 10
blob_size (pos (suc n)) = suc n
blob_size (negsuc n) = 10

delay_response : Conn → Option ℤ → Conn
delay_response c none = c
delay_response c (some wait) = conn_set_state (record c { mem_free_delay = wait }) conn_mwrite

allocate_blob : Config → Conn → World → Conn × World
unfolding delay_response
allocate_blob config c w =
    let v = after_alloc (after_size w) in
    let blob = if w.allocs 0 then some (blob_size (w.sizes 0)) else none in
    let d = record c { mem_blob = blob; mem_free_delay = pos 0 } in
    if config.rtt_delay then (delay_response d (w.delays 0), after_delay v) else (d, v)

abbrev pub is_none {ℓ} : {A : Type ℓ} → Option A → Bool
is_none none = true
is_none (some a) = false

pub maybe_blob : Config → Conn → World → Conn × World
unfolding allocate_blob
maybe_blob config c w =
    if config.alloc && is_none c.mem_blob then allocate_blob config c w else (c, w)

-- Where the loop over the tokens stands: at a token, with the number of items so far, or at an
-- error that has been answered.
pub data Keys : Type 0 where
  stopped : Conn → World → Token → ℕ → Keys
  refused : Conn → World → Keys

-- Room in `ilist` for item number `i`; false is out of memory.
pub ensure_slot : Conn → ℕ → World → Bool × Conn × World
ensure_slot c i w =
    if leb c.isize i
    then (if w.allocs 0
        then (true, record c { isize = c.isize * 2 }, after_alloc w)
        else (false, c, after_alloc w))
    else (true, c, w)

-- A hit: on out of memory the loop breaks off at the token, otherwise it goes on with `again`.
pub add_hit :
    (Conn → ℕ → World → Run Keys) → Config → Item → Token → ℕ → Bool × Conn × World → Run Keys
add_hit again config it t i (false, c, w) = ok (stopped c w t i)
add_hit again config it t i (true, c, w) = add_item config.iov_max it c.output w >>= λ r.
    let d = record c { output = r.1 } in
    if r.0
    then (if ltb i c.isize then again d (i + 1) r.2 else fault out_of_bounds)
    else ok (stopped d r.2 t i)

pub get_key : (Conn → ℕ → World → Run Keys) → Config → Token → Conn → ℕ → World → Run Keys
unfolding add_hit
get_key again config t c i w =
    if t.length == 0
    then ok (stopped c w t i)
    else if ltb key_max_length t.length
    then (error_response c bad_format w >>= λ r. ok (refused r.0 r.1))
    else elim (item_get config.fixed_item t.length) [
      | none ↦ again c i w
      | some it ↦ add_hit again config it t i (ensure_slot c i w)
    ]

-- `while (key_token->length != 0)`
pub get_keys : List Token → Config → Conn → ℕ → World → Run Keys
get_keys [] config c i w = fault out_of_bounds
get_keys (t ∷ ts) config c i w = get_key (get_keys ts config) config t c i w

-- The end of a round of `do ... while (key_token->value != NULL)`.
pub get_more : (List Token → Conn → ℕ → World → Run Keys) → Keys → Run Keys
get_more again (refused c w) = ok (refused c w)
get_more again (stopped c w t i) = elim t.value [
  | none ↦ ok (stopped c w t i)
  | some rest ↦ from_first c w i (tokenize_command rest max_tokens)
]
  where
    from_first : Conn → World → ℕ → List Token → Run Keys
    from_first c w i [] = fault out_of_bounds
    from_first c w i (t ∷ ts) = elim t.value [
      | none ↦ ok (stopped c w t i)
      | some more ↦ again (t ∷ ts) c i w
    ]

pub get_loop : ℕ → Config → List Token → Conn → ℕ → World → Run Keys
unfolding get_keys get_more
get_loop zero config tokens c i w = fault no_fuel
get_loop (suc fuel) config tokens c i w =
    get_keys tokens config c i w >>= get_more (get_loop fuel config)

-- What follows the loop. It ends only at a token that is null.
pub get_end : Config → Keys → Run (Conn × World)
get_end config (refused c w) = ok (c, w)
get_end config (stopped c w t i) =
    let d = record c { icurr = 0; ileft = i } in
    if is_none t.value then end_response config d w else error_response d out_of_memory w

unfoldable pub process_get_command : ℕ → Config → Conn → List Token → World → Run (Conn × World)
unfolding maybe_blob get_loop get_end
process_get_command fuel config c tokens w =
    let (d, v) = maybe_blob config c w in
    get_loop fuel config (drop 1 tokens) d 0 v >>= get_end config

-- `tokens[i]`, where it is filled in.
abbrev pub token_at : List Token → ℕ → Run Token
token_at [] i = fault out_of_bounds
token_at (t ∷ ts) zero = ok t
token_at (t ∷ ts) (suc i) = token_at ts i

-- The size of the value to come, where it parses. A null `value` would be read through.
abbrev pub value_length : Token → Run (Option ℤ)
value_length t = elim t.value [ none ↦ fault dangling | some s ↦ ok (safe_strtol s) ]

expect_value : Conn → Option ℤ → World → Run (Conn × World)
expect_value c none w = error_response c bad_format w
expect_value c (some (negsuc n)) w = error_response c bad_format w
expect_value c (some (pos n)) w =
    if ltb int_max (n + 2)
    then fault overflow
    else ok (conn_set_state (record c { sbytes = pos (n + 2) }) conn_read_value, w)

-- The value itself is to be read and thrown away; its command and its other fields do not matter.
unfoldable pub process_update_command : Conn → List Token → World → Run (Conn × World)
unfolding expect_value
process_update_command c tokens w = token_at tokens 1 >>= λ key.
    if ltb key_max_length key.length
    then error_response c bad_format w
    else token_at tokens 4 >>= λ t. value_length t >>= λ vlen. expect_value c vlen w

-- Only prints, under the lock of the statistics.
unfoldable pub process_stat_command : Conn → List Token → World → Run (Conn × World)
process_stat_command c tokens w = stats_of c w >>= λ _. ok (conn_set_state c conn_new_cmd, w)
