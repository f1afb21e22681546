-- ===== src/Commands/Get.antt =====
-- src/commands.c: `process_get_command`, from its tokens to its whole response.
use synthetic_client.Base.{
  ℕ, suc, ◌+◌, ◌≤◌, ◌<◌, ◌≡◌, ◌≢◌, refl, sym, ap, ◌∙◌, inl, inr, true, List, [], ◌∷◌, ◌++◌,
  append_assoc, bytes, length, length-append, drop, codes, Returns, IfOk, Bool-cases, ◌&&◌, Option,
  arith, subst, ◌>>=◌, some, none,
}
use mathlib.Core.List.{map}
use synthetic_client.Base.Int.{ℤ}
use synthetic_client.Fsm.{conn_mwrite}
use synthetic_client.World.{World, after_alloc, after_size, after_delay}
use synthetic_client.Conn.{Conn}
use synthetic_client.Conn.Event.{conn_set_state}
use synthetic_client.Conn.Iov.Tiled.{IsBuilt}
use synthetic_client.Conn.Iov.Payload.{written}
use synthetic_client.Conn.Iov.Plenty.{Plenty, conn_add_iov-Plenty}
use synthetic_client.Protocol.{max_tokens}
use synthetic_client.Protocol.Tokenize.{word_token, terminal, tokenize_command}
use synthetic_client.Protocol.Tokenize.Words.{words, Tokenizes, tokenize_command-Tokenizes}
use synthetic_client.Commands.{
  Config, constant, stopped, get_loop, get_end, end_response, is_none, maybe_blob, allocate_blob,
  delay_response, process_get_command,
}
use synthetic_client.Commands.Replies.{server_memory, replies, SendsReplies, conn_add_iov-Extends}
use synthetic_client.Commands.Hits.{items, IsReady}
use synthetic_client.Commands.Rounds.{AreKeys, AreKeys-append, items-end, Reaches, get_loop_lem}

-- The block of memory of a request leaves the output alone.
abbrev SameOutput : Conn → World → Conn × World → Type 0
SameOutput c w r = (r.0.output ≡ c.output) × (r.0.isize ≡ c.isize) × (Plenty w → Plenty r.1)

delay_response_lem :
    (c : Conn) (w v : World) (d : Option ℤ)
    → (Plenty w → Plenty v)
    → SameOutput c w (delay_response c d, v)
unfolding delay_response conn_set_state
delay_response_lem c w v none h = (refl, refl, h)
delay_response_lem c w v (some wait) h = (refl, refl, h)

allocate_blob_lem :
    (config : Config) (c : Conn) (w : World) → SameOutput c w (allocate_blob config c w)
unfolding allocate_blob
allocate_blob_lem config c w = elim (Bool-cases config.rtt_delay) [
  | inl delay ↦ rw delay (
      delay_response_lem _ w (after_delay (after_alloc (after_size w))) (w.delays 0)
        (λ m i. m (suc i)))
  | inr no_delay ↦ rw no_delay (refl, refl, λ m i. m (suc i))
]

maybe_blob_lem : (config : Config) (c : Conn) (w : World) → SameOutput c w (maybe_blob config c w)
unfolding maybe_blob
maybe_blob_lem config c w = elim (Bool-cases (config.alloc && is_none c.mem_blob)) [
  | inl allocate ↦ rw allocate (allocate_blob_lem config c w)
  | inr keep ↦ rw keep (refl, refl, λ m. m)
]

-- The end marker.
get_end_lem :
    (buffer content : ℕ → ℕ) (config : Config) (n : ℕ) (c : Conn) (w : World)
    → IsReady n c w
    → Returns
        (get_end config (stopped c w (terminal []) n))
        λ r. SendsReplies buffer content c (codes "END\r\n") r × (r.0.ileft ≡ n)
unfolding get_end end_response conn_set_state bytes
get_end_lem buffer content config n c w r =
    let mem = server_memory buffer content in
    let (q, run, x) =
      conn_add_iov-Extends mem config.iov_max c.output (constant (codes "END\r\n")) 5 w r.built
        r.some_msg in
    let (good, m) =
      subst (IfOk (λ p. (p.0 ≡ true) × Plenty p.2)) run
        (conn_add_iov-Plenty config.iov_max c.output (constant (codes "END\r\n")) 5 w r.plenty) in
    (
      (conn_set_state (record c { icurr = 0; ileft = n; output = q.1 }) conn_mwrite, q.2),
      rw (run, good) refl,
      (record { state = refl; built = x.built; current = x.current; output = x.whole good }, refl),
    )

-- From the tokens of the keys on.
from_keys :
    (buffer content : ℕ → ℕ) (fuel : ℕ) (config : Config) (c : Conn) (w : World)
    (ks : List (List ℕ)) (rest : List ℕ)
    → AreKeys ks
    → AreKeys (words rest)
    → length (words rest) < fuel
    → IsReady 0 c w
    → let (d, v) = maybe_blob config c w in
      Returns
        (get_loop fuel config (map word_token ks ++ terminal rest ∷ []) d 0 v >>= get_end config)
        λ r.
          SendsReplies buffer content c
            (replies content config.fixed_item (length ks + length (words rest)))
            r
          × (r.0.ileft ≡ length ks + length (words rest))
unfolding Reaches
from_keys buffer content fuel config c w ks rest h1 h2 enough ready =
    let (same, slots, m) = maybe_blob_lem config c w in
    let (d, v) = maybe_blob config c w in
    let mem = server_memory buffer content in
    let n = length ks + length (words rest) in
    let ready' : IsReady 0 d v = record {
      built = subst IsBuilt (sym same) ready.built;
      some_msg = subst (λ o. 1 ≤ o.msgused) (sym same) ready.some_msg;
      some_slot = omega (arith, slots, ready.some_slot);
      slots = omega arith;
      plenty = m ready.plenty;
    } in
    let (e, u, run, ready'', g) =
      get_loop_lem buffer content config fuel ks rest 0 d v h1 h2 ready' enough in
    let (q, run', (s, left)) = get_end_lem buffer content config (0 + n) e u ready'' in
    let whole : written mem q.0.output
        ≡ written mem c.output ++ replies content config.fixed_item n =
      s.output
      ∙ ap (λ l. l ++ codes "END\r\n") g.output
      ∙ append_assoc (written mem d.output) (items content config.fixed_item n) (codes "END\r\n")
      ∙ ap (λ l. written mem d.output ++ l) (items-end content config.fixed_item n)
      ∙ ap (λ o. written mem o ++ replies content config.fixed_item n) same in
    (
      q,
      rw run run',
      (
        record {
          state = s.state;
          built = s.built;
          current = s.current ∙ g.current ∙ ap (λ o. o.msgcurr) same;
          output = whole;
        },
        omega (arith, left),
      ),
    )

-- A command of words that are a name and keys, of 1 to 250 bytes each, is answered with as many
-- answers as it has keys and the end marker, where every allocation succeeds, the output is being
-- put together and has a header, and the list of items is not empty: `process_get_command` returns,
-- and the connection goes on to send what the output stood for and then these bytes, whether or not
-- a block of memory was allocated and however many rounds of the tokenizer the command takes. Fuel
-- for one more round than there are keys is enough.
pub process_get_command-SendsReplies :
    (buffer content : ℕ → ℕ) (fuel : ℕ) (config : Config) (c : Conn) (command name : List ℕ)
    (keys : List (List ℕ)) (w : World)
    → words command ≡ name ∷ keys
    → AreKeys keys
    → length keys < fuel
    → IsReady 0 c w
    → Returns (process_get_command fuel config c (tokenize_command command max_tokens) w) λ r.
      SendsReplies buffer content c (replies content config.fixed_item (length keys)) r
      × (r.0.ileft ≡ length keys)
unfolding process_get_command words
process_get_command-SendsReplies buffer content fuel config c command name keys w all are_keys
      enough ready =
    from_tokens t.texts t.remainder t.split t.full t.layout
  where
    t : Tokenizes max_tokens command (tokenize_command command max_tokens)
    t = tokenize_command-Tokenizes command max_tokens (omega arith)

    from_tokens :
        (texts : List (List ℕ)) (remainder : List ℕ)
        → words command ≡ texts ++ words remainder
        → (remainder ≢ [] → length texts + 1 ≡ max_tokens)
        → tokenize_command command max_tokens ≡ map word_token texts ++ terminal remainder ∷ []
        → Returns (process_get_command fuel config c (tokenize_command command max_tokens) w) λ r.
          SendsReplies buffer content c (replies content config.fixed_item (length keys)) r
          × (r.0.ileft ≡ length keys)
    from_tokens [] [] split full layout =
        let none_left : [] ≡ name ∷ keys = sym split ∙ all in absurd cc
    from_tokens [] (x ∷ xs) split full layout =
        let few : 1 ≡ max_tokens = full (λ e. cc) in absurd (omega (arith, few))
    from_tokens (k ∷ ks) remainder split full layout =
        let same : ks ++ words remainder ≡ keys = ap (drop 1) (sym split ∙ all) in
        let count : length ks + length (words remainder) ≡ length keys =
          sym (length-append ks (words remainder)) ∙ ap length same in
        let (h1, h2) = AreKeys-append ks (words remainder) (subst AreKeys (sym same) are_keys) in
        rw (layout, ← count)
          (from_keys buffer content fuel config c w ks remainder h1 h2 (omega (arith, count)) ready)
