-- ===== src/Commands/Rounds.antt =====
-- The rounds of the tokenizer over the keys of a get command.
use synthetic_client.Base.{
  ℕ, zero, suc, ◌+◌, ◌<◌, ◌≡◌, ◌≢◌, refl, sym, ap, ◌∙◌, List, [], ◌∷◌, ◌++◌, append_assoc,
  append-nil, length, length-append, codes, Run, ok, arith, subst,
}
use mathlib.Core.List.{map}
use synthetic_client.World.{World}
use synthetic_client.Conn.{Conn}
use synthetic_client.Conn.Iov.Payload.{written}
use synthetic_client.Items.{Item}
use synthetic_client.Protocol.{Token, max_tokens}
use synthetic_client.Protocol.Tokenize.{word_token, terminal, tokenize_command}
use synthetic_client.Protocol.Tokenize.Words.{words, Tokenizes, tokenize_command-Tokenizes}
use synthetic_client.Commands.{Config, Keys, stopped, get_key, get_keys, get_more, get_loop}
use synthetic_client.Commands.Replies.{server_memory, item_reply, replies}
use synthetic_client.Commands.Hits.{items, IsReady, Gains, Gains-trans, IsKey, get_key_lem}

-- Every word is a key.
abbrev pub AreKeys : List (List ℕ) → Type 0
AreKeys [] = Unit {0}
AreKeys (k ∷ ks) = IsKey k × AreKeys ks

pub AreKeys-append : (ks ls : List (List ℕ)) → AreKeys (ks ++ ls) → AreKeys ks × AreKeys ls
AreKeys-append [] ls h = (tt, h)
AreKeys-append (k ∷ ks) ls (x, h) = let (y, z) = AreKeys-append ks ls h in ((x, y), z)

items-add :
    (content : ℕ → ℕ) (it : Item) (m n : ℕ)
    → items content it m ++ items content it n ≡ items content it (m + n)
items-add content it zero n = ap (items content it) (let e : n ≡ 0 + n = omega arith in e)
items-add content it (suc m) n =
    append_assoc (item_reply content it) (items content it m) (items content it n)
    ∙ ap (λ l. item_reply content it ++ l) (items-add content it m n)
    ∙ ap (items content it) (let e : suc (m + n) ≡ suc m + n = omega arith in e)

pub items-end :
    (content : ℕ → ℕ) (it : Item) (n : ℕ)
    → items content it n ++ codes "END\r\n" ≡ replies content it n
items-end content it zero = refl
items-end content it (suc n) =
    append_assoc (item_reply content it) (items content it n) (codes "END\r\n")
    ∙ ap (λ l. item_reply content it ++ l) (items-end content it n)

-- The loop over some keys ends at the token `t`, with `n` more items.
unfoldable pub Reaches : (ℕ → ℕ) → (ℕ → ℕ) → Item → Run Keys → Token → ℕ → ℕ → Conn → Type 0
Reaches buffer content it run t i n c =
    (d : Conn) × (v : World) × (run ≡ ok (stopped d v t (i + n)))
    × IsReady (i + n) d v
    × Gains buffer content (items content it n) c d

Gains-none : (buffer content : ℕ → ℕ) (c : Conn) → Gains buffer content [] c c
Gains-none buffer content c = record {
  output = sym (append-nil (written (server_memory buffer content) c.output));
  current = refl;
}

at_terminal :
    (again : Conn → ℕ → World → Run Keys) (config : Config) (rest : List ℕ) (i : ℕ) (c : Conn)
    (w : World)
    → get_key again config (terminal rest) c i w ≡ ok (stopped c w (terminal rest) i)
unfolding get_key
at_terminal again config [] i c w = refl
at_terminal again config (b ∷ bs) i c w = refl

get_keys_lem :
    (buffer content : ℕ → ℕ) (config : Config) (ks : List (List ℕ)) (rest : List ℕ) (i : ℕ)
    (c : Conn) (w : World)
    → AreKeys ks
    → IsReady i c w
    → Reaches buffer content config.fixed_item
        (get_keys (map word_token ks ++ terminal rest ∷ []) config c i w)
        (terminal rest)
        i
        (length ks)
        c
unfolding get_keys Reaches
get_keys_lem buffer content config [] rest i c w h r =
    let count : i ≡ i + 0 = omega arith in
    (
      c,
      w,
      at_terminal _ config rest i c w ∙ ap (λ n. ok (stopped c w (terminal rest) n)) count,
      subst (λ n. IsReady n c w) count r,
      Gains-none buffer content c,
    )
get_keys_lem buffer content config (k ∷ ks) rest i c w (x, h) r =
    let (d, v, run, ready, g) =
      get_key_lem buffer content (get_keys (map word_token ks ++ terminal rest ∷ []) config) config
        k i c w x r in
    let (e, u, run', ready', g') = get_keys_lem buffer content config ks rest (i + 1) d v h ready in
    let count : i + 1 + length ks ≡ i + suc (length ks) = omega arith in
    (
      e,
      u,
      run ∙ run' ∙ ap (λ n. ok (stopped e u (terminal rest) n)) count,
      subst (λ n. IsReady n e u) count ready',
      Gains-trans buffer content _ _ c d e g g',
    )

-- A further round of the loop, by the keys and the remainder that it starts with.
abbrev Round : (ℕ → ℕ) → (ℕ → ℕ) → Config → (List Token → Conn → ℕ → World → Run Keys) → ℕ → Type 0
Round buffer content config again bound =
    (ks : List (List ℕ)) (rest : List ℕ) (i : ℕ) (c : Conn) (w : World)
    → AreKeys ks
    → AreKeys (words rest)
    → IsReady i c w
    → length (words rest) < bound
    → Reaches buffer content config.fixed_item
        (again (map word_token ks ++ terminal rest ∷ []) c i w) (terminal []) i
        (length ks + length (words rest)) c

-- The end of the loop, with nothing more to add.
reached :
    (buffer content : ℕ → ℕ) (it : Item) (i n : ℕ) (c : Conn) (w : World)
    → n ≡ 0
    → IsReady i c w
    → Reaches buffer content it (ok (stopped c w (terminal []) i)) (terminal []) i n c
unfolding Reaches
reached buffer content it i n c w e r =
    let count : i ≡ i + n = omega arith in
    (
      c,
      w,
      ap (λ m. ok (stopped c w (terminal []) m)) count,
      subst (λ m. IsReady m c w) count r,
      subst (λ m. Gains buffer content (items content it m) c c) (sym e)
          (Gains-none buffer content c),
    )

more_lem :
    (buffer content : ℕ → ℕ) (config : Config) (again : List Token → Conn → ℕ → World → Run Keys)
    (bound : ℕ)
    → Round buffer content config again bound
    → (rest : List ℕ) (i : ℕ) (c : Conn) (w : World) → AreKeys (words rest)
    → IsReady i c w
    → length (words rest) < bound + 1
    → Reaches buffer content config.fixed_item
        (get_more again (stopped c w (terminal rest) i))
        (terminal [])
        i
        (length (words rest))
        c
unfolding get_more words
more_lem buffer content config again bound loop [] i c w h r less =
    reached buffer content config.fixed_item i 0 c w refl r
more_lem buffer content config again bound loop (b ∷ bs) i c w h r less =
    from_tokens t.texts t.remainder t.split t.full t.layout
  where
    t : Tokenizes max_tokens (b ∷ bs) (tokenize_command (b ∷ bs) max_tokens)
    t = tokenize_command-Tokenizes (b ∷ bs) max_tokens (omega arith)

    from_tokens :
        (texts : List (List ℕ)) (remainder : List ℕ)
        → words (b ∷ bs) ≡ texts ++ words remainder
        → (remainder ≢ [] → length texts + 1 ≡ max_tokens)
        → tokenize_command (b ∷ bs) max_tokens ≡ map word_token texts ++ terminal remainder ∷ []
        → Reaches buffer content config.fixed_item
            (get_more again (stopped c w (terminal (b ∷ bs)) i))
            (terminal [])
            i
            (length (words (b ∷ bs)))
            c
    from_tokens [] [] split full layout = rw layout (
        reached buffer content config.fixed_item i (length (words (b ∷ bs))) c w (ap length split)
          r)
    from_tokens [] (x ∷ xs) split full layout =
        let few : 1 ≡ max_tokens = full (λ e. cc) in absurd (omega (arith, few))
    from_tokens (k ∷ ks) remainder split full layout =
        let (h1, h2) = AreKeys-append (k ∷ ks) (words remainder) (subst AreKeys split h) in
        let count : length (words (b ∷ bs)) ≡ length (k ∷ ks) + length (words remainder) =
          ap length split ∙ length-append (k ∷ ks) (words remainder) in
        rw layout (
          subst
            (λ n.
              Reaches buffer content config.fixed_item
                (again (map word_token (k ∷ ks) ++ terminal remainder ∷ []) c i w) (terminal []) i n
                c)
            (sym count) (loop (k ∷ ks) remainder i c w h1 h2 r (omega (arith, count))))

pub get_loop_lem :
    (buffer content : ℕ → ℕ) (config : Config) (fuel : ℕ)
    → Round buffer content config (get_loop fuel config) fuel
unfolding get_loop Reaches
get_loop_lem buffer content config zero ks rest i c w h1 h2 r less = absurd (omega arith)
get_loop_lem buffer content config (suc fuel) ks rest i c w h1 h2 r less =
    let (d, v, run, ready, g) = get_keys_lem buffer content config ks rest i c w h1 r in
    let (e, u, run', ready', g') =
      more_lem buffer content config (get_loop fuel config) fuel
        (get_loop_lem buffer content config fuel) rest (i + length ks) d v h2 ready (omega arith) in
    let m = length ks in
    let n = length (words rest) in
    let count : i + m + n ≡ i + (m + n) = omega arith in
    (
      e,
      u,
      rw run (run' ∙ ap (λ k. ok (stopped e u (terminal []) k)) count),
      subst (λ k. IsReady k e u) count ready',
      subst (λ s. Gains buffer content s c e) (items-add content config.fixed_item m n)
          (Gains-trans buffer content _ _ c d e g g'),
    )
