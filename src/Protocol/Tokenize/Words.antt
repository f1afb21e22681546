-- ===== src/Protocol/Tokenize/Words.antt =====
-- `tokenize_command` splits a command into its words, a bounded number of them at a time.
use mathlib.Core.List.{map, map-append}
use synthetic_client.Base.{
  ℕ, suc, ◌+◌, ◌-◌, ◌≤◌, ◌<◌, ◌≡◌, ◌≢◌, refl, sym, ap, ◌∙◌, inl, inr, ◌==◌, if◌then◌else◌, List, [],
  ◌∷◌, ◌++◌, append-nil, append_assoc, length, length-append, Bool-cases, arith,
}
use synthetic_client.Protocol.{Token}
use synthetic_client.Protocol.Tokenize.{
  is_space, word_token, terminal, finish, scan, tokenize_command,
}

-- The words of a text: its longest parts without a space. `words_from` has read part of a word.
abbrev emit : List ℕ → List (List ℕ) → List (List ℕ)
emit [] ws = ws
emit (c ∷ cs) ws = (c ∷ cs) ∷ ws

unfoldable pub words_from : List ℕ → List ℕ → List (List ℕ)
words_from word [] = emit word []
words_from word (c ∷ rest) =
    if is_space c then emit word (words_from [] rest) else words_from (word ++ c ∷ []) rest

unfoldable pub words : List ℕ → List (List ℕ)
unfolding words_from
words = words_from []

-- The words of the command are those of the tokens and then those of the remainder; there is a
-- remainder only if the tokens are used up.
pub record Tokenizes (max : ℕ) (command : List ℕ) (tokens : List Token) : Type 0 where
  pub texts : List (List ℕ)
  pub remainder : List ℕ
  pub layout : tokens ≡ map word_token texts ++ terminal remainder ∷ []
  pub split : words command ≡ texts ++ words remainder
  pub bounded : length texts + 1 ≤ max
  pub full : remainder ≢ [] → length texts + 1 ≡ max

-- The same for the loop, with the texts of the tokens before it and the words that it has to find.
record Scans (max : ℕ) (before todo : List (List ℕ)) (tokens : List Token) : Type 0 where
  texts : List (List ℕ)
  remainder : List ℕ
  layout : tokens ≡ map word_token (before ++ texts) ++ terminal remainder ∷ []
  split : todo ≡ texts ++ words remainder
  bounded : length (before ++ texts) + 1 ≤ max
  full : remainder ≢ [] → length (before ++ texts) + 1 ≡ max

length-map : (ws : List (List ℕ)) → length (map word_token ws) ≡ length ws
length-map [] = refl
length-map (w ∷ ws) = ap suc (length-map ws)

Scans-cons :
    (max : ℕ) (before todo : List (List ℕ)) (w : List ℕ) (tokens : List Token)
    → Scans max (before ++ w ∷ []) todo tokens
    → Scans max before (w ∷ todo) tokens
Scans-cons max before todo w tokens s =
    let regroup : (before ++ w ∷ []) ++ s.texts ≡ before ++ (w ∷ s.texts) =
      append_assoc before (w ∷ []) s.texts in
    record {
      texts = w ∷ s.texts;
      remainder = s.remainder;
      layout = s.layout ∙ ap (λ ws. map word_token ws ++ terminal s.remainder ∷ []) regroup;
      split = ap (◌∷◌ w) s.split;
      bounded = rw (← regroup) s.bounded;
      full = rw (← regroup) s.full;
    }

-- The loop at the end of the string, and when it breaks off.
Scans-stop :
    (max : ℕ) (before : List (List ℕ)) (rest : List ℕ)
    → length before + 1 ≤ max
    → (rest ≢ [] → length before + 1 ≡ max)
    → Scans max before (words rest) (finish rest [] (map word_token before))
unfolding finish
Scans-stop max before rest h f = record {
  texts = [];
  remainder = rest;
  layout = rw append-nil;
  split = refl;
  bounded = rw append-nil h;
  full = rw append-nil f;
}

finish-word :
    (c : ℕ) (cs : List ℕ) (before : List (List ℕ))
    → finish [] (c ∷ cs) (map word_token before)
      ≡ finish [] [] (map word_token (before ++ (c ∷ cs) ∷ []))
unfolding finish
finish-word c cs before =
    ap (λ ts. ts ++ terminal [] ∷ []) (sym (map-append word_token before ((c ∷ cs) ∷ [])))

-- A space behind a word.
push_lem :
    (max : ℕ) (rest w : List ℕ) (before : List (List ℕ))
    → length before + 1 < max
    → ((more : List (List ℕ))
        → length more + 1 < max
        → Scans max more (words_from [] rest) (scan max rest [] (map word_token more)))
    → let pushed = map word_token before ++ word_token w ∷ [] in
      Scans max before
        (w ∷ words_from [] rest)
        (if length pushed == max - 1 then finish rest [] pushed else scan max rest [] pushed)
unfolding words
push_lem max rest w before h again =
    let more = before ++ w ∷ [] in
    let tokens : map word_token before ++ word_token w ∷ [] ≡ map word_token more =
      sym (map-append word_token before (w ∷ [])) in
    let count : length more ≡ length before + 1 = length-append before (w ∷ []) in
    rw (tokens, length-map more)
      (elim (Bool-cases (length more == max - 1)) [
        | inl full ↦ rw full (
            Scans-cons max before (words rest) w _
              (Scans-stop max more rest (omega arith) (λ _. ground arith)))
        | inr space ↦ rw space (Scans-cons max before (words rest) w _ (again more (ground arith)))
      ])

scan_lem :
    (max : ℕ) (rest word : List ℕ) (before : List (List ℕ))
    → length before + 1 < max
    → Scans max before (words_from word rest) (scan max rest word (map word_token before))
unfolding scan words_from words
scan_lem max [] [] before h = Scans-stop max before [] (omega arith) (λ n. absurd (n refl))
scan_lem max [] (c ∷ cs) before h = Scans-cons max before [] (c ∷ cs) _ (
    rw (finish-word c cs before) (
      Scans-stop max (before ++ (c ∷ cs) ∷ []) []
        (omega (arith, length-append before ((c ∷ cs) ∷ []))) (λ n. absurd (n refl))))
scan_lem max (c ∷ rest) [] before h = elim (Bool-cases (is_space c)) [
  | inl space ↦ rw space (scan_lem max rest [] before h)
  | inr other ↦ rw other (scan_lem max rest (c ∷ []) before h)
]
scan_lem max (c ∷ rest) (x ∷ xs) before h = elim (Bool-cases (is_space c)) [
  | inr other ↦ rw other (scan_lem max rest ((x ∷ xs) ++ c ∷ []) before h)
  | inl space ↦ rw space (push_lem max rest (x ∷ xs) before h (scan_lem max rest []))
]

-- The tokens but the last are words of the command, from the first on; the last points at the rest
-- of the command, and is null unless all the other `max_tokens - 1` tokens are used. The words of
-- the rest are the other words of the command: going on with it loses and invents none.
pub tokenize_command-Tokenizes :
    (command : List ℕ) (max : ℕ) → 1 < max → Tokenizes max command (tokenize_command command max)
unfolding tokenize_command words
tokenize_command-Tokenizes command max h =
    let s = scan_lem max command [] [] h in
    record {
      texts = s.texts;
      remainder = s.remainder;
      layout = s.layout;
      split = s.split;
      bounded = s.bounded;
      full = s.full;
    }
