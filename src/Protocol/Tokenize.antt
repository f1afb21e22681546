-- ===== src/Protocol/Tokenize.antt =====
-- src/protocol.c: `tokenize_command`.
pub mod Words
use synthetic_client.Base.{
  ℕ, ◌-◌, Bool, true, false, ◌&&◌, ◌==◌, if◌then◌else◌, none, some, List, [], ◌∷◌, ◌++◌, length,
}
use synthetic_client.Protocol.{Token}

abbrev pub is_space : ℕ → Bool
is_space c = c == b' '

-- `s != e`
abbrev pub nonempty : List ℕ → Bool
nonempty [] = false
nonempty (c ∷ cs) = true

abbrev pub word_token : List ℕ → Token
word_token w = record { value = some w; length = length w }

-- The last token: null where the string is used up, otherwise its unprocessed part.
abbrev pub terminal : List ℕ → Token
terminal [] = record { value = none; length = 0 }
terminal (c ∷ cs) = record { value = some (c ∷ cs); length = 0 }

-- Append the word from `s` to `e`, if there is one.
abbrev pub push_word : List Token → List ℕ → List Token
push_word tokens [] = tokens
push_word tokens (c ∷ cs) = tokens ++ word_token (c ∷ cs) ∷ []

-- What follows the loop, with the string from `e` on.
pub finish : List ℕ → List ℕ → List Token → List Token
finish rest word tokens = push_word tokens word ++ terminal rest ∷ []

-- The loop, with the string from `e` on, the word from `s` to `e` and the tokens so far.
pub scan : ℕ → List ℕ → List ℕ → List Token → List Token
unfolding finish
scan max_tokens [] word tokens = finish [] word tokens
scan max_tokens (c ∷ rest) word tokens =
    let pushed = if is_space c then push_word tokens word else tokens in
    let more = scan max_tokens rest (if is_space c then [] else word ++ c ∷ []) pushed in
    if is_space c && (nonempty word && (length pushed == max_tokens - 1))
    then finish rest [] pushed
    else more

unfoldable pub tokenize_command : List ℕ → ℕ → List Token
unfolding scan
tokenize_command command max_tokens = scan max_tokens command [] []
