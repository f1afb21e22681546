-- ===== src/Protocol.antt =====
-- src/protocol.h: tokens, and the limits of the protocol.
-- A command is the list of its bytes up to the terminating NUL, and so is what a `char *` into it
-- points at: for the token of a word that is the word, since a NUL is written behind it.
pub mod Tokenize
pub mod Parse
use synthetic_client.Base.{ℕ, List, Option}

pub record Token : Type 0 where
  pub value : Option (List ℕ)
  pub length : ℕ

-- max tokens a memcached request can have
abbrev pub max_tokens : ℕ
max_tokens = 8

-- max length of a key
abbrev pub key_max_length : ℕ
key_max_length = 250
