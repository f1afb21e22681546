-- ===== src/Examples/Requests.antt =====
-- The theorems on requests at concrete inputs that meet their hypotheses.
use synthetic_client.Base.{
  ℕ, ◌≤◌, ◌≡◌, refl, true, List, [], ◌∷◌, ◌++◌, codes, bytes, ok, ◌>>=◌, Returns, get_or, arith,
}
use synthetic_client.Conn.{Conn}
use synthetic_client.Commands.{finish_get_command, process_get_command}
use synthetic_client.Commands.Hits.{IsReady}
use synthetic_client.Commands.Rounds.{AreKeys}
use synthetic_client.Commands.Finish.{finish_get_command-Answers}
use synthetic_client.Commands.Get.{process_get_command-SendsReplies}
use synthetic_client.Protocol.{max_tokens}
use synthetic_client.Commands.Replies.{Answers, replies, SendsReplies}
use synthetic_client.Server.Read.Stream.{unparsed}
use synthetic_client.Server.Command.{read_command, process_command, skip_line}
use synthetic_client.Server.Command.Lines.{IsPlain, read_command-skip_line}
use synthetic_client.Server.States.{on_swallow}
use synthetic_client.Server.States.Swallow.{Swallows, on_swallow-Swallows}
use synthetic_client.Base.Int.{pos}
use synthetic_client.Protocol.Tokenize.{tokenize_command}
use synthetic_client.Protocol.Tokenize.Words.{words, words_from}
use synthetic_client.Samples.{hello, surroundings, sample_conn}
use synthetic_client.Examples.{
  greeting-IsBuilt, small_input-HasBounds, surroundings-WellBehaved, no_backend, once,
}

-- Two items are left to answer.
abbrev two_hits : Conn
two_hits = record sample_conn { ileft = 2 }

abbrev item_bytes : ℕ → ℕ
item_bytes i = get_or hello i 0

finish_get_command-Answers_example :
    Returns
      (finish_get_command once two_hits surroundings)
      (Answers (λ _. 0) item_bytes two_hits (replies item_bytes once.fixed_item 2))
finish_get_command-Answers_example =
    finish_get_command-Answers (λ _. 0) item_bytes once two_hits surroundings greeting-IsBuilt
      (omega arith) (omega arith)

-- More keys than the tokenizer takes at a time.
abbrev ten_keys : List ℕ
ten_keys = codes "get a b c d e f g h i j"

abbrev letters : List (List ℕ)
letters =
    codes "a"
    ∷ codes "b"
    ∷ codes "c"
    ∷ codes "d"
    ∷ codes "e"
    ∷ codes "f"
    ∷ codes "g"
    ∷ codes "h"
    ∷ codes "i"
    ∷ codes "j"
    ∷ []

ten_keys-words : words ten_keys ≡ codes "get" ∷ letters
unfolding words words_from
ten_keys-words = refl

sample_conn-IsReady : IsReady 0 sample_conn surroundings
sample_conn-IsReady = record {
  built = greeting-IsBuilt;
  some_msg = omega arith;
  some_slot = omega arith;
  slots = omega arith;
  plenty = λ _. refl;
}

letters-AreKeys : AreKeys letters
letters-AreKeys =
    let one : (1 ≤ 1) × (1 ≤ 250) = (omega arith, omega arith) in
    (one, (one, (one, (one, (one, (one, (one, (one, (one, (one, tt))))))))))

process_get_command-SendsReplies_example :
    Returns
      (process_get_command 11 once sample_conn (tokenize_command ten_keys max_tokens) surroundings)
      λ r.
        SendsReplies (λ _. 0) item_bytes sample_conn (replies item_bytes once.fixed_item 10) r
        × (r.0.ileft ≡ 10)
process_get_command-SendsReplies_example =
    process_get_command-SendsReplies (λ _. 0) item_bytes 11 once sample_conn ten_keys (codes "get")
      letters surroundings ten_keys-words letters-AreKeys (omega arith) sample_conn-IsReady

-- Two lines in the buffer.
abbrev two_lines : Conn
two_lines = record sample_conn {
  input = record {
    rsize = 2048;
    rbuf = λ i. get_or (codes "stats\r\nget a\r\n") i 0;
    rcurr = 0;
    rbytes = 14;
  };
}

two_lines-unparsed : unparsed two_lines.input ≡ codes "stats" ++ 13 ∷ 10 ∷ codes "get a\r\n"
unfolding unparsed bytes
two_lines-unparsed = refl

stats-IsPlain : IsPlain (codes "stats")
stats-IsPlain = ground arith

read_command-skip_line_example :
    (read_command no_backend 10 once two_lines surroundings ≡ (
      process_command no_backend 10 once two_lines (codes "stats") surroundings >>= λ r.
      ok (true, record (r.0) { input = skip_line r.0.input 7 }, r.1)))
    × (unparsed (skip_line two_lines.input 7) ≡ codes "get a\r\n")
read_command-skip_line_example =
    read_command-skip_line no_backend 10 once two_lines (codes "stats") (codes "get a\r\n")
      surroundings stats-IsPlain (λ e. cc) two_lines-unparsed

-- Ten bytes of a value are to come, of which three are in the buffer.
abbrev value_due : Conn
value_due = record sample_conn { sbytes = pos 10 }

on_swallow-Swallows_example :
    Returns (on_swallow 20 value_due surroundings) (Swallows 10 value_due surroundings)
on_swallow-Swallows_example =
    on_swallow-Swallows 20 10 value_due surroundings small_input-HasBounds refl
      surroundings-WellBehaved
