-- ===== src/Examples.antt =====
-- The theorems at concrete inputs that meet their hypotheses.
pub mod Requests
pub mod Workers
pub mod Opening
pub mod Backends
pub mod Options
pub mod Values
pub mod Starting
use synthetic_client.Base.{
  ℕ, ◌≤◌, ◌≡◌, refl, ap, subst, true, false, List, [], ◌∷◌, ◌++◌, length, length-take, take, codes,
  bytes, Run, ok, ◌>>=◌, Returns, get_or, arith,
}
use synthetic_client.Fsm.{conn_read}
use synthetic_client.World.{World, sent, after_send}
use synthetic_client.Conn.{Conn}
use synthetic_client.Conn.Iov.{conn_add_iov}
use synthetic_client.Items.{item_init_system}
use synthetic_client.Commands.{Config, finish_get_command, process_get_command}
use synthetic_client.Commands.Hits.{IsReady}
use synthetic_client.Commands.Rounds.{AreKeys}
use synthetic_client.Commands.Finish.{finish_get_command-Answers}
use synthetic_client.Commands.Get.{process_get_command-SendsReplies}
use synthetic_client.Protocol.{max_tokens}
use synthetic_client.Commands.Replies.{Answers, replies, SendsReplies}
use synthetic_client.Conn.Iov.Tiled.{IsBuilt, HasRoom}
use synthetic_client.Conn.Iov.Payload.{Memory, written, payload}
use synthetic_client.Conn.Iov.Loop.{AddsIov, conn_add_iov-AddsIov}
use synthetic_client.Server.Transmit.{
  transmit, transmit_complete, WriteResult, after_sendmsg, next_msg, take_sent, settle, consume,
  advanced,
}
use synthetic_client.Server.Transmit.Wire.{offered}
use synthetic_client.Server.Transmit.Send.{
  Transmits, transmit-Transmits, Sends, nothing, more, response-sent, on_wire, Accepts,
}
use synthetic_client.Server.Read.{read_network}
use synthetic_client.Server.Read.Stream.{unparsed, HasBounds, WellBehaved, bytes_of}
use synthetic_client.Server.Read.Network.{Receives, read_network-Receives}
use synthetic_client.Server.Response.{error_response, fitting}
use synthetic_client.Server.Response.Line.{Responds, error_response-Responds}
use synthetic_client.Server.Command.{read_command, process_command, skip_line}
use synthetic_client.Server.Command.Lines.{IsPlain, read_command-skip_line}
use synthetic_client.Server.States.{on_swallow}
use synthetic_client.Server.States.Swallow.{Swallows, on_swallow-Swallows}
use synthetic_client.Base.Int.{pos}
use synthetic_client.Conn.Iov.Sums.{conn_add_iov_int, conn_add_iov_int-AddsIov}
use synthetic_client.Protocol.Tokenize.{tokenize_command}
use synthetic_client.Protocol.Tokenize.Words.{
  words, words_from, Tokenizes, tokenize_command-Tokenizes,
}
use synthetic_client.Samples.{
  hello, hello_ptr, started, greeting, request, small_input, surroundings, sample_conn,
}

-- A region holds the text "hello".
abbrev memory : Memory
memory _ i = get_or hello i 0

room : HasRoom started
room = omega arith

pub started-IsBuilt : IsBuilt started
started-IsBuilt = record {
  room = room;
  tiled = λ i _ h. ground arith;
  starts = refl;
  limited = λ _. omega arith;
}

conn_add_iov_int-AddsIov_example :
    Returns
      (conn_add_iov_int 1024 started hello_ptr 2000 surroundings)
      (AddsIov memory started hello_ptr 2000)
conn_add_iov_int-AddsIov_example =
    conn_add_iov_int-AddsIov memory 1024 started hello_ptr 2000 surroundings started-IsBuilt
      (omega arith) (omega arith)

greeting-IsBuilt : IsBuilt greeting
greeting-IsBuilt = record {
  room = omega arith;
  tiled = λ i _ h. ground arith;
  starts = refl;
  limited = λ _. omega arith;
}

three_accepted : Accepts memory sample_conn surroundings
unfolding offered payload bytes next_msg
three_accepted = omega arith

transmit-Transmits_example :
    Returns (transmit sample_conn surroundings) (Transmits memory sample_conn surroundings)
transmit-Transmits_example =
    transmit-Transmits memory sample_conn surroundings (λ i _ h. ground arith) three_accepted

-- The kernel takes "hel", then "lo".
abbrev first_part : WriteResult × Conn × World
first_part =
    after_sendmsg (record sample_conn { output = next_msg greeting }) (sent 3)
      (after_send surroundings)

abbrev two_more : World
two_more = record surroundings { sends = λ _. sent 2 }

abbrev second_part : WriteResult × Conn × World
second_part =
    after_sendmsg (record first_part.1 { output = next_msg first_part.1.output }) (sent 2)
      (after_send two_more)

first_run : transmit sample_conn surroundings ≡ ok first_part
unfolding transmit next_msg
first_run = refl

two_accepted : Accepts memory first_part.1 two_more
unfolding offered payload bytes next_msg after_sendmsg take_sent settle consume advanced
two_accepted = omega arith

second_run : transmit first_part.1 two_more ≡ ok second_part
unfolding transmit next_msg after_sendmsg take_sent settle consume advanced
second_run = refl

both_parts :
    Sends memory greeting
      (([] ++ on_wire memory sample_conn surroundings) ++ on_wire memory first_part.1 two_more)
      second_part.1.output
both_parts =
    more first_part.1 two_more second_part
      (more sample_conn surroundings first_part nothing refl three_accepted first_run) refl
      two_accepted second_run

abbrev sent_all : Conn
sent_all = record second_part.1 { output = next_msg second_part.1.output }

last_run : transmit second_part.1 surroundings ≡ ok (transmit_complete, sent_all, surroundings)
unfolding transmit next_msg after_sendmsg take_sent settle consume advanced
last_run = refl

response-sent_example :
    ([] ++ on_wire memory sample_conn surroundings) ++ on_wire memory first_part.1 two_more
    ≡ written memory greeting
response-sent_example =
    response-sent memory greeting greeting-IsBuilt refl both_parts second_part.1 sent_all
      surroundings surroundings refl last_run

small_input-HasBounds : HasBounds small_input
small_input-HasBounds = record { within = omega arith; some_size = omega arith }

taken : (n : ℕ) (xs : List ℕ) → length (take n xs) ≤ n
taken n xs = rw (length-take n xs) (ground arith)

surroundings-WellBehaved : WellBehaved surroundings
surroundings-WellBehaved i n bs e = subst (λ s. length s ≤ n) (ap bytes_of e) (taken n request)

read_network-Receives_example :
    Returns (read_network small_input surroundings) (Receives small_input surroundings)
read_network-Receives_example =
    read_network-Receives small_input surroundings small_input-HasBounds surroundings-WellBehaved
      (omega arith)

no_backend : Conn → List ℕ → World → Run (Conn × World)
no_backend c line w = ok (c, w)

abbrev reading : Conn
reading = record sample_conn { state = conn_read }

abbrev once : Config
once = record {
  verbose = 0;
  alloc = false;
  rtt_delay = false;
  iov_max = 1024;
  fixed_item = item_init_system;
}

tokenize_command-Tokenizes_example :
    Tokenizes 8 (codes "get a b") (tokenize_command (codes "get a b") 8)
tokenize_command-Tokenizes_example = tokenize_command-Tokenizes (codes "get a b") 8 (omega arith)

error_response-Responds_example :
    Returns
      (error_response sample_conn (codes "ERROR") surroundings)
      (Responds (fitting 2048 (codes "ERROR")) sample_conn)
error_response-Responds_example =
    error_response-Responds sample_conn (codes "ERROR") surroundings (omega arith) (omega arith)
