-- ===== src/Protocol/Parse.antt =====
-- src/protocol.c: `parse_command` chooses the handler of a client's command by its first word.
use synthetic_client.Base.{
  ℕ, ◌+◌, Bool, true, false, ◌&&◌, ◌||◌, leb, ◌==◌, if◌then◌else◌, none, some, List, [], ◌∷◌,
  length, codes, same_text, Run, ok, fault, overflow, ◌>>=◌,
}
use synthetic_client.World.{World}
use synthetic_client.Conn.{Conn}
use synthetic_client.Conn.Close.{stats_of, store_stats}
use synthetic_client.Utils.{int_max}
use synthetic_client.Protocol.{Token, max_tokens}
use synthetic_client.Protocol.Tokenize.{tokenize_command}
use synthetic_client.Commands.{
  Config, process_get_command, process_update_command, process_stat_command,
}

-- `strcmp(tokens[COMMAND_TOKEN].value, name) == 0`; with one word at least the value is not null.
abbrev pub is_command : List Token → List ℕ → Bool
is_command [] name = false
is_command (t ∷ ts) name = elim t.value [ none ↦ false | some s ↦ same_text s name ]

pub data Handler : Type 0 where
  get_handler update_handler stat_handler no_handler : Handler

-- The chain of tests. `gets` and the commands that store differ only in arguments that the handlers
-- do not look at.
unfoldable pub handler : List Token → Handler
handler tokens =
    if leb 3 n && (is_command tokens (codes "get") || is_command tokens (codes "bget"))
    then get_handler
    else if leb 3 n && is_command tokens (codes "gets")
    then get_handler
    else if (n == 6 || n == 7)
        && (is_command tokens (codes "add")
            || (is_command tokens (codes "set")
                || (is_command tokens (codes "replace")
                    || (is_command tokens (codes "prepend")
                        || is_command tokens (codes "append")))))
    then update_handler
    else if (n == 7 || n == 8) && is_command tokens (codes "cas")
    then update_handler
    else if leb 2 n && is_command tokens (codes "stats")
    then stat_handler
    else no_handler
  where
    n : ℕ
    n = length tokens

-- `c->stats->requests++`, through a pointer that is neither null nor freed
unfoldable pub count_request : Conn → World → Run (Bool × Conn × World)
count_request c w = stats_of c w >>= λ (p, s).
    if leb int_max s.requests
    then fault overflow
    else ok (true, c, store_stats w p (record s { requests = s.requests + 1 }))

unfoldable pub run_handler :
    ℕ → Config → Handler → Conn → List Token → World → Run (Bool × Conn × World)
run_handler fuel config get_handler c tokens w =
    process_get_command fuel config c tokens w >>= λ r. count_request r.0 r.1
run_handler fuel config update_handler c tokens w =
    process_update_command c tokens w >>= λ r. count_request r.0 r.1
run_handler fuel config stat_handler c tokens w =
    process_stat_command c tokens w >>= λ r. count_request r.0 r.1
run_handler fuel config no_handler c tokens w = ok (false, c, w)

unfoldable pub parse_command : ℕ → Config → Conn → List ℕ → World → Run (Bool × Conn × World)
unfolding handler run_handler count_request
parse_command fuel config c command w =
    let tokens = tokenize_command command max_tokens in
    run_handler fuel config (handler tokens) c tokens w
