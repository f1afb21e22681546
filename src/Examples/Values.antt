-- ===== src/Examples/Values.antt =====
-- The theorems on values that are set at concrete inputs that meet their hypotheses.
use synthetic_client.Base.{refl, List, [], ◌∷◌, codes, some, Returns, ◌>>=◌, arith}
use synthetic_client.Base.Int.{pos}
use synthetic_client.Fsm.{conn_read_value}
use synthetic_client.Utils.{safe_strtol}
use synthetic_client.Conn.{Conn}
use synthetic_client.Protocol.{Token}
use synthetic_client.Commands.{process_update_command}
use synthetic_client.Commands.Update.{
  announced, overflows, Ends, Expects, process_update_command-Expects,
}
use synthetic_client.Server.States.{on_read_value}
use synthetic_client.Server.Machine.{turn}
use synthetic_client.Server.States.Value.{
  ReadsValue, on_read_value-ReadsValue, again, Stores, on_read_value-Stores,
}
use synthetic_client.Samples.{surroundings, sample_conn}
use synthetic_client.Examples.{
  no_backend, once, greeting-IsBuilt, small_input-HasBounds, surroundings-WellBehaved,
}

abbrev key : Token
key = record { value = some (codes "a"); length = 1 }

abbrev size : Token
size = record { value = some (codes "5"); length = 1 }

-- set a 0 0 5
abbrev set_tokens : List Token
set_tokens =
    record { value = some (codes "set"); length = 3 }
    ∷ key
    ∷ record { value = some (codes "0"); length = 1 }
    ∷ record { value = some (codes "0"); length = 1 }
    ∷ size
    ∷ []

process_update_command-Expects_example :
    Ends
      (overflows 1 (safe_strtol (codes "5")))
      (Expects (announced 1 (safe_strtol (codes "5"))) sample_conn surroundings)
      (process_update_command sample_conn set_tokens surroundings)
process_update_command-Expects_example =
    process_update_command-Expects sample_conn set_tokens key size (codes "5") surroundings
      greeting-IsBuilt.room (omega arith) refl refl refl

-- Two bytes of a value are still to come, and are in the buffer.
abbrev half_read : Conn
half_read = record sample_conn { state = conn_read_value; sbytes = pos 2 }

on_read_value-ReadsValue_example :
    Returns (on_read_value 20 half_read surroundings) (ReadsValue 2 half_read surroundings)
on_read_value-ReadsValue_example =
    on_read_value-ReadsValue 20 2 half_read surroundings small_input-HasBounds refl
      surroundings-WellBehaved greeting-IsBuilt.room (omega arith)

on_read_value-Stores_example :
    Returns
      (turn no_backend 10 once conn_read_value 20 half_read surroundings
        >>= again no_backend 10 once)
      (Stores 2 half_read)
on_read_value-Stores_example =
    on_read_value-Stores no_backend 10 once 20 1 half_read surroundings refl refl (omega arith)
      greeting-IsBuilt.room (omega arith)
