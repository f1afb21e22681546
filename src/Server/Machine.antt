-- ===== src/Server/Machine.antt =====
-- src/server.c: `drive_machine`, the state machine of a connection, and `event_handler`.
pub mod Parked
pub mod Stops
pub mod Drive
use synthetic_client.Base.{
  ℕ, zero, suc, Bool, true, false, ◌==◌, if◌then◌else◌, List, Run, ok, fault, assertion, no_fuel,
  ◌>>=◌,
}
use synthetic_client.Fsm.{
  ConnStates, conn_min_state, conn_listening, conn_new_cmd, conn_waiting, conn_read, conn_parse_cmd,
  conn_read_value, conn_swallow, conn_rpc_wait, conn_rpc_done, conn_write, conn_mwrite,
  conn_timeout, conn_timeout_post, conn_closing, conn_max_state,
}
use synthetic_client.World.{World}
use synthetic_client.Conn.{Conn}
use synthetic_client.Conn.Close.{conn_close}
use synthetic_client.Commands.{Config}
use synthetic_client.Server.States.{
  Turn, next, stop, on_listening, on_new_cmd, on_waiting, on_read, on_parse_cmd, on_read_value,
  on_swallow, on_rpc_wait, on_rpc_done, on_write, on_mwrite, on_timeout, on_timeout_post,
  on_closing,
}

abbrev pub req_per_event : ℕ
req_per_event = 20

-- The answer to a line from a backend, and the fuel for the keys of one command, are arguments.
module _ (backend : Conn → List ℕ → World → Run (Conn × World)) (fuel : ℕ) (config : Config) where
  -- The `switch`, with the requests that are left of `nreqs`.
  unfoldable pub turn : ConnStates → ℕ → Conn → World → Run Turn
  turn conn_listening n c w = on_listening n c w
  turn conn_new_cmd n c w = ok (on_new_cmd n c w)
  turn conn_waiting n c w = ok (on_waiting n c w)
  turn conn_read n c w = on_read n c w
  turn conn_parse_cmd n c w = on_parse_cmd backend fuel config n c w
  turn conn_read_value n c w = on_read_value n c w
  turn conn_swallow n c w = on_swallow n c w
  turn conn_rpc_wait n c w = ok (on_rpc_wait n c w)
  turn conn_rpc_done n c w = on_rpc_done config n c w
  turn conn_write n c w = on_write config n c w
  turn conn_mwrite n c w = on_mwrite n c w
  turn conn_timeout n c w = ok (on_timeout c w)
  turn conn_timeout_post n c w = on_timeout_post n c w
  turn conn_closing n c w = on_closing c w
  turn conn_min_state n c w = fault assertion
  turn conn_max_state n c w = fault assertion

  unfoldable pub go_on : (ℕ → Conn → World → Run (Conn × World)) → Turn → Run (Conn × World)
  go_on again (next n c w) = again n c w
  go_on again (stop c w) = ok (c, w)

  -- The `while (!stop)`, with fuel for its turns.
  unfoldable pub drive : ℕ → ℕ → Conn → World → Run (Conn × World)
  drive zero n c w = fault no_fuel
  drive (suc turns) n c w = turn c.state n c w >>= go_on (drive turns)

  unfoldable pub drive_machine : ℕ → Conn → World → Run (Conn × World)
  drive_machine turns c w = drive turns req_per_event c w

  -- An event on a descriptor that is not the connection's closes it.
  unfoldable pub event_handler : ℕ → ℕ → Conn → World → Run (Conn × World)
  event_handler turns fd c w = if fd == c.sfd then drive_machine turns c w else conn_close c w
