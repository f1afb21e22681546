-- ===== src/Fsm.antt =====
-- src/fsm.h: the states of a connection.

pub data ConnStates : Type 0 where
  conn_min_state conn_listening conn_new_cmd conn_waiting conn_read conn_parse_cmd : ConnStates
  conn_read_value conn_swallow conn_rpc_wait conn_rpc_done conn_write conn_mwrite : ConnStates
  conn_timeout conn_timeout_post conn_closing conn_max_state : ConnStates

pub ConnStates-discrete : Discrete ConnStates
ConnStates-discrete = hlevel
