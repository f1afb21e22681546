-- ===== src/Conn/Event.antt =====
-- src/connections.c: the state of the machine, and the event that the connection listens for.
use synthetic_client.Base.{
  ℕ, Bool, true, false, Option, none, some, if◌then◌else◌, Run, ok, fault, assertion,
}
use synthetic_client.Fsm.{ConnStates, conn_min_state, conn_max_state}
use synthetic_client.World.{World, after_event}
use synthetic_client.Conn.{Conn, EvFlags, ev_none, ev_read, ev_write}

-- To a state that is written out, which is in the range that is asserted. Whether the state differs or
-- not, it is the new one afterwards; the test only guards a message.
unfoldable pub conn_set_state : Conn → ConnStates → Conn
conn_set_state c state = record c { state = state }

-- To a state that is held in a field, with the assertion on its range.
unfoldable pub conn_set_held_state : Conn → ConnStates → Run Conn
unfolding conn_set_state
conn_set_held_state c conn_min_state = fault assertion
conn_set_held_state c conn_max_state = fault assertion
conn_set_held_state c state = ok (conn_set_state c state)

abbrev pub same_flags : EvFlags → EvFlags → Bool
same_flags ev_none ev_none = true
same_flags ev_read ev_read = true
same_flags ev_write ev_write = true
same_flags _ _ = false

-- `event_del`, `event_set` and `event_add`; the first and the last may fail.
unfoldable pub conn_update_event_t : Conn → EvFlags → Option ℕ → World → Bool × Conn × World
conn_update_event_t c new_flags t w =
    if same_flags c.ev_flags new_flags
    then (true, c, w)
    else if w.events 0
    then add (record c { event = none; ev_flags = new_flags }) (after_event w)
    else (false, c, after_event w)
  where
    add : Conn → World → Bool × Conn × World
    add c w =
        if w.events 0
        then (true, record c { event = some (new_flags, t) }, after_event w)
        else (false, c, after_event w)

unfoldable pub conn_update_event : Conn → EvFlags → World → Bool × Conn × World
unfolding conn_update_event_t
conn_update_event c new_flags w = conn_update_event_t c new_flags none w
