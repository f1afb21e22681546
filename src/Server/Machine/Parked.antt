-- ===== src/Server/Machine/Parked.antt =====
-- Where the machine may stop, and for what event the connection then listens.
use synthetic_client.Base.{
  ℕ, ◌≡◌, ◌≢◌, ◌⊎◌, refl, sym, ◌∙◌, subst, inl, inr, Bool, true, false, ltb, if◌then◌else◌, Option,
  none, Bool-cases, arith,
}
use synthetic_client.Fsm.{
  ConnStates, conn_listening, conn_new_cmd, conn_read, conn_read_value, conn_swallow, conn_rpc_wait,
  conn_write, conn_mwrite, conn_timeout_post, conn_closing,
}
use synthetic_client.World.{World}
use synthetic_client.Conn.{Conn, EvFlags, ev_none, ev_read, ev_write}
use synthetic_client.Conn.Event.{same_flags, conn_update_event, conn_update_event_t}
use synthetic_client.Server.States.{Turn, next, stop, if_updated, age_blob}

-- What `conn_close` leaves of a connection.
abbrev pub IsClosed : Conn → Type 0
IsClosed c = (c.event ≡ none) × (c.stats ≡ none) × (c.mem_blob ≡ none)

-- In each state in which the machine stops, the event that wakes the connection up again: input to
-- come while it reads, room for output while it writes or while it has unparsed input, and nothing
-- while it waits for others. Nothing is asked in `conn_listening`. In `conn_closing` the connection has
-- been closed, or `conn_timeout` has failed to update an event that it had.
abbrev pub ParkedIn : ConnStates → Conn → Type 0
ParkedIn conn_listening c = Unit {0}
ParkedIn conn_new_cmd c = c.ev_flags ≡ (if ltb 0 c.rbytes then ev_write else ev_read)
ParkedIn conn_read c = c.ev_flags ≡ ev_read
ParkedIn conn_read_value c = c.ev_flags ≡ ev_read
ParkedIn conn_swallow c = c.ev_flags ≡ ev_read
ParkedIn conn_rpc_wait c = c.ev_flags ≡ ev_none
ParkedIn conn_write c = c.ev_flags ≡ ev_write
ParkedIn conn_mwrite c = c.ev_flags ≡ ev_write
ParkedIn conn_timeout_post c = c.ev_flags ≡ ev_none
ParkedIn conn_closing c = IsClosed c ⊎ (c.old_ev_flags ≢ ev_none)
ParkedIn _ c = ⊥

abbrev pub IsParked : Conn → Type 0
IsParked c = ParkedIn c.state c

abbrev pub Stops : (Conn → Type 0) → Turn → Type 0
Stops P (next n c w) = Unit {0}
Stops P (stop c w) = P c

pub age_blob-state : (c : Conn) → (age_blob c).state ≡ c.state
unfolding age_blob
age_blob-state c = ground arith

same_flags-eq : (f g : EvFlags) → same_flags f g ≡ true → f ≡ g
same_flags-eq f g h = ground arith

-- A successful update leaves the connection listening for what was asked.
pub update_lem :
    (c : Conn) (f : EvFlags) (t : Option ℕ) (w : World)
    → let r = conn_update_event_t c f t w in
      (r.0 ≡ true → r.1.ev_flags ≡ f) × (r.1.state ≡ c.state) × (r.1.input ≡ c.input)
unfolding conn_update_event_t
update_lem c f t w = elim (Bool-cases (same_flags c.ev_flags f)) [
  | inl same ↦ rw same ((λ _. same_flags-eq c.ev_flags f same), refl, refl)
  | inr other ↦ elim (Bool-cases (w.events 0)) [
    | inr failed ↦ rw (other, failed) ((λ e. cc), refl, refl)
    | inl deleted ↦ elim (Bool-cases (w.events 1)) [
      | inl added ↦ rw (other, deleted, added) ((λ _. refl), refl, refl)
      | inr refused ↦ rw (other, deleted, refused) ((λ _. refl), refl, refl)
    ]
  ]
]

-- An update that fails was needed, and keeps the flags that were set aside.
pub update_fails :
    (c : Conn) (f : EvFlags) (t : Option ℕ) (w : World)
    → let r = conn_update_event_t c f t w in
      r.0 ≡ false → (c.ev_flags ≢ f) × (r.1.old_ev_flags ≡ c.old_ev_flags)
unfolding conn_update_event_t
update_fails c f t w = elim (Bool-cases (same_flags c.ev_flags f)) [
  | inl same ↦ rw same (λ e. cc)
  | inr other ↦ elim (Bool-cases (w.events 0)) [
    | inr failed ↦ rw (other, failed) (λ _. (differ other, refl))
    | inl deleted ↦ elim (Bool-cases (w.events 1)) [
      | inl added ↦ rw (other, deleted, added) (λ _. (differ other, refl))
      | inr refused ↦ rw (other, deleted, refused) (λ _. (differ other, refl))
    ]
  ]
]
  where
    differ : same_flags c.ev_flags f ≡ false → c.ev_flags ≢ f
    differ h = ground arith

-- A turn that stops behind an update.
pub if_updated-Stops :
    (P : Conn → Type 0) (u : Bool × Conn × World) (n : ℕ) (k : Conn → World → Turn)
    → (u.0 ≡ true → Stops P (k u.1 u.2))
    → Stops P (if_updated u n k)
if_updated-Stops P (true, d, v) n k h = h refl
if_updated-Stops P (false, d, v) n k h = tt

-- The connection that an update returns, parked in a state that depends on the flags.
pub updated_in :
    (s : ConnStates) (c : Conn) (f : EvFlags) (n : ℕ) (w : World)
    → c.state ≡ s
    → ((d : Conn) → d.ev_flags ≡ f → d.input ≡ c.input → ParkedIn s d)
    → Stops IsParked (if_updated (conn_update_event c f w) n stop)
unfolding conn_update_event
updated_in s c f n w e h =
    let (flags, same, input) = update_lem c f none w in
    if_updated-Stops IsParked (conn_update_event_t c f none w) n stop λ done.
      let d = (conn_update_event_t c f none w).1 in
      subst (λ t. ParkedIn t d) (sym (same ∙ e)) (h d (flags done) input)
