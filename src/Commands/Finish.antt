-- ===== src/Commands/Finish.antt =====
-- src/commands.c: `finish_get_command` sends the remembered items.
use synthetic_client.Base.{
  ℕ, zero, suc, ◌+◌, ◌≤◌, ◌≡◌, refl, ap, ◌∙◌, inl, inr, Bool, true, false, List, ◌++◌, append_assoc,
  bytes, codes, crlf, length, Returns, Returns->>=, Bool-cases, arith, le→ltb, subst,
}
use synthetic_client.Fsm.{conn_mwrite}
use synthetic_client.World.{World}
use synthetic_client.Conn.{Conn, Output}
use synthetic_client.Conn.Event.{conn_set_state}
use synthetic_client.Conn.Iov.Tiled.{IsBuilt}
use synthetic_client.Conn.Iov.Payload.{written}
use synthetic_client.Commands.{
  Config, constant, add_item, end_response, finish_items, finish_get_command, out_of_memory,
}
use synthetic_client.Server.Response.{error_response, fitting}
use synthetic_client.Server.Response.Line.{Responds, error_response-Responds}
use synthetic_client.Commands.Replies.{
  server_memory, item_reply, replies, Extends, conn_add_iov-Extends, add_item-Extends, Answers,
}

out_of_memory_lem :
    (c d : Conn) (w : World)
    → d.input ≡ c.input
    → d.wsize ≡ c.wsize
    → IsBuilt d.output
    → 64 ≤ c.wsize
    → Returns (error_response d out_of_memory w) (Responds out_of_memory c)
out_of_memory_lem c d w same size b h =
    let (r, run, p) = error_response-Responds d out_of_memory w b.room (omega arith) in
    let fits : fitting d.wsize out_of_memory ≡ out_of_memory =
      rw (le→ltb d.wsize (length out_of_memory + 2) (omega arith)) refl in
    (
      r,
      run,
      record {
        built = p.built;
        header = p.header;
        empty = p.empty;
        unsent = p.unsent;
        line = subst (λ s. bytes r.0.wbuf r.0.wcurr r.0.wbytes ≡ s ++ crlf) fits p.line;
        state = p.state;
        next = p.next;
        input = p.input ∙ same;
      },
    )

pub end_response-Answers :
    (buffer content : ℕ → ℕ) (config : Config) (c : Conn) (w : World)
    → IsBuilt c.output
    → 1 ≤ c.msgused
    → 64 ≤ c.wsize
    → Returns (end_response config c w) (Answers buffer content c (codes "END\r\n"))
unfolding end_response conn_set_state bytes
end_response-Answers buffer content config c w b u h =
    let mem = server_memory buffer content in
    let (r, run, x) =
      conn_add_iov-Extends mem config.iov_max c.output (constant (codes "END\r\n")) 5 w b u in
    elim (Bool-cases r.0) [
      | inl done ↦ (
        (conn_set_state (record c { output = r.1 }) conn_mwrite, r.2),
        rw (run, done) refl,
        inl (record { state = refl; built = x.built; current = x.current; output = x.whole done }),
      )
      | inr failed ↦
          let (q, run', p) =
            out_of_memory_lem c (record c { output = r.1 }) r.2 refl refl x.built h in
          (q, rw (run, failed) run', inr p)
    ]

Answers-Extends :
    (buffer content : ℕ → ℕ) (c : Conn) (s t : List ℕ) (r : Bool × Output × World)
    (q : Conn × World)
    → Extends (server_memory buffer content) c.output s r
    → r.0 ≡ true
    → Answers buffer content (record c { output = r.1 }) t q
    → Answers buffer content c (s ++ t) q
Answers-Extends buffer content c s t r q x done (inl a) = inl (record {
  state = a.state;
  built = a.built;
  current = a.current ∙ x.current;
  output =
      a.output
      ∙ ap (λ l. l ++ t) (x.whole done)
      ∙ append_assoc (written (server_memory buffer content) c.output) s t;
})
Answers-Extends buffer content c s t r q x done (inr p) = inr (record {
  built = p.built;
  header = p.header;
  empty = p.empty;
  unsent = p.unsent;
  line = p.line;
  state = p.state;
  next = p.next;
  input = p.input;
})

finish_items-Answers :
    (buffer content : ℕ → ℕ) (n : ℕ) (config : Config) (c : Conn) (w : World)
    → IsBuilt c.output
    → 1 ≤ c.msgused
    → 64 ≤ c.wsize
    → Returns
        (finish_items n config c w)
        (Answers buffer content c (replies content config.fixed_item n))
unfolding finish_items
finish_items-Answers buffer content zero config c w b u h =
    end_response-Answers buffer content config c w b u h
finish_items-Answers buffer content (suc n) config c w b u h =
    Returns->>= _ _ (add_item config.iov_max config.fixed_item c.output w) _
      (add_item-Extends buffer content config.iov_max config.fixed_item c.output w b u)
      (after_item (λ o v b' u'.
        finish_items-Answers buffer content n config (record c { output = o }) v b' u' h))
  where
    after_item :
        ((o : Output) (v : World)
          → IsBuilt o
          → 1 ≤ o.msgused
          → Returns (finish_items n config (record c { output = o }) v) (
              Answers buffer content
                (record c { output = o })
                (replies content config.fixed_item n)))
        → (r : Bool × Output × World)
        → Extends (server_memory buffer content) c.output (item_reply content config.fixed_item) r
        → Returns
            (elim r.0 [
              | true ↦ finish_items n config (record c { output = r.1 }) r.2
              | false ↦ error_response (record c { output = r.1 }) out_of_memory r.2
            ])
            (Answers buffer content c (replies content config.fixed_item (suc n)))
    after_item again (true, o, v) x =
        let (q, run, a) = again o v x.built x.some_msg in
        (q, run, Answers-Extends buffer content c _ _ (true, o, v) q x refl a)
    after_item again (false, o, v) x =
        let (q, run, p) = out_of_memory_lem c (record c { output = o }) v refl refl x.built h in
        (q, run, inr p)

-- From an output that is being put together and has a header, with a write buffer of at least 64
-- bytes, `finish_get_command` returns. Either the connection goes on to send what the output stood
-- for, an answer for each of the `ileft` items, and the end marker, or it sends the one line that
-- says that memory has run out.
pub finish_get_command-Answers :
    (buffer content : ℕ → ℕ) (config : Config) (c : Conn) (w : World)
    → IsBuilt c.output
    → 1 ≤ c.msgused
    → 64 ≤ c.wsize
    → Returns
        (finish_get_command config c w)
        (Answers buffer content c (replies content config.fixed_item c.ileft))
unfolding finish_get_command
finish_get_command-Answers buffer content config c w b u h =
    finish_items-Answers buffer content c.ileft config c w b u h
