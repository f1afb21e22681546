-- ===== src/Commands/Replies.antt =====
-- What the response to a get command consists of.
use synthetic_client.Base.{
  ℕ, zero, suc, ◌+◌, ◌≤◌, ◌≡◌, refl, ap, ◌∙◌, Bool, true, false, List, ◌++◌, append_assoc, bytes,
  codes, get_or, Run, ok, Returns, Returns->>=, if◌then◌else◌, arith, ◌⊎◌,
}
use synthetic_client.Fsm.{conn_mwrite}
use synthetic_client.World.{World}
use synthetic_client.Conn.{Conn, Output, Ptr, own_wbuf, item_data, text}
use synthetic_client.Conn.Iov.{conn_add_iov}
use synthetic_client.Conn.Iov.Tiled.{IsBuilt}
use synthetic_client.Conn.Iov.Payload.{Memory, span, written}
use synthetic_client.Conn.Iov.Loop.{conn_add_iov-AddsIov}
use synthetic_client.Items.{Item, item_key, item_suffix}
use synthetic_client.Commands.{constant, then_add, add_item, out_of_memory}
use synthetic_client.Server.Response.Line.{Responds}

-- The bytes behind the pointers: those of `wbuf`, those of the item, and the constants.
abbrev pub server_memory : (ℕ → ℕ) → (ℕ → ℕ) → Memory
server_memory buffer content own_wbuf = buffer
server_memory buffer content item_data = content
server_memory buffer content (text s) = λ i. get_or s i 0

-- "VALUE ", the key, and the flags, length and data of the item.
abbrev pub item_reply : (ℕ → ℕ) → Item → List ℕ
item_reply content it =
    codes "VALUE "
    ++ bytes content 0 it.nkey
    ++ bytes content (it.nkey + 1) (it.nsuffix + it.nbytes)

-- So many items, and the end.
abbrev pub replies : (ℕ → ℕ) → Item → ℕ → List ℕ
replies content it zero = codes "END\r\n"
replies content it (suc n) = item_reply content it ++ replies content it n

-- The output stays well built, and on success it stands for some more bytes.
pub record Extends (mem : Memory) (o : Output) (s : List ℕ) (r : Bool × Output × World)
    : Type 0 where
  pub built : IsBuilt r.1
  pub some_msg : 1 ≤ r.1.msgused
  pub current : r.1.msgcurr ≡ o.msgcurr
  pub whole : r.0 ≡ true → written mem r.1 ≡ written mem o ++ s

pub conn_add_iov-Extends :
    (mem : Memory) (iov_max : ℕ) (o : Output) (p : Ptr) (n : ℕ) (w : World)
    → IsBuilt o
    → 1 ≤ o.msgused
    → Returns (conn_add_iov iov_max o p n w) (Extends mem o (span mem p n))
conn_add_iov-Extends mem iov_max o p n w b u =
    let (r, run, (k, places, le, whole)) = conn_add_iov-AddsIov mem iov_max o p n w b u in
    (
      r,
      run,
      record {
        built = places.built;
        some_msg = omega (arith, places.used);
        current = places.current;
        whole = λ e. places.appends ∙ ap (λ m. written mem o ++ span mem p m) (whole e);
      },
    )

pub then_add-Extends :
    (mem : Memory) (iov_max : ℕ) (o : Output) (s : List ℕ) (p : Ptr) (n : ℕ)
    (before : Run (Bool × Output × World))
    → Returns before (Extends mem o s)
    → Returns (then_add iov_max p n before) (Extends mem o (s ++ span mem p n))
unfolding then_add
then_add-Extends mem iov_max o s p n before h =
    Returns->>= (Extends mem o s) (Extends mem o (s ++ span mem p n)) before _ h step
  where
    step :
        (r : Bool × Output × World)
        → Extends mem o s r
        → Returns
            (if r.0 then conn_add_iov iov_max r.1 p n r.2 else ok r)
            (Extends mem o (s ++ span mem p n))
    step (false, d, v) x = (
      (false, d, v),
      refl,
      record { built = x.built; some_msg = x.some_msg; current = x.current; whole = λ e. cc },
    )
    step (true, d, v) x =
        let (r, run, y) = conn_add_iov-Extends mem iov_max d p n v x.built x.some_msg in
        (
          r,
          run,
          record {
            built = y.built;
            some_msg = y.some_msg;
            current = y.current ∙ x.current;
            whole = λ e.
                y.whole e
                ∙ ap (λ t. t ++ span mem p n) (x.whole refl)
                ∙ append_assoc (written mem o) s (span mem p n);
          },
        )

pub add_item-Extends :
    (buffer content : ℕ → ℕ) (iov_max : ℕ) (it : Item) (o : Output) (w : World)
    → IsBuilt o
    → 1 ≤ o.msgused
    → Returns
        (add_item iov_max it o w)
        (Extends (server_memory buffer content) o (item_reply content it))
unfolding add_item bytes
add_item-Extends buffer content iov_max it o w b u =
    let mem = server_memory buffer content in
    let first = conn_add_iov-Extends mem iov_max o (constant (codes "VALUE ")) 6 w b u in
    let key = then_add-Extends mem iov_max o _ (item_key it) it.nkey _ first in
    let all = then_add-Extends mem iov_max o _ (item_suffix it) (it.nsuffix + it.nbytes) _ key in
    all

-- The connection is left to send the rest of the response, or one line instead of it.
pub record SendsReplies (buffer content : ℕ → ℕ) (c : Conn) (s : List ℕ) (r : Conn × World)
    : Type 0 where
  pub state : r.0.state ≡ conn_mwrite
  pub built : IsBuilt r.0.output
  pub current : r.0.msgcurr ≡ c.msgcurr
  pub output :
      written (server_memory buffer content) r.0.output
      ≡ written (server_memory buffer content) c.output ++ s

abbrev pub Answers : (ℕ → ℕ) → (ℕ → ℕ) → Conn → List ℕ → Conn × World → Type 0
Answers buffer content c s r = SendsReplies buffer content c s r ⊎ Responds out_of_memory c r
