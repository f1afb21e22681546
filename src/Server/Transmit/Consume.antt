-- ===== src/Server/Transmit/Consume.antt =====
-- Dropping `res` bytes of a run of elements drops as many bytes of what it stands for.
use synthetic_client.Base.{
  ℕ, zero, suc, ◌+◌, ◌-◌, ◌≤◌, ◌<◌, ◌≡◌, refl, sym, ap, subst, ◌∙◌, inl, inr, leb, update,
  update_other, bytes, bytes_congr, bytes-add, length-bytes, length, take, drop, take-append-drop,
  length-append, List, [], ◌∷◌, ◌++◌, append_assoc, Bool-cases, arith,
}
use synthetic_client.Conn.{Iovec}
use synthetic_client.Conn.Iov.Payload.{Memory, span, payload}
use synthetic_client.Server.Transmit.{consume, advanced}

take-append_long {ℓ} :
    {A : Type ℓ} (n : ℕ) (xs ys : List A)
    → length xs ≤ n
    → take n (xs ++ ys) ≡ xs ++ take (n - length xs) ys
take-append_long n [] ys h = ap (λ k. take k ys) (omega arith)
take-append_long zero (x ∷ xs) ys h = absurd (omega arith)
take-append_long (suc n) (x ∷ xs) ys h =
    let less : suc n - length (x ∷ xs) ≡ n - length xs = omega arith in
    rw less (ap (◌∷◌ x) (take-append_long n xs ys (omega arith)))

drop-append {ℓ} : {A : Type ℓ} (xs ys : List A) → drop (length xs) (xs ++ ys) ≡ ys
drop-append [] ys = refl
drop-append (x ∷ xs) ys = drop-append xs ys

-- The loop ends at the element that `res` reaches into, or past the last one.
pub record Consumes (mem : Memory) (iov : ℕ → Iovec) (k n res : ℕ) (r : ℕ × ℕ × ℕ) : Type 0 where
  pub ends : r.1 + r.2 ≡ k + n
  pub begins : k ≤ r.1
  pub inside : 0 < r.0 → (0 < r.2) × (r.0 < (iov r.1).iov_len)
  pub splits :
      payload mem (bytes iov k n)
      ≡ take res (payload mem (bytes iov k n)) ++ drop r.0 (payload mem (bytes iov r.1 r.2))

pub consume_lem :
    (mem : Memory) (iov : ℕ → Iovec) (k n res : ℕ)
    → res ≤ length (payload mem (bytes iov k n))
    → Consumes mem iov k n res (consume iov k n res)
unfolding consume payload bytes
consume_lem mem iov k zero zero h = record {
  ends = refl;
  begins = omega arith;
  inside = λ p. absurd (omega arith);
  splits = refl;
}
consume_lem mem iov k zero (suc res) h = absurd (omega arith)
consume_lem mem iov k (suc n) res h =
    let v = iov k in
    let A = span mem v.iov_base v.iov_len in
    let B = payload mem (bytes iov (k + 1) n) in
    let size : length A ≡ v.iov_len =
      length-bytes (mem v.iov_base.region) v.iov_base.offset v.iov_len in
    elim (Bool-cases (leb v.iov_len res)) [
      | inr inner ↦ rw inner (record {
        ends = refl;
        begins = omega arith;
        inside = λ p. (omega arith, ground arith);
        splits = sym (take-append-drop res (A ++ B));
      })
      | inl covered ↦
          let some_left : v.iov_len ≤ res = ground arith in
          let c =
            consume_lem mem iov (k + 1) n (res - v.iov_len) (omega (arith, length-append A B)) in
          let r = consume iov (k + 1) n (res - v.iov_len) in
          let cut : take res (A ++ B) ≡ A ++ take (res - v.iov_len) B =
            take-append_long res A B (omega arith) ∙ ap (λ l. A ++ take (res - l) B) size in
          let D = drop r.0 (payload mem (bytes iov r.1 r.2)) in
          rw covered (record {
            ends = omega (arith, c.ends);
            begins = omega (arith, c.begins);
            inside = c.inside;
            splits =
                ap (◌++◌ A) c.splits
                ∙ sym (append_assoc A (take (res - v.iov_len) B) D)
                ∙ ap (λ t. t ++ D) (sym cut);
          })
    ]

-- An element that `res` reaches into keeps the rest of its bytes.
pub advanced_lem :
    (mem : Memory) (iov : ℕ → Iovec) (k n res : ℕ)
    → res < (iov k).iov_len
    → payload mem (bytes (update iov k (advanced (iov k) res)) k (suc n))
      ≡ drop res (payload mem (bytes iov k (suc n)))
unfolding payload bytes advanced
advanced_lem mem iov k n res h =
    let v = iov k in
    let iov' = update iov k (advanced v res) in
    let A = span mem v.iov_base res in
    let B = bytes (mem v.iov_base.region) (v.iov_base.offset + res) (v.iov_len - res) in
    let C = payload mem (bytes iov (k + 1) n) in
    let here : iov' k ≡ advanced v res = ground arith in
    let later : bytes iov' (k + 1) n ≡ bytes iov (k + 1) n =
      bytes_congr iov' iov (k + 1) n
        (λ i l _. update_other iov k i (advanced v res) (omega arith)) in
    let total : res + (v.iov_len - res) ≡ v.iov_len = omega arith in
    let whole : span mem v.iov_base v.iov_len ≡ A ++ B =
      ap (span mem v.iov_base) (sym total)
      ∙ bytes-add (mem v.iov_base.region) v.iov_base.offset res (v.iov_len - res) in
    let size : length A ≡ res = length-bytes (mem v.iov_base.region) v.iov_base.offset res in
    let cut : drop res (A ++ (B ++ C)) ≡ B ++ C =
      subst (λ l. drop l (A ++ (B ++ C)) ≡ B ++ C) size (drop-append A (B ++ C)) in
    rw (here, later, whole, append_assoc A B C, cut)
