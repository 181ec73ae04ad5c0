-- ===== src/Echo/Client/Transactions.antt =====
-- The transactions of a client whose messages come back.
use coroplusplus.Common.{
  copies, ◌%◌, ◌^◌, ◌<◌, ℕ, zero, suc, ◌+◌, ◌-◌, ◌*◌, ◌≤◌, ◌≡◌, refl, ap, sym, ◌∙◌, Bool, true,
  false, List, [], ◌∷◌, ◌++◌, arith, length, length-append, append-nil, append_assoc, subst,
}
use coroplusplus.File.{Bytes, Result, ok, Answer, ◌>>=◌}
use coroplusplus.File.Stream.{content, IsSteady, read_bytes-Reads}
use coroplusplus.File.Write.{IsWritable, takings, write_bytes-Writes}
use coroplusplus.Echo.Client.{
  EchoClient, ClientEnd, finished, packet_size, read_back, after_write, after_read, transactions,
}

-- All `count` bytes have come back and were taken from the stream.
pub record ReadsBack (count : ℕ) (got : Bytes) (ans : List Answer)
    (o : Result (Bool × Bytes) × List Answer) : Type 0 where
  pub back : Bytes
  pub left : List Answer
  pub result : o ≡ (ok (true, back), left)
  pub joins : back ++ content left ≡ got ++ content ans
  pub counts : length back ≡ length got + count
  pub steady : IsSteady left

after_some :
    (fuel count : ℕ) (got buf : Bytes) (ans rest : List Answer)
    → buf ++ content rest ≡ content ans
    → length buf ≤ suc count
    → (buf ≡ [] → content ans ≡ [])
    → suc count ≤ length (content ans)
    → ((m : ℕ) (got' : Bytes)
        → m ≤ fuel
        → m ≤ length (content rest)
        → ReadsBack m got' rest (read_back fuel m got' rest))
    → count ≤ fuel
    → ReadsBack (suc count) got ans (elim buf [
      | [] ↦ (ok (false, got), rest)
      | b ∷ bs ↦ read_back fuel (suc count - length (b ∷ bs)) (got ++ b ∷ bs) rest
    ])
after_some fuel count got [] ans rest joins bounded live enough next h =
    absurd (let none_left = ap length (live refl) in omega arith)
after_some fuel count got (b ∷ bs) ans rest joins bounded live enough next h =
    let buf = b ∷ bs in
    let total = length-append buf (content rest) in
    let whole = ap length joins in
    let i =
      next (suc count - length buf) (got ++ buf) (omega arith)
        (omega (arith, total, whole, enough)) in
    record {
      back = i.back;
      left = i.left;
      result = i.result;
      joins = i.joins ∙ append_assoc got buf (content rest) ∙ ap (λ t. got ++ t) joins;
      counts = omega (arith, i.counts, length-append got buf, bounded);
      steady = i.steady;
    }

pub read_back-ReadsBack :
    (fuel count : ℕ) (got : Bytes) (ans : List Answer)
    → count ≤ fuel
    → count ≤ length (content ans)
    → IsSteady ans
    → ReadsBack count got ans (read_back fuel count got ans)
unfolding read_back
read_back-ReadsBack fuel zero got ans h enough s = record {
  back = got;
  left = ans;
  result = refl;
  joins = refl;
  counts = omega arith;
  steady = s;
}
read_back-ReadsBack zero (suc count) got ans h enough s = absurd (omega arith)
read_back-ReadsBack (suc fuel) (suc count) got ans h enough s =
    let r = read_bytes-Reads (suc count) ans (omega arith) s in
    let round = λ (buf : Bytes) (rest : List Answer).
      let o : Result (Bool × Bytes) × List Answer = elim buf [
        | [] ↦ (ok (false, got), rest)
        | b ∷ bs ↦ read_back fuel (suc count - length (b ∷ bs)) (got ++ b ∷ bs) rest
      ] in
      o in
    subst (λ o. ReadsBack (suc count) got ans (o >>= round)) (sym r.result)
      (after_some fuel count got r.got ans r.left r.joins r.bounded r.live enough
        (λ m got' k more. read_back-ReadsBack fuel m got' r.left k more r.steady) (omega arith))

-- The client went through all transactions.
pub record Transacts (n : ℕ) (message : Bytes) (c : EchoClient) (o : ClientEnd × EchoClient)
    : Type 0 where
  pub finishes : o.0 ≡ finished
  pub sends : o.1.sent ≡ c.sent ++ copies n message
  pub counts : o.1.total_bytes % 2 ^ 32 ≡ (c.total_bytes + n * length message) % 2 ^ 32
  pub leaves : length (content o.1.answers) + n * length message ≡ length (content c.answers)
  pub steady : IsSteady o.1.answers
  pub writable : IsWritable o.1.write_answers
  pub takings_left : takings c.write_answers ≤ takings o.1.write_answers + n * length message

-- If the message is shorter than 2 GB, as many bytes come back as the transactions send, on a stream that ends only at its end, and the
-- kernel takes bytes often enough without a refusal but to wait, then the client goes through all of
-- its transactions: it sends the message in each, counts the bytes, and reads no byte more.
pub transactions-Transacts :
    (ntrans : ℕ) (message : Bytes) (c : EchoClient)
    → length message < 2 ^ 31
    → ntrans * length message ≤ length (content c.answers)
    → IsSteady c.answers
    → IsWritable c.write_answers
    → ntrans * length message ≤ takings c.write_answers
    → Transacts ntrans message c (transactions ntrans message c)
unfolding transactions
transactions-Transacts zero message c int back steady writable enough = record {
  finishes = refl;
  sends = sym (append-nil c.sent);
  counts = omega arith;
  leaves = omega arith;
  steady = steady;
  writable = writable;
  takings_left = omega arith;
}
transactions-Transacts (suc n) message c int back steady writable enough =
    let size = packet_size message in
    let whole_size : size ≡ length message = omega (arith, int) in
    let more : length message + n * length message ≤ length (content c.answers) =
      omega (arith, back) in
    let free : length message + n * length message ≤ takings c.write_answers =
      omega (arith, enough) in
    let w = write_bytes-Writes message c.write_answers c.sent writable (omega (arith, free)) in
    let r =
      read_back-ReadsBack size size [] c.answers (omega arith) (omega (arith, more, whole_size))
        steady in
    let read = length-append r.back (content r.left) in
    let whole = ap length r.joins in
    let nothing : length {A = ℕ} [] ≡ 0 = refl in
    let c' : EchoClient = record {
      answers = r.left;
      write_answers = w.left;
      sent = c.sent ++ message;
      total_bytes = (c.total_bytes + size) % 2 ^ 32;
    } in
    let i =
      transactions-Transacts n message c' int
        (omega (arith, more, read, whole, r.counts, nothing, whole_size)) r.steady w.writable
        (omega (arith, free, w.takings_left)) in
    subst
      (λ o. Transacts (suc n) message c (
        after_write
          (λ c'. after_read (transactions n message) size c' (read_back size size [] c'.answers)) c
          o))
      (sym w.result)
      (subst
        (λ o. Transacts (suc n) message c (
          after_read (transactions n message) size
            (record c { write_answers = w.left; sent = c.sent ++ message }) o))
        (sym r.result)
        (record {
          finishes = i.finishes;
          sends = i.sends ∙ append_assoc c.sent message (copies n message);
          counts = omega (arith, i.counts, whole_size);
          leaves = omega (arith, i.leaves, read, whole, r.counts, nothing, whole_size);
          steady = i.steady;
          writable = i.writable;
          takings_left = omega (arith, i.takings_left, w.takings_left);
        }))
