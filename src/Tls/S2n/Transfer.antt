-- ===== src/Tls/S2n/Transfer.antt =====
-- What `read` and `write` on an s2n connection transfer.
use coroplusplus.Common.{
  ℕ, ◌+◌, ◌-◌, ◌≤◌, ◌<◌, ◌≡◌, refl, ap, sym, ◌∙◌, Bool, true, false, none, some, List, [], ◌∷◌,
  ◌++◌, arith, ◌==◌, if◌then◌else◌, length, take, drop, min, append_assoc, take-append-drop,
  take-length-take, length-take, Bool-cases, inl, inr, read_block, write_block, read_block-add,
  read_block-write_block, read_block-write_block_below, write_block_above,
}
use coroplusplus.File.{Bytes, ewouldblock}
use coroplusplus.Tls.S2n.{
  Blocked, blocked_on_read, blocked_on_write, not_blocked, S2nAnswer, gives, fails, S2nCall,
  s2n_negotiate, s2n_recv, s2n_send, S2nEnd, returned, s2n_error, os_error, yield_from_main, stuck,
  Progress, S2nTransfer, no_transfer, send_transfer, recv_transfer, wait_on_event, s2n_loop,
  S2nConnection, after_negotiation, check_negotiate, and_then, s2n_read, s2n_write,
}

-- A wait keeps the progress, or leaves the choice to the rest of the loop.
wait_on_event_cases :
    {S : Type 0} (P : S2nEnd × Progress S → Type 0) (main : Bool) (b : Blocked)
    (rest : S2nEnd × Progress S) (p : Progress S)
    → P rest
    → ((e : S2nEnd) → P (e, p))
    → P (wait_on_event main b rest p)
unfolding wait_on_event
wait_on_event_cases P true (blocked_on_read w) rest p h k = k yield_from_main
wait_on_event_cases P false (blocked_on_read none) rest p h k = h
wait_on_event_cases P false (blocked_on_read (some e)) rest p h k = k (os_error _ e)
wait_on_event_cases P true (blocked_on_write w) rest p h k = k yield_from_main
wait_on_event_cases P false (blocked_on_write none) rest p h k = h
wait_on_event_cases P false (blocked_on_write (some e)) rest p h k = k (os_error _ e)
wait_on_event_cases P main not_blocked rest p h k = k returned

module _ {S : Type 0} (call : S2nCall) (transfer : S2nTransfer S) (main : Bool) (size : ℕ)
    (P : S → ℕ → Type 0)
    (keeps : (n r : ℕ) (s : S)
      → n ≤ size
      → P s n
      → let (k, s') = transfer n (size - n) r s in (k ≤ size - n) × P s' (n + k)) where
  -- What each call keeps, of the state and of the number of bytes behind it, a loop keeps.
  s2n_loop_inv :
      (s : S) (n : ℕ) (ans : List S2nAnswer)
      → n ≤ size
      → P s n
      → let (s', n', ans') = (s2n_loop call transfer main size s n ans).1 in (n' ≤ size) × P s' n'
  unfolding s2n_loop
  s2n_loop_inv s n [] h p = (h, p)
  s2n_loop_inv s n (gives r b ∷ ans) h p =
      let (k, s') = transfer n (size - n) r s in
      let (bounded, p') = keeps n r s h p in
      let h' : n + k ≤ size = omega (arith, bounded) in
      wait_on_event_cases (λ o. (o.1.1 ≤ size) × P o.1.0 o.1.1) main b
        (s2n_loop call transfer main size s' (n + k) ans) (s', n + k, ans)
        (s2n_loop_inv s' (n + k) ans h' p') (λ e. (h', p'))
  s2n_loop_inv s n (fails e b ∷ ans) h p = elim (Bool-cases (e == ewouldblock)) [
    | inl q ↦ rw q (
        wait_on_event_cases (λ o. (o.1.1 ≤ size) × P o.1.0 o.1.1) main b
          (s2n_loop call transfer main size s n ans) (s, n, ans) (s2n_loop_inv s n ans h p)
          (λ e. (h, p)))
    | inr q ↦ rw q (h, p)
  ]

-- What a negotiation leaves alone: the bytes on their way, and all of a connection that is negotiated. It
-- returns only on a negotiated connection.
record Negotiates (c : S2nConnection) (o : S2nEnd × S2nConnection) : Type 0 where
  coming_stays : o.1.coming ≡ c.coming
  sent_stays : o.1.sent ≡ c.sent
  returns_negotiated : o.0 ≡ returned → o.1.is_negotiated ≡ true
  negotiates_once : c.is_negotiated ≡ true → o ≡ (returned, c)

after_negotiation-Negotiates :
    (c : S2nConnection) (o : S2nEnd × Progress (Unit {0}))
    → false ≡ c.is_negotiated
    → Negotiates c (after_negotiation c o)
after_negotiation-Negotiates c (returned, p) f = record {
  coming_stays = refl;
  sent_stays = refl;
  returns_negotiated = λ e. refl;
  negotiates_once = λ t. cc;
}
after_negotiation-Negotiates c (s2n_error call, p) f = record {
  coming_stays = refl;
  sent_stays = refl;
  returns_negotiated = λ e. cc;
  negotiates_once = λ t. cc;
}
after_negotiation-Negotiates c (os_error call n, p) f = record {
  coming_stays = refl;
  sent_stays = refl;
  returns_negotiated = λ e. cc;
  negotiates_once = λ t. cc;
}
after_negotiation-Negotiates c (yield_from_main, p) f = record {
  coming_stays = refl;
  sent_stays = refl;
  returns_negotiated = λ e. cc;
  negotiates_once = λ t. cc;
}
after_negotiation-Negotiates c (stuck, p) f = record {
  coming_stays = refl;
  sent_stays = refl;
  returns_negotiated = λ e. cc;
  negotiates_once = λ t. cc;
}

negotiated_or :
    (c : S2nConnection) (o : S2nEnd × Progress (Unit {0})) (b : Bool)
    → b ≡ c.is_negotiated
    → Negotiates c (if b then (returned, c) else after_negotiation c o)
negotiated_or c o true q = record {
  coming_stays = refl;
  sent_stays = refl;
  returns_negotiated = λ e. sym q;
  negotiates_once = λ t. refl;
}
negotiated_or c o false q = after_negotiation-Negotiates c o q

-- A negotiation transfers no byte of the program, returns only on a connection that is negotiated then,
-- and leaves one that was negotiated before as it is.
check_negotiate-Negotiates :
    (main : Bool) (c : S2nConnection) → Negotiates c (check_negotiate main c)
unfolding check_negotiate
check_negotiate-Negotiates main c =
    negotiated_or c (s2n_loop s2n_negotiate no_transfer main 0 tt 0 c.answers) c.is_negotiated refl

and_then_cases :
    {A : Type 0} (P : A → Type 0) (stop : S2nEnd → S2nConnection → A) (go : S2nConnection → A)
    (o : S2nEnd × S2nConnection)
    → ((e : S2nEnd) → P (stop e o.1))
    → (o.0 ≡ returned → P (go o.1))
    → P (and_then stop go o)
and_then_cases P stop go (returned, c) h k = k refl
and_then_cases P stop go (s2n_error call, c) h k = h (s2n_error call)
and_then_cases P stop go (os_error call e, c) h k = h (os_error call e)
and_then_cases P stop go (yield_from_main, c) h k = h yield_from_main
and_then_cases P stop go (stuck, c) h k = h stuck

-- The first `n` cells of a buffer hold what came first, and the others what they held before.
abbrev pub Holds : (ℕ → ℕ) → Bytes → (ℕ → ℕ) × Bytes → ℕ → Type 0
Holds before came (buffer, coming) n =
    (read_block buffer 0 n ++ coming ≡ came) × ((i : ℕ) → n ≤ i → buffer i ≡ before i)

-- Each call of s2n_recv writes at its offset.
recv_transfer-keeps :
    (before : ℕ → ℕ) (came : Bytes) (size n r : ℕ) (s : (ℕ → ℕ) × Bytes)
    → n ≤ size
    → Holds before came s n
    → let (k, s') = recv_transfer n (size - n) r s in (k ≤ size - n) × Holds before came s' (n + k)
recv_transfer-keeps before came size n r (buffer, coming) h (holds, others) =
    let room = min r (size - n) in
    let part = take room coming in
    let next = write_block buffer n part in
    let none_left : 0 + n ≡ n = omega arith in
    let first : read_block next 0 (n + length part) ≡ read_block buffer 0 n ++ part =
      read_block-add next 0 n (length part)
      ∙ ap (λ t. t ++ read_block next (0 + n) (length part))
          (read_block-write_block_below buffer 0 n n part (omega arith))
      ∙ ap (λ a. read_block buffer 0 n ++ read_block next a (length part)) none_left
      ∙ ap (λ t. read_block buffer 0 n ++ t) (read_block-write_block buffer n part) in
    let rest : part ++ drop (length part) coming ≡ coming =
      ap (λ t. t ++ drop (length part) coming) (sym (take-length-take room coming))
      ∙ take-append-drop (length part) coming in
    (
      omega (arith, length-take room coming),
      (
        ap (λ t. t ++ drop (length part) coming) first
            ∙ append_assoc (read_block buffer 0 n) part (drop (length part) coming)
            ∙ ap (λ t. read_block buffer 0 n ++ t) rest
            ∙ holds,
        λ i above.
            write_block_above buffer n part i (omega (arith, above))
            ∙ others i (omega (arith, above)),
      ),
    )

-- However `read` on an s2n connection ends, `nbytes` is at most the length of its buffer, whose first
-- `nbytes` cells hold the next bytes that come, each once and in order; the cells behind them are as they
-- were, the other bytes are left to come, and nothing is sent.
pub s2n_read-Reads :
    (main : Bool) (size : ℕ) (buffer : ℕ → ℕ) (c : S2nConnection)
    → let (e, nbytes, buffer', c') = s2n_read main size buffer c in
      (nbytes ≤ size) × Holds buffer c.coming (buffer', c'.coming) nbytes × (c'.sent ≡ c.sent)
unfolding s2n_read read_block
s2n_read-Reads main size buffer c =
    let i = check_negotiate-Negotiates main c in
    and_then_cases {A = S2nEnd × ℕ × (ℕ → ℕ) × S2nConnection}
      (λ o. (o.1 ≤ size) × Holds buffer c.coming (o.2, o.3.coming) o.1 × (o.3.sent ≡ c.sent))
      (λ e c'. (e, 0, buffer, c'))
      (λ c'.
        let (e, (s, n, ans)) =
          s2n_loop s2n_recv recv_transfer main size (buffer, c'.coming) 0 c'.answers in
        (e, n, s.0, record c' { answers = ans; coming = s.1 }))
      (check_negotiate main c) (λ e. (omega arith, (i.coming_stays, λ j h. refl), i.sent_stays))
      (λ r.
        let c' = (check_negotiate main c).1 in
        let (bounded, holds) =
          s2n_loop_inv s2n_recv recv_transfer main size (Holds buffer c.coming)
            (recv_transfer-keeps buffer c.coming size) (buffer, c'.coming) 0 c'.answers
            (omega arith) (i.coming_stays, λ j h. refl) in
        (bounded, holds, i.sent_stays))

-- `write` on a negotiated s2n connection returns as if all were sent when a call takes fewer bytes than
-- the buffer has and reports that it is not blocked; the bytes behind those are not sent.
s2n_write_short :
    (main : Bool) (r : ℕ) (bs : Bytes) (c : S2nConnection) (left : List S2nAnswer)
    → c.is_negotiated ≡ true
    → c.answers ≡ gives r not_blocked ∷ left
    → r < length bs
    → s2n_write main bs c ≡ (returned, r, record c { answers = left; sent = c.sent ++ take r bs })
unfolding s2n_write s2n_loop wait_on_event
s2n_write_short main r bs c left n a h =
    let run : List S2nAnswer → S2nConnection → S2nEnd × ℕ × S2nConnection = λ ans c'.
      let (e, (sent, n, ans)) =
        s2n_loop s2n_send (send_transfer bs) main (length bs) c'.sent 0 ans in
      (e, n, record c' { answers = ans; sent = sent }) in
    let whole : min r (length bs - 0) ≡ r = omega arith in
    let sent : 0 + length (take r bs) ≡ r = omega (arith, length-take r bs) in
    ap (and_then (λ e c'. (e, 0, c')) (λ c'. run c'.answers c'))
      ((check_negotiate-Negotiates main c).negotiates_once n)
    ∙ ap (λ t. run t c) a
    ∙ ap
        (λ k. (
          returned,
          0 + length (take k bs),
          record c { answers = left; sent = c.sent ++ take k bs },
        ))
        whole
    ∙ ap (λ k. (returned, k, record c { answers = left; sent = c.sent ++ take r bs })) sent
