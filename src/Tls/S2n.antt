-- ===== src/Tls/S2n.antt =====
-- coro_s2n.h: the loops of `coro_s2n`.
-- The library is the list of what its calls on the connection answer; what comes from the peer is the
-- text that it will have decrypted.
pub mod Connection
pub mod Transfer
use coroplusplus.Common.{
  ℕ, zero, suc, ◌+◌, ◌-◌, Bool, true, false, Option, none, some, List, [], ◌∷◌, ◌++◌, ◌==◌,
  if◌then◌else◌, length, take, drop, min, write_block,
}
use coroplusplus.File.{Bytes, Call, wait_for_read, wait_for_write, ewouldblock}

-- `s2n_blocked_status`, with the error that ends the wait that follows, if one does.
pub data Blocked : Type 0 where
  blocked_on_read blocked_on_write : Option ℕ → Blocked
  not_blocked : Blocked

-- The result of a call, which is negative with an errno, or tells how many bytes at most it has taken.
pub data S2nAnswer : Type 0 where
  gives : ℕ → Blocked → S2nAnswer
  fails : ℕ → Blocked → S2nAnswer

-- The function that an `S2N_Error` names.
pub data S2nCall : Type 0 where
  s2n_negotiate s2n_recv s2n_send s2n_shutdown : S2nCall

-- How a method ends; `stuck` is a wait without an end.
pub data S2nEnd : Type 0 where
  returned : S2nEnd
  s2n_error : S2nCall → S2nEnd
  os_error : Call → ℕ → S2nEnd
  yield_from_main : S2nEnd
  stuck : S2nEnd

-- What a loop works on, the number of bytes in all, and the answers that are left.
abbrev pub Progress : Type 0 → Type 0
Progress S = S × ℕ × List S2nAnswer

abbrev pub s2n_wait :
    {S : Type 0} → Bool → Call → Option ℕ → S2nEnd × Progress S → Progress S → S2nEnd × Progress S
s2n_wait true call w rest p = (yield_from_main, p)
s2n_wait false call none rest p = rest
s2n_wait false call (some e) rest p = (os_error call e, p)

-- `_wait_on_event`, and then the rest of the loop, or the end of it.
unfoldable pub wait_on_event :
    {S : Type 0} → Bool → Blocked → S2nEnd × Progress S → Progress S → S2nEnd × Progress S
wait_on_event main (blocked_on_read w) rest p = s2n_wait main wait_for_read w rest p
wait_on_event main (blocked_on_write w) rest p = s2n_wait main wait_for_write w rest p
wait_on_event main not_blocked rest p = (returned, p)

-- What a call of the library does, by the offset of the pointer and the length that it is given and by its
-- answer: the bytes that it counts, and the state behind it.
abbrev pub S2nTransfer : Type 0 → Type 0
S2nTransfer S = ℕ → ℕ → ℕ → S → ℕ × S

-- A `while` loop over a buffer of `size` bytes; `n` is `nbytes`. `_check` takes a failed call for 0 bytes
-- if it would block.
unfoldable pub s2n_loop :
    {S : Type 0} → S2nCall → S2nTransfer S → Bool → ℕ → S → ℕ → List S2nAnswer → S2nEnd × Progress S
unfolding wait_on_event
s2n_loop call transfer main size s n [] = (stuck, (s, n, []))
s2n_loop call transfer main size s n (gives r b ∷ ans) =
    let (k, s') = transfer n (size - n) r s in
    wait_on_event main b (s2n_loop call transfer main size s' (n + k) ans) (s', n + k, ans)
s2n_loop call transfer main size s n (fails e b ∷ ans) =
    let rest = wait_on_event main b (s2n_loop call transfer main size s n ans) (s, n, ans) in
    if e == ewouldblock then rest else (s2n_error call, (s, n, ans))

-- s2n_negotiate and s2n_shutdown, which have no buffer
abbrev pub no_transfer : S2nTransfer (Unit {0})
no_transfer offset room r s = (0, s)

-- s2n_send, from the bytes at the offset on: `r` of them, if there are so many in the length that it is
-- given; the state is what was sent.
abbrev pub send_transfer : Bytes → S2nTransfer Bytes
send_transfer bs offset room r sent =
    let part = take (min r room) (drop offset bs) in (length part, sent ++ part)

-- s2n_recv, which writes to the buffer at the offset what comes next: `r` bytes, if so many come and fit in
-- the length that it is given.
abbrev pub recv_transfer : S2nTransfer ((ℕ → ℕ) × Bytes)
recv_transfer offset room r (buffer, coming) =
    let part = take (min r room) coming in
    (length part, (write_block buffer offset part, drop (length part) coming))

pub record S2nConnection : Type 0 where
  pub is_negotiated : Bool
  pub answers : List S2nAnswer
  pub coming : Bytes
  pub sent : Bytes

-- The end of the loop of `_check_negotiate`
abbrev pub after_negotiation : S2nConnection → S2nEnd × Progress (Unit {0}) → S2nEnd × S2nConnection
after_negotiation c (returned, p) = (returned, record c { is_negotiated = true; answers = p.2 })
after_negotiation c (s2n_error call, p) = (s2n_error call, record c { answers = p.2 })
after_negotiation c (os_error call e, p) = (os_error call e, record c { answers = p.2 })
after_negotiation c (yield_from_main, p) = (yield_from_main, record c { answers = p.2 })
after_negotiation c (stuck, p) = (stuck, record c { answers = p.2 })

-- `_check_negotiate`
unfoldable pub check_negotiate : Bool → S2nConnection → S2nEnd × S2nConnection
unfolding s2n_loop
check_negotiate main c =
    if c.is_negotiated
    then (returned, c)
    else after_negotiation c (s2n_loop s2n_negotiate no_transfer main 0 tt 0 c.answers)

-- What follows a negotiation that returned.
abbrev pub and_then :
    {A : Type 0} → (S2nEnd → S2nConnection → A) → (S2nConnection → A) → S2nEnd × S2nConnection → A
and_then stop go (returned, c) = go c
and_then stop go (s2n_error call, c) = stop (s2n_error call) c
and_then stop go (os_error call e, c) = stop (os_error call e) c
and_then stop go (yield_from_main, c) = stop yield_from_main c
and_then stop go (stuck, c) = stop stuck c

-- `read` into a buffer, given by its cells: its end, `nbytes`, the cells and the connection.
unfoldable pub s2n_read : Bool → ℕ → (ℕ → ℕ) → S2nConnection → S2nEnd × ℕ × (ℕ → ℕ) × S2nConnection
unfolding check_negotiate
s2n_read main size buffer c =
    and_then (λ e c'. (e, 0, buffer, c'))
      (λ c'.
        let (e, (s, n, ans)) =
          s2n_loop s2n_recv recv_transfer main size (buffer, c'.coming) 0 c'.answers in
        (e, n, s.0, record c' { answers = ans; coming = s.1 }))
      (check_negotiate main c)

-- `write`: its end, `nbytes` and the connection.
unfoldable pub s2n_write : Bool → Bytes → S2nConnection → S2nEnd × ℕ × S2nConnection
unfolding check_negotiate
s2n_write main bs c =
    and_then (λ e c'. (e, 0, c'))
      (λ c'.
        let (e, (sent, n, ans)) =
          s2n_loop s2n_send (send_transfer bs) main (length bs) c'.sent 0 c'.answers in
        (e, n, record c' { answers = ans; sent = sent }))
      (check_negotiate main c)

-- `shutdown`
unfoldable pub s2n_close : Bool → S2nConnection → S2nEnd × S2nConnection
unfolding s2n_loop
s2n_close main c =
    let (e, (s, n, ans)) = s2n_loop s2n_shutdown no_transfer main 0 tt 0 c.answers in
    (e, record c { answers = ans })
