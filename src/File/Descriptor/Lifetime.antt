-- ===== src/File/Descriptor/Lifetime.antt =====
-- Which descriptors an object closes in its life.
use coroplusplus.Common.{
  ℕ, zero, suc, ◌≡◌, refl, ap, ◌∙◌, Bool, true, Option, none, some, List, [], ◌∷◌, ◌++◌,
}
use coroplusplus.File.Descriptor.{
  FileObject, close, destroy, SocketAnswer, opens, fails, Built, built, thrown, new_socket,
}

-- The descriptors in a list of arguments of ::close; -1 is none.
abbrev pub closed : List (Option ℕ) → List ℕ
closed [] = []
closed (none ∷ ds) = closed ds
closed (some d ∷ ds) = d ∷ closed ds

abbrev pub close_times : ℕ → FileObject → FileObject
close_times zero o = o
close_times (suc n) o = close_times n (close o)

-- The program closes a socket `n` times, and then deletes it; an exception of the constructor leaves
-- nothing to close or delete.
abbrev pub end_of : ℕ → Built → FileObject
end_of n (built o) = destroy (close_times n o)
end_of n (thrown x o) = o

closed-append : (xs : List (Option ℕ)) → closed (xs ++ none ∷ []) ≡ closed xs
closed-append [] = refl
closed-append (none ∷ xs) = closed-append xs
closed-append (some d ∷ xs) = ap (λ ds. d ∷ ds) (closed-append xs)

destroy_stays : (o : FileObject) → o.fd ≡ none → destroy o ≡ o
unfolding destroy
destroy_stays o e = ap (λ (d : Option ℕ). elim d [ none ↦ o | some d ↦ close o ]) e

-- Without a descriptor, nothing more is closed.
closed_stays :
    (n : ℕ) (o : FileObject)
    → o.fd ≡ none
    → closed (destroy (close_times n o)).closes ≡ closed o.closes
unfolding close
closed_stays zero o e = ap (λ (o' : FileObject). closed o'.closes) (destroy_stays o e)
closed_stays (suc n) o e =
    closed_stays n (close o) refl ∙ ap (λ d. closed (o.closes ++ d ∷ [])) e ∙ closed-append o.closes

closed_once :
    (n d : ℕ) (ndelay : Option Bool)
    → closed (destroy (close_times n (record { fd = some d; closes = []; ndelay = ndelay }))).closes
      ≡ d ∷ []
unfolding close destroy
closed_once zero d ndelay = refl
closed_once (suc n) d ndelay =
    closed_stays n (close (record { fd = some d; closes = []; ndelay = ndelay })) refl

-- However often a program closes a socket before it deletes it, the descriptor of the socket is closed
-- exactly once and no other is, also if the constructor throws because ::fcntl fails. If ::socket fails,
-- though, the constructor closes the descriptor 0, which it has not opened. A socket for a descriptor that
-- is given, such as that of a connection, keeps its O_NDELAY as it is.
pub lifetime_lem :
    (n d errno : ℕ) (answer : SocketAnswer) (setfl : Option ℕ)
    → (closed (end_of n (new_socket none (opens d) setfl)).closes ≡ d ∷ [])
      × (closed (end_of n (new_socket (some d) answer setfl)).closes ≡ d ∷ [])
      × (closed (end_of n (new_socket none (fails errno) setfl)).closes ≡ 0 ∷ [])
      × (new_socket (some d) answer setfl
          ≡ built (record { fd = some d; closes = []; ndelay = none }))
unfolding new_socket
lifetime_lem n d errno answer none = (closed_once n d (some true), closed_once n d none, refl, refl)
lifetime_lem n d errno answer (some e) = (refl, closed_once n d none, refl, refl)
