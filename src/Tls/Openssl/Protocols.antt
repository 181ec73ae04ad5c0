-- ===== src/Tls/Openssl/Protocols.antt =====
-- The list of protocols in the form in which the server offers it: each behind its length.
use coroplusplus.Common.{
  ℕ, zero, suc, ◌%◌, ◌^◌, ◌≤◌, ◌<◌, ◌≡◌, refl, ap, sym, ◌∙◌, true, Option, none, some, List, [],
  ◌∷◌, ◌++◌, arith, length, take, drop, length-append, take-length-append, drop-length-append,
  append_assoc, append-nil, All, leb, if◌then◌else◌,
}
use coroplusplus.File.{Bytes}
use coroplusplus.Tls.Openssl.{set_next_protos}

abbrev then_cons : Bytes → Option (List Bytes) → Option (List Bytes)
then_cons p none = none
then_cons p (some ps) = some (p ∷ ps)

-- What a reader of that form makes of it: a byte `n`, then `n` bytes, and so on. The fuel bounds the
-- number of protocols.
pub read_protos : ℕ → Bytes → Option (List Bytes)
read_protos fuel [] = some []
read_protos zero (n ∷ bs) = none
read_protos (suc fuel) (n ∷ bs) =
    let rest = then_cons (take n bs) (read_protos fuel (drop n bs)) in
    if leb n (length bs) then rest else none

abbrev wire : List Bytes → Bytes
wire [] = []
wire (p ∷ ps) = (length p % 2 ^ 8) ∷ (p ++ wire ps)

set_next_protos-wire : (text : Bytes) (ps : List Bytes) → set_next_protos text ps ≡ text ++ wire ps
unfolding set_next_protos
set_next_protos-wire text [] = sym (append-nil text)
set_next_protos-wire text (p ∷ ps) =
    let n = length p % 2 ^ 8 in
    set_next_protos-wire ((text ++ n ∷ []) ++ p) ps
    ∙ append_assoc (text ++ n ∷ []) p (wire ps)
    ∙ append_assoc text (n ∷ []) (p ++ wire ps)

read_protos-wire :
    (fuel : ℕ) (ps : List Bytes)
    → length ps ≤ fuel
    → All (λ p. length p < 2 ^ 8) ps
    → read_protos fuel (wire ps) ≡ some ps
unfolding read_protos
read_protos-wire zero [] h small = refl
read_protos-wire (suc fuel) [] h small = refl
read_protos-wire zero (p ∷ ps) h small = absurd (omega arith)
read_protos-wire (suc fuel) (p ∷ ps) h small =
    let n : length p % 2 ^ 8 ≡ length p = omega arith in
    let more = length-append p (wire ps) in
    let fits : leb (length p) (length (p ++ wire ps)) ≡ true = ground arith in
    ap
      (λ k.
        if leb k (length (p ++ wire ps))
        then then_cons (take k (p ++ wire ps)) (read_protos fuel (drop k (p ++ wire ps)))
        else none)
      n
    ∙ rw fits (
        ap (λ t. then_cons t (read_protos fuel (drop (length p) (p ++ wire ps))))
          (take-length-append p (wire ps))
        ∙ ap (λ t. then_cons p (read_protos fuel t)) (drop-length-append p (wire ps))
        ∙ ap (then_cons p) (read_protos-wire fuel ps (omega arith) small.1))

-- If each protocol is shorter than 256 bytes, the text that `set_next_protos` makes of an empty one can
-- be read back, with as much fuel as there are protocols.
pub read_protos-set_next_protos :
    (ps : List Bytes)
    → All (λ p. length p < 2 ^ 8) ps
    → read_protos (length ps) (set_next_protos [] ps) ≡ some ps
read_protos-set_next_protos ps small =
    ap (read_protos (length ps)) (set_next_protos-wire [] ps)
    ∙ read_protos-wire (length ps) ps (omega arith) small
