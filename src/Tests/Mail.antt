-- ===== src/Tests/Mail.antt =====
-- Command lines of a mail session.
use coroplusplus.Common.{◌≡◌, refl, [], ◌∷◌, arith}
use coroplusplus.Smtp.{minus, find_email_addr}
use coroplusplus.Smtp.Address.{find_email_addr_lem}

-- "to<a@>" and CR.
find_email_addr_lem_example :
    find_email_addr [] (116 ∷ 111 ∷ 60 ∷ 97 ∷ 64 ∷ 62 ∷ 13 ∷ [])
    ≡ (97 ∷ 64 ∷ 62 ∷ 13 ∷ [], minus 3 2)
find_email_addr_lem_example =
    find_email_addr_lem [] (111 ∷ []) (97 ∷ 64 ∷ []) (13 ∷ []) 116 (refl, (refl, tt)) (refl, tt)
      (omega arith)
