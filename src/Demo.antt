-- ===== src/Demo.antt =====
-- demo/echo_server.cc and demo/smtp_server.cc: what the loops of their sessions share.
pub mod Main
pub mod Server
use coroplusplus.Common.{[], ◌∷◌}
use coroplusplus.File.{Bytes, Result, ok, os_error, yield_from_main, stuck, out_of_fuel}

-- "\r\n"
abbrev pub crlf : Bytes
crlf = 13 ∷ 10 ∷ []

-- How a round of a session's loop ends: it goes on, it breaks, an exception is caught, or it does not
-- come back.
pub data RoundEnd : Type 0 where
  goes_on breaks caught never : RoundEnd

abbrev pub round_of {ℓ} : {A : Type ℓ} → Result A → RoundEnd → RoundEnd
round_of (ok a) e = e
round_of (os_error c n) e = caught
round_of yield_from_main e = caught
round_of stuck e = never
round_of out_of_fuel e = never
