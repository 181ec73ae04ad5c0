-- ===== src/Tests/Files.antt =====
-- Reads and writes of small files and buffers.
use coroplusplus.Common.{◌≡◌, refl, true, false, none, List, [], ◌∷◌, arith}
use coroplusplus.File.{
  Bytes, ok, out_of_fuel, Answer, arrives, refuses, WriteAnswer, takes, refuses_write, ewouldblock,
  read_exact_chunks, write_bytes,
}
use coroplusplus.File.Stream.{IsSteady}
use coroplusplus.File.Exact.{GivesChunks, read_exact_chunks-GivesChunks, read_exact_chunks-spins}
use coroplusplus.File.Write.{Sends, write_bytes-Sends}
use coroplusplus.Buffer.{Stream, scan, get, read_exact_string, read_exact_consumer, read_to_eof}
use coroplusplus.Buffer.Get.{coming, GetsUpTo, get-GetsUpTo}
use coroplusplus.Buffer.Lines.{get_misses}
use coroplusplus.Buffer.Consumer.{Gives, read_to_eof-Gives, read_exact_consumer-Gives}
use coroplusplus.Buffer.Exact.{read_exact_string_lem}

-- "hi", CR, LF and "A": one byte is buffered, and the CR and the LF arrive apart.
abbrev wire : List Answer
wire = arrives (105 ∷ 13 ∷ []) ∷ refuses ewouldblock none ∷ arrives (10 ∷ 65 ∷ []) ∷ []

abbrev wire_text : Bytes
wire_text = 105 ∷ 13 ∷ 10 ∷ 65 ∷ []

abbrev connection : Stream
connection = record { buffer = 104 ∷ []; answers = wire }

wire-IsSteady : IsSteady wire
wire-IsSteady = (λ e. cc, (refl, refl, (λ e. cc, tt)))

get-GetsUpTo_example :
    GetsUpTo
      (coming connection)
      (scan (13 ∷ 10 ∷ []) 0 (coming connection))
      (get false 6 (13 ∷ 10 ∷ []) connection)
get-GetsUpTo_example = get-GetsUpTo 6 (13 ∷ 10 ∷ []) connection (omega arith) wire-IsSteady

-- CR, CR and LF.
get_misses_example :
    (get false 4 (13 ∷ 10 ∷ []) (record { buffer = 13 ∷ 13 ∷ 10 ∷ []; answers = [] })).0
    ≡ ok (true, 13 ∷ 13 ∷ 10 ∷ [])
get_misses_example =
    get_misses 4 13 10 [] [] (record { buffer = 13 ∷ 13 ∷ 10 ∷ []; answers = [] })
      (λ e. omega arith) refl tt tt (omega arith) tt

read_exact_string_lem_example :
    (left : Stream) × (read_exact_string false 3 3 [] connection ≡ (ok (104 ∷ 105 ∷ 13 ∷ []), left))
    × (coming left ≡ 10 ∷ 65 ∷ [])
read_exact_string_lem_example = read_exact_string_lem 3 3 [] connection (omega arith) wire-IsSteady

read_exact_chunks-GivesChunks_example :
    GivesChunks 3 2 [] wire (read_exact_chunks false 3 2 3 [] wire)
read_exact_chunks-GivesChunks_example =
    read_exact_chunks-GivesChunks 3 3 2 [] wire (omega arith) (omega arith) (omega arith)
      wire-IsSteady

read_exact_chunks-spins_example : (read_exact_chunks false 100 2 5 [] wire).0 ≡ out_of_fuel
read_exact_chunks-spins_example =
    read_exact_chunks-spins 100 5 2 [] wire (omega arith) (omega arith) wire-IsSteady

abbrev write_answers : List WriteAnswer
write_answers = takes 1 ∷ refuses_write ewouldblock none ∷ takes 8 ∷ []

write_bytes-Sends_example :
    Sends (1 ∷ 2 ∷ 3 ∷ []) [] (write_bytes false (1 ∷ 2 ∷ 3 ∷ []) write_answers [])
write_bytes-Sends_example = write_bytes-Sends false (1 ∷ 2 ∷ 3 ∷ []) write_answers []

read_to_eof-Gives_example : Gives [] (coming connection) [] (read_to_eof false 6 2 [] connection)
read_to_eof-Gives_example =
    read_to_eof-Gives 6 2 [] connection (omega arith) (omega arith) wire-IsSteady

read_exact_consumer-Gives_example :
    Gives [] (104 ∷ 105 ∷ 13 ∷ []) (10 ∷ 65 ∷ []) (read_exact_consumer false 3 3 [] connection)
read_exact_consumer-Gives_example =
    read_exact_consumer-Gives 3 3 [] connection (omega arith) (omega arith) wire-IsSteady
