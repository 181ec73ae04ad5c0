-- ===== src/Tls/Openssl/Connection/Advertised.antt =====
-- What a context makes the library advertise.
use coroplusplus.Common.{
  arith, ℕ, ◌%◌, ◌<◌, ◌^◌, ◌≡◌, refl, ap, ◌∙◌, true, some, List, [], ◌∷◌, ◌++◌, length, take,
  take-length-append, All,
}
use coroplusplus.File.{Bytes}
use coroplusplus.Tls.Openssl.{set_next_protos}
use coroplusplus.Tls.Openssl.Protocols.{read_protos, read_protos-set_next_protos}
use coroplusplus.Tls.Openssl.Connection.{
  SslCtx, fresh_ctx, set_ctx_protos, next_protos_server_callback,
}

set_next_protos-append :
    (text : Bytes) (ps qs : List Bytes)
    → set_next_protos (set_next_protos text ps) qs ≡ set_next_protos text (ps ++ qs)
unfolding set_next_protos
set_next_protos-append text [] qs = refl
set_next_protos-append text (p ∷ ps) qs =
    set_next_protos-append ((text ++ (length p % 2 ^ 8) ∷ []) ++ p) ps qs

-- The context behind two calls of `set_next_protos`.
abbrev pub ctx_of : ℕ → List Bytes → List Bytes → SslCtx
ctx_of options ps qs = set_ctx_protos qs (set_ctx_protos ps (fresh_ctx true options))

-- The program that sets protocols twice, each shorter than 256 bytes and all together with their lengths
-- shorter than 4 GB, has the library ask the callback,
-- and what that gives can be read back as the protocols of both calls, in order: the first `*outlen` bytes
-- behind `*out` are all of them and nothing more.
pub callback-set_ctx_protos :
    (options : ℕ) (ps qs : List Bytes)
    → All (λ p. length p < 2 ^ 8) (ps ++ qs)
    → length (ctx_of options ps qs).next_protos < 2 ^ 32
    → let (out, outlen) = next_protos_server_callback (ctx_of options ps qs) in
      (read_protos (length (ps ++ qs)) (take outlen out) ≡ some (ps ++ qs))
      × ((ctx_of options ps qs).advertises ≡ true)
unfolding set_ctx_protos next_protos_server_callback
callback-set_ctx_protos options ps qs small short =
    let text = set_next_protos (set_next_protos [] ps) qs in
    let whole : length text % 2 ^ 32 ≡ length text = omega (arith, short) in
    (
      ap (read_protos (length (ps ++ qs))) (
            ap (λ n. take n (text ++ 0 ∷ [])) whole
            ∙ take-length-append text (0 ∷ [])
            ∙ set_next_protos-append [] ps qs)
          ∙ read_protos-set_next_protos (ps ++ qs) small,
      refl,
    )
