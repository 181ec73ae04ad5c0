-- ===== src/Tls.antt =====
-- coro_openssl.h and coro_s2n.h: sockets that encrypt. The libraries behind them enter by what their
-- calls answer.
pub mod Openssl
pub mod S2n
