-- ===== src/Coro.antt =====
-- coro++.h: coroutines on one shared stack, their scheduler and its timed events.
pub mod State
pub mod Events
pub mod Threads
pub mod Loop
pub mod Stack
pub mod Private
pub mod EventLoop
