-- ===== src/Gps/Invariant.antt =====
-- The invariant of a store: which operations of clients each partition has before it, and what the
-- cell of a client that waits may say.
mod Defs
mod Call
mod Sent
mod Send
mod Take
mod Work
mod Leave
mod Reach
pub use Defs.{Pended, Answer, Waiting, Inv, Later, pending, request_of, in_front, length-requests}
unfoldable pub use Defs.{requests}
pub use Call.{made, sent, line-short, send-ok}
pub use Leave.{poll-sleeps}
pub use Reach.{Step-Later, Reach-Inv}
