-- ===== src/Queue.antt =====
-- queue.go: the work queue (Work), the bit loops of the operations (Bits), the grouping of bit writes
-- (Groups), the PLC queue with its operations (Exec, Ops), and the client behind the queue (Shared).
pub mod Work
pub mod Bits
pub mod Groups
pub mod Labels
pub mod Exec
pub mod Ops
pub mod Shared
mod Tests
