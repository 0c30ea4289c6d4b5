-- ===== src/Handler.antt =====
-- handler.go: the request handlers. A handler checks a request first, which gives a response or the
-- operation that it asks for, and then runs the operation and writes its result.
pub mod Info
pub mod Numbers
pub mod Read
pub mod Write
pub mod Remote
pub mod RandomRead
pub mod RandomWrite
pub mod Trace
mod Tests
