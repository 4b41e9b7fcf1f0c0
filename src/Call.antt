-- ===== src/Call.antt =====
-- crates/agents/src/parse_tool_call.rs: the call of a tool in a model's reply.
pub mod Chars
pub mod Line
pub mod Rendered
pub mod RoundTrip
pub mod Verbatim
pub mod AsWritten
pub mod Xml
pub mod Fence
pub mod Extract
pub mod Known
pub mod Repaired
