-- ===== src/Wire.antt =====
-- libs/chunker.c and libs/serializador.c, and the messages that the processes exchange.
pub mod Bytes
pub mod Chunk
pub mod Package
pub mod RoundTrip
pub mod Messages
pub mod Exchange
pub mod Confirmation
pub mod Value
pub mod Deserializer
pub mod KeyStatus
pub mod StatusReply
pub mod ValueReply
pub mod Reply
pub mod Pipe
pub mod Tests
