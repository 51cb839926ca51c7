-- ===== src/Examples.antt =====
-- Runs of the definitions, and the theorems at concrete inputs.
pub mod Interpreter
pub mod Paths
pub mod Groups
pub mod Streams
pub mod Entries
pub mod Files
pub mod Sharing
pub mod Stacks
pub mod Walks
pub mod Bindings
pub mod Payloads
