-- ===== src/Bindings.antt =====
-- The bindings to other languages, as far as they have a logic of their own.
pub mod Python
